-- ===== src/Runtime/Manager/Resolver.antt =====
-- `ModelResolver` (runtime/src/model_manager/resolver.rs).
pub mod Lookup
use cotrex_ai.Base.{
  String, ◌<>◌, Bool, List, [], ◌∷◌, Result, ok, err, ok_or, Method, ◌>>=◌, pure, raise, lift,
  if◌then◌else◌,
}
use cotrex_ai.FilePath.{FilePath, normal, join}
use cotrex_ai.Runtime.Manager.{
  ModelManagerError, not_found, ModelDefinition, ModelRegistry, find, merge, parse,
}
use cotrex_ai.Runtime.Manager.Storage.{Files, io, models_dir, model_file_path, is_installed}

module _ (F : Files) where
  pub record ModelResolver : Type 0 where
    pub registry : ModelRegistry

  unfoldable pub resolve : ModelResolver → String → Method F.State FilePath ModelManagerError
  resolve resolver id = lift (ok_or (find resolver.registry id) (not_found id)) >>= λ model.
      is_installed F model.filename >>= λ installed.
      if installed
      then model_file_path F model.filename
      else raise (not_found ("model not installed: " <> id <> ". Run: cotrex model install " <> id))

  -- What follows `resolve`, by what it answered.
  unfoldable pub or_download :
      ModelResolver
      → String
      → (ModelDefinition → Method F.State FilePath ModelManagerError)
      → Result FilePath ModelManagerError
      → Method F.State FilePath ModelManagerError
  or_download resolver id downloader (ok path) = pure path
  or_download resolver id downloader (err (not_found message)) =
      lift (ok_or (find resolver.registry id) (not_found id)) >>= downloader
  or_download resolver id downloader (err e) = raise e

  unfoldable pub resolve_or_download :
      ModelResolver
      → String
      → (ModelDefinition → Method F.State FilePath ModelManagerError)
      → Method F.State FilePath ModelManagerError
  resolve_or_download resolver id downloader s =
      let (r, s1) = resolve resolver id s in or_download resolver id downloader r s1

  unfoldable pub list_models :
      List ModelDefinition → Method F.State (List (ModelDefinition × Bool)) ModelManagerError
  list_models [] = pure []
  list_models (m ∷ ms) = is_installed F m.filename >>= λ installed.
      list_models ms >>= λ rest. pure ((m, installed) ∷ rest)

  unfoldable pub list :
      ModelResolver → Method F.State (List (ModelDefinition × Bool)) ModelManagerError
  list resolver = list_models resolver.registry.models

  -- `toml::from_str` and the registry that is built in are parameters.
  unfoldable load_registry :
      (String → Result ModelRegistry String)
      → ModelRegistry
      → Method F.State ModelRegistry ModelManagerError
  load_registry from_str built_in = models_dir F >>= λ dir s.
      (let user_path = join dir (normal "registry.toml" ∷ []) in
        if F.exists user_path s
        then (io F (λ t. (F.read_to_string user_path t, t)) >>= λ content.
              lift (parse from_str content) >>= λ user. pure (merge built_in user))
            s
        else (ok built_in, s))
