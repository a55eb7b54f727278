-- ===== src/Runtime/Manager.antt =====
-- The model manager (runtime/src/model_manager/): its errors, the registry of models
-- (registry.rs), and the world of files, network and digests that the parts below share.
pub mod Merge
pub mod Storage
pub mod Resolver
pub mod Download
use cotrex_ai.Base.{
  ℕ, String, ◌<>◌, Bool, not, Option, none, some, List, [], ◌∷◌, ◌++◌, filter, Result, ok, err,
  map_err, Method, if◌then◌else◌, ◌==◌, string_eq,
}
use cotrex_ai.FilePath.{FilePath}

pub data ModelManagerError : Type 0 where
  not_found already_installed download_failed : String → ModelManagerError
  checksum_mismatch : String → String → ModelManagerError
  registry_error storage_error io_error : String → ModelManagerError

pub record ModelDefinition : Type 0 where
  pub id : String
  pub filename : String
  pub url : String
  pub sha256 : Option String
  pub size : ℕ
  pub context : Option ℕ

pub record ModelRegistry : Type 0 where
  pub models : List ModelDefinition

-- `toml::from_str` is a parameter; its error is the text that it prints.
unfoldable pub parse :
    (String → Result ModelRegistry String) → String → Result ModelRegistry ModelManagerError
parse from_str content =
    map_err (λ e. registry_error ("failed to parse registry: " <> e)) (from_str content)

unfoldable pub find_model : String → List ModelDefinition → Option ModelDefinition
find_model id [] = none
find_model id (m ∷ ms) = let rest = find_model id ms in if m.id == id then some m else rest

unfoldable pub find : ModelRegistry → String → Option ModelDefinition
find registry id = find_model id registry.models

-- One round of the loop of `merge`: `retain` and `push`.
unfoldable pub put : ModelDefinition → List ModelDefinition → List ModelDefinition
put model models = filter (λ m. not (m.id == model.id)) models ++ model ∷ []

unfoldable pub put_all : List ModelDefinition → List ModelDefinition → List ModelDefinition
put_all [] models = models
put_all (m ∷ ms) models = put_all ms (put m models)

unfoldable pub merge : ModelRegistry → ModelRegistry → ModelRegistry
merge registry other = record { models = put_all other.models registry.models }
