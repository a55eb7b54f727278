-- ===== src/Runtime/Manager/Resolver/Lookup.antt =====
-- When the resolver downloads a model.
use cotrex_ai.Base.{String, ◌≡◌, true, false, none, some, ok, err, Method, arith}
use cotrex_ai.FilePath.{FilePath}
use cotrex_ai.Runtime.Manager.{ModelManagerError, not_found, ModelDefinition, find}
use cotrex_ai.Runtime.Manager.Storage.{Files, model_file_path, is_installed}
use cotrex_ai.Runtime.Manager.Resolver.{ModelResolver, resolve, or_download, resolve_or_download}

module _ (F : Files) where
  -- Where the directory of models can be found without a change to the files, a model that is not in
  -- the registry is an error that names it, a model whose file exists is answered with the path of
  -- the file, and only a model whose file is missing is left to the downloader; the files are as
  -- before until then.
  resolve_or_download_lem :
      (resolver : ModelResolver F) (id : String) (s : F.State)
      (downloader : ModelDefinition → Method F.State FilePath ModelManagerError)
      → (find resolver.registry id ≡ none
          → resolve_or_download F resolver id downloader s ≡ (err (not_found id), s))
        × ((model : ModelDefinition) (path : FilePath)
            → find resolver.registry id ≡ some model
            → model_file_path F model.filename s ≡ (ok path, s)
            → (F.exists path s ≡ true
                → resolve_or_download F resolver id downloader s ≡ (ok path, s))
              × (F.exists path s ≡ false
                  → resolve_or_download F resolver id downloader s ≡ downloader model s))
  unfolding resolve_or_download resolve or_download is_installed
  resolve_or_download_lem resolver id s downloader = (
    λ unknown. ground (arith, unknown),
    λ model path known at.
        (λ there. ground (arith, known, at, there), λ absent. ground (arith, known, at, absent)),
  )
