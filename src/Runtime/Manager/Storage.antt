-- ===== src/Runtime/Manager/Storage.antt =====
-- The directory of models (runtime/src/model_manager/storage.rs). The environment and the files are
-- a parameter; an error of `std::io` is the text that it prints.
use cotrex_ai.Base.{
  ℕ, ◌-◌, String, Bool, ◌&&◌, Option, none, some, List, [], ◌∷◌, Result, ok, err, ok_or, map_err,
  Method, ◌>>=◌, ◌>>◌, pure, lift, ltb, if◌then◌else◌,
}
use cotrex_ai.Base.Sort.{sort}
use cotrex_ai.Base.Text.{ends_with}
use Prim.Native.String.{len, slice}
use cotrex_ai.FilePath.{FilePath, normal, root_dir, cur_dir, parent_dir, join}
use cotrex_ai.Runtime.Config.{or_variable}
use cotrex_ai.Runtime.Manager.{ModelManagerError, storage_error, io_error}

pub record Files : Type 1 where
  pub State : Type 0
  -- The variables `HOME` and `USERPROFILE` as paths, and the path that a text stands for.
  pub home : Option FilePath
  pub user_profile : Option FilePath
  pub path_of : String → FilePath
  pub exists : FilePath → State → Bool
  pub create_dir_all : FilePath → Method State (Unit {0}) String
  pub remove_file : FilePath → Method State (Unit {0}) String
  -- The entries of a directory, each of which may fail to be read.
  pub read_dir : FilePath → State → Result (List (Result FilePath String)) String
  pub read_to_string : FilePath → State → Result String String
  -- `File::open`, and all that can be read from the file.
  pub contents : FilePath → State → Result (List ℕ) String
  pub size : FilePath → State → Result ℕ String
  -- `File::create`, `write_all` and `flush` on the file.
  pub create : FilePath → Method State (Unit {0}) String
  pub write_all : FilePath → List ℕ → Method State (Unit {0}) String
  pub flush : FilePath → Method State (Unit {0}) String
  pub rename : FilePath → FilePath → Method State (Unit {0}) String

-- `Path::extension` is "gguf": the name ends so, and has more in front.
abbrev is_gguf : String → Bool
is_gguf name = ends_with name ".gguf" && ltb 5 (len name)

abbrev stem : String → String
stem name = slice name 0 (len name - 5)

-- The stem of a path whose extension is "gguf".
abbrev gguf_stem : FilePath → Option String
gguf_stem [] = none
gguf_stem (normal name ∷ []) = if is_gguf name then some (stem name) else none
gguf_stem (root_dir ∷ []) = none
gguf_stem (cur_dir ∷ []) = none
gguf_stem (parent_dir ∷ []) = none
gguf_stem (c ∷ (d ∷ cs)) = gguf_stem (d ∷ cs)

module _ (F : Files) where
  -- A call of `std::io` under `?`.
  abbrev pub io : {A : Type 0} → Method F.State A String → Method F.State A ModelManagerError
  io m s = (map_err io_error (m s).0, (m s).1)

  abbrev ensure_dir : FilePath → Method F.State FilePath ModelManagerError
  ensure_dir dir s =
      if F.exists dir s then (ok dir, s) else (io (F.create_dir_all dir) >> pure dir) s

  unfoldable pub models_dir : Method F.State FilePath ModelManagerError
  models_dir =
      lift (
        ok_or (or_variable F.home F.user_profile) (storage_error "cannot determine home directory"))
      >>= λ home. ensure_dir (join (join home (normal ".cotrex" ∷ [])) (normal "models" ∷ []))

  unfoldable pub model_file_path : String → Method F.State FilePath ModelManagerError
  model_file_path filename = models_dir >>= λ dir. pure (join dir (F.path_of filename))

  unfoldable pub is_installed : String → Method F.State Bool ModelManagerError
  is_installed filename = model_file_path filename >>= λ path s. (ok (F.exists path s), s)

  -- The loop over the entries, up to the first that cannot be read.
  unfoldable stems : List (Result FilePath String) → Result (List String) ModelManagerError
  stems [] = ok []
  stems (err e ∷ entries) = err (io_error e)
  stems (ok path ∷ entries) = elim (stems entries) [
    | err e ↦ err e
    | ok names ↦ elim (gguf_stem path) [ none ↦ ok names | some name ↦ ok (name ∷ names) ]
  ]

  abbrev listed :
      Result (List (Result FilePath String)) String → Result (List String) ModelManagerError
  listed (err e) = err (io_error e)
  listed (ok entries) = stems entries

  abbrev sorted : Result (List String) ModelManagerError → Result (List String) ModelManagerError
  sorted (err e) = err e
  sorted (ok names) = ok (sort names)

  unfoldable list_installed : Method F.State (List String) ModelManagerError
  list_installed = models_dir >>= λ dir s.
      (if F.exists dir s then sorted (listed (F.read_dir dir s)) else ok [], s)

  unfoldable pub remove : String → Method F.State (Unit {0}) ModelManagerError
  remove filename = model_file_path filename >>= λ path s.
      (if F.exists path s then io (F.remove_file path) s else (ok tt, s))
