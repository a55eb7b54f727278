-- ===== src/Tests/Manager.antt =====
-- The configuration and the model manager on concrete inputs.
use cotrex_ai.Base.{
  ◌⊎◌, ℕ, zero, suc, ◌≡◌, ◌≢◌, ◌+◌, ==_refl, length-append, String, ◌++◌, Bool, true, false, Option,
  none, some, List, [], ◌∷◌, length, Result, ok, err, arith, refl, list_eq,
}
use cotrex_ai.FilePath.{FilePath, normal, component_eq, join, is_absolute}
use cotrex_ai.Base.Map.{Map, get, insert, remove, get-insert}
use cotrex_ai.Runtime.Config.{
  GlobalConfig, ProjectConfig, ResolvedConfig, Surroundings, global_default, project_default,
  global_path, project_path, load, load_global, load_project, ConfigError,
}
use cotrex_ai.Runtime.Config.Loading.{Comes, Chosen, FromEngine, FromModel, load_lem}
use cotrex_ai.Runtime.Manager.{ModelDefinition}
use cotrex_ai.Runtime.Manager.Storage.{Files, model_file_path, models_dir}
use cotrex_ai.Runtime.Manager.Download.{
  Network, Digest, download_model, fresh_download, download_url, fetch, copy, install,
  verify_gguf_magic, check_magic, verify_digest, verify_sha256, compare_digest, hash_loop,
  verify_file_size,
}
use cotrex_ai.Runtime.Manager.Download.Hashed.{Streaming}
use cotrex_ai.Runtime.Manager.Download.Copied.{Ends, at_end, more}
use cotrex_ai.Runtime.Manager.Download.Ending.{download_finishes}
use cotrex_ai.Runtime.Manager.Download.Verified.{FileLaws, Checked, download_verified}

-- A machine with both files: 8 threads, and a model with its name and its number of tokens.
abbrev machine : Surroundings
machine = record {
  home = some (normal "home" ∷ []);
  user_profile = none;
  exists = λ path. true;
  read_to_string = λ path. ok "settings";
  parse_global = λ t. ok (record {
    provider = some "local";
    engine = some (record { threads = some 8; gpu_layers = none });
  });
  parse_project = λ t. ok (record {
    model = some (record {
      name = some "tiny";
      path = none;
      context = none;
      temperature = none;
      max_tokens = some 64;
    });
  });
}

load_lem_example :
    ((e : ConfigError) × (load machine none none ≡ err e)
      × ((load_global machine none ≡ err e)
          ⊎ ((g : GlobalConfig) × (load_global machine none ≡ ok g)
              × (load_project machine none ≡ err e))))
    ⊎ ((r : ResolvedConfig) × (g : GlobalConfig) × (p : ProjectConfig) × (load machine none none
          ≡ ok r)
        × Comes machine machine.parse_global global_default (global_path machine none) g
        × Comes machine machine.parse_project project_default (project_path machine none) p
        × Chosen g.provider "mock" r.backend
        × FromEngine g.engine r
        × FromModel p.model r)
load_lem_example = load_lem machine none none

abbrev tiny : ModelDefinition
tiny = record {
  id = "tiny";
  filename = "tiny.gguf";
  url = "https://example.com/tiny.gguf";
  sha256 = some "5";
  size = 5;
  context = none;
}

-- Files as a map from paths to bytes.
abbrev Disk : Type 0
Disk = Map FilePath (List ℕ)

abbrev found : Option (List ℕ) → Result (List ℕ) String
found none = err "no such file"
found (some bytes) = ok bytes

abbrev measured : Option (List ℕ) → Result ℕ String
measured none = err "no such file"
measured (some bytes) = ok (length bytes)

abbrev present : Option (List ℕ) → Bool
present none = false
present (some bytes) = true

abbrev moved : FilePath → FilePath → Disk → Option (List ℕ) → Result (Unit {0}) String × Disk
moved part final d none = (err "no such file", d)
moved part final d (some bytes) = (ok tt, insert final bytes (remove part d))

abbrev extended : Option (List ℕ) → List ℕ → List ℕ
extended none bytes = bytes
extended (some old) bytes = old ++ bytes

abbrev disk : Files
disk = record {
  State = Disk;
  home = some (normal "home" ∷ []);
  user_profile = none;
  path_of = λ name. normal name ∷ [];
  exists = λ path d. present (get path d);
  create_dir_all = λ path d. (ok tt, d);
  remove_file = λ path d. (ok tt, remove path d);
  read_dir = λ path d. ok [];
  read_to_string = λ path d. err "no text";
  contents = λ path d. found (get path d);
  size = λ path d. measured (get path d);
  create = λ path d. (ok tt, insert path [] d);
  write_all = λ path bytes d. (ok tt, insert path (extended (get path d) bytes) d);
  flush = λ path d. (ok tt, d);
  rename = λ part final d. moved part final d (get part d);
}

disk_measures :
    (o : Option (List ℕ)) (n : ℕ) (bytes : List ℕ)
    → measured o ≡ ok n
    → found o ≡ ok bytes
    → n ≡ length bytes
disk_measures none n bytes m f = ground arith
disk_measures (some b) n bytes m f = ground arith

disk_moves :
    (part final : FilePath) (d : Disk) (o : Option (List ℕ)) (bytes : List ℕ)
    → (moved part final d o).0 ≡ ok tt
    → found o ≡ ok bytes
    → found (get final (moved part final d o).1) ≡ ok bytes
disk_moves part final d none bytes m f = ground arith
disk_moves part final d (some b) bytes m f =
    rw (get-insert final final b (remove part d), ==_refl final) f

disk_laws : FileLaws disk
disk_laws = record {
  size_measures = λ path d n bytes. disk_measures (get path d) n bytes;
  rename_moves = λ part final d bytes. disk_moves part final d (get part d) bytes;
}

-- A digest that counts bytes, which "5" stands for.
abbrev digits : ℕ → String
digits (suc (suc (suc (suc (suc zero))))) = "5"
digits n = "other"

abbrev counter : Digest
counter = record { Hasher = ℕ; start = 0; update = λ bytes n. length bytes + n; hex = digits }

counter_streams : Streaming counter
counter_streams = record {
  update-nil = λ n. omega arith;
  update-append = λ xs ys n. omega (arith, length-append xs ys);
}

abbrev body : List (List ℕ)
body = (71 ∷ 71 ∷ 85 ∷ 70 ∷ 1 ∷ []) ∷ []

abbrev next : List (List ℕ) → Result (List ℕ) String × List (List ℕ)
next [] = (ok [], [])
next (c ∷ cs) = (ok c, cs)

abbrev server : Network
server = record { Reader = List (List ℕ); get = λ url. ok (200, body); read = next }

body-Ends : Ends server body body (ok tt)
body-Ends = more refl (at_end refl)

download_finishes_example :
    ((download_model disk server counter 2 tiny []).0 ≢ ok none)
    × (download_model disk server counter 2 tiny [] ≡ download_model disk server counter 9 tiny [])
download_finishes_example =
    download_finishes disk server counter tiny [] 200 body body (ok tt) refl body-Ends 2 9
      (omega arith) (omega arith)

abbrev home_models : FilePath
home_models = normal "home" ∷ normal ".cotrex" ∷ normal "models" ∷ normal "tiny.gguf" ∷ []

abbrev filled : Disk
filled = (home_models, 71 ∷ 71 ∷ 85 ∷ 70 ∷ 1 ∷ []) ∷ []

named_tiny : model_file_path disk "tiny.gguf" [] ≡ (ok home_models, [])
unfolding model_file_path models_dir join is_absolute get
named_tiny = refl

downloaded_tiny : download_model disk server counter 2 tiny [] ≡ (ok (some home_models), filled)
unfolding download_model model_file_path models_dir join is_absolute get fresh_download download_url
    fetch copy install verify_gguf_magic insert check_magic verify_digest verify_sha256
    compare_digest hash_loop verify_file_size remove
downloaded_tiny = refl

download_verified_example :
    (home_models ≡ home_models)
    × ((bytes : List ℕ) × Checked disk counter tiny home_models filled bytes
        × ((disk.exists home_models [] ≡ true) ⊎ (length bytes ≡ 5)))
download_verified_example =
    download_verified disk counter server counter_streams disk_laws 2 tiny home_models home_models
      [] [] filled named_tiny downloaded_tiny
