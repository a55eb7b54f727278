-- ===== src/Runtime/Config.antt =====
-- The configuration (runtime/src/config.rs): global and project settings, each optional, merged
-- with defaults. The files, the environment and the format of TOML are a parameter; an error is the
-- text that it prints. An `f32` is kept as its 32-bit pattern.
pub mod Loading
use cotrex_ai.Base.{
  ℕ, String, Bool, Option, none, some, [], ◌∷◌, Result, ok, err, and_then, map_err, if◌then◌else◌,
}
use cotrex_ai.FilePath.{FilePath, normal, join}

pub data ConfigError : Type 0 where
  io_error parse_error invalid_config : String → ConfigError

pub record EngineConfig : Type 0 where
  pub threads : Option ℕ
  pub gpu_layers : Option ℕ

pub record GlobalConfig : Type 0 where
  pub provider : Option String
  pub engine : Option EngineConfig

pub record ModelConfig : Type 0 where
  pub name : Option String
  pub path : Option FilePath
  pub context : Option ℕ
  pub temperature : Option ℕ
  pub max_tokens : Option ℕ

pub record ProjectConfig : Type 0 where
  pub model : Option ModelConfig

pub record ResolvedConfig : Type 0 where
  pub backend : String
  pub model_name : String
  pub model_path : FilePath
  pub context : ℕ
  pub temperature : ℕ
  pub max_tokens : ℕ
  pub threads : ℕ
  pub gpu_layers : ℕ

-- `Option::unwrap_or`
abbrev pub unwrap_or {ℓ} : {A : Type ℓ} → Option A → A → A
unwrap_or none d = d
unwrap_or (some a) d = a

-- The bits of the `f32` nearest to 0.1.
abbrev pub one_tenth : ℕ
one_tenth = 1036831949

unfoldable pub resolved_default : ResolvedConfig
resolved_default = record {
  backend = "mock";
  model_name = "mock-model";
  model_path = normal "models" ∷ normal "mock.gguf" ∷ [];
  context = 4096;
  temperature = one_tenth;
  max_tokens = 512;
  threads = 4;
  gpu_layers = 0;
}

abbrev engine_default : EngineConfig
engine_default = record { threads = none; gpu_layers = none }

abbrev pub global_default : GlobalConfig
global_default = record { provider = none; engine = none }

abbrev model_default : ModelConfig
model_default = record {
  name = none;
  path = none;
  context = none;
  temperature = none;
  max_tokens = none;
}

abbrev pub project_default : ProjectConfig
project_default = record { model = none }

unfoldable pub merge : GlobalConfig → ProjectConfig → ResolvedConfig
merge global project =
    let engine = unwrap_or global.engine engine_default in
    let model = unwrap_or project.model model_default in
    record {
      backend = unwrap_or global.provider "mock";
      model_name = unwrap_or model.name "unknown";
      model_path = unwrap_or model.path (normal "models" ∷ normal "unknown.gguf" ∷ []);
      context = unwrap_or model.context 4096;
      temperature = unwrap_or model.temperature one_tenth;
      max_tokens = unwrap_or model.max_tokens 512;
      threads = unwrap_or engine.threads 4;
      gpu_layers = unwrap_or engine.gpu_layers 0;
    }

-- The variables `HOME` and `USERPROFILE` as paths, the files, and `toml::from_str`.
pub record Surroundings : Type 0 where
  pub home : Option FilePath
  pub user_profile : Option FilePath
  pub exists : FilePath → Bool
  pub read_to_string : FilePath → Result String String
  pub parse_global : String → Result GlobalConfig String
  pub parse_project : String → Result ProjectConfig String

-- `Result::or_else` on two variables.
abbrev pub or_variable {ℓ} : {A : Type ℓ} → Option A → Option A → Option A
or_variable none b = b
or_variable (some a) b = some a

module _ (S : Surroundings) where
  unfoldable pub global_path : Option FilePath → FilePath
  global_path (some p) = p
  global_path none =
      join
        (join (join (unwrap_or (or_variable S.home S.user_profile) []) (normal ".config" ∷ []))
          (normal "cotrex" ∷ []))
        (normal "config.toml" ∷ [])

  unfoldable pub project_path : Option FilePath → FilePath
  project_path (some p) = p
  project_path none = normal "cotrex.toml" ∷ []

  -- The end of both loaders: a missing file is the default.
  unfoldable pub load_file :
      {A : Type 0} → (String → Result A String) → A → FilePath → Result A ConfigError
  load_file parse default path =
      if S.exists path
      then and_then (map_err io_error (S.read_to_string path)) (λ t. map_err parse_error (parse t))
      else ok default

  unfoldable pub load_global : Option FilePath → Result GlobalConfig ConfigError
  load_global path = load_file S.parse_global global_default (global_path path)

  unfoldable pub load_project : Option FilePath → Result ProjectConfig ConfigError
  load_project path = load_file S.parse_project project_default (project_path path)

  unfoldable pub load : Option FilePath → Option FilePath → Result ResolvedConfig ConfigError
  load global project =
      and_then (load_global global) (λ g. and_then (load_project project) (λ p. ok (merge g p)))
