-- ===== src/Providers/Llama.antt =====
-- `LlamaCppModel` (providers/llama-cpp/src/lib.rs) as it is built with real inference. The binding
-- llama_cpp_2 is a parameter: an error of it is the text that it prints. The backend, which is
-- initialised once and panics where that fails, and the time that a profile measures are left out.
pub mod Generation
pub mod Stub
use cotrex_ai.Base.{
  ℕ, suc, ◌+◌, ◌-◌, String, ◌<>◌, Bool, true, false, ◌&&◌, ◌||◌, Option, none, some, List, [], ◌∷◌,
  ◌++◌, length, is_empty, Result, ok, err, ok_or, and_then, map_err, Method, ◌>>=◌, ◌>>◌, pure,
  raise, lift, leb, ltb, nat_beq, if◌then◌else◌,
}
use cotrex_ai.Base.Text.{show_u64}
use cotrex_ai.FilePath.{FilePath, display}
use cotrex_ai.Runtime.Local.{ProviderError, model_error, ModelInfo, ChatMessage, InferenceRequest}
use cotrex_ai.Runtime.Config.{ResolvedConfig}

pub record Binding : Type 1 where
  pub Model : Type 0
  pub Template : Type 0
  pub Message : Type 0
  pub Context : Type 0
  pub Batch : Type 0
  pub Sampler : Type 0
  pub Decoder : Type 0
  pub Token : Type 0
  pub load_from_file : FilePath → ℕ → Result Model String
  pub chat_template : Model → Result Template String
  pub new_message : String → String → Result Message String
  pub apply_chat_template : Model → Template → List Message → Result String String
  pub str_to_token : Model → String → Result (List Token) String
  -- With the length of the context, where it is not 0, and the number of threads.
  pub new_context : Model → Option ℕ → ℕ → Result Context String
  pub new_batch : ℕ → Batch
  pub add : Token → ℕ → Bool → Method Batch (Unit {0}) String
  pub clear : Batch → Batch
  pub n_tokens : Batch → ℕ
  pub decode : Method (Context × Batch) (Unit {0}) String
  -- The chain that draws with a seed and then takes the likeliest, and the chain of a temperature.
  pub greedy_chain : ℕ → Sampler
  pub temperature_chain : ℕ → ℕ → Sampler
  pub sample : Context → ℕ → Sampler → Token × Sampler
  pub accept : Token → Sampler → Sampler
  pub is_eog_token : Model → Token → Bool
  pub utf8_decoder : Decoder
  pub token_to_piece : Model → Token → Method Decoder String String

pub record LoadedConfig : Type 0 where
  pub model_path : FilePath
  pub context : ℕ
  pub threads : ℕ
  pub gpu_layers : ℕ

abbrev pub unloaded_info : ModelInfo
unloaded_info = record { name = "llama.cpp"; version = "unknown"; backend = "llama.cpp" }

abbrev pub loaded_info : ResolvedConfig → ModelInfo
loaded_info config = record { name = config.model_name; version = "loaded"; backend = "llama.cpp" }

abbrev pub loaded_of : ResolvedConfig → LoadedConfig
loaded_of config = record {
  model_path = config.model_path;
  context = config.context;
  threads = config.threads;
  gpu_layers = config.gpu_layers;
}

-- `x <= 0.0` on the bits of an `f32`: a zero, or a negative number up to the infinity.
abbrev pub le_zero : ℕ → Bool
le_zero bits = nat_beq bits 0 || (leb 2147483648 bits && leb bits 4286578688)

-- `NonZeroU32::new`
abbrev nonzero : ℕ → Option ℕ
nonzero n = if nat_beq n 0 then none else some n

module _ (B : Binding) where
  pub record LlamaCppModel : Type 0 where
    pub model : Option B.Model
    pub info : ModelInfo
    pub loaded_config : Option LoadedConfig

  unfoldable pub new : LlamaCppModel
  new = record { model = none; info = unloaded_info; loaded_config = none }

  abbrev loaded_with : ResolvedConfig → LlamaCppModel → B.Model → LlamaCppModel
  loaded_with config s model = record s {
    model = some model;
    loaded_config = some (loaded_of config);
    info = loaded_info config;
  }

  -- `exists` is `Path::exists` at the time of the call.
  unfoldable pub load :
      (FilePath → Bool) → ResolvedConfig → Method LlamaCppModel (Unit {0}) ProviderError
  load exists config s =
      if exists config.model_path
      then elim (B.load_from_file config.model_path config.gpu_layers) [
        | err e ↦ (err (model_error ("model load failed: " <> e)), s)
        | ok model ↦ (ok tt, loaded_with config s model)
      ]
      else (err (model_error ("model file not found: " <> display config.model_path)), s)

  unfoldable pub unload : Method LlamaCppModel (Unit {0}) ProviderError
  unload s = (ok tt, record s { model = none; loaded_config = none; info = unloaded_info })

  unfoldable pub new_messages : List ChatMessage → Result (List B.Message) ProviderError
  new_messages [] = ok []
  new_messages (m ∷ ms) =
      and_then
        (map_err (λ e. model_error ("chat message error: " <> e)) (B.new_message m.role m.content))
        (λ message. and_then (new_messages ms) (λ rest. ok (message ∷ rest)))

  -- The first phase: the chat template, where the request has messages.
  unfoldable pub prompt_text : B.Model → InferenceRequest → Result String ProviderError
  prompt_text model request =
      if is_empty request.messages
      then ok request.prompt
      else and_then
          (map_err (λ e. model_error ("chat template unavailable: " <> e)) (B.chat_template model))
          (λ template. and_then (new_messages request.messages) (λ messages.
            map_err (λ e. model_error ("template apply failed: " <> e))
              (B.apply_chat_template model template messages)))

  unfoldable pub too_large : ℕ → ℕ → ℕ → ProviderError
  too_large tokens reserved available = model_error (
      "prompt too large: "
      <> show_u64 tokens
      <> " tokens + "
      <> show_u64 reserved
      <> " max_tokens exceeds context window of "
      <> show_u64 available)

  -- The guard behind the second phase, on the tokens of the prompt.
  unfoldable pub check_size :
      LoadedConfig → InferenceRequest → List B.Token → Result (List B.Token) ProviderError
  check_size loaded request tokens =
      if ltb loaded.context (length tokens + request.max_tokens)
      then err (too_large (length tokens) request.max_tokens loaded.context)
      else ok tokens

  -- The third phase, and the test for an empty prompt that follows it.
  unfoldable pub open_context :
      B.Model → LoadedConfig → List B.Token → Result (B.Context × List B.Token) ProviderError
  open_context model loaded tokens =
      and_then
        (map_err (λ e. model_error ("context creation failed: " <> e))
          (B.new_context model (nonzero loaded.context) loaded.threads))
        (λ context.
          if is_empty tokens
          then err (model_error "tokenization produced no tokens")
          else ok (context, tokens))

  unfoldable pub prepare :
      B.Model → LoadedConfig → InferenceRequest → Result (B.Context × List B.Token) ProviderError
  prepare model loaded request = and_then (prompt_text model request) (λ text.
      and_then
        (map_err (λ e. model_error ("tokenization failed: " <> e)) (B.str_to_token model text))
        (λ tokens. and_then (check_size loaded request tokens) (open_context model loaded)))
