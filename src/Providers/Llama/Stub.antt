-- ===== src/Providers/Llama/Stub.antt =====
-- `LlamaCppModel` (providers/llama-cpp/src/lib.rs) as it is built without real inference, and a
-- local provider over it.
use cotrex_ai.Base.{
  String, ◌<>◌, ◌≡◌, ◌≢◌, ◌⊎◌, Bool, true, false, Option, none, some, Result, ok, err, ok_or,
  and_then, Method, arith, if◌then◌else◌,
}
use cotrex_ai.FilePath.{FilePath, display}
use cotrex_ai.Contract.{
  ProviderStateError, ready, CapabilityRequest, build_summary, explain_rust, CapabilityResponse,
  summarised,
}
use cotrex_ai.Contract
use cotrex_ai.Runtime.Local.{
  ProviderError, model_error, provider_error, ModelInfo, InferenceRequest, LocalModel,
  LocalProvider, adapt_request, adapt_response, execute, transition, settle, healthy, unhealthy,
  health,
}
use cotrex_ai.Runtime.Local
use cotrex_ai.Runtime.Local.Lifecycle.{IsSettled}
use cotrex_ai.Runtime.Config.{ResolvedConfig}
use cotrex_ai.Providers.Llama.{LoadedConfig, unloaded_info, loaded_info, loaded_of}

pub record StubModel : Type 0 where
  pub model_path : Option FilePath
  pub info : ModelInfo
  pub loaded_config : Option LoadedConfig

unfoldable pub new : StubModel
new = record { model_path = none; info = unloaded_info; loaded_config = none }

-- `exists` is `Path::exists` at the time of the call.
unfoldable pub load : (FilePath → Bool) → ResolvedConfig → Method StubModel (Unit {0}) ProviderError
load exists config s =
    if exists config.model_path
    then (
      ok tt,
      record {
        model_path = some config.model_path;
        info = loaded_info config;
        loaded_config = some (loaded_of config);
      },
    )
    else (err (model_error ("model file not found: " <> display config.model_path)), s)

unfoldable pub infer : InferenceRequest → StubModel → Result String ProviderError
infer request s = and_then (ok_or s.model_path (model_error "model not loaded")) (λ path.
    and_then (ok_or s.loaded_config (model_error "model not loaded"))
      (λ loaded. ok ("llama.cpp: " <> request.prompt)))

unfoldable pub unload : Method StubModel (Unit {0}) ProviderError
unload s = (ok tt, new)

abbrev stub : (FilePath → Bool) → LocalModel
stub exists = record {
  State = StubModel;
  Config = ResolvedConfig;
  load = load exists;
  infer = infer;
  unload = unload;
  info = λ s. s.info;
}

abbrev prompt_of : CapabilityRequest → String
prompt_of (build_summary r) = r.prompt
prompt_of (explain_rust r) = r.prompt

module _ (exists : FilePath → Bool) where
  -- A provider at rest without a model: where the file of the model exists, `load` succeeds, and
  -- after it the provider is healthy and answers every request with a summary that echoes the
  -- prompt. Where the file is missing, `load` fails with its name, and after it the provider is
  -- unhealthy and answers no request.
  serve_lem :
      (show : ProviderStateError → String) (p : LocalProvider (stub exists))
      (request : CapabilityRequest)
      → IsSettled (stub exists) p
      → p.lifecycle ≢ ready
      → ((exists p.config.model_path ≡ true)
          × ((Local.load (stub exists) p).0 ≡ ok tt)
          × (health (stub exists) (Local.load (stub exists) p).1 ≡ healthy)
          × (execute (stub exists) show request (Local.load (stub exists) p).1
              ≡ ok (
                  summarised (record {
                    success = true;
                    summary = "llama.cpp: " <> prompt_of request;
                    recommendation = none;
                  }))))
        ⊎ ((exists p.config.model_path ≡ false)
            × ((Local.load (stub exists) p).0
                ≡ err (model_error ("model file not found: " <> display p.config.model_path)))
            × (health (stub exists) (Local.load (stub exists) p).1 ≡ unhealthy "model failed")
            × (execute (stub exists) show request (Local.load (stub exists) p).1
                ≡ err (provider_error "not ready")))
  unfolding load infer Local.load Contract.load Contract.loaded Contract.fail transition settle
      health execute adapt_request adapt_response
  serve_lem show p (build_summary q) settled idle = ground arith
  serve_lem show p (explain_rust q) settled idle = ground arith
