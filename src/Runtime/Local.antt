-- ===== src/Runtime/Local.antt =====
-- `LocalProvider` with its lifecycle (runtime/src/local_provider.rs, lifecycle.rs) and the adapter
-- (runtime/src/adapter.rs), over any local model (runtime/src/local_model.rs), and the calls of
-- `CapabilityProviderExt` (runtime/src/lib.rs).
pub mod Lifecycle
use cotrex_ai.Base.{
  ℕ, String, true, Option, none, List, [], Result, ok, err, map_err, and_then, Method,
}
use cotrex_ai.Contract.{
  ProviderState, ProviderStateError, ProviderInfo, CapabilityError, uninitialized, loading, ready,
  failed, unloading, CapabilityRequest, build_summary, explain_rust, CapabilityResponse, summarised,
  explained, BuildSummaryRequest, BuildSummaryResponse, ExplainRustRequest, ExplainRustResponse,
}
use cotrex_ai.Contract

pub data ProviderError : Type 0 where
  model_error config_error : String → ProviderError
  state_error : ProviderStateError → ProviderError

pub data RuntimeError : Type 0 where
  provider_error : String → RuntimeError
  invalid_response : RuntimeError
  capability_error : CapabilityError → RuntimeError
  model_failure : String → RuntimeError

pub record RuntimeRequest : Type 0 where
  pub prompt : String
  pub temperature : ℕ
  pub max_tokens : ℕ

pub record ChatMessage : Type 0 where
  pub role : String
  pub content : String

-- A request without its callback, which the runtime never sets on a request that it builds.
pub record InferenceRequest : Type 0 where
  pub prompt : String
  pub messages : List ChatMessage
  pub temperature : ℕ
  pub max_tokens : ℕ

pub record ModelInfo : Type 0 where
  pub name : String
  pub version : String
  pub backend : String

-- The trait `LocalModel`; a response is its text, since nothing here reads the profile.
pub record LocalModel : Type 1 where
  pub State : Type 0
  pub Config : Type 0
  pub load : Config → Method State (Unit {0}) ProviderError
  pub infer : InferenceRequest → State → Result String ProviderError
  pub unload : Method State (Unit {0}) ProviderError
  pub info : State → ModelInfo

pub data ProviderHealth : Type 0 where
  healthy : ProviderHealth
  degraded unhealthy : String → ProviderHealth

unfoldable pub adapt_request : CapabilityRequest → Result RuntimeRequest ProviderError
adapt_request (build_summary req) =
    ok (record { prompt = req.prompt; temperature = req.temperature; max_tokens = req.max_tokens })
adapt_request (explain_rust req) =
    ok (record { prompt = req.prompt; temperature = req.temperature; max_tokens = req.max_tokens })

-- The request to the model, in which the prompt stands alone.
abbrev pub plain_request : RuntimeRequest → InferenceRequest
plain_request req = record {
  prompt = req.prompt;
  messages = [];
  temperature = req.temperature;
  max_tokens = req.max_tokens;
}

unfoldable pub adapt_response : String → Result CapabilityResponse RuntimeError
adapt_response text =
    ok (summarised (record { success = true; summary = text; recommendation = none }))

-- `From<ProviderError>`; `show` is the `to_string` of a state error.
abbrev pub runtime_error : (ProviderStateError → String) → ProviderError → RuntimeError
runtime_error show (model_error m) = model_failure m
runtime_error show (config_error m) = model_failure m
runtime_error show (state_error e) = model_failure (show e)

module _ (M : LocalModel) where
  pub record LocalProvider : Type 0 where
    pub lifecycle : ProviderState
    pub config : M.Config
    pub model : M.State
    pub info : ProviderInfo

  unfoldable pub new : M.State → M.Config → ProviderInfo → LocalProvider
  new model config info = record {
    lifecycle = uninitialized;
    config = config;
    model = model;
    info = info;
  }

  -- `CapabilityProvider::info`
  unfoldable provider_info : LocalProvider → ProviderInfo
  provider_info p = p.info

  -- `self.lifecycle.load()` and its like: the state changes where the transition succeeds.
  unfoldable pub transition :
      (ProviderState → Result ProviderState ProviderStateError)
      → Method LocalProvider (Unit {0}) ProviderError
  transition t p = elim (t p.lifecycle) [
    | ok next ↦ (ok tt, record p { lifecycle = next })
    | err e ↦ (err (state_error e), p)
  ]

  -- The end of `load` and of `unload`, which goes by what the model answered.
  unfoldable pub settle :
      (ProviderState → Result ProviderState ProviderStateError)
      → Result (Unit {0}) ProviderError
      → Method LocalProvider (Unit {0}) ProviderError
  settle good (ok u) p = transition good p
  settle good (err e) p = elim (transition Contract.fail p).0 [
    | ok _ ↦ (err e, (transition Contract.fail p).1)
    | err x ↦ (err x, (transition Contract.fail p).1)
  ]

  unfoldable pub load : Method LocalProvider (Unit {0}) ProviderError
  load p =
      let (r, p1) = transition Contract.load p in
      elim r [
        | err e ↦ (err e, p1)
        | ok _ ↦
            let (answer, model) = M.load p1.config p1.model in
            settle Contract.loaded answer (record p1 { model = model })
      ]

  unfoldable pub unload : Method LocalProvider (Unit {0}) ProviderError
  unload p =
      let (r, p1) = transition Contract.unload p in
      elim r [
        | err e ↦ (err e, p1)
        | ok _ ↦
            let (answer, model) = M.unload p1.model in
            settle Contract.unloaded answer (record p1 { model = model })
      ]

  unfoldable pub health : LocalProvider → ProviderHealth
  health p = elim p.lifecycle [
    | ready ↦ healthy
    | loading ↦ degraded "busy"
    | unloading ↦ degraded "busy"
    | failed ↦ unhealthy "model failed"
    | uninitialized ↦ degraded "not loaded"
  ]

  module _ (show : ProviderStateError → String) where
    unfoldable pub execute :
        CapabilityRequest → LocalProvider → Result CapabilityResponse RuntimeError
    execute request p = elim p.lifecycle [
      | ready ↦ and_then (map_err (runtime_error show) (adapt_request request)) (λ req.
          and_then (map_err (runtime_error show) (M.infer (plain_request req) p.model))
            adapt_response)
      | other ↦ err (provider_error "not ready")
    ]

    -- `CapabilityProviderExt` on a local provider.
    unfoldable build_summary_of :
        BuildSummaryRequest → LocalProvider → Result BuildSummaryResponse RuntimeError
    build_summary_of request p =
        and_then (execute (build_summary request) p)
          (λ response. elim response [ summarised r ↦ ok r | explained r ↦ err invalid_response ])

    unfoldable pub explain_rust_of :
        ExplainRustRequest → LocalProvider → Result ExplainRustResponse RuntimeError
    explain_rust_of request p =
        and_then (execute (explain_rust request) p)
          (λ response. elim response [ summarised r ↦ err invalid_response | explained r ↦ ok r ])
