-- ===== src/Runtime/Calls.antt =====
-- Calls of a capability from end to end: `execute_capability` (runtime/src/orchestrate.rs) and the
-- orchestrator (runtime/src/orchestration/), whose parts are any provider, context, assembler and
-- parsers. A provider is what it answers at the time of the call.
pub mod Kinds
pub mod Paths
use cotrex_ai.Base.{ℕ, String, Option, none, some, List, Result, ok, err, map_err, and_then}
use cotrex_ai.Contract.{
  ProviderStateError, CapabilityRequest, build_summary, explain_rust, CapabilityResponse,
  summarised, explained,
}
use cotrex_ai.Runtime.Local.{LocalModel, RuntimeError, runtime_error, adapt_request, plain_request}
use cotrex_ai.Runtime.Output.{Json, ModelOutput}
use cotrex_ai.Runtime.Prompt.{InferenceContext, default_context}

-- The traits `OutputParser` and `CapabilityResponseParser`.
abbrev pub OutputParser : Json → Type 0
OutputParser J = String → ModelOutput J

abbrev pub ResponseParser : Json → Type 0
ResponseParser J = ModelOutput J → CapabilityRequest → CapabilityResponse

-- `show` is the `to_string` of a state error.
unfoldable pub execute_capability :
    (J : Json) (M : LocalModel)
    → (ProviderStateError → String)
    → M.State
    → OutputParser J
    → ResponseParser J
    → CapabilityRequest
    → Result CapabilityResponse RuntimeError
execute_capability J M show model output_parser capability_parser request =
    and_then (map_err (runtime_error show) (adapt_request request)) (λ runtime_req.
      and_then (map_err (runtime_error show) (M.infer (plain_request runtime_req) model))
        (λ text. ok (capability_parser (output_parser text) request)))

pub record OrchestrationRequest : Type 0 where
  pub capability : CapabilityRequest
  pub context : Option InferenceContext

pub record OrchestrationResponse : Type 0 where
  pub capability : CapabilityResponse
  pub raw_output : String
  pub warnings : List String

abbrev text_of : CapabilityResponse → String
text_of (summarised v) = v.summary
text_of (explained v) = v.explanation

-- `OrchestrationResponse::text`
unfoldable response_text : OrchestrationResponse → String
response_text r = text_of r.capability

unfoldable pub inject_prompt : CapabilityRequest → String → CapabilityRequest
inject_prompt (build_summary req) prompt = build_summary (record req { prompt = prompt })
inject_prompt (explain_rust req) prompt = explain_rust (record req { prompt = prompt })

unfoldable pub extract_raw_text : CapabilityResponse → String
extract_raw_text (summarised resp) = resp.summary
extract_raw_text (explained resp) = resp.explanation

-- `unwrap_or_default` on what a context source answers.
abbrev or_default_context : Result InferenceContext RuntimeError → InferenceContext
or_default_context (ok context) = context
or_default_context (err e) = default_context

-- The context of a call, by what the context source answers where the request has none.
abbrev pub context_of :
    Result InferenceContext RuntimeError → Option InferenceContext → InferenceContext
context_of source (some context) = context
context_of source none = or_default_context source

module _ (J : Json) where
  pub record Orchestrator : Type 0 where
    pub provider : CapabilityRequest → Result CapabilityResponse RuntimeError
    pub context_source : Result InferenceContext RuntimeError
    pub prompt_assembler : InferenceContext → CapabilityRequest → String
    pub output_parser : OutputParser J
    pub capability_parser : ResponseParser J

  -- The end of `execute`, on what the provider has answered.
  unfoldable pub reparse :
      Orchestrator → CapabilityRequest → CapabilityResponse → OrchestrationResponse
  reparse o original response =
      let output = o.output_parser (extract_raw_text response) in
      record {
        capability = o.capability_parser output original;
        raw_output = output.raw;
        warnings = output.warnings;
      }

  unfoldable pub execute :
      Orchestrator → OrchestrationRequest → Result OrchestrationResponse RuntimeError
  execute o request =
      let prompt =
        o.prompt_assembler (context_of o.context_source request.context) request.capability in
      and_then (o.provider (inject_prompt request.capability prompt))
        (λ response. ok (reparse o request.capability response))
