-- ===== src/Runtime/Calls/Paths.antt =====
-- The two ways to a model give the same response.
use cotrex_ai.Base.{String, ◌≡◌, Result-cases, inl, inr, ok, and_then, refl}
use cotrex_ai.Contract.{ProviderStateError, ready, CapabilityRequest, build_summary, explain_rust}
use cotrex_ai.Runtime.Local.{
  LocalModel, LocalProvider, plain_request, adapt_request, adapt_response,
}
use cotrex_ai.Runtime.Local
use cotrex_ai.Runtime.Output.{Json, parse_response}
use cotrex_ai.Runtime.Calls.{
  OrchestrationRequest, OrchestrationResponse, Orchestrator, execute, reparse, extract_raw_text,
  inject_prompt, execute_capability, context_of, OutputParser,
}

module _ (J : Json) (M : LocalModel) (show : ProviderStateError → String) where
  reparsed :
      (p : LocalProvider M) (cap : CapabilityRequest) (prompt : String) (f : OutputParser J)
      → p.lifecycle ≡ ready
      → and_then {A = OrchestrationResponse}
          (and_then (Local.execute M show (inject_prompt cap prompt) p) (λ response.
            (let out = f (extract_raw_text response) in
              ok (record {
                capability = parse_response J out cap;
                raw_output = out.raw;
                warnings = out.warnings;
              }))))
          (λ r. ok r.capability)
        ≡ execute_capability J M show p.model f (parse_response J) (inject_prompt cap prompt)
  unfolding inject_prompt execute_capability Local.execute adapt_request adapt_response
      extract_raw_text parse_response
  reparsed p (build_summary q) prompt f serving =
      elim (Result-cases (
        M.infer
          (plain_request
            (record { prompt = prompt; temperature = q.temperature; max_tokens = q.max_tokens }))
          p.model)) [
            | inl (t, good) ↦ rw (serving, good) refl
            | inr (e, bad) ↦ rw (serving, bad) refl
          ]
  reparsed p (explain_rust q) prompt f serving =
      elim (Result-cases (
        M.infer
          (plain_request
            (record { prompt = prompt; temperature = q.temperature; max_tokens = q.max_tokens }))
          p.model)) [
            | inl (t, good) ↦ rw (serving, good) refl
            | inr (e, bad) ↦ rw (serving, bad) refl
          ]

  -- Over a local provider that is ready, the orchestrator with the runtime's parser of responses
  -- gives the response that `execute_capability` gives on the model of the provider, with the
  -- prompt that the assembler makes in the request, and the same errors.
  pub orchestrator_is_direct :
      (p : LocalProvider M) (o : Orchestrator J) (request : OrchestrationRequest)
      → p.lifecycle ≡ ready
      → o.provider ≡ (λ req. Local.execute M show req p)
      → o.capability_parser ≡ parse_response J
      → and_then (execute J o request) (λ r. ok r.capability)
        ≡ execute_capability J M show p.model o.output_parser (parse_response J) (
            inject_prompt request.capability
              (o.prompt_assembler (context_of o.context_source request.context) request.capability))
  unfolding execute reparse
  orchestrator_is_direct p o request serving provider parser =
      rw (provider, parser)
        (reparsed p request.capability
          (o.prompt_assembler (context_of o.context_source request.context) request.capability)
          o.output_parser serving)
