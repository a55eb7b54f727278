-- ===== src/Runtime/Calls/Kinds.antt =====
-- The kind and the contents of a response.
use mathlib.Core.Path.{subst}
use cotrex_ai.Base.{
  err, ◌⊎◌, sym, String, ◌≡◌, true, false, none, Result, Result-cases, inl, inr, ok, arith, refl,
}
use cotrex_ai.Base.Chars.{is_empty_text}
use cotrex_ai.Contract.{
  ProviderStateError, BuildSummaryRequest, CapabilityRequest, build_summary, explain_rust,
  CapabilityResponse, summarised, explained,
}
use cotrex_ai.Runtime.Local.{LocalModel, RuntimeError, adapt_request}
use cotrex_ai.Runtime.Output.{Json, ModelOutput, text, parse, parse_response, extract_format}
use cotrex_ai.Runtime.Calls.{
  OrchestrationRequest, OrchestrationResponse, Orchestrator, execute, reparse, extract_raw_text,
  inject_prompt, execute_capability, OutputParser, context_of,
}

-- A response answers the kind of request that was made.
abbrev pub Answers : CapabilityRequest → CapabilityResponse → Type 0
Answers (build_summary q) (summarised r) = Unit {0}
Answers (build_summary q) (explained r) = ⊥
Answers (explain_rust q) (summarised r) = ⊥
Answers (explain_rust q) (explained r) = Unit {0}

module _ (J : Json) where
  parse_response-Answers :
      (output : ModelOutput J) (request : CapabilityRequest)
      → Answers request (parse_response J output request)
  unfolding parse_response
  parse_response-Answers output (build_summary q) = tt
  parse_response-Answers output (explain_rust q) = tt

  orchestrated :
      (o : Orchestrator J) (request : OrchestrationRequest) (r : OrchestrationResponse)
      → o.capability_parser ≡ parse_response J
      → execute J o request ≡ ok r
      → Answers request.capability r.capability
  unfolding execute reparse
  orchestrated o request r default h =
      let prompt =
        o.prompt_assembler (context_of o.context_source request.context) request.capability in
      elim (Result-cases (o.provider (inject_prompt request.capability prompt))) [
        | inr (e, bad) ↦ ground (arith, bad, h)
        | inl (response, good) ↦
            let out = o.output_parser (extract_raw_text response) in
            let same : reparse J o request.capability response ≡ r = ground (arith, good, h) in
            subst (λ x. Answers request.capability x.capability) same
              (subst (λ f. Answers request.capability (f out request.capability)) (sym default)
                (parse_response-Answers out request.capability))
      ]

  direct_Answers :
      (M : LocalModel) (show : ProviderStateError → String) (model : M.State)
      (parser : OutputParser J) (request : CapabilityRequest) (r : CapabilityResponse)
      → execute_capability J M show model parser (parse_response J) request ≡ ok r
      → Answers request r
  unfolding execute_capability adapt_request parse_response
  direct_Answers M show model parser (build_summary q) (summarised r) h = tt
  direct_Answers M show model parser (build_summary q) (explained r) h = ground arith
  direct_Answers M show model parser (explain_rust q) (summarised r) h = ground arith
  direct_Answers M show model parser (explain_rust q) (explained r) h = tt

  orchestrated_or_not :
      (o : Orchestrator J) (request : OrchestrationRequest)
      → o.capability_parser ≡ parse_response J
      → ((e : RuntimeError) × (execute J o request ≡ err e))
        ⊎ ((r : OrchestrationResponse) × (execute J o request ≡ ok r)
            × Answers request.capability r.capability)
  orchestrated_or_not o request default = elim (Result-cases (execute J o request)) [
    | inl (r, good) ↦ inr (r, good, orchestrated o request r default good)
    | inr (e, bad) ↦ inl (e, bad)
  ]

  -- With the parser of responses that the runtime has, a call of a capability ends with an error or
  -- answers with the kind of response that was asked for, through the orchestrator as well as
  -- directly on a model, whatever the provider, the model and the output parser do: also where a
  -- provider answers a question with a build summary.
  pub call-Answers :
      (o : Orchestrator J) (request : OrchestrationRequest) (M : LocalModel)
      (show : ProviderStateError → String) (model : M.State)
      → o.capability_parser ≡ parse_response J
      → (let direct =
            execute_capability J M show model o.output_parser
              (parse_response J)
              request.capability in
          (((e : RuntimeError) × (execute J o request ≡ err e))
            ⊎ ((r : OrchestrationResponse) × (execute J o request ≡ ok r)
                × Answers request.capability r.capability))
          × (((e : RuntimeError) × (direct ≡ err e))
              ⊎ ((r : CapabilityResponse) × (direct ≡ ok r) × Answers request.capability r)))
  call-Answers o request M show model default = (
    orchestrated_or_not o request default,
    elim (Result-cases
        (execute_capability J M show model o.output_parser (parse_response J) request.capability)) [
          | inl (r, good) ↦
              inr (r, good, direct_Answers M show model o.output_parser request.capability r good)
          | inr (e, bad) ↦ inl (e, bad)
        ],
  )

  -- Of what a provider answers to a build summary, the orchestrator keeps the text alone. With the
  -- parsers that the runtime has, where that is a text without JSON and not empty, two answers with
  -- the text lead to one response, whatever their kinds, their verdicts and their recommendations
  -- are: a build that the provider reports as failed is reported as successful, and without the
  -- recommendation of the provider.
  pub verdict_lost :
      (o : Orchestrator J) (request : OrchestrationRequest)
      (other : CapabilityRequest → Result CapabilityResponse RuntimeError)
      (a b : CapabilityResponse) (asked : CapabilityRequest) (q : BuildSummaryRequest) (t : String)
      → asked
        ≡ inject_prompt request.capability
            (o.prompt_assembler (context_of o.context_source request.context) request.capability)
      → o.provider asked ≡ ok a
      → other asked ≡ ok b
      → extract_raw_text a ≡ extract_raw_text b
      → request.capability ≡ build_summary q
      → o.output_parser ≡ parse J
      → o.capability_parser ≡ parse_response J
      → (extract_format J (extract_raw_text a)).0 ≡ text t
      → is_empty_text (extract_raw_text a) ≡ false
      → (r : OrchestrationResponse) × (execute J o request ≡ ok r)
        × (execute J (record o { provider = other }) request ≡ ok r)
        × (r.capability
            ≡ summarised
                (record { success = true; summary = extract_raw_text a; recommendation = none }))
  unfolding execute reparse parse parse_response
  verdict_lost o request other a b asked q t is answered other_answered same asks output capability
        plain filled =
      (
        reparse J o request.capability a,
        rw (sym is, answered) refl,
        rw (sym is, other_answered, same) refl,
        rw (asks, output, capability, plain, filled) refl,
      )
