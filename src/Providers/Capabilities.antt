-- ===== src/Providers/Capabilities.antt =====
-- The parsers of responses for one capability each (capabilities/src/lib.rs). The warnings that they
-- collect go nowhere, and are left out.
use cotrex_ai.Base.{
  String, List, ◌≡◌, true, false, none, refl, ◌≢◌, ◌⊎◌, inl, inr, Option-cases, arith,
}
use cotrex_ai.Base.Chars.{is_empty_text}
use cotrex_ai.Contract.{
  BuildSummaryRequest, BuildSummaryResponse, build_summary, CapabilityResponse, summarised,
  explained,
}
use cotrex_ai.Runtime.Config.{unwrap_or}
use cotrex_ai.Runtime.Output.{
  Json, OutputFormat, json, text, empty, ModelOutput, string_field, bool_field, parse_response,
}

module _ (J : Json) where
  -- `BuildSummaryParser::parse`
  unfoldable pub parse_build : OutputFormat J → CapabilityResponse
  parse_build (json v) = summarised (record {
    success = unwrap_or (bool_field J "success" (json v)) false;
    summary = unwrap_or (string_field J "summary" (json v)) "";
    recommendation = string_field J "recommendation" (json v);
  })
  parse_build (text t) = summarised (record { success = true; summary = t; recommendation = none })
  parse_build empty = summarised (record { success = false; summary = ""; recommendation = none })

  -- `ExplainRustParser::parse`
  unfoldable parse_explanation : OutputFormat J → CapabilityResponse
  parse_explanation (json v) =
      explained (record { explanation = unwrap_or (string_field J "explanation" (json v)) "" })
  parse_explanation (text t) = explained (record { explanation = t })
  parse_explanation empty = explained (record { explanation = "" })

  -- How the answers `a` of `BuildSummaryParser` and `b` of the runtime's parser compare.
  abbrev pub Related :
      String → OutputFormat J → BuildSummaryResponse → BuildSummaryResponse → Type 0
  Related raw empty a b = ⊥
  Related raw (text t) a b =
      (a.summary ≡ t)
      × (b.summary ≡ raw)
      × (a.success ≡ b.success)
      × (a.recommendation ≡ none)
      × (b.recommendation ≡ none)
  Related raw (json v) a b =
      (((string_field J "summary" (json v) ≢ none) × (a.summary ≡ b.summary))
        ⊎ ((string_field J "summary" (json v) ≡ none) × (a.summary ≡ "") × (b.summary ≡ raw)))
      × (((bool_field J "success" (json v) ≢ none) × (a.success ≡ b.success))
          ⊎ ((bool_field J "success" (json v) ≡ none) × (a.success ≡ false) × (b.success ≡ true)))
      × (a.recommendation ≡ string_field J "recommendation" (json v))
      × (b.recommendation ≡ none)

  compared_at :
      (raw : String) (format : OutputFormat J) (w : List String) (q : BuildSummaryRequest)
      → is_empty_text raw ≡ false
      → (format ≡ empty)
        ⊎ ((a : BuildSummaryResponse) × (b : BuildSummaryResponse) × (parse_build format
              ≡ summarised a)
            × (parse_response J
                  (record { raw = raw; format = format; warnings = w })
                  (build_summary q)
                ≡ summarised b)
            × Related raw format a b)
  unfolding parse_build parse_response
  compared_at raw empty w q full = inl refl
  compared_at raw (text t) w q full = inr (
    record { success = true; summary = t; recommendation = none },
    record { success = true; summary = raw; recommendation = none },
    refl,
    rw full refl,
    (refl, refl, refl, refl, refl),
  )
  compared_at raw (json v) w q full = inr (
    record {
      success = unwrap_or (bool_field J "success" (json v)) false;
      summary = unwrap_or (string_field J "summary" (json v)) "";
      recommendation = string_field J "recommendation" (json v);
    },
    record {
      success = unwrap_or (bool_field J "success" (json v)) true;
      summary = unwrap_or (string_field J "summary" (json v)) raw;
      recommendation = none;
    },
    refl,
    rw full refl,
    (
      elim (Option-cases (string_field J "summary" (json v))) [
        | inl missing ↦ inr (missing, rw missing refl, rw missing refl)
        | inr (t, has) ↦ inl (λ h. ground (arith, h, has), rw has refl)
      ],
      elim (Option-cases (bool_field J "success" (json v))) [
        | inl missing ↦ inr (missing, rw missing refl, rw missing refl)
        | inr (b, has) ↦ inl (λ h. ground (arith, h, has), rw has refl)
      ],
      refl,
      refl,
    ),
  )

  -- On an output whose raw text is not blank, and which is not of the empty format: where it is no
  -- JSON, the parser of build summaries and the runtime's parser of responses give the same verdict
  -- and no recommendation, with the text and the raw output as summary. On JSON they agree on a
  -- summary and on a verdict that are there; without a summary the first has the empty text and the
  -- second the raw output, and without a verdict the first reports a failure and the second a
  -- success. A recommendation in the JSON is in the answer of the first, and never in that of the
  -- second.
  pub parsers_compared :
      (output : ModelOutput J) (q : BuildSummaryRequest)
      → is_empty_text output.raw ≡ false
      → (output.format ≡ empty)
        ⊎ ((a : BuildSummaryResponse) × (b : BuildSummaryResponse) × (parse_build output.format
              ≡ summarised a)
            × (parse_response J output (build_summary q) ≡ summarised b)
            × Related output.raw output.format a b)
  parsers_compared output q full = compared_at output.raw output.format output.warnings q full
