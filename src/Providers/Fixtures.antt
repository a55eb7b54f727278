-- ===== src/Providers/Fixtures.antt =====
-- The provider of fixtures (providers/json/src/lib.rs), over the files and serde_json as parameters.
use cotrex_ai.Base.{String, ◌<>◌, [], ◌∷◌, Result, ok, map_err, and_then, nat_beq, if◌then◌else◌}
use cotrex_ai.FilePath.{FilePath, normal, join, display}
use cotrex_ai.Contract.{
  BuildSummaryRequest, BuildSummaryResponse, ExplainRustResponse, CapabilityRequest, build_summary,
  explain_rust, CapabilityResponse, summarised, explained, ProviderInfo, build_summary_kind,
  explain_rust_kind,
}
use cotrex_ai.Runtime.Local.{RuntimeError, provider_error, ProviderHealth, healthy}

pub record FixtureFiles : Type 0 where
  pub read_to_string : FilePath → Result String String
  summary_of : String → Result BuildSummaryResponse String
  explanation_of : String → Result ExplainRustResponse String

pub record JsonProvider : Type 0 where
  fixtures_dir : FilePath

unfoldable pub info : ProviderInfo
info = record {
  name = "json-fixture";
  version = "0.1.0";
  supported_capabilities = build_summary_kind ∷ explain_rust_kind ∷ [];
}

unfoldable pub health : ProviderHealth
health = healthy

module _ (F : FixtureFiles) where
  unfoldable pub load_fixture :
      {A : Type 0} → (String → Result A String) → String → JsonProvider → Result A RuntimeError
  load_fixture from_str name p =
      let path = join p.fixtures_dir (normal name ∷ []) in
      and_then
        (map_err (λ e. provider_error ("failed to read fixture " <> display path <> ": " <> e))
          (F.read_to_string path))
        (λ content.
          map_err (λ e. provider_error ("failed to parse fixture " <> display path <> ": " <> e))
            (from_str content))

  unfoldable pub determine_build_fixture :
      BuildSummaryRequest → JsonProvider → Result BuildSummaryResponse RuntimeError
  determine_build_fixture req p =
      if nat_beq req.exit_code 0
      then load_fixture F.summary_of "build_success.json" p
      else load_fixture F.summary_of "build_failure.json" p

  unfoldable pub execute : CapabilityRequest → JsonProvider → Result CapabilityResponse RuntimeError
  execute (build_summary req) p =
      and_then (determine_build_fixture req p) (λ resp. ok (summarised resp))
  execute (explain_rust req) p =
      and_then (load_fixture F.explanation_of "rust_explain.json" p) (λ resp. ok (explained resp))
