-- ===== src/Providers/Mock.antt =====
-- The mock provider (providers/mock/src/lib.rs) and the mock model (runtime/src/mock_model.rs).
pub mod Verdicts
use cotrex_ai.Base.{
  ℕ, String, ◌<>◌, Bool, true, false, ◌++◌, Option, none, some, List, [], ◌∷◌, Result, ok, nat_beq,
  if◌then◌else◌,
}
use cotrex_ai.Base.Text.{show_u64, show_i32}
use cotrex_ai.Base.Chars.{contains_text}
use Prim.Native.String.{len}
use cotrex_ai.Contract.{
  BuildSummaryRequest, BuildSummaryResponse, ExplainRustRequest, ExplainRustResponse,
  CapabilityRequest, build_summary, explain_rust, CapabilityResponse, summarised, explained,
  ProviderInfo, build_summary_kind, explain_rust_kind,
}
use cotrex_ai.Runtime.Local.{RuntimeError, LocalModel, ModelInfo, ProviderHealth, healthy}
use cotrex_ai.Runtime.Config.{ResolvedConfig}

abbrev verdict : Bool → String → Option String → BuildSummaryResponse
verdict success summary recommendation = record {
  success = success;
  summary = summary;
  recommendation = recommendation;
}

unfoldable pub build_summary_response : BuildSummaryRequest → BuildSummaryResponse
build_summary_response req =
    if nat_beq req.exit_code 0
    then verdict true "Build completed successfully." none
    else if nat_beq req.exit_code 101
    then verdict false "Compilation failed." (some "Inspect compiler diagnostics.")
    else if nat_beq req.exit_code 102
    then verdict false "Build failed: linker error."
        (some "Verify all dependencies are linked correctly.")
    else verdict false ("Build failed with exit code " <> show_i32 req.exit_code <> ".")
        (some "Review command output for details.")

abbrev mention : Bool → String → List String
mention true trait = trait ∷ []
mention false trait = []

-- `traits.join(", ")`, or what stands for no trait.
abbrev detail : List String → String
detail [] = "no notable Rust patterns detected"
detail (t ∷ []) = t
detail (t ∷ (u ∷ us)) = t <> ", " <> detail (u ∷ us)

unfoldable pub explain_rust_response : ExplainRustRequest → ExplainRustResponse
explain_rust_response req =
    let traits =
      mention (contains_text req.source "fn ") "defines functions"
      ++ mention (contains_text req.source "let ") "uses local variables"
      ++ mention (contains_text req.source "impl ") "implements methods" in
    record {
      explanation =
          "The provided source ("
          <> show_u64 (len req.source)
          <> " chars) "
          <> detail traits
          <> ". Question: "
          <> req.question;
    }

unfoldable pub execute : CapabilityRequest → Result CapabilityResponse RuntimeError
execute (build_summary req) = ok (summarised (build_summary_response req))
execute (explain_rust req) = ok (explained (explain_rust_response req))

unfoldable pub info : ProviderInfo
info = record {
  name = "mock";
  version = "0.1.0";
  supported_capabilities = build_summary_kind ∷ explain_rust_kind ∷ [];
}

unfoldable pub health : ProviderHealth
health = healthy

-- `MockLocalModel`, which keeps nothing but its name.
abbrev pub mock_model : LocalModel
mock_model = record {
  State = ModelInfo;
  Config = ResolvedConfig;
  load = λ config s. (ok tt, s);
  infer = λ request s. ok ("mock: " <> request.prompt);
  unload = λ s. (ok tt, s);
  info = λ s. s;
}

abbrev pub mock_info : ModelInfo
mock_info = record { name = "mock-model"; version = "0.1.0"; backend = "mock" }
