-- ===== src/Tests/Calls.antt =====
-- Calls of a capability on concrete inputs, over a serde_json that reads no text, with the mock
-- provider and the mock model.
use cotrex_ai.Base.{
  ◌⊎◌, ◌∷◌, ◌<>◌, String, ◌≡◌, true, false, none, some, [], Result, ok, err, and_then, refl,
}
use cotrex_ai.Contract.{
  ProviderInfo, BuildSummaryRequest, BuildSummaryResponse, CapabilityRequest, CapabilityResponse,
  build_summary, summarised, ready,
}
use cotrex_ai.Base.Chars.{trim}
use cotrex_ai.Runtime.Local.{RuntimeError, provider_error, LocalProvider, adapt_request}
use cotrex_ai.Runtime.Local
use cotrex_ai.Runtime.Config.{resolved_default}
use cotrex_ai.Runtime.Output.{
  Json, ModelOutput, OutputFormat, parse, parse_response, extract_format, from_brace, json, empty,
}
use cotrex_ai.Runtime.Prompt.{
  InferenceContext, modified, Hasher, write_all, default_context, assemble,
}
use cotrex_ai.Base.Sort.{sort}
use Prim.Native.String.{len}
use cotrex_ai.Runtime.Calls.{
  OrchestrationRequest, OrchestrationResponse, Orchestrator, execute, reparse, execute_capability,
  inject_prompt, extract_raw_text,
}
use cotrex_ai.Runtime.Calls.Kinds.{Answers, call-Answers, verdict_lost}
use cotrex_ai.Runtime.Calls.Paths.{orchestrator_is_direct}
use cotrex_ai.Providers.Mock.{build_summary_response, mock_model, mock_info}
use cotrex_ai.Providers.Mock
use cotrex_ai.Providers.Capabilities.{Related, parse_build, parsers_compared}

-- Values are texts; only "yes" is a value, which has no fields.
abbrev name_card : ProviderInfo
name_card = record { name = "local"; version = "1"; supported_capabilities = [] }

abbrev plain : Json
plain = record {
  Value = String;
  from_str = λ t. err "no JSON";
  first_value = λ t. none;
  field = λ key v. none;
  as_str = λ v. some v;
  as_bool = λ v. none;
}

abbrev build : BuildSummaryRequest
build = record {
  metadata = record { id = 1; timestamp = 0 };
  command = "cargo build";
  exit_code = 101;
  stdout = "";
  stderr = "error";
  prompt = "";
  temperature = 0;
  max_tokens = 10;
}

abbrev call : OrchestrationRequest
call = record { capability = build_summary build; context = some default_context }

abbrev over_mock : Orchestrator plain
over_mock = record {
  provider = Mock.execute;
  context_source = ok default_context;
  prompt_assembler = λ c q. "prompt";
  output_parser = parse plain;
  capability_parser = parse_response plain;
}

abbrev quiet : CapabilityRequest → Result CapabilityResponse RuntimeError
quiet q =
    ok (
      summarised
        (record { success = true; summary = "Compilation failed."; recommendation = none }))

abbrev reported : CapabilityResponse
reported = summarised (record {
  success = false;
  summary = "Compilation failed.";
  recommendation = some "Inspect compiler diagnostics.";
})

abbrev as_success : CapabilityResponse
as_success =
    summarised (record { success = true; summary = "Compilation failed."; recommendation = none })

abbrev final : OrchestrationResponse
final = record { capability = as_success; raw_output = "Compilation failed."; warnings = [] }

abbrev directly : Result CapabilityResponse RuntimeError
directly =
    execute_capability plain mock_model (λ e. "state error") mock_info (parse plain)
      (parse_response plain) (build_summary build)

call-Answers_example :
    (((e : RuntimeError) × (execute plain over_mock call ≡ err e))
      ⊎ ((r : OrchestrationResponse) × (execute plain over_mock call ≡ ok r)
          × Answers (build_summary build) r.capability))
    × (((e : RuntimeError) × (directly ≡ err e))
        ⊎ ((r : CapabilityResponse) × (directly ≡ ok r) × Answers (build_summary build) r))
call-Answers_example =
    call-Answers plain over_mock call mock_model (λ e. "state error") mock_info refl

verdict_lost_example :
    (r : OrchestrationResponse) × (execute plain over_mock call ≡ ok r)
    × (execute plain (record over_mock { provider = quiet }) call ≡ ok r)
    × (r.capability ≡ as_success)
unfolding Mock.execute build_summary_response inject_prompt extract_raw_text extract_format trim
    from_brace
verdict_lost_example =
    verdict_lost plain over_mock call quiet reported as_success
      (build_summary (record build { prompt = "prompt" })) build "Compilation failed." refl refl
      refl refl refl refl refl refl refl

-- The orchestrator reports the failed build as a success.
failed_build_succeeds : execute plain over_mock call ≡ ok final
unfolding execute Mock.execute build_summary_response inject_prompt extract_raw_text parse
    parse_response extract_format trim from_brace reparse
failed_build_succeeds = refl

abbrev serving : LocalProvider mock_model
serving = record {
  lifecycle = ready;
  config = resolved_default;
  model = mock_info;
  info = name_card;
}

abbrev over_local : Orchestrator plain
over_local = record {
  provider = λ req. Local.execute mock_model (λ e. "state error") req serving;
  context_source = err (provider_error "no kernel");
  prompt_assembler = assemble;
  output_parser = parse plain;
  capability_parser = parse_response plain;
}

orchestrator_is_direct_example :
    and_then (execute plain over_local call) (λ r. ok r.capability)
    ≡ execute_capability plain mock_model
        (λ e. "state error")
        mock_info
        (parse plain)
        (parse_response plain)
        (inject_prompt (build_summary build) (assemble default_context (build_summary build)))
orchestrator_is_direct_example =
    orchestrator_is_direct plain mock_model (λ e. "state error") serving over_local call refl refl
      refl

abbrev bare : OutputFormat plain
bare = json "yes"

abbrev spoken : ModelOutput plain
spoken = record { raw = "yes"; format = bare; warnings = [] }

parsers_compared_example :
    (bare ≡ empty)
    ⊎ ((a : BuildSummaryResponse) × (b : BuildSummaryResponse) × (parse_build plain bare
          ≡ summarised a)
        × (parse_response plain spoken (build_summary build) ≡ summarised b)
        × Related plain "yes" bare a b)
parsers_compared_example = parsers_compared plain spoken build refl

-- A hasher that writes down all that it is given.
abbrev scribe : Hasher
scribe = record {
  State = String;
  start = "";
  write_u8 = λ n h. h;
  write_usize = λ n h. h;
  write_str = λ t h. h <> t;
  write_option = λ o h. h;
  finish = len;
}

abbrev changed : InferenceContext
changed = record {
  recent_changes = "b" ∷ "a" ∷ [];
  workspace_status = modified;
  file_count = 2;
  hash = 0;
  git_branch = none;
  git_dirty = true;
  git_modified_count = 1;
  tracked_files = 2;
}

written_in_order : write_all scribe (sort changed.recent_changes) "" ≡ "ab"
unfolding write_all sort
written_in_order = refl
