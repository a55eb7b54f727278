-- ===== src/Runtime/Output.antt =====
-- What the runtime makes of a model's text: the output parser (runtime/src/parser.rs) and the parser
-- of responses for every capability (runtime/src/capability_parser.rs). serde_json is a parameter.
use cotrex_ai.Base.{
  ℕ, String, Bool, true, false, not, ◌&&◌, Option, none, some, List, [], ◌∷◌, Result, ok, err,
  if◌then◌else◌,
}
use cotrex_ai.Base.Chars.{trim, is_empty_text, contains_text}
use Prim.Native.String.{len, slice}
use package.text.Mathlib.Text.{find?}
use cotrex_ai.Contract.{
  CapabilityRequest, build_summary, explain_rust, CapabilityResponse, summarised, explained,
}
use cotrex_ai.Runtime.Config.{unwrap_or}

-- serde_json on values; `first_value` is the first item of `Deserializer::into_iter`.
pub record Json : Type 1 where
  pub Value : Type 0
  pub from_str : String → Result Value String
  pub first_value : String → Option (Result Value String)
  pub field : String → Value → Option Value
  pub as_str : Value → Option String
  pub as_bool : Value → Option Bool

-- `Option::and_then`
abbrev pub option_then {ℓ κ} : {A : Type ℓ} {B : Type κ} → Option A → (A → Option B) → Option B
option_then none f = none
option_then (some a) f = f a

module _ (J : Json) where
  pub data OutputFormat : Type 0 where
    json : J.Value → OutputFormat
    text : String → OutputFormat
    empty : OutputFormat

  pub record ModelOutput : Type 0 where
    pub raw : String
    pub format : OutputFormat
    pub warnings : List String

  -- The last test of `extract_format`, on a text that is no JSON.
  abbrev incomplete : String → List String
  incomplete trimmed =
      if contains_text trimmed "{" && not (contains_text trimmed "}")
      then "incomplete JSON: found '{' without matching '}'" ∷ []
      else []

  -- What the first brace of a text opens.
  unfoldable pub embedded : String → Option (Result J.Value String) → OutputFormat × List String
  embedded trimmed (some (ok v)) = (json v, [])
  embedded trimmed (some (err e)) =
      (text trimmed, "found '{' but failed to parse JSON object" ∷ incomplete trimmed)
  embedded trimmed none =
      (text trimmed, "found '{' but failed to parse JSON object" ∷ incomplete trimmed)

  unfoldable pub from_brace : String → Option ℕ → OutputFormat × List String
  from_brace trimmed none = (text trimmed, incomplete trimmed)
  from_brace trimmed (some start) =
      embedded trimmed (J.first_value (slice trimmed start (len trimmed)))

  -- With the warnings that it adds.
  unfoldable pub extract_format : String → OutputFormat × List String
  extract_format t = if is_empty_text (trim t) then (empty, []) else elim (J.from_str (trim t)) [
    | ok v ↦ (json v, [])
    | err e ↦ from_brace (trim t) (find? (trim t) "{")
  ]

  -- `DefaultOutputParser::parse`
  unfoldable pub parse : String → ModelOutput
  parse t =
      let (format, warnings) = extract_format t in
      record { raw = t; format = format; warnings = warnings }

  -- `val.get(key).and_then(|v| v.as_str())`, where the format is JSON, and the same of a Boolean.
  abbrev pub string_field : String → OutputFormat → Option String
  string_field key (json v) = option_then (J.field key v) J.as_str
  string_field key (text t) = none
  string_field key empty = none

  abbrev pub bool_field : String → OutputFormat → Option Bool
  bool_field key (json v) = option_then (J.field key v) J.as_bool
  bool_field key (text t) = none
  bool_field key empty = none

  -- `DefaultCapabilityResponseParser::parse`
  unfoldable pub parse_response : ModelOutput → CapabilityRequest → CapabilityResponse
  parse_response output (build_summary req) = summarised (record {
    success =
        if is_empty_text output.raw
        then false
        else unwrap_or (bool_field "success" output.format) true;
    summary = unwrap_or (string_field "summary" output.format) output.raw;
    recommendation = none;
  })
  parse_response output (explain_rust req) =
      explained
        (record { explanation = unwrap_or (string_field "explanation" output.format) output.raw })
