-- ===== src/Contract.antt =====
-- The protocol (contract/src/lib.rs) and the provider states (contract/src/provider_state.rs). An
-- `f32` and an `i32` are kept as their 32-bit patterns.
use cotrex_ai.Base.{ℕ, String, Option, Bool, List, Result, ok, err}
use cotrex_ai.Kernel.Event.{Uuid}

pub data ProviderState : Type 0 where
  uninitialized loading ready failed unloading : ProviderState

pub data ProviderStateError : Type 0 where
  invalid_load invalid_unload : ProviderState → ProviderStateError

unfoldable pub load : ProviderState → Result ProviderState ProviderStateError
load uninitialized = ok loading
load failed = ok loading
load current = err (invalid_load current)

unfoldable pub loaded : ProviderState → Result ProviderState ProviderStateError
loaded s = ok ready

unfoldable pub fail : ProviderState → Result ProviderState ProviderStateError
fail s = ok failed

unfoldable pub unload : ProviderState → Result ProviderState ProviderStateError
unload ready = ok unloading
unload current = err (invalid_unload current)

unfoldable pub unloaded : ProviderState → Result ProviderState ProviderStateError
unloaded s = ok uninitialized

pub record ProtocolVersion : Type 0 where
  major : ℕ
  minor : ℕ

-- `PROTOCOL_VERSION`
abbrev protocol_version : ProtocolVersion
protocol_version = record { major = 1; minor = 0 }

pub data CapabilityError : Type 0 where
  invalid_request unsupported_protocol_version : CapabilityError

pub data CapabilityKind : Type 0 where
  build_summary_kind explain_rust_kind : CapabilityKind

pub record ProviderInfo : Type 0 where
  pub name : String
  pub version : String
  pub supported_capabilities : List CapabilityKind

pub record RequestMetadata : Type 0 where
  pub id : Uuid
  pub timestamp : ℕ

pub record BuildSummaryRequest : Type 0 where
  pub metadata : RequestMetadata
  pub command : String
  pub exit_code : ℕ
  pub stdout : String
  pub stderr : String
  pub prompt : String
  pub temperature : ℕ
  pub max_tokens : ℕ

pub record ExplainRustRequest : Type 0 where
  pub metadata : RequestMetadata
  pub source : String
  pub question : String
  pub prompt : String
  pub temperature : ℕ
  pub max_tokens : ℕ

pub record BuildSummaryResponse : Type 0 where
  pub success : Bool
  pub summary : String
  pub recommendation : Option String

pub record ExplainRustResponse : Type 0 where
  pub explanation : String

pub data CapabilityRequest : Type 0 where
  build_summary : BuildSummaryRequest → CapabilityRequest
  explain_rust : ExplainRustRequest → CapabilityRequest

pub data CapabilityResponse : Type 0 where
  summarised : BuildSummaryResponse → CapabilityResponse
  explained : ExplainRustResponse → CapabilityResponse
