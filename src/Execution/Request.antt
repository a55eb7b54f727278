-- ===== src/Execution/Request.antt =====
-- Requests, results and errors (execution/src/request.rs, result.rs and error.rs), and the trait
-- `Executor` (execution/src/executor.rs).
use cotrex_ai.Base.{ℕ, String, ◌<>◌, ◌≡◌, ◌↔◌, Bool, true, false, Option, List, arith, Eq, Method}
use cotrex_ai.FilePath.{FilePath}
use cotrex_ai.Kernel.Event.{Uuid}
use cotrex_ai.Kernel.Store.{EventStoreError, show_store_error}

pub data Capability : Type 0 where
  command_run file_write file_delete : Capability

abbrev capability_beq : Capability → Capability → Bool
capability_beq command_run command_run = true
capability_beq file_write file_write = true
capability_beq file_delete file_delete = true
capability_beq _ _ = false

pub capability_beq_iff : (a b : Capability) → (capability_beq a b ≡ true) ↔ (a ≡ b)
capability_beq_iff command_run b = ground arith
capability_beq_iff _ b = ground arith

instance abbrev pub capability_eq : Eq Capability
capability_eq = record { beq = capability_beq; beq_iff = capability_beq_iff }

-- `{:?}`
abbrev pub show_capability : Capability → String
show_capability command_run = "CommandRun"
show_capability file_write = "FileWrite"
show_capability file_delete = "FileDelete"

-- A command and its directory; a path, its content and the directory; a path and the directory.
pub data ExecutionAction : Type 0 where
  run : String → FilePath → ExecutionAction
  write : FilePath → List ℕ → FilePath → ExecutionAction
  delete : FilePath → FilePath → ExecutionAction

pub record ExecutionRequest : Type 0 where
  pub id : Uuid
  pub action : ExecutionAction
  pub required_capabilities : List Capability

unfoldable pub new : Uuid → ExecutionAction → List Capability → ExecutionRequest
new id action required = record { id = id; action = action; required_capabilities = required }

-- The `i32` exit code is kept as its 32-bit pattern.
pub record ExecutionResult : Type 0 where
  pub execution_id : Uuid
  pub success : Bool
  pub exit_code : Option ℕ
  pub duration_ms : ℕ
  pub error : Option String
  pub stdout : List ℕ
  pub stderr : List ℕ

pub data ExecutionError : Type 0 where
  validation_failed : String → ExecutionError
  event_append_failed : EventStoreError → ExecutionError
  executor_failed : String → ExecutionError
  internal : String → ExecutionError

-- `Display` of an error.
abbrev pub show_error : ExecutionError → String
show_error (validation_failed reason) = "validation failed: " <> reason
show_error (event_append_failed e) = "event append failed: " <> show_store_error e
show_error (executor_failed reason) = "executor failed: " <> reason
show_error (internal reason) = "internal error: " <> reason

pub data RegistryError : Type 0 where
  duplicate_executor : RegistryError

-- The trait: an executor acts on the world, of type `W`. The number is the time in milliseconds
-- that its own clock will measure.
abbrev pub Executor : Type 0 → Type 0
Executor W = ℕ → ExecutionRequest → Method W ExecutionResult ExecutionError
