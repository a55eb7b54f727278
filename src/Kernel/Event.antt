-- ===== src/Kernel/Event.antt =====
-- The events of the kernel (kernel/src/event.rs).
use cotrex_ai.Base.{ℕ, String, ◌≡◌, ◌↔◌, Bool, true, false, List, map, arith, Eq}
use cotrex_ai.FilePath.{FilePath}

-- `uuid::Uuid`, a 128-bit number. New ones are chosen by the environment.
abbrev pub Uuid : Type 0
Uuid = ℕ

pub record ExecutionRequested : Type 0 where
  pub execution_id : Uuid
  pub command : String
  pub working_directory : FilePath
  pub requested_at : ℕ

-- The `i32` exit code is kept as its 32-bit pattern.
pub record ExecutionCompleted : Type 0 where
  pub execution_id : Uuid
  pub exit_code : ℕ
  pub duration_ms : ℕ
  pub completed_at : ℕ

pub record ExecutionFailed : Type 0 where
  pub execution_id : Uuid
  pub error : String
  pub duration_ms : ℕ
  pub failed_at : ℕ

pub data FileOperation : Type 0 where
  created modified deleted : FileOperation

abbrev operation_beq : FileOperation → FileOperation → Bool
operation_beq created created = true
operation_beq modified modified = true
operation_beq deleted deleted = true
operation_beq _ _ = false

pub operation_beq_iff : (a b : FileOperation) → (operation_beq a b ≡ true) ↔ (a ≡ b)
operation_beq_iff created b = ground arith
operation_beq_iff _ b = ground arith

instance abbrev pub operation_eq : Eq FileOperation
operation_eq = record { beq = operation_beq; beq_iff = operation_beq_iff }

pub record FileChanged : Type 0 where
  pub path : FilePath
  pub operation : FileOperation
  pub timestamp : ℕ

pub data EventPayload : Type 0 where
  file_changed : FileChanged → EventPayload
  execution_requested : ExecutionRequested → EventPayload
  execution_completed : ExecutionCompleted → EventPayload
  execution_failed : ExecutionFailed → EventPayload

pub record Event : Type 0 where
  pub id : Uuid
  pub sequence : ℕ
  pub occurred_at : ℕ
  pub payload : EventPayload

-- What a list of events reports, without the ids, numbers and times of the store.
abbrev pub payloads : List Event → List EventPayload
payloads = map (λ e. e.payload)
