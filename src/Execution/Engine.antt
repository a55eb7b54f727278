-- ===== src/Execution/Engine.antt =====
-- `ExecutionEngine` (execution/src/engine.rs) over any event store, any validator and any executors.
-- The proofs are in the module below.
pub mod Audit
pub mod World
pub mod Trail
pub mod Undeclared
pub mod Threads
use cotrex_ai.Base.{
  ℕ, String, ◌<>◌, Option, none, some, ok_or, Result, ok, err, map_err, Method, ◌>>=◌, ◌>>◌, pure,
  raise, lift,
}
use cotrex_ai.FilePath.{FilePath, display}
use cotrex_ai.Kernel.Event.{
  Uuid, EventPayload, execution_requested, execution_completed, execution_failed,
}
use cotrex_ai.Kernel.Store.{EventStore}
use cotrex_ai.Execution.Request.{
  ExecutionAction, run, write, delete, ExecutionRequest, ExecutionResult, ExecutionError,
  event_append_failed, executor_failed, internal, Executor,
}
use cotrex_ai.Execution.Registry.{ExecutorRegistry, get}

-- `Box<dyn CapabilityValidator>`
abbrev CapabilityValidator : Type 0
CapabilityValidator = ExecutionRequest → Result (Unit {0}) ExecutionError

pub record ExecutionEngine (S : EventStore) (W : Type 0) : Type 0 where
  pub store : S.State
  pub validator : CapabilityValidator
  pub registry : ExecutorRegistry W

-- What one `submit` takes from outside: the answers to its two appends, the clock before and after
-- the execution, the time that the engine measures and the time that the executor measures.
pub record SubmitEnv (S : EventStore) : Type 0 where
  pub first : S.Env
  pub second : S.Env
  pub requested_at : ℕ
  pub finished_at : ℕ
  pub duration_ms : ℕ
  pub executor_ms : ℕ

-- How the event names the action.
abbrev pub command_of : ExecutionAction → String
command_of (run command wd) = command
command_of (write path content wd) = "write:" <> display path
command_of (delete path wd) = "delete:" <> display path

abbrev directory_of : ExecutionAction → FilePath
directory_of (run command wd) = wd
directory_of (write path content wd) = wd
directory_of (delete path wd) = wd

abbrev pub requested : ℕ → ExecutionRequest → EventPayload
requested now request = execution_requested (record {
  execution_id = request.id;
  command = command_of request.action;
  working_directory = directory_of request.action;
  requested_at = now;
})

-- `unwrap_or`
abbrev pub unwrap_or {ℓ} : {A : Type ℓ} → Option A → A → A
unwrap_or none d = d
unwrap_or (some a) d = a

abbrev pub completed : ℕ → ℕ → ExecutionRequest → ExecutionResult → EventPayload
completed ms now request result = execution_completed (record {
  execution_id = request.id;
  exit_code = unwrap_or result.exit_code 0;
  duration_ms = ms;
  completed_at = now;
})

abbrev pub failed : ℕ → ℕ → ExecutionRequest → String → EventPayload
failed ms now request reason =
    execution_failed
      (record { execution_id = request.id; error = reason; duration_ms = ms; failed_at = now })

module _ {S : EventStore} {W : Type 0} where
  unfoldable pub new : S.State → CapabilityValidator → ExecutorRegistry W → ExecutionEngine S W
  new store validator registry = record {
    store = store;
    validator = validator;
    registry = registry;
  }

  -- `self.store.append(payload)?`; the engine and the world are what the method changes.
  unfoldable pub append :
      S.Env → EventPayload → Method (ExecutionEngine S W × W) (Unit {0}) ExecutionError
  append w payload (g, world) =
      let (appended, store) = S.append w payload g.store in
      (
        elim appended [ ok e ↦ ok tt | err x ↦ err (event_append_failed x) ],
        (record g { store = store }, world),
      )

  -- "Append result event and return"
  unfoldable pub report :
      SubmitEnv S
      → ExecutionRequest
      → Result ExecutionResult ExecutionError
      → Method (ExecutionEngine S W × W) ExecutionResult ExecutionError
  report w request (ok result) = do
    append w.second (completed w.duration_ms w.finished_at request result)
    pure result
  report w request (err (executor_failed reason)) = do
    append w.second (failed w.duration_ms w.finished_at request reason)
    raise (executor_failed reason)
  report w request (err other) = raise other

  -- "Dispatch execution" and what follows it.
  unfoldable pub dispatch :
      SubmitEnv S
      → ExecutionRequest
      → Executor W
      → Method (ExecutionEngine S W × W) ExecutionResult ExecutionError
  dispatch w request executor (g, world) =
      let (result, world') = executor w.executor_ms request world in
      report w request result (g, world')

  unfoldable pub submit :
      SubmitEnv S
      → ExecutionRequest
      → Method (ExecutionEngine S W × W) ExecutionResult ExecutionError
  submit w request (g, world) =
      (do
        lift (g.validator request)
        executor ← lift (ok_or (get g.registry request.action) (internal "no executor registered"))
        append w.first (requested w.requested_at request)
        dispatch w request executor)
        (g, world)
