-- ===== src/Execution/Executors.antt =====
-- The executors (execution/src/executor/file_write.rs, file_delete.rs and command.rs) on Unix.
pub mod Confined
pub mod Effects
use cotrex_ai.Base.{
  ℕ, String, ◌<>◌, true, Option, none, some, List, [], Result, ok, err, map_err, Method, ◌>>=◌,
  ◌>>◌, pure, raise, lift, if◌then◌else◌, Bool,
}
use cotrex_ai.Base.Text.{show_u64}
use cotrex_ai.FilePath.{FilePath, parent}
use cotrex_ai.Kernel.Event.{Uuid}
use cotrex_ai.Execution.Request.{
  ExecutionAction, run, write, delete, ExecutionRequest, ExecutionResult, ExecutionError,
  executor_failed, internal, Executor,
}
use cotrex_ai.Execution.System.{System, Output}
use cotrex_ai.Execution.PathValidation.{validate_raw_path, resolve_within}

abbrev pub done : ℕ → ExecutionRequest → ExecutionResult
done ms q = record {
  execution_id = q.id;
  success = true;
  exit_code = some 0;
  duration_ms = ms;
  error = none;
  stdout = [];
  stderr = [];
}

abbrev pub is_none {ℓ} : {A : Type ℓ} → Option A → Bool
is_none none = true
is_none (some a) = Bool.false

abbrev signalled : Option ℕ → Option String
signalled none = none
signalled (some sig) = some ("process terminated by signal " <> show_u64 sig)

-- `debug` is the derived `{:?}` of an action.
module _ (O : System) (debug : ExecutionAction → String) where
  -- A call of the system whose error is reported as `ExecutorFailed` with a text before it.
  abbrev pub calling :
      {A : Type 0} → String → Method O.State A String → Method O.State A ExecutionError
  calling text m s = let (r, t) = m s in (map_err (λ e. executor_failed (text <> e)) r, t)

  abbrev resolved : FilePath → FilePath → Method O.State FilePath ExecutionError
  resolved wd path s = (resolve_within O s wd path, s)

  abbrev pub create_parents : Option FilePath → Method O.State (Unit {0}) ExecutionError
  create_parents none = pure tt
  create_parents (some dir) = calling "failed to create parent directories: " (O.create_dir_all dir)

  -- The rest of `FileWriteExecutor::execute`, from the checked path on.
  unfoldable pub save :
      ℕ → ExecutionRequest → FilePath → List ℕ → Method O.State ExecutionResult ExecutionError
  save ms q target content = do
    create_parents (parent target)
    calling "file write failed: " (O.write target content)
    pure (done ms q)

  -- `FileWriteExecutor::execute` on its own action.
  unfoldable pub write_file :
      ℕ
      → ExecutionRequest
      → FilePath
      → List ℕ
      → FilePath
      → Method O.State ExecutionResult ExecutionError
  write_file ms q path content wd = do
    lift (validate_raw_path path)
    target ← resolved wd path
    save ms q target content

  unfoldable pub file_write : Executor O.State
  file_write ms q = elim q.action [
    | write path content wd ↦ write_file ms q path content wd
    | other ↦ raise (internal ("FileWriteExecutor received non-FileWrite action: " <> debug other))
  ]

  -- "Idempotent: missing file is a successful no-op"
  abbrev remove_existing : FilePath → Method O.State (Unit {0}) ExecutionError
  remove_existing target s =
      if O.exists target s
      then calling "file delete failed: " (O.remove_file target) s
      else (ok tt, s)

  -- `FileDeleteExecutor::execute` on its own action.
  unfoldable pub delete_file :
      ℕ → ExecutionRequest → FilePath → FilePath → Method O.State ExecutionResult ExecutionError
  delete_file ms q path wd = do
    lift (validate_raw_path path)
    target ← resolved wd path
    remove_existing target
    pure (done ms q)

  unfoldable pub file_delete : Executor O.State
  file_delete ms q = elim q.action [
    | delete path wd ↦ delete_file ms q path wd
    | other ↦
        raise (internal ("FileDeleteExecutor received non-FileDelete action: " <> debug other))
  ]

  -- The result that `CommandExecutor` builds of what the process left.
  abbrev finished : ℕ → ExecutionRequest → Output → ExecutionResult
  finished ms q out = record {
    execution_id = q.id;
    success = is_none (signalled out.signal);
    exit_code = out.code;
    duration_ms = ms;
    error = signalled out.signal;
    stdout = out.stdout;
    stderr = out.stderr;
  }

  unfoldable pub command : Executor O.State
  command ms q = elim q.action [
    | run program wd ↦ do
      out ← calling "command spawn failed: " (O.output program wd)
      pure (finished ms q out)
    | other ↦ raise (internal ("CommandExecutor received non-CommandRun action: " <> debug other))
  ]
