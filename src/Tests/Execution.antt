-- ===== src/Tests/Execution.antt =====
-- The engine and the executors on concrete inputs.
use cotrex_ai.Base.{ℕ, String, ◌≡◌, refl, ◌⊎◌, none, List, [], ◌∷◌, ok, err, false}
use cotrex_ai.FilePath.{FilePath, root_dir, parent_dir, normal, cur_dir}
use cotrex_ai.FilePath
use cotrex_ai.Base.Map
use cotrex_ai.Kernel.Store.Memory.{MemoryEventStore, Stamp, memory_store}
use cotrex_ai.Kernel.Store.Memory
use cotrex_ai.Kernel.Store.Memory.Laws
use cotrex_ai.Execution.Request.{
  file_write, ExecutionAction, ExecutionError, write, delete, ExecutionRequest,
}
use cotrex_ai.Execution.Policy
use cotrex_ai.Execution.Policy.{Granted, validate-ok, check_all-err}
use cotrex_ai.Execution.Registry
use cotrex_ai.Execution.Registry.{ExecutorRegistry, register_ok}
use cotrex_ai.Execution.System.{System}
use cotrex_ai.Execution.PathValidation.{
  resolve_within, validate_raw_path, canonical_target, climb, rejoin,
}
use cotrex_ai.Execution.Executors
use cotrex_ai.Execution.Executors.Confined
use cotrex_ai.Execution.Engine
use cotrex_ai.Execution.Engine.Audit
use cotrex_ai.Execution.Engine.Undeclared.{submit_undeclared}
use cotrex_ai.Kernel.Event.{Event}
use cotrex_ai.Base.{some}
use cotrex_ai.Execution.Executors.Effects

abbrev pub granted : Policy.ExecutionPolicy
granted = record { granted = file_write ∷ [] }

abbrev pub project : FilePath
project = root_dir ∷ normal "project" ∷ []

abbrev notes : FilePath
notes = normal "notes" ∷ normal "a.txt" ∷ []

abbrev pub save_notes : ExecutionRequest
save_notes = record {
  id = 7;
  action = write notes (104 ∷ 105 ∷ []) project;
  required_capabilities = file_write ∷ [];
}

-- A system in which `/project` exists and nothing below it; its state counts the writes.
abbrev pub toy : System
toy = record {
  State = ℕ;
  canonicalize =
      λ p s. elim p [ c ∷ (d ∷ (e ∷ rest)) ↦ err "No such file or directory" | path ↦ ok path ];
  exists = λ p s. false;
  create_dir_all = λ p s. (ok tt, s);
  write = λ p content s. (ok tt, 1);
  remove_file = λ p s. (err "No such file or directory", s);
  output = λ program wd s. (err "No such file or directory", s);
}

abbrev pub debug : ExecutionAction → String
debug a = "action"

abbrev empty : ExecutorRegistry ℕ
empty = record { executors = [] }

registered :
    (Registry.register Registry.file_write (Executors.file_write toy debug) empty).0 ≡ ok tt
unfolding Registry.register Map.get
registered = refl

abbrev notes_path : FilePath
notes_path = root_dir ∷ normal "project" ∷ normal "notes" ∷ normal "a.txt" ∷ []

notes_resolved : resolve_within toy 0 project notes ≡ ok notes_path
unfolding resolve_within canonical_target climb rejoin FilePath.join FilePath.starts_with
    FilePath.strip_prefix FilePath.is_absolute
notes_resolved = refl

file_write-Confined_example :
    let r = Executors.file_write toy debug 3 save_notes 0 in
    ((x : ExecutionError) × (r ≡ (err x, 0)))
    ⊎ ((path : FilePath) × (content : List ℕ) × (wd : FilePath) × (save_notes.action
          ≡ write path content wd)
        × Confined.Confined toy debug 0 wd path
        × Confined.Written toy debug 0 3 save_notes (FilePath.join wd path) content r)
file_write-Confined_example = Confined.file_write-Confined toy debug 0 3 save_notes

abbrev pub drop_notes : ExecutionRequest
drop_notes = record save_notes { action = delete notes project }

abbrev pub engine : Engine.ExecutionEngine memory_store ℕ
engine = record {
  store = record { events = []; next_sequence = 1; capacity = none };
  validator = Policy.validate granted;
  registry = record { executors = (Registry.file_write, Executors.file_write toy debug) ∷ [] };
}

abbrev pub times : Engine.SubmitEnv memory_store
times = record {
  first = record { id = 1; now = 60 };
  second = record { id = 2; now = 61 };
  requested_at = 60;
  finished_at = 61;
  duration_ms = 4;
  executor_ms = 3;
}

saved :
    Engine.submit times save_notes (engine, 0)
    ≡ (ok (Executors.done 3 save_notes), (Engine.submit times save_notes (engine, 0)).1)
unfolding Engine.submit Engine.append Engine.dispatch Engine.report Registry.get
    Registry.discriminant Map.get Policy.validate Policy.check_all Memory.append
    Executors.file_write Executors.write_file Executors.save resolve_within canonical_target climb
    rejoin FilePath.join FilePath.starts_with FilePath.strip_prefix FilePath.is_absolute
    validate_raw_path FilePath.parent
saved = refl

written : (Engine.submit times save_notes (engine, 0)).1.1 ≡ 1
unfolding Engine.submit Engine.append Engine.dispatch Engine.report Registry.get
    Registry.discriminant Map.get Policy.validate Policy.check_all Memory.append
    Executors.file_write Executors.write_file Executors.save resolve_within canonical_target climb
    rejoin FilePath.join FilePath.starts_with FilePath.strip_prefix FilePath.is_absolute
    validate_raw_path FilePath.parent
written = refl

submit-Audited_example :
    Audit.Audited
      (λ s. s.events)
      Laws.memory_store-IsEventLog
      times
      save_notes
      engine
      0
      (Engine.submit times save_notes (engine, 0))
submit-Audited_example =
    Audit.submit-Audited (λ s. s.events) Laws.memory_store-IsEventLog times save_notes engine 0

executor-Acts_example :
    Effects.Acts toy debug
      (write notes (104 ∷ 105 ∷ []) project)
      0
      (Executors.file_write toy debug 3 save_notes 0).1
executor-Acts_example = Effects.executor-Acts toy debug 3 save_notes 0

-- A write that declares no capability, at an engine whose policy grants none.
abbrev bare_write : ExecutionRequest
bare_write = record save_notes { required_capabilities = [] }

abbrev closed : Engine.ExecutionEngine memory_store ℕ
closed = record engine { validator = Policy.validate (record { granted = [] }) }

bare_asked : Event
bare_asked = record {
  id = 1;
  sequence = 1;
  occurred_at = 60;
  payload = Engine.requested 60 bare_write;
}

write_found : Registry.get closed.registry bare_write.action ≡ some (Executors.file_write toy debug)
unfolding Registry.get Registry.discriminant Map.get
write_found = refl

bare_stored :
    (Memory.append times.first (Engine.requested 60 bare_write) closed.store).0 ≡ ok bare_asked
unfolding Memory.append bare_asked
bare_stored = refl

submit_undeclared_example :
    (Engine.submit times bare_write (closed, 0)).1.1
    ≡ (Executors.file_write toy debug 3 bare_write 0).1
submit_undeclared_example =
    submit_undeclared Laws.memory_store-IsEventLog (record { granted = [] }) times bare_write closed
      0 (Executors.file_write toy debug) bare_asked refl refl write_found bare_stored
