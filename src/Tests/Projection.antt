-- ===== src/Tests/Projection.antt =====
-- `FileChangeProjection` on concrete inputs.
use cotrex_ai.Base.{◌≡◌, refl, none, some, [], ◌∷◌, arith, ok, err}
use cotrex_ai.Base.Map
use cotrex_ai.Base.Text.{show_u64}
use cotrex_ai.FilePath.{normal}
use cotrex_ai.Kernel.Event.{Event, EventPayload, file_changed, FileOperation}
use cotrex_ai.Kernel.Store.{EventStoreError, replay_failure, ReplayResult}
use cotrex_ai.Kernel.Store.Memory.{MemoryEventStore, Stamp, append, replay, memory_store}
use cotrex_ai.Kernel.Store.Memory
use cotrex_ai.Kernel.Store.Memory.Laws
use cotrex_ai.Kernel.Projection
use cotrex_ai.Kernel.Projection.{
  FileChangeProjection, initialized, processing, rebuilding, process_event, rebuild, get_file,
  start_processing,
}
use cotrex_ai.Kernel.Projection.Files.{IsCurrent}
use cotrex_ai.Kernel.Projection.Rebuild.{rebuild-IsCurrent}
use cotrex_ai.Kernel.Projection.Lifecycle.{start, fail, rebuild_from, run, failed_rebuild_final}

abbrev stamp : Stamp
stamp = record { id = 1; now = 50 }

abbrev touch : FileOperation → EventPayload
touch operation =
    file_changed (record { path = normal "a" ∷ []; operation = operation; timestamp = 50 })

abbrev store : MemoryEventStore
store =
    let s = (append stamp (touch FileOperation.created) Memory.new).1 in
    (append stamp (touch FileOperation.modified) s).1

rebuilt_file :
    get_file (rebuild memory_store stamp store Projection.new).1 (normal "a" ∷ [])
    ≡ some (record {
      path = normal "a" ∷ [];
      last_operation = FileOperation.modified;
      change_count = 2;
    })
unfolding get_file Map.get Map.insert rebuild Projection.replay_into Projection.process_all
    Projection.process_event Projection.new replay append Memory.new
rebuilt_file = refl

one-IsValid : Laws.IsValid (append stamp (touch FileOperation.created) Memory.new).1
one-IsValid =
    Laws.append-IsValid stamp _ Memory.new Laws.new-IsValid (unfold Memory.new in omega arith)

store-IsValid : Laws.IsValid store
store-IsValid = Laws.append-IsValid stamp _ _ one-IsValid (unfold Memory.new append in omega arith)

abbrev all : ReplayResult
all = record { events = store.events; snapshot_end = 2 }

replayed : replay 1 store ≡ ok all
unfolding replay append Memory.new Memory.check_order
replayed = refl

rebuild-IsCurrent_example :
    let r = rebuild memory_store stamp store Projection.new in
    (r.0 ≡ ok tt) × (r.1.status ≡ initialized) × IsCurrent r.1 store.events
rebuild-IsCurrent_example =
    rebuild-IsCurrent memory_store stamp store Laws.memory_store-IsEventLog Projection.new all
      store-IsValid (unfold Projection.new in λ e. cc) replayed

abbrev third : Event
third = record { id = 9; sequence = 3; occurred_at = 51; payload = touch FileOperation.deleted }

-- A store whose log is out of order, as a damaged one would be.
abbrev damaged : MemoryEventStore
damaged = record {
  events = third ∷ record third { sequence = 1 } ∷ record third { sequence = 4 } ∷ [];
  next_sequence = 5;
  capacity = none;
}

abbrev disorder : EventStoreError
disorder = replay_failure "ordering corruption: 3 >= 1"

broken_replay : replay 1 damaged ≡ err disorder
unfolding replay Memory.check_order show_u64
broken_replay = refl

abbrev begun : FileChangeProjection
begun = record { state = []; status = processing; checkpoint = 0 }

failed_rebuild_final_example :
    (run {S = memory_store}
      (rebuild_from stamp store ∷ start ∷ fail ∷ [])
      (rebuild memory_store stamp damaged begun).1).status
    ≡ rebuilding
failed_rebuild_final_example =
    failed_rebuild_final memory_store stamp damaged begun disorder (λ e. cc) (λ e. cc) broken_replay
      (rebuild_from stamp store ∷ start ∷ fail ∷ [])
