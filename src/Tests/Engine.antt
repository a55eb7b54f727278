-- ===== src/Tests/Engine.antt =====
-- The AI context and the projection engine on concrete inputs.
use cotrex_ai.Base.{◌≡◌, string_eq, String, refl, none, [], ◌∷◌, arith, ok}
use cotrex_ai.Base.Map
use cotrex_ai.FilePath.{normal}
use cotrex_ai.Kernel.Event.{Event, file_changed, created}
use cotrex_ai.Kernel.Store.Memory.{MemoryEventStore, memory_store}
use cotrex_ai.Kernel.Store.Memory.Laws
use cotrex_ai.Kernel.Projection.{processing, initialized}
use cotrex_ai.Kernel.AiContext.{AiContextProjection, initialize}
use cotrex_ai.Kernel.AiContext.Recent
use cotrex_ai.Kernel.AiContext.Recent.{initialize-last_ten}
use cotrex_ai.Kernel.Engine.{
  ProjectionEngine, ai_context, file_change, process_event, process_event_collect_errors,
}
use cotrex_ai.Base.{some}
use cotrex_ai.FilePath.{FilePath}
use cotrex_ai.Kernel.Projection.{FileChangeProjection, get_file}
use cotrex_ai.Kernel.Projection.Files.{IsCurrent, summary, history}
use cotrex_ai.Kernel.Engine.Following.{boxed, process_events, process_events-IsCurrent}
use cotrex_ai.Kernel.Engine.Missed.{late, event_missed}
use cotrex_ai.Kernel.Engine.Isolation.{stepped, failures, process_event-stepped}

abbrev saved : Event
saved = record {
  id = 5;
  sequence = 1;
  occurred_at = 60;
  payload = file_changed (record { path = normal "a" ∷ []; operation = created; timestamp = 60 });
}

abbrev store : MemoryEventStore
store = record { events = saved ∷ []; next_sequence = 2; capacity = none }

store-IsValid : Laws.IsValid store
store-IsValid = record {
  numbered = (refl, tt);
  next = refl;
  room = omega arith;
  within = λ cap h. cc h;
}

abbrev context : AiContextProjection
context = record { status = processing; checkpoint = 0; files = []; recent_changes = [] }

initialize-last_ten_example :
    ((initialize memory_store (record { id = 0; now = 0 }) store context).0 ≡ ok tt)
    × ((initialize memory_store (record { id = 0; now = 0 }) store context).1.status ≡ initialized)
    × ((initialize memory_store (record { id = 0; now = 0 }) store context).1.recent_changes
        ≡ Recent.last_ten (Recent.reported (saved ∷ [])))
initialize-last_ten_example =
    initialize-last_ten memory_store Laws.memory_store-IsEventLog (record { id = 0; now = 0 }) store
      context (record { events = saved ∷ []; snapshot_end = 1 }) store-IsValid
      (Laws.replay-drop 1 store store-IsValid)

abbrev engine : ProjectionEngine
engine = record {
  projections =
      ("AiContext", record { kind = ai_context; self = context })
      ∷ (
        "FileChange",
        record {
          kind = file_change;
          self = record { state = []; status = initialized; checkpoint = 0 };
        },
      )
      ∷ [];
}

process_event-stepped_example :
    ((name : String)
      → Map.get name (process_event saved engine).projections
        ≡ stepped saved (Map.get name engine.projections))
    × (process_event_collect_errors saved engine
        ≡ (failures saved engine.projections, process_event saved engine))
process_event-stepped_example = process_event-stepped saved engine

abbrev waiting : FileChangeProjection
waiting = record { state = []; status = initialized; checkpoint = 0 }

abbrev following : FileChangeProjection
following = record waiting { status = processing }

waiting-IsCurrent : IsCurrent waiting []
unfolding get_file Map.get summary history
waiting-IsCurrent = record { files = λ path. refl; seen = refl }

following-IsCurrent : IsCurrent following []
unfolding get_file Map.get summary history
following-IsCurrent = record { files = λ path. refl; seen = refl }

abbrev saved_again : Event
saved_again = record saved { id = 6; sequence = 2 }

abbrev holding : FileChangeProjection → ProjectionEngine
holding p = record { projections = ("FileChange", boxed p) ∷ [] }

found : (p : FileChangeProjection) → Map.get "FileChange" (holding p).projections ≡ some (boxed p)
unfolding Map.get
found p = refl

event_missed_example :
    (q : FileChangeProjection) × (Map.get "FileChange"
        (late "FileChange" saved saved_again (holding waiting)).projections
      ≡ some (boxed q))
    × (q.status ≡ processing)
    × (q.checkpoint ≡ 2)
    × ((path : FilePath) → get_file q path ≡ summary path (history path (saved_again ∷ [])))
event_missed_example =
    event_missed "FileChange" saved saved_again (holding waiting) waiting [] (found waiting) refl
      waiting-IsCurrent refl

process_events-IsCurrent_example :
    (q : FileChangeProjection) × (Map.get "FileChange"
        (process_events (saved ∷ saved_again ∷ []) (holding following)).projections
      ≡ some (boxed q))
    × (q.status ≡ processing)
    × IsCurrent q (saved ∷ saved_again ∷ [])
process_events-IsCurrent_example =
    process_events-IsCurrent "FileChange" (holding following) following []
      (saved ∷ saved_again ∷ []) (found following) refl following-IsCurrent (refl, (refl, tt))
