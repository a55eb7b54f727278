-- ===== src/Kernel/Engine.antt =====
-- The trait `Projection` and `ProjectionEngine` (kernel/src/engine.rs). The proofs are in the module
-- below. A call holds the lock of the projections from its start to its end.
pub mod Isolation
pub mod Following
pub mod Missed
use cotrex_ai.Base.{
  ℕ, String, ◌<>◌, Bool, true, false, Option, none, some, List, [], ◌∷◌, map, length, ok_or, Result,
  ok, err, Method, ◌==◌, string_eq, if◌then◌else◌, ◌>>=◌, pure,
}
use cotrex_ai.Base.Map
use cotrex_ai.Base.Map.{Map}
use cotrex_ai.Kernel.Event.{Event}
use cotrex_ai.Kernel.Store.{EventStore, EventStoreError, projection_failure}
use cotrex_ai.Kernel.Projection.{ProjectionStatus, processing, status_eq, FileChangeProjection}
use cotrex_ai.Kernel.Projection as FileChange
use cotrex_ai.Kernel.AiContext.{AiContextProjection}
use cotrex_ai.Kernel.AiContext

-- The trait. A method through `&self` that writes behind locks returns the new state.
pub record ProjectionKind : Type 1 where
  pub State : Type 0
  pub name : String
  pub status : State → ProjectionStatus
  pub checkpoint : State → ℕ
  pub process_event : Event → Method State (Unit {0}) EventStoreError
  pub rebuild : (S : EventStore) → S.Env → S.State → Method State (Unit {0}) EventStoreError
  pub initialize : (S : EventStore) → S.Env → S.State → Method State (Unit {0}) EventStoreError
  pub start_processing : Method State (Unit {0}) EventStoreError
  pub mark_failed : Method State (Unit {0}) EventStoreError

abbrev pub file_change : ProjectionKind
file_change = record {
  State = FileChangeProjection;
  name = "FileChange";
  status = λ p. p.status;
  checkpoint = λ p. p.checkpoint;
  process_event = FileChange.process_event;
  rebuild = FileChange.rebuild;
  initialize = FileChange.initialize;
  start_processing = FileChange.start_processing;
  mark_failed = FileChange.mark_failed;
}

abbrev pub ai_context : ProjectionKind
ai_context = record {
  State = AiContextProjection;
  name = "AiContext";
  status = λ p. p.status;
  checkpoint = λ p. p.checkpoint;
  process_event = AiContext.process_event;
  rebuild = AiContext.rebuild;
  initialize = AiContext.initialize;
  start_processing = AiContext.start_processing;
  mark_failed = AiContext.mark_failed;
}

-- `Box<dyn Projection>`
pub record Projection : Type 1 where
  pub kind : ProjectionKind
  pub self : kind.State

-- A method called on a boxed projection: its result, and the box with the new state.
abbrev pub call :
    (p : Projection)
    → Method p.kind.State (Unit {0}) EventStoreError
    → Result (Unit {0}) EventStoreError × Projection
call p m = let (r, s) = m p.self in (r, record { kind = p.kind; self = s })

pub record ProjectionEngine : Type 1 where
  pub projections : Map String Projection

unfoldable pub new : ProjectionEngine
new = record { projections = [] }

unfoldable pub register : Projection → ProjectionEngine → ProjectionEngine
register p g = record { projections = Map.insert p.kind.name p g.projections }

unfoldable pub remove : String → ProjectionEngine → Option Projection × ProjectionEngine
remove name g = (Map.get name g.projections, record { projections = Map.remove name g.projections })

abbrev pub unknown : String → EventStoreError
unknown name = projection_failure ("unknown projection: " <> name)

unfoldable pub status : String → ProjectionEngine → Result ProjectionStatus EventStoreError
status name g = elim (Map.get name g.projections) [
  | none ↦ err (unknown name)
  | some p ↦ ok (p.kind.status p.self)
]

unfoldable pub checkpoint : String → ProjectionEngine → Result ℕ EventStoreError
checkpoint name g = elim (Map.get name g.projections) [
  | none ↦ err (unknown name)
  | some p ↦ ok (p.kind.checkpoint p.self)
]

unfoldable pub list : ProjectionEngine → List String
list g = map (λ entry. entry.0) g.projections

unfoldable pub start_processing :
    String → ProjectionEngine → Result (Unit {0}) EventStoreError × ProjectionEngine
start_processing name g = elim (Map.get name g.projections) [
  | none ↦ (err (unknown name), g)
  | some p ↦
      let (r, p') = call p p.kind.start_processing in
      (r, record { projections = Map.insert name p' g.projections })
]

unfoldable pub len : ProjectionEngine → ℕ
len g = length g.projections

-- "Only process events for projections that are Processing"
unfoldable pub step : Event → Projection → Result (Unit {0}) EventStoreError × Projection
step e p =
    if p.kind.status p.self == processing then call p (p.kind.process_event e) else (ok tt, p)

-- The loop of `process_event`, which drops the results.
unfoldable pub step_all : Event → Map String Projection → Map String Projection
step_all e [] = []
step_all e ((name, p) ∷ m) = (name, (step e p).1) ∷ step_all e m

unfoldable pub process_event : Event → ProjectionEngine → ProjectionEngine
process_event e g = record { projections = step_all e g.projections }

-- The loop of `process_event_collect_errors`.
unfoldable pub collect :
    Event → Map String Projection → List (String × EventStoreError) × Map String Projection
collect e [] = ([], [])
collect e ((name, p) ∷ m) =
    let (errors, m') = collect e m in
    let (r, p') = step e p in
    elim r [ ok _ ↦ (errors, (name, p') ∷ m') | err x ↦ ((name, x) ∷ errors, (name, p') ∷ m') ]

unfoldable pub process_event_collect_errors :
    Event → ProjectionEngine → List (String × EventStoreError) × ProjectionEngine
process_event_collect_errors e g =
    let (errors, m) = collect e g.projections in (errors, record { projections = m })

module _ (S : EventStore) (w : S.Env) (store : S.State) where
  abbrev pub initialized : Projection → Result (Unit {0}) EventStoreError × Projection
  initialized p = call p (p.kind.initialize S w store)

  -- The loop of `rebuild_all`, which ends with the first error.
  unfoldable initialize_all :
      Map String Projection → Result (Unit {0}) EventStoreError × Map String Projection
  initialize_all [] = (ok tt, [])
  initialize_all ((name, p) ∷ m) =
      let (rest, m') = initialize_all m in
      let (r, p') = initialized p in
      elim r [ ok _ ↦ (rest, (name, p') ∷ m') | err x ↦ (err x, (name, p') ∷ m) ]

  unfoldable rebuild_all : ProjectionEngine → Result (Unit {0}) EventStoreError × ProjectionEngine
  rebuild_all g = let (r, m) = initialize_all g.projections in (r, record { projections = m })
