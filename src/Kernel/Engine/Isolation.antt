-- ===== src/Kernel/Engine/Isolation.antt =====
-- The projections of an engine do not affect one another.
use cotrex_ai.Base.{
  String, ◌≡◌, refl, Option, none, some, List, [], ◌∷◌, ok, err, Result-cases, inl, inr, ◌==◌,
  string_eq, Bool-cases,
}
use cotrex_ai.Base.Map
use cotrex_ai.Base.Map.{Map}
use cotrex_ai.Kernel.Event.{Event}
use cotrex_ai.Kernel.Store.{EventStoreError}
use cotrex_ai.Kernel.Engine.{
  Projection, ProjectionEngine, step, step_all, process_event, collect,
  process_event_collect_errors,
}

-- What the look-up of a projection finds after a step of it.
abbrev pub stepped : Event → Option Projection → Option Projection
stepped e none = none
stepped e (some p) = some (step e p).1

get-step_all :
    (e : Event) (name : String) (m : Map String Projection)
    → Map.get name (step_all e m) ≡ stepped e (Map.get name m)
unfolding step_all Map.get
get-step_all e name [] = refl
get-step_all e name ((j, p) ∷ m) = elim (Bool-cases (j == name)) [
  | inl same ↦ rw same refl
  | inr other ↦ rw other (get-step_all e name m)
]

-- The failures of the steps of some projections, in their order.
abbrev pub failures : Event → Map String Projection → List (String × EventStoreError)
failures e [] = []
failures e ((name, p) ∷ m) = elim (step e p).0 [
  | ok _ ↦ failures e m
  | err x ↦ (name, x) ∷ failures e m
]

collect_lem : (e : Event) (m : Map String Projection) → collect e m ≡ (failures e m, step_all e m)
unfolding collect step_all
collect_lem e [] = refl
collect_lem e ((name, p) ∷ m) = elim (Result-cases (step e p).0) [
  | inl (u, good) ↦ rw (good, collect_lem e m, collect) (rw (good, failures) refl)
  | inr (x, bad) ↦ rw (bad, collect_lem e m, collect) (rw (bad, failures) refl)
]

-- After an event every projection of the engine is what its own step makes of it, whatever the
-- others do; and `process_event_collect_errors` leaves the same engine, and names exactly the
-- projections whose step failed.
pub process_event-stepped :
    (e : Event) (g : ProjectionEngine)
    → ((name : String)
        → Map.get name (process_event e g).projections ≡ stepped e (Map.get name g.projections))
      × (process_event_collect_errors e g ≡ (failures e g.projections, process_event e g))
unfolding process_event process_event_collect_errors
process_event-stepped e g =
    (λ name. get-step_all e name g.projections, rw (collect_lem e g.projections) refl)
