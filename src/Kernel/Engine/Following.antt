-- ===== src/Kernel/Engine/Following.antt =====
-- A projection in an engine that follows the log, event by event.
use mathlib.Core.Path.{subst}
use mathlib.Core.List.{append-nil, append_assoc}
use cotrex_ai.Base.{
  ◌+◌, suc, String, ◌≡◌, refl, sym, ap, ◌∙◌, some, List, [], ◌∷◌, ◌++◌, arith, length, string_eq,
  length-append,
}
use cotrex_ai.Base.Map
use cotrex_ai.Kernel.Event.{Event}
use cotrex_ai.Kernel.Store.{IsNumbered}
use cotrex_ai.Kernel.Projection.{FileChangeProjection, processing}
use cotrex_ai.Kernel.Projection as FileChange
use cotrex_ai.Kernel.Projection.Files.{IsCurrent, process_event-IsCurrent}
use cotrex_ai.Kernel.Engine.{Projection, ProjectionEngine, file_change, step, process_event}
use cotrex_ai.Kernel.Engine.Isolation.{stepped, process_event-stepped}

-- A `FileChangeProjection` in its box.
abbrev pub boxed : FileChangeProjection → Projection
boxed p = record { kind = file_change; self = p }

pub step_processing :
    (e : Event) (p : FileChangeProjection)
    → p.status ≡ processing
    → (step e (boxed p)).1 ≡ boxed (FileChange.process_event e p).1
unfolding step
step_processing e p h = rw (h, step) refl

-- The engine after these events, one after another.
abbrev pub process_events : List Event → ProjectionEngine → ProjectionEngine
process_events [] g = g
process_events (e ∷ es) g = process_events es (process_event e g)

still_processing :
    (e : Event) (p : FileChangeProjection)
    → p.status ≡ processing
    → (FileChange.process_event e p).1.status ≡ processing
unfolding FileChange.process_event
still_processing e p h = h

-- A projection of an engine that is processing and current with the log, and is handed the events
-- that the log gets from then on, is current with the whole log, whatever the other projections do.
pub process_events-IsCurrent :
    (name : String) (g : ProjectionEngine) (p : FileChangeProjection) (es new : List Event)
    → Map.get name g.projections ≡ some (boxed p)
    → p.status ≡ processing
    → IsCurrent p es
    → IsNumbered (length es + 1) new
    → (q : FileChangeProjection) × (Map.get name (process_events new g).projections
        ≡ some (boxed q))
      × (q.status ≡ processing)
      × IsCurrent q (es ++ new)
process_events-IsCurrent name g p es [] there busy current numbered =
    (p, there, busy, subst (IsCurrent p) (sym (append-nil es)) current)
process_events-IsCurrent name g p es (e ∷ new) there busy current (next, behind) =
    let p' = (FileChange.process_event e p).1 in
    let found : Map.get name (process_event e g).projections ≡ some (boxed p') =
      (process_event-stepped e g).0 name
      ∙ ap (stepped e) there
      ∙ ap (λ b. some b) (step_processing e p busy) in
    let count : suc (length es + 1) ≡ length (es ++ e ∷ []) + 1 = rw length-append (omega arith) in
    let (q, at_end, busy', current') =
      process_events-IsCurrent name (process_event e g) p' (es ++ e ∷ []) new found
        (still_processing e p busy) (process_event-IsCurrent p es e current next)
        (subst (λ k. IsNumbered k new) count behind) in
    (q, at_end, busy', subst (IsCurrent q) (append_assoc es (e ∷ []) new) current')
