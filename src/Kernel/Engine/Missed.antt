-- ===== src/Kernel/Engine/Missed.antt =====
-- An event that comes between the initialization of a projection and its start.
use cotrex_ai.Base.{
  ◌+◌, String, ◌≡◌, refl, sym, ap, ◌∙◌, some, List, [], ◌∷◌, ◌++◌, arith, length, ok, Result,
  string_eq, length-append,
}
use cotrex_ai.Base.Map
use cotrex_ai.Base.Map.{Map, get-insert}
use cotrex_ai.FilePath.{FilePath}
use cotrex_ai.Kernel.Event.{Event}
use cotrex_ai.Kernel.Projection.{FileChangeProjection, initialized, processing, get_file}
use cotrex_ai.Kernel.Projection as FileChange
use cotrex_ai.Kernel.Projection.Files.{
  IsCurrent, summary, history, history-snoc, process_event-IsCurrent,
}
use cotrex_ai.Kernel.Store.{EventStoreError}
use cotrex_ai.Kernel.Engine.{ProjectionEngine, step, process_event, start_processing}
use cotrex_ai.Kernel.Engine.Following.{boxed, step_processing}
use cotrex_ai.Kernel.Engine.Isolation.{stepped, process_event-stepped}

-- A projection that stands in an engine after an event, a start under its name, and another event.
abbrev pub late : String → Event → Event → ProjectionEngine → ProjectionEngine
late name e e' g = process_event e' (start_processing name (process_event e g)).1

-- What the projection is then.
abbrev started_late : Event → FileChangeProjection → FileChangeProjection
started_late e' p = (FileChange.process_event e' (record p { status = processing })).1

step_waiting :
    (e : Event) (p : FileChangeProjection) → p.status ≡ initialized → (step e (boxed p)).1 ≡ boxed p
unfolding step
step_waiting e p h = rw (h, step) refl

start_waiting :
    (p : FileChangeProjection)
    → p.status ≡ initialized
    → FileChange.start_processing p ≡ (ok tt, record p { status = processing })
unfolding FileChange.start_processing
start_waiting p h = ground (arith, h)

get-started :
    (name : String) (g : ProjectionEngine) (p : FileChangeProjection)
    → Map.get name g.projections ≡ some (boxed p)
    → p.status ≡ initialized
    → Map.get name (start_processing name g).1.projections
      ≡ some (boxed (record p { status = processing }))
unfolding start_processing
get-started name g p there waiting =
    rw (there, start_processing)
      (get-insert name name _ g.projections
        ∙ rw ((string_eq.beq_iff name name).1 refl) (
            ap (λ (r : Result (Unit {0}) EventStoreError × FileChangeProjection). some (boxed r.1))
              (start_waiting p waiting)))

get-late :
    (name : String) (e e' : Event) (g : ProjectionEngine) (p : FileChangeProjection)
    → Map.get name g.projections ≡ some (boxed p)
    → p.status ≡ initialized
    → Map.get name (late name e e' g).projections ≡ some (boxed (started_late e' p))
get-late name e e' g p there waiting =
    let g1 = process_event e g in
    let g2 = (start_processing name g1).1 in
    let one : Map.get name g1.projections ≡ some (boxed p) =
      (process_event-stepped e g).0 name
      ∙ ap (stepped e) there
      ∙ ap (λ b. some b) (step_waiting e p waiting) in
    let two : Map.get name g2.projections ≡ some (boxed (record p { status = processing })) =
      get-started name g1 p one waiting in
    (process_event-stepped e' g2).0 name
    ∙ ap (stepped e') two
    ∙ ap (λ b. some b) (step_processing e' (record p { status = processing }) refl)

handled :
    (e' : Event) (p : FileChangeProjection) (es : List Event)
    → IsCurrent p es
    → ((started_late e' p).status ≡ processing)
      × ((started_late e' p).checkpoint ≡ e'.sequence)
      × ((path : FilePath)
          → get_file (started_late e' p) path ≡ summary path (history path (es ++ e' ∷ [])))
unfolding FileChange.process_event get_file
handled e' p es current =
    let next = record e' { sequence = length es + 1 } in
    let now =
      process_event-IsCurrent (record p { status = processing }) es next
        (record { files = current.files; seen = current.seen }) refl in
    (
      refl,
      refl,
      λ path.
          now.files path
          ∙ ap (summary path) (history-snoc path es next ∙ sym (history-snoc path es e')),
    )

-- A projection in an engine that is current with the log and initialized, but not started, is not
-- handed the next event. Once it has been started, the event after that brings its checkpoint to the
-- end of the log, as if it had seen both; but on every path it tells only what the log without the
-- missed event reports.
pub event_missed :
    (name : String) (e e' : Event) (g : ProjectionEngine) (p : FileChangeProjection)
    (es : List Event)
    → Map.get name g.projections ≡ some (boxed p)
    → p.status ≡ initialized
    → IsCurrent p es
    → e'.sequence ≡ length es + 2
    → (q : FileChangeProjection) × (Map.get name (late name e e' g).projections ≡ some (boxed q))
      × (q.status ≡ processing)
      × (q.checkpoint ≡ length (es ++ e ∷ e' ∷ []))
      × ((path : FilePath) → get_file q path ≡ summary path (history path (es ++ e' ∷ [])))
event_missed name e e' g p es there waiting current number = (
  started_late e' p,
  get-late name e e' g p there waiting,
  (handled e' p es current).0,
  (handled e' p es current).1 ∙ rw length-append (omega (arith, number)),
  (handled e' p es current).2,
)
