-- ===== src/Kernel/Projection/Lifecycle.antt =====
-- The life cycle of a `FileChangeProjection` over any sequence of calls of its methods.
use cotrex_ai.Base.{
  ◌≡◌, ◌≢◌, refl, sym, ap, ◌∙◌, ◌⊎◌, inl, inr, true, List, [], ◌∷◌, arith, err, ◌==◌, if◌then◌else◌,
  Result-cases, Bool-cases,
}
use cotrex_ai.Kernel.Event.{Event}
use cotrex_ai.Kernel.Store.{EventStore, EventStoreError}
use cotrex_ai.Kernel.Projection.{
  ProjectionStatus, created, initialized, processing, failed, rebuilding, status_eq, status_beq_iff,
  can_transition_to, FileChangeProjection, set_status, process_event, rebuild, initialize,
  start_processing, mark_failed,
}
use cotrex_ai.Kernel.Projection.Rebuild.{
  emptied, status-rebuilt, rebuild-rebuilt, rebuild_failed, rebuild_refused,
}

-- The calls that change a projection. A rebuild reads a store as it stands at that time.
pub data Call (S : EventStore) : Type 0 where
  rebuild_from initialize_from : S.Env → S.State → Call S
  start fail : Call S
  handle : Event → Call S

module _ {S : EventStore} where
  unfoldable pub perform : Call S → FileChangeProjection → FileChangeProjection
  unfolding initialize start_processing mark_failed process_event set_status
  perform (rebuild_from w store) p = (rebuild S w store p).1
  perform (initialize_from w store) p = (initialize S w store p).1
  perform start p = (start_processing p).1
  perform fail p = (mark_failed p).1
  perform (handle e) p = (process_event e p).1

  unfoldable pub run : List (Call S) → FileChangeProjection → FileChangeProjection
  run [] p = p
  run (c ∷ cs) p = run cs (perform c p)

-- What one call may do to the status by the diagram: nothing, one edge, or, for a whole rebuild,
-- the two edges to `Rebuilding` and from there to `Initialized`.
pub data Moves (s t : ProjectionStatus) : Type 0 where
  stay : t ≡ s → Moves s t
  edge : can_transition_to s t ≡ true → Moves s t
  renewed : can_transition_to s rebuilding ≡ true → t ≡ initialized → Moves s t

to_initialized : (s : ProjectionStatus) → s ≢ rebuilding → Moves s initialized
to_initialized created h = edge refl
to_initialized initialized h = stay refl
to_initialized processing h = renewed refl refl
to_initialized failed h = renewed refl refl
to_initialized rebuilding h = absurd (h refl)

to_rebuilding : (s : ProjectionStatus) → Moves s (if s == created then created else rebuilding)
to_rebuilding created = stay refl
to_rebuilding initialized = edge refl
to_rebuilding processing = edge refl
to_rebuilding failed = edge refl
to_rebuilding rebuilding = stay refl

set_status-Moves :
    (next : ProjectionStatus) (p : FileChangeProjection)
    → Moves p.status (set_status next p).1.status
unfolding set_status
set_status-Moves next p = elim (Bool-cases (can_transition_to p.status next)) [
  | inl allowed ↦ rw allowed (edge allowed)
  | inr refused ↦ rw refused (stay refl)
]

before_processing :
    (s t : ProjectionStatus) → Moves s t → t ≡ processing → (s ≡ processing) ⊎ (s ≡ initialized)
before_processing s t (stay e) h = inl (sym e ∙ h)
before_processing s t (edge e) h = ground arith
before_processing s t (renewed e i) h = cc

set_status_stuck :
    (next : ProjectionStatus) (p : FileChangeProjection)
    → next ≢ initialized
    → p.status ≡ rebuilding
    → (set_status next p).1.status ≡ rebuilding
unfolding set_status
set_status_stuck next p other h = ground arith

started :
    (s : ProjectionStatus)
    → s ≢ created
    → (emptied (if s == created then created else rebuilding)).status ≡ rebuilding
started created h = absurd (h refl)
started _ h = refl

module _ (S : EventStore) where
  rebuild-Moves :
      (w : S.Env) (store : S.State) (p : FileChangeProjection)
      → Moves p.status (rebuild S w store p).1.status
  rebuild-Moves w store p = elim (Bool-cases (p.status == rebuilding)) [
    | inl busy ↦
        stay (cc (rebuild_refused S w store p ((status_beq_iff p.status rebuilding).0 busy)))
    | inr free ↦
        let apart : p.status ≢ rebuilding =
          λ e. cc (free, (status_beq_iff p.status rebuilding).1 e) in
        elim (Result-cases (S.replay w 1 store)) [
          | inl (r, found) ↦
              rw (rebuild-rebuilt S w store p r apart found, status-rebuilt)
                (to_initialized p.status apart)
          | inr (x, broken) ↦
              rw (rebuild_failed S w store p x apart broken) (to_rebuilding p.status)
        ]
  ]

  -- Whatever method is called, with whatever outcome, the status stays, goes along an edge of the
  -- diagram, or goes through `Rebuilding` to `Initialized`.
  perform-Moves : (c : Call S) (p : FileChangeProjection) → Moves p.status (perform c p).status
  unfolding perform
  perform-Moves (rebuild_from w store) p = rebuild-Moves w store p
  perform-Moves (initialize_from w store) p = rebuild-Moves w store p
  perform-Moves start p = set_status-Moves processing p
  perform-Moves fail p = set_status-Moves failed p
  perform-Moves (handle e) p = stay refl

  -- No call brings a projection from `Created`, `Failed` or `Rebuilding` to `Processing`.
  processing_from_initialized :
      (c : Call S) (p : FileChangeProjection)
      → (perform c p).status ≡ processing
      → (p.status ≡ processing) ⊎ (p.status ≡ initialized)
  processing_from_initialized c p h = before_processing p.status _ (perform-Moves c p) h

  perform_stuck :
      (c : Call S) (p : FileChangeProjection)
      → p.status ≡ rebuilding
      → (perform c p).status ≡ rebuilding
  unfolding perform
  perform_stuck (rebuild_from w store) p h =
      ap (λ r. r.1.status) (rebuild_refused S w store p h) ∙ h
  perform_stuck (initialize_from w store) p h =
      ap (λ r. r.1.status) (rebuild_refused S w store p h) ∙ h
  perform_stuck start p h = set_status_stuck processing p (λ e. cc) h
  perform_stuck fail p h = set_status_stuck failed p (λ e. cc) h
  perform_stuck (handle e) p h = h

  run_stuck :
      (cs : List (Call S)) (p : FileChangeProjection)
      → p.status ≡ rebuilding
      → (run cs p).status ≡ rebuilding
  unfolding run
  run_stuck [] p h = h
  run_stuck (c ∷ cs) p h = run_stuck cs (perform c p) (perform_stuck c p h)

  -- A rebuild of an initialized, processing or failed projection that cannot read the store is
  -- final: no later calls, rebuilds over a store that can be read included, ever bring the
  -- projection out of `Rebuilding`.
  pub failed_rebuild_final :
      (w : S.Env) (store : S.State) (p : FileChangeProjection) (x : EventStoreError)
      → p.status ≢ created
      → p.status ≢ rebuilding
      → S.replay w 1 store ≡ err x
      → (cs : List (Call S)) → (run cs (rebuild S w store p).1).status ≡ rebuilding
  failed_rebuild_final w store p x begun free broken cs =
      run_stuck cs _
        (ap (λ r. r.1.status) (rebuild_failed S w store p x free broken) ∙ started p.status begun)
