-- ===== src/Kernel/Projection/Rebuild.antt =====
-- Rebuilding a `FileChangeProjection` from an event store.
use cotrex_ai.Base.{
  ℕ, ◌≡◌, ◌≢◌, refl, ◌∙◌, List, [], ok, err, ◌==◌, bind_ok, Result-cases, Bool-cases, inl, inr,
  true, if◌then◌else◌,
}
use cotrex_ai.Base.Map.{Map}
use cotrex_ai.FilePath.{FilePath}
use cotrex_ai.Kernel.Event.{Event}
use cotrex_ai.Kernel.Store.{
  EventStore, EventStoreError, projection_failure, ReplayResult, IsEventLog,
}
use cotrex_ai.Kernel.Projection.{
  ProjectionStatus, FileRecord, created, initialized, rebuilding, FileChangeProjection, status_eq,
  status_beq_iff, process_all, rebuild, replay_into, set_status, can_transition_to,
}
use cotrex_ai.Kernel.Projection.Files.{
  track_all, end_of, process_all_lem, IsCurrent, track_all-IsCurrent,
}

-- The projection that a replay of these events gives.
pub rebuilt : List Event → FileChangeProjection
rebuilt es = record { state = track_all es []; status = initialized; checkpoint = end_of 0 es }

abbrev pub emptied : ProjectionStatus → FileChangeProjection
emptied s = record { state = []; status = s; checkpoint = 0 }

replay_into-rebuilt :
    (r : ReplayResult) (st : ProjectionStatus)
    → can_transition_to st initialized ≡ true
    → replay_into (ok r) (emptied st) ≡ (ok tt, rebuilt r.events)
unfolding replay_into set_status rebuilt
replay_into-rebuilt r st h =
    bind_ok (process_all r.events) (λ _. set_status initialized)
      (process_all_lem r.events (emptied st))
    ∙ rw h

pub status-rebuilt : (es : List Event) → (rebuilt es).status ≡ initialized
unfolding rebuilt
status-rebuilt es = refl

module _ (S : EventStore) (w : S.Env) (store : S.State) where
  from_status :
      (st : ProjectionStatus) (m : Map FilePath FileRecord) (c : ℕ) (r : ReplayResult)
      → st ≢ rebuilding
      → S.replay w 1 store ≡ ok r
      → rebuild S w store (record { state = m; status = st; checkpoint = c })
        ≡ (ok tt, rebuilt r.events)
  unfolding rebuild
  from_status rebuilding m c r free h = absurd (free refl)
  from_status created m c r free h = rw (h, rebuild) (replay_into-rebuilt r created refl)
  from_status _ m c r free h = rw (h, rebuild) (replay_into-rebuilt r rebuilding refl)

  -- Unless the projection stands in `Rebuilding`, a rebuild succeeds where the replay does, and
  -- what it gives depends on the replayed events alone.
  pub rebuild-rebuilt :
      (p : FileChangeProjection) (r : ReplayResult)
      → p.status ≢ rebuilding
      → S.replay w 1 store ≡ ok r
      → rebuild S w store p ≡ (ok tt, rebuilt r.events)
  rebuild-rebuilt p r free h = from_status p.status p.state p.checkpoint r free h

  -- A rebuild over a store that keeps its contract leaves an initialized projection that is current
  -- with the whole log.
  pub rebuild-IsCurrent :
      {log : S.State → List Event} {Valid : S.State → Type 0} (L : IsEventLog S log Valid)
      (p : FileChangeProjection) (r : ReplayResult)
      → Valid store
      → p.status ≢ rebuilding
      → S.replay w 1 store ≡ ok r
      → ((rebuild S w store p).0 ≡ ok tt)
        × ((rebuild S w store p).1.status ≡ initialized)
        × IsCurrent (rebuild S w store p).1 (log store)
  unfolding rebuilt
  rebuild-IsCurrent {log} L p r valid free h =
      let all = L.replay_ok w 1 store r valid h in
      rw (rebuild-rebuilt p r free h) (
        refl,
        refl,
        rw all (
            track_all-IsCurrent (log store) (rebuilt (log store)) (L.log_numbered store valid) refl
              refl),
      )

  failed_from :
      (st : ProjectionStatus) (m : Map FilePath FileRecord) (c : ℕ) (x : EventStoreError)
      → st ≢ rebuilding
      → S.replay w 1 store ≡ err x
      → rebuild S w store (record { state = m; status = st; checkpoint = c })
        ≡ (err x, emptied (if st == created then created else rebuilding))
  unfolding rebuild replay_into
  failed_from rebuilding m c x free h = absurd (free refl)
  failed_from created m c x free h = rw (h, rebuild)
  failed_from _ m c x free h = rw (h, rebuild)

  -- A rebuild that fails on the replay has cleared the state. One that did not start in `Created`
  -- leaves the status `Rebuilding`.
  pub rebuild_failed :
      (p : FileChangeProjection) (x : EventStoreError)
      → p.status ≢ rebuilding
      → S.replay w 1 store ≡ err x
      → rebuild S w store p ≡ (err x, emptied (if p.status == created then created else rebuilding))
  rebuild_failed p x free h = failed_from p.status p.state p.checkpoint x free h

  stuck_at :
      (st : ProjectionStatus) (m : Map FilePath FileRecord) (c : ℕ)
      → st ≡ rebuilding
      → let p : FileChangeProjection = record { state = m; status = st; checkpoint = c } in
        rebuild S w store p
        ≡ (err (projection_failure "invalid transition: Rebuilding -> Rebuilding"), p)
  unfolding rebuild set_status
  stuck_at rebuilding m c h = refl
  stuck_at _ m c h = cc

  -- In `Rebuilding` a rebuild is refused before it reads the store, and changes nothing.
  pub rebuild_refused :
      (p : FileChangeProjection)
      → p.status ≡ rebuilding
      → rebuild S w store p
        ≡ (err (projection_failure "invalid transition: Rebuilding -> Rebuilding"), p)
  rebuild_refused p h = stuck_at p.status p.state p.checkpoint h

  -- A rebuild that succeeds, repeated over the same store, changes nothing.
  rebuild_idem :
      (p : FileChangeProjection)
      → (rebuild S w store p).0 ≡ ok tt
      → rebuild S w store (rebuild S w store p).1 ≡ rebuild S w store p
  unfolding rebuilt
  rebuild_idem p h = elim (Bool-cases (p.status == rebuilding)) [
    | inl busy ↦ cc (rebuild_refused p ((status_beq_iff p.status rebuilding).0 busy))
    | inr free ↦
        let apart : p.status ≢ rebuilding =
          λ e. cc (free, (status_beq_iff p.status rebuilding).1 e) in
        elim (Result-cases (S.replay w 1 store)) [
          | inl (r, found) ↦
              let once = rebuild-rebuilt p r apart found in
              rw once (rebuild-rebuilt (rebuilt r.events) r (λ e. cc) found)
          | inr (x, broken) ↦ cc (rebuild_failed p x apart broken)
        ]
  ]
