-- ===== src/Execution/Engine/Threads/Interleaved.antt =====
-- What the log tells of submits whose steps interleave.
use mathlib.Core.Path.{subst}
use mathlib.Core.List.{append-nil, append_assoc, map-append}
use cotrex_ai.Base.{
  ℕ, ◌≡◌, ◌≢◌, refl, sym, ap, ◌∙◌, ◌⊎◌, inl, inr, String, List, [], ◌∷◌, ◌++◌, map, ok, err,
  Result-cases, Option-cases, Bool-cases, arith, ◌==◌, nat_eq, ==_iff, if◌then◌else◌,
}
use cotrex_ai.Kernel.Event.{Event, EventPayload, payloads}
use cotrex_ai.Kernel.Store.{EventStore, IsEventLog}
use cotrex_ai.Execution.Request.{
  ExecutionRequest, ExecutionError, internal, event_append_failed, executor_failed, Executor,
}
use cotrex_ai.Execution.Registry.{get}
use cotrex_ai.Execution.Engine.{ExecutionEngine, SubmitEnv, requested, completed, failed, report}
use cotrex_ai.Execution.Engine.Audit.{append_cases, report-Reported}
use cotrex_ai.Execution.Engine.Trail.{Told, nothing-Told, request-Told}
use cotrex_ai.Execution.Engine.Threads.{
  Pc, waiting, admitted, ran, answered, Threads, update, admit, entered, step_from, step, run,
  initial,
}

-- The events of one thread, of those that several have appended.
unfoldable pub of_thread : ℕ → List (ℕ × EventPayload) → List EventPayload
of_thread i [] = []
of_thread i ((j, p) ∷ trail) = if j == i then p ∷ of_thread i trail else of_thread i trail

of_thread-snoc :
    (i j : ℕ) (p : EventPayload) (trail : List (ℕ × EventPayload))
    → of_thread i (trail ++ (j, p) ∷ [])
      ≡ (if j == i then of_thread i trail ++ p ∷ [] else of_thread i trail)
unfolding of_thread
of_thread-snoc i j p [] = refl
of_thread-snoc i j p ((k, q) ∷ trail) = ground (arith, of_thread-snoc i j p trail)

module _ {S : EventStore} {W : Type 0} {log : S.State → List Event} {Valid : S.State → Type 0}
    (L : IsEventLog S log Valid) where
  abbrev logged : ExecutionEngine S W → List EventPayload
  logged g = payloads (log g.store)

  admit_cases :
      (w : SubmitEnv S) (q : ExecutionRequest) (g : ExecutionEngine S W) (world : W)
      → ((x : ExecutionError) × (admit w q (g, world) ≡ (err x, (g, world))))
        ⊎ ((x : Executor W) × (h : ExecutionEngine S W) × (admit w q (g, world)
              ≡ (ok x, (h, world)))
            × (logged h ≡ logged g ++ requested w.requested_at q ∷ []))
  unfolding admit
  admit_cases w q g world = elim (Result-cases (g.validator q)) [
    | inr (x, refused) ↦ inl (x, rw refused refl)
    | inl (done, valid) ↦ elim (Option-cases (get g.registry q.action)) [
      | inl missing ↦ inl (internal "no executor registered", rw (valid, missing) refl)
      | inr (x, found) ↦ elim (append_cases log L w.first (requested w.requested_at q) g world) [
        | inl (h, stored, grown) ↦ inr (x, h, rw (valid, found, stored) refl, grown)
        | inr (y, full) ↦ inl (event_append_failed y, rw (valid, found, full) refl)
      ]
    ]
  ]

  module _ (job : ℕ → SubmitEnv S × ExecutionRequest) where
    -- The events that a submit has appended, by where it stands.
    abbrev pub Tells : ℕ → Pc W → List EventPayload → Type 0
    Tells i waiting l = l ≡ []
    Tells i (admitted x) l = l ≡ requested (job i).0.requested_at (job i).1 ∷ []
    Tells i (ran r) l = l ≡ requested (job i).0.requested_at (job i).1 ∷ []
    Tells i (answered r) l = Told (job i).0 (job i).1 r l

    -- The log has got the events of the threads, in some order, and of each thread those that the
    -- place of its submit tells.
    abbrev IsInterleaved : List EventPayload → Threads S W → Type 0
    IsInterleaved start y =
        (trail : List (ℕ × EventPayload)) × (logged y.engine ≡ start ++ map (λ e. e.1) trail)
        × ((i : ℕ) → Tells i (y.pc i) (of_thread i trail))

    unlogged :
        (i : ℕ) (c : Pc W) (f : ℕ → Pc W) (trail : List (ℕ × EventPayload))
        → ((j : ℕ) → Tells j (f j) (of_thread j trail))
        → Tells i c (of_thread i trail)
        → (j : ℕ) → Tells j (update i c f j) (of_thread j trail)
    unlogged i c f trail all here j = elim (Bool-cases (i == j)) [
      | inl same ↦ rw same (subst (λ k. Tells k c (of_thread k trail)) ((==_iff i j).0 same) here)
      | inr other ↦ rw other (all j)
    ]

    one_logged :
        (i : ℕ) (c : Pc W) (p : EventPayload) (f : ℕ → Pc W) (trail : List (ℕ × EventPayload))
        → ((j : ℕ) → Tells j (f j) (of_thread j trail))
        → Tells i c (of_thread i trail ++ p ∷ [])
        → (j : ℕ) → Tells j (update i c f j) (of_thread j (trail ++ (i, p) ∷ []))
    one_logged i c p f trail all here j =
        rw (of_thread-snoc j i p trail) (elim (Bool-cases (i == j)) [
          | inl same ↦
              rw same
                (subst (λ k. Tells k c (of_thread k trail ++ p ∷ [])) ((==_iff i j).0 same) here)
          | inr other ↦ rw other (all j)
        ])

    grown_by :
        (start : List EventPayload) (trail : List (ℕ × EventPayload)) (i : ℕ) (p : EventPayload)
        (g h : ExecutionEngine S W)
        → logged g ≡ start ++ map (λ e. e.1) trail
        → logged h ≡ logged g ++ p ∷ []
        → logged h ≡ start ++ map (λ e. e.1) (trail ++ (i, p) ∷ [])
    grown_by start trail i p g h before more =
        more
        ∙ ap (λ l. l ++ p ∷ []) before
        ∙ append_assoc start (map (λ e. e.1) trail) (p ∷ [])
        ∙ ap (λ l. start ++ l)
            (sym (map-append (λ (e : ℕ × EventPayload). e.1) trail ((i, p) ∷ [])))

    step_from-IsInterleaved :
        (start : List EventPayload) (c : Pc W) (i : ℕ) (y : Threads S W)
        → y.pc i ≡ c
        → IsInterleaved start y
        → IsInterleaved start (step_from job c i y)
    step_from-IsInterleaved start waiting i y at_c (trail, before, all) =
        let mine : of_thread i trail ≡ [] =
          subst (λ c. Tells i c (of_thread i trail)) at_c (all i) in
        elim (admit_cases (job i).0 (job i).1 y.engine y.world) [
          | inl (x, refused) ↦ rw refused (
            trail,
            before,
            unlogged i (answered (err x)) y.pc trail all
                (rw mine (nothing-Told (job i).0 (job i).1 x)),
          )
          | inr (x, h, entered, more) ↦
              let p = requested (job i).0.requested_at (job i).1 in
              rw entered (
                trail ++ (i, p) ∷ [],
                grown_by start trail i p y.engine h before more,
                one_logged i (admitted x) p y.pc trail all (rw mine refl),
              )
        ]
    step_from-IsInterleaved start (admitted x) i y at_c (trail, before, all) =
        let mine = subst (λ c. Tells i c (of_thread i trail)) at_c (all i) in
        let r = (x (job i).0.executor_ms (job i).1 y.world).0 in
        (trail, before, unlogged i (ran r) y.pc trail all mine)
    step_from-IsInterleaved start (ran r) i y at_c (trail, before, all) =
        let w = (job i).0 in
        let q = (job i).1 in
        let mine = subst (λ c. Tells i c (of_thread i trail)) at_c (all i) in
        let a = (report w q r (y.engine, y.world)).0 in
        let h = (report w q r (y.engine, y.world)).1.0 in
        elim (report-Reported log L w q r y.engine y.world).1 [
          | inl (res, same, answer, more) ↦
              let p = completed w.duration_ms w.finished_at q res in
              (
                trail ++ (i, p) ∷ [],
                grown_by start trail i p y.engine h before more,
                one_logged i (answered a) p y.pc trail all (rw (answer, mine) refl),
              )
          | inr (inl (reason, same, answer, more)) ↦
              let p = failed w.duration_ms w.finished_at q reason in
              (
                trail ++ (i, p) ∷ [],
                grown_by start trail i p y.engine h before more,
                one_logged i (answered a) p y.pc trail all (rw (answer, mine) (inr refl)),
              )
          | inr (inr (x, answer, same, why)) ↦
              let other : (reason : String) → x ≢ executor_failed reason = elim why [
                | inl (failed_so, apart) ↦ apart
                | inr (z, stored) ↦ λ reason e. cc (stored, e)
              ] in
              (
                trail,
                ap logged same ∙ before,
                unlogged i (answered a) y.pc trail all
                    (rw (answer, mine) (request-Told w q x other)),
              )
        ]
    step_from-IsInterleaved start (answered r) i y at_c h = h

    run_from-IsInterleaved :
        (start : List EventPayload) (schedule : List ℕ) (y : Threads S W)
        → IsInterleaved start y
        → IsInterleaved start (run job schedule y)
    unfolding run step
    run_from-IsInterleaved start [] y h = h
    run_from-IsInterleaved start (i ∷ rest) y h =
        run_from-IsInterleaved start rest (step job i y)
          (step_from-IsInterleaved start (y.pc i) i y refl h)

    -- However the steps of the threads interleave, the log has got the events of their submits, and
    -- those of each submit are what its place tells: nothing before it is admitted, the request
    -- alone while its executor is to run and when it has run, and at the end the request with the
    -- completion behind it for a result, the request with the failure behind it or nothing for a
    -- failed executor, and the request alone or nothing for any other error.
    pub run-IsInterleaved :
        (schedule : List ℕ) (g : ExecutionEngine S W) (world : W)
        → IsInterleaved (logged g) (run job schedule (initial g world))
    run-IsInterleaved schedule g world =
        run_from-IsInterleaved (logged g) schedule (initial g world)
          ([], sym (append-nil (logged g)), λ i. unfold of_thread in refl)
