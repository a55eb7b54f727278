-- ===== src/Execution/Engine/Audit.antt =====
-- What `submit` leaves in a store that keeps its contract, and what it does to the world.
use mathlib.Core.List.{append_assoc}
use mathlib.Core.Path.{subst}
use cotrex_ai.Base.{
  ap, length, ◌≤◌, ◌≡◌, ◌≢◌, ◌⊎◌, inl, inr, some, refl, sym, ◌∙◌, List, [], ◌∷◌, ◌++◌, arith,
  Result, ok, err, Result-cases, Option-cases, String,
}
use cotrex_ai.Kernel.Event.{Event, EventPayload, payloads}
use cotrex_ai.Kernel.Store.{EventStore, EventStoreError, IsEventLog}
use cotrex_ai.Kernel.Store.Reported.{reported-append}
use cotrex_ai.Execution.Request.{
  ExecutionRequest, ExecutionResult, ExecutionError, event_append_failed, executor_failed, internal,
  Executor,
}
use cotrex_ai.Execution.Registry.{get}
use cotrex_ai.Execution.Engine.{
  ExecutionEngine, SubmitEnv, requested, completed, failed, append, report, dispatch, submit,
}

module _ {S : EventStore} {W : Type 0} (log : S.State → List Event) {Valid : S.State → Type 0}
    (L : IsEventLog S log Valid) where
  abbrev pub reported : ExecutionEngine S W → List EventPayload
  reported g = payloads (log g.store)

  -- An append through the engine either adds its payload, or changes nothing.
  pub append_cases :
      (w : S.Env) (p : EventPayload) (g : ExecutionEngine S W) (world : W)
      → ((h : ExecutionEngine S W) × (append w p (g, world) ≡ (ok tt, (h, world)))
          × (reported h ≡ reported g ++ p ∷ []))
        ⊎ ((x : EventStoreError) × (append w p (g, world)
              ≡ (err (event_append_failed x), (g, world))))
  unfolding append
  append_cases w p g world = elim (Result-cases (S.append w p g.store).0) [
    | inl (e, stored) ↦ inl (
      record g { store = (S.append w p g.store).1 },
      rw stored refl,
      reported-append S log L w p g.store e stored,
    )
    | inr (x, refused) ↦ inr (x, rw (refused, L.append_err w p g.store x refused) refl)
  ]

  module _ (w : SubmitEnv S) (q : ExecutionRequest) where
    -- The outcomes of `report`.
    abbrev pub Reported :
        Result ExecutionResult ExecutionError
        → ExecutionEngine S W
        → W
        → Result ExecutionResult ExecutionError × (ExecutionEngine S W × W)
        → Type 0
    Reported ran g world r =
        (r.1.1 ≡ world)
        × (((res : ExecutionResult) × (ran ≡ ok res)
              × (r.0 ≡ ok res)
              × (reported r.1.0 ≡ reported g ++ completed w.duration_ms w.finished_at q res ∷ []))
            ⊎ ((reason : String) × (ran ≡ err (executor_failed reason))
                × (r.0 ≡ err (executor_failed reason))
                × (reported r.1.0 ≡ reported g ++ failed w.duration_ms w.finished_at q reason ∷ []))
            ⊎ ((x : ExecutionError) × (r.0 ≡ err x)
                × (r.1.0 ≡ g)
                × ((ran ≡ err x) × ((reason : String) → x ≢ executor_failed reason)
                    ⊎ ((y : EventStoreError) × (x ≡ event_append_failed y)))))

    pub report-Reported :
        (ran : Result ExecutionResult ExecutionError) (g : ExecutionEngine S W) (world : W)
        → Reported ran g world (report w q ran (g, world))
    unfolding report
    report-Reported (ok res) g world =
        elim (append_cases w.second (completed w.duration_ms w.finished_at q res) g world) [
          | inl (h, done, grown) ↦ rw (report, done) (refl, inl (res, refl, refl, grown))
          | inr (y, refused) ↦
              rw (report, refused)
                (refl, inr (inr (event_append_failed y, refl, refl, inr (y, refl))))
        ]
    report-Reported (err (executor_failed reason)) g world =
        elim (append_cases w.second (failed w.duration_ms w.finished_at q reason) g world) [
          | inl (h, done, grown) ↦ rw (report, done) (refl, inr (inl (reason, refl, refl, grown)))
          | inr (y, refused) ↦
              rw (report, refused)
                (refl, inr (inr (event_append_failed y, refl, refl, inr (y, refl))))
        ]
    report-Reported (err x) g world = (refl, inr (inr (x, refl, refl, inl (refl, λ reason e. cc))))

  module _ (w : SubmitEnv S) (q : ExecutionRequest) (g : ExecutionEngine S W) (world : W) where
    abbrev after : Result ExecutionResult ExecutionError × (ExecutionEngine S W × W)
    after = submit w q (g, world)

    -- Either `submit` ends before it reaches an executor, or it goes on in `report`.
    submit_cases :
        (((x : ExecutionError) × (after ≡ (err x, (g, world)))))
        ⊎ ((executor : Executor W) × (h : ExecutionEngine S W) × (g.validator q ≡ ok tt)
            × (get g.registry q.action ≡ some executor)
            × (reported h ≡ reported g ++ requested w.requested_at q ∷ [])
            × (after
                ≡ report w q
                    (executor w.executor_ms q world).0
                    (h, (executor w.executor_ms q world).1)))
    unfolding submit dispatch
    submit_cases = elim (Result-cases (g.validator q)) [
      | inr (x, refused) ↦ inl (x, rw refused refl)
      | inl (done, valid) ↦ elim (Option-cases (get g.registry q.action)) [
        | inl missing ↦ inl (internal "no executor registered", rw (valid, missing) refl)
        | inr (executor, found) ↦ elim (append_cases w.first (requested w.requested_at q) g world) [
          | inl (h, stored, grown) ↦
              inr (executor, h, valid, found, grown, rw (valid, found, stored) refl)
          | inr (y, full) ↦ inl (event_append_failed y, rw (valid, found, full) refl)
        ]
      ]
    ]

    abbrev asked : EventPayload
    asked = requested w.requested_at q

    -- How the log and the answer tell of the executor's run `ran`.
    abbrev Told :
        Result ExecutionResult ExecutionError
        → Result ExecutionResult ExecutionError × (ExecutionEngine S W × W)
        → Type 0
    Told ran r =
        ((res : ExecutionResult) × (ran ≡ ok res)
          × (r.0 ≡ ok res)
          × (reported r.1.0
              ≡ reported g ++ asked ∷ completed w.duration_ms w.finished_at q res ∷ []))
        ⊎ ((reason : String) × (ran ≡ err (executor_failed reason))
            × (r.0 ≡ err (executor_failed reason))
            × (reported r.1.0
                ≡ reported g ++ asked ∷ failed w.duration_ms w.finished_at q reason ∷ []))
        ⊎ ((x : ExecutionError) × (r.0 ≡ err x)
            × (reported r.1.0 ≡ reported g ++ asked ∷ [])
            × ((ran ≡ err x) × ((reason : String) → x ≢ executor_failed reason)
                ⊎ ((y : EventStoreError) × (x ≡ event_append_failed y))))

    -- What `submit` may leave behind.
    abbrev pub Audited : Result ExecutionResult ExecutionError × (ExecutionEngine S W × W) → Type 0
    Audited r =
        ((x : ExecutionError) × (r ≡ (err x, (g, world))))
        ⊎ ((executor : Executor W) × (g.validator q ≡ ok tt)
            × (get g.registry q.action ≡ some executor)
            × (r.1.1 ≡ (executor w.executor_ms q world).1)
            × Told (executor w.executor_ms q world).0 r)

    -- The outcomes of `submit`: either it fails and changes neither the store nor the world; or the
    -- validator let the request pass, and the executor registered for its action has run once. Then
    -- the log has got the request, and behind it the completion where the executor succeeded and
    -- the failure where it failed with `ExecutorFailed`; nothing behind it if the second append was
    -- refused or the executor failed with another error.
    pub submit-Audited : Audited after
    submit-Audited = elim submit_cases [
      | inl (x, same) ↦ inl (x, same)
      | inr (executor, k, valid, found, grown, same) ↦
          let (kept, outcome) =
            report-Reported w q (executor w.executor_ms q world).0 k
              (executor w.executor_ms q world).1 in
          subst Audited (sym same) (
            inr (
              executor,
              valid,
              found,
              kept,
              elim outcome [
                | inl (res, ran, told, more) ↦
                    inl (res, ran, told, more ∙ rw (grown, append_assoc) refl)
                | inr (inl (reason, ran, told, more)) ↦
                    inr (inl (reason, ran, told, more ∙ rw (grown, append_assoc) refl))
                | inr (inr (x, told, kept_store, why)) ↦
                    inr (inr (x, told, ap reported kept_store ∙ grown, why))
              ],
            ))
    ]

    -- A submit that succeeds was allowed by the validator and has run the executor that is
    -- registered for the action; its result is the executor's, and the log has got exactly the
    -- request and its completion.
    pub submit_ok :
        (res : ExecutionResult)
        → after.0 ≡ ok res
        → (g.validator q ≡ ok tt)
          × ((executor : Executor W) × (get g.registry q.action ≡ some executor)
              × (executor w.executor_ms q world ≡ (ok res, after.1.1)))
          × (payloads (log after.1.0.store)
              ≡ payloads (log g.store)
                ++ requested w.requested_at q ∷ completed w.duration_ms w.finished_at q res ∷ [])
    submit_ok res h = elim submit-Audited [
      | inl (x, same) ↦ cc (h, same)
      | inr (executor, valid, found, world', inl (out, ran, told, log')) ↦
          (valid, (executor, found, cc (h, told, ran, world')), cc (h, told, log'))
      | inr (executor, valid, found, world', inr (inl (reason, ran, told, log'))) ↦ cc (h, told)
      | inr (executor, valid, found, world', inr (inr (x, told, rest, why))) ↦ cc (h, told)
    ]

    -- The world changes only if the request is in the log: a submit after which the world is
    -- another has appended the request, and at most one event behind it.
    submit_recorded :
        after.1.1 ≢ world
        → (es : List EventPayload) × (length es ≤ 1)
          × (payloads (log after.1.0.store)
              ≡ payloads (log g.store) ++ requested w.requested_at q ∷ es)
    submit_recorded moved = elim submit-Audited [
      | inl (x, same) ↦ absurd (moved (ap (λ r. r.1.1) same))
      | inr (executor, valid, found, world', inl (out, ran, told, log')) ↦
          (completed w.duration_ms w.finished_at q out ∷ [], omega arith, log')
      | inr (executor, valid, found, world', inr (inl (reason, ran, told, log'))) ↦
          (failed w.duration_ms w.finished_at q reason ∷ [], omega arith, log')
      | inr (executor, valid, found, world', inr (inr (x, told, log', why))) ↦
          ([], omega arith, log')
    ]
