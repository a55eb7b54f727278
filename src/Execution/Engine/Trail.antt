-- ===== src/Execution/Engine/Trail.antt =====
-- The trail that submits, one after another, leave in the log.
use mathlib.Core.List.{append-nil, append_assoc}
use cotrex_ai.Base.{
  ◌≡◌, ◌≢◌, refl, sym, ap, ◌∙◌, ◌⊎◌, inl, inr, String, List, [], ◌∷◌, ◌++◌, Result, ok, err,
}
use cotrex_ai.Kernel.Event.{Event, EventPayload, payloads}
use cotrex_ai.Kernel.Store.{EventStore, IsEventLog}
use cotrex_ai.Execution.Request.{ExecutionRequest, ExecutionResult, ExecutionError, executor_failed}
use cotrex_ai.Execution.Engine.{ExecutionEngine, SubmitEnv, requested, completed, failed, submit}
use cotrex_ai.Execution.Engine.Audit.{submit-Audited}

module _ {S : EventStore} where
  -- The answers to these requests, submitted one after another, and the state behind the last.
  abbrev submit_all :
      {W : Type 0}
      → List (SubmitEnv S × ExecutionRequest)
      → ExecutionEngine S W × W
      → List (Result ExecutionResult ExecutionError) × (ExecutionEngine S W × W)
  submit_all [] s = ([], s)
  submit_all ((w, q) ∷ qs) s =
      let (r, s') = submit w q s in let (rs, t) = submit_all qs s' in (r ∷ rs, t)

  -- What one submit, answered so, may add to the log.
  abbrev pub Told :
      SubmitEnv S
      → ExecutionRequest
      → Result ExecutionResult ExecutionError
      → List EventPayload
      → Type 0
  Told w q (ok res) b =
      b ≡ requested w.requested_at q ∷ completed w.duration_ms w.finished_at q res ∷ []
  Told w q (err (executor_failed reason)) b =
      (b ≡ []) ⊎ (b ≡ requested w.requested_at q ∷ failed w.duration_ms w.finished_at q reason ∷ [])
  Told w q (err x) b = (b ≡ []) ⊎ (b ≡ requested w.requested_at q ∷ [])

  pub nothing-Told :
      (w : SubmitEnv S) (q : ExecutionRequest) (x : ExecutionError) → Told w q (err x) []
  nothing-Told w q (executor_failed reason) = inl refl
  nothing-Told w q _ = inl refl

  pub request-Told :
      (w : SubmitEnv S) (q : ExecutionRequest) (x : ExecutionError)
      → ((reason : String) → x ≢ executor_failed reason)
      → Told w q (err x) (requested w.requested_at q ∷ [])
  request-Told w q (executor_failed reason) other = absurd (other reason refl)
  request-Told w q _ other = inr refl

  -- The log has got these events, in the order of the requests, each told of by its own events.
  abbrev IsTrail :
      List (SubmitEnv S × ExecutionRequest)
      → List (Result ExecutionResult ExecutionError)
      → List EventPayload
      → Type 0
  IsTrail [] [] l = l ≡ []
  IsTrail ((w, q) ∷ qs) (r ∷ rs) l =
      (b : List EventPayload) × (rest : List EventPayload) × (l ≡ b ++ rest)
      × Told w q r b
      × IsTrail qs rs rest
  IsTrail _ _ l = ⊥

  module _ {W : Type 0} {log : S.State → List Event} {Valid : S.State → Type 0}
      (L : IsEventLog S log Valid) where
    told :
        (w : SubmitEnv S) (q : ExecutionRequest) (g : ExecutionEngine S W) (world : W)
        → (b : List EventPayload) × (payloads (log (submit w q (g, world)).1.0.store)
            ≡ payloads (log g.store) ++ b)
          × Told w q (submit w q (g, world)).0 b
    told w q g world = elim (submit-Audited log L w q g world) [
      | inl (x, same) ↦ rw same ([], sym (append-nil _), nothing-Told w q x)
      | inr (executor, valid, found, world', inl (out, ran, answer, grown)) ↦
          (_, grown, rw answer refl)
      | inr (executor, valid, found, world', inr (inl (reason, ran, answer, grown))) ↦
          (_, grown, rw answer (inr refl))
      | inr (executor, valid, found, world', inr (inr (x, answer, grown, why))) ↦
          let other : (reason : String) → x ≢ executor_failed reason = elim why [
            | inl (ran, apart) ↦ apart
            | inr (y, stored) ↦ λ reason e. cc (stored, e)
          ] in
          (_, grown, rw answer (request-Told w q x other))
    ]

    -- Whatever requests are submitted, one after another, the log has got their events in the order
    -- of the requests: behind a request that was answered with a result stands its completion, behind
    -- one that its executor failed stands the failure, unless nothing was logged of it; of any other
    -- there is the request alone, or nothing.
    submit_all-IsTrail :
        (qs : List (SubmitEnv S × ExecutionRequest)) (g : ExecutionEngine S W) (world : W)
        → (more : List EventPayload) × (payloads (log (submit_all qs (g, world)).1.0.store)
            ≡ payloads (log g.store) ++ more)
          × IsTrail qs (submit_all qs (g, world)).0 more
    submit_all-IsTrail [] g world = ([], sym (append-nil _), refl)
    submit_all-IsTrail ((w, q) ∷ qs) g world =
        let s = (submit w q (g, world)).1 in
        let (b, grown, here) = told w q g world in
        let (rest, grown', there) = submit_all-IsTrail qs s.0 s.1 in
        (
          b ++ rest,
          grown' ∙ ap (λ l. l ++ rest) grown ∙ append_assoc _ b rest,
          (b, rest, refl, here, there),
        )
