-- ===== src/Execution/Engine/Threads/Alone.antt =====
-- The three steps of a submit, with no other thread between them.
use cotrex_ai.Base.{
  ℕ, ◌≡◌, refl, ap, inl, inr, [], ◌∷◌, Result, ok, err, Result-cases, Option-cases, Method, bound,
  pure, nat_eq, ==_iff,
}
use cotrex_ai.Kernel.Store.{EventStore}
use cotrex_ai.Execution.Request.{ExecutionRequest, ExecutionResult, ExecutionError, Executor}
use cotrex_ai.Execution.Registry.{get}
use cotrex_ai.Execution.Engine.{ExecutionEngine, SubmitEnv, requested, append, dispatch, submit}
use cotrex_ai.Execution.Engine.Threads.{
  Pc, waiting, admitted, ran, answered, Threads, update, admit, entered, step_from, step, run,
  initial,
}

update_self : {A : Type 0} (i : ℕ) (c : A) (f : ℕ → A) → update i c f i ≡ c
update_self i c f = rw ((==_iff i i).1 refl) refl

module _ {S : EventStore} {W : Type 0} where
  bound-pure :
      (f : Executor W → Method (ExecutionEngine S W × W) ExecutionResult ExecutionError)
      (x : Executor W) (r : Result (Unit {0}) ExecutionError × (ExecutionEngine S W × W))
      → bound (λ u. f x) r ≡ bound f (bound (λ u. pure x) r)
  bound-pure f x (ok u, s) = refl
  bound-pure f x (err e, s) = refl

  submit-admit :
      (w : SubmitEnv S) (q : ExecutionRequest) (g : ExecutionEngine S W) (world : W)
      → submit w q (g, world) ≡ bound (dispatch w q) (admit w q (g, world))
  unfolding submit admit
  submit-admit w q g world = elim (Result-cases (g.validator q)) [
    | inr (x, refused) ↦ rw refused refl
    | inl (u, valid) ↦ elim (Option-cases (get g.registry q.action)) [
      | inl missing ↦ rw (valid, missing) refl
      | inr (x, found) ↦
          rw (valid, found)
            (bound-pure (dispatch w q) x (append w.first (requested w.requested_at q) (g, world)))
    ]
  ]

  module _ (job : ℕ → SubmitEnv S × ExecutionRequest) (i : ℕ) where
    step_at : (c : Pc W) (y : Threads S W) → y.pc i ≡ c → step job i y ≡ step_from job c i y
    unfolding step
    step_at c y h = ap (λ c. step_from job c i y) h

    -- Where a submit has ended with this outcome.
    abbrev IsEnd :
        Result ExecutionResult ExecutionError × (ExecutionEngine S W × W) → Threads S W → Type 0
    IsEnd r y = ((y.engine, y.world) ≡ r.1) × (y.pc i ≡ answered r.0)

    from_entered :
        (r : Result (Executor W) ExecutionError × (ExecutionEngine S W × W)) (y : Threads S W)
        → IsEnd (bound (dispatch (job i).0 (job i).1) r) (step job i (step job i (entered r i y)))
    unfolding dispatch
    from_entered (err e, (g, world)) y =
        let c : Pc W = answered (err e) in
        let y1 = entered (err e, (g, world)) i y in
        let here = update_self i c y.pc in
        let still = step_at c y1 here in rw (still, still) (refl, here)
    from_entered (ok x, (g, world)) y =
        let y1 = entered (ok x, (g, world)) i y in
        let first = step_at (admitted x) y1 (update_self i (admitted x) y.pc) in
        let y2 = step_from job (admitted x) i y1 in
        let r = (x (job i).0.executor_ms (job i).1 world).0 in
        let second = step_at (ran r) y2 (update_self i (ran r) y1.pc) in
        rw (first, second) (refl, update_self i (answered _) y2.pc)

    -- Three steps of one thread, with no other between them, are one call of `submit`.
    pub run_alone :
        (g : ExecutionEngine S W) (world : W)
        → let y = run job (i ∷ i ∷ i ∷ []) (initial g world) in
          ((y.engine, y.world) ≡ (submit (job i).0 (job i).1 (g, world)).1)
          × (y.pc i ≡ answered (submit (job i).0 (job i).1 (g, world)).0)
    unfolding run
    run_alone g world =
        rw (step_at waiting (initial g world) refl, submit-admit (job i).0 (job i).1 g world)
          (from_entered (admit (job i).0 (job i).1 (g, world)) (initial g world))
