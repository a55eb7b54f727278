-- ===== src/Execution/Engine/World.antt =====
-- What a submit does to the world where the executors of execution/src/executor are registered.
use mathlib.Core.List.{append-nil}
use cotrex_ai.Base.{
  ◌≡◌, ◌⊎◌, inl, inr, refl, sym, ◌∙◌, ap, some, String, List, [], ◌∷◌, ◌++◌, ◌≤◌, length, All, ok,
  arith,
}
use cotrex_ai.Kernel.Event.{Event, EventPayload, payloads}
use cotrex_ai.Kernel.Store.{EventStore, IsEventLog}
use cotrex_ai.Execution.Request.{ExecutionAction, run, write, delete, ExecutionRequest, Executor}
use cotrex_ai.Base.{Result-cases, Bool-cases}
use cotrex_ai.Base.Map
use cotrex_ai.Execution.Registry
use cotrex_ai.Execution.Registry.{
  ExecutorRegistry, ExecutionActionDiscriminant, command_run, file_write, file_delete, discriminant,
  discriminant_beq, discriminant_beq_iff, get, register, register_ok, register_err,
}
use cotrex_ai.Execution.Executors
use cotrex_ai.Execution.Executors.{command}
use mathlib.Core.Path.{subst}
use cotrex_ai.Execution.System.{System}
use cotrex_ai.Execution.Engine.{
  ExecutionEngine, SubmitEnv, requested, append, report, submit, dispatch,
}
use cotrex_ai.Execution.Engine.Audit.{submit-Audited}
use cotrex_ai.Execution.Executors.Effects.{
  Effect, perform_all, Allowed, executor_for, executor-Acts,
}

module _ (O : System) (debug : ExecutionAction → String) where
  -- Where an action finds an executor, it is the one that stands for it.
  abbrev pub Wired : ExecutorRegistry O.State → Type 0
  Wired r =
      (a : ExecutionAction) (x : Executor O.State) → get r a ≡ some x → x ≡ executor_for O debug a

  -- The executor that is meant for a kind of actions.
  abbrev pub executor_of : ExecutionActionDiscriminant → Executor O.State
  executor_of command_run = command O debug
  executor_of file_write = Executors.file_write O debug
  executor_of file_delete = Executors.file_delete O debug

  executor_of-discriminant :
      (a : ExecutionAction) → executor_of (discriminant a) ≡ executor_for O debug a
  unfolding discriminant
  executor_of-discriminant (run program wd) = refl
  executor_of-discriminant (write path content wd) = refl
  executor_of-discriminant (delete path wd) = refl

  pub new-Wired : Wired Registry.new
  unfolding Registry.new get Map.get
  new-Wired a x found = cc found

  -- The registration of an executor for its kind, whether it succeeds or is refused, leaves each
  -- action with the executor that stands for it.
  pub register-Wired :
      (d : ExecutionActionDiscriminant) (r : ExecutorRegistry O.State)
      → Wired r
      → Wired (register d (executor_of d) r).1
  register-Wired d r wired a x found = elim (Result-cases (register d (executor_of d) r).0) [
    | inr (e, refused) ↦ wired a x (
        subst (λ (r' : ExecutorRegistry O.State). get r' a ≡ some x)
          (register_err d (executor_of d) r e refused).0 found)
    | inl (u, done) ↦
        let (here, elsewhere) = (register_ok d (executor_of d) r done).1 a in
        elim (Bool-cases (discriminant_beq (discriminant a) d)) [
          | inl eq ↦
              let same = (discriminant_beq_iff (discriminant a) d).0 eq in
              cc (found, (here same).1) ∙ ap executor_of (sym same) ∙ executor_of-discriminant a
          | inr ne ↦ wired a x (
              sym (elsewhere (λ same. cc (ne, (discriminant_beq_iff (discriminant a) d).1 same)))
              ∙ found)
        ]
  ]

  module _ {S : EventStore} {log : S.State → List Event} {Valid : S.State → Type 0}
      (L : IsEventLog S log Valid) (w : SubmitEnv S) (q : ExecutionRequest)
      (g : ExecutionEngine S O.State) (world : O.State) where
    -- A submit changes the world by calls alone that the request's action may come to, and appends
    -- at most two events. Where there is such a call, the validator let the request pass, and the
    -- first of the events is the request.
    pub submit-Allowed :
        Wired g.registry
        → let r = submit w q (g, world) in
          (es : List Effect) × (more : List EventPayload) × (r.1.1 ≡ perform_all O debug es world)
          × All (Allowed O debug world q.action) es
          × (payloads (log r.1.0.store) ≡ payloads (log g.store) ++ more)
          × (length more ≤ 2)
          × ((es ≡ [])
              ⊎ (g.validator q ≡ ok tt)
                × ((later : List EventPayload) × (more ≡ requested w.requested_at q ∷ later)))
    submit-Allowed wired = elim (submit-Audited log L w q g world) [
      | inl (x, same) ↦ (
        [],
        [],
        ap (λ r. r.1.1) same,
        tt,
        ap (λ r. payloads (log r.1.0.store)) same ∙ sym (append-nil _),
        omega arith,
        inl refl,
      )
      | inr (executor, valid, found, world', told) ↦
          let (es, reached, all) = executor-Acts O debug w.executor_ms q world in
          let moved =
            world'
            ∙ ap (λ (x : Executor O.State). (x w.executor_ms q world).1)
                (wired q.action executor found)
            ∙ reached in
          elim told [
            | inl (out, ran, answer, grown) ↦
                (es, _, moved, all, grown, omega arith, inr (valid, (_, refl)))
            | inr (inl (reason, ran, answer, grown)) ↦
                (es, _, moved, all, grown, omega arith, inr (valid, (_, refl)))
            | inr (inr (x, answer, grown, why)) ↦
                (es, _, moved, all, grown, omega arith, inr (valid, (_, refl)))
          ]
    ]

module _ {S : EventStore} {W : Type 0} where
  -- A submit leaves the validator and the registry as they are.
  pub submit_keeps :
      (w : SubmitEnv S) (q : ExecutionRequest) (g : ExecutionEngine S W) (world : W)
      → let r = submit w q (g, world) in
        (r.1.0.validator ≡ g.validator) × (r.1.0.registry ≡ g.registry)
  unfolding submit dispatch report append
  submit_keeps w q g world = ground arith
