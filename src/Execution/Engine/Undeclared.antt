-- ===== src/Execution/Engine/Undeclared.antt =====
-- Requests that declare no capability.
use cotrex_ai.Base.{◌≡◌, refl, ap, ◌∙◌, some, List, [], ok}
use cotrex_ai.Kernel.Event.{Event}
use cotrex_ai.Kernel.Store.{EventStore, IsEventLog}
use cotrex_ai.Execution.Request.{ExecutionRequest, Executor}
use cotrex_ai.Execution.Policy.{ExecutionPolicy, validate, check_all}
use cotrex_ai.Execution.Registry.{get}
use cotrex_ai.Execution.Engine.{ExecutionEngine, SubmitEnv, requested, append, dispatch, submit}
use cotrex_ai.Execution.Engine.Audit.{report-Reported}

module _ {S : EventStore} {W : Type 0} {log : S.State → List Event} {Valid : S.State → Type 0}
    (L : IsEventLog S log Valid) where
  -- Whatever a policy grants, also where it grants nothing: a request that declares no capability is
  -- not held up by it. Where the store takes the request, the executor of its action runs, and the
  -- world is as it leaves it.
  pub submit_undeclared :
      (p : ExecutionPolicy) (w : SubmitEnv S) (q : ExecutionRequest) (g : ExecutionEngine S W)
      (world : W) (executor : Executor W) (e : Event)
      → g.validator ≡ validate p
      → q.required_capabilities ≡ []
      → get g.registry q.action ≡ some executor
      → (S.append w.first (requested w.requested_at q) g.store).0 ≡ ok e
      → (submit w q (g, world)).1.1 ≡ (executor w.executor_ms q world).1
  unfolding submit dispatch append
  submit_undeclared p w q g world executor e policy undeclared found stored =
      let valid : g.validator q ≡ ok tt =
        ap (λ f. f q) policy ∙ unfold validate check_all in rw undeclared refl in
      let ran = executor w.executor_ms q world in
      rw (valid, found, stored)
        (report-Reported log L w q ran.0
          (record g { store = (S.append w.first (requested w.requested_at q) g.store).1 }) ran.1).0
