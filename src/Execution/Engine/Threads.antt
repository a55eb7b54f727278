-- ===== src/Execution/Engine/Threads.antt =====
-- Submits from several threads through one engine. A submit is three steps here, between which the
-- other threads may go on: up to its first append, the run of the executor, and the rest.
pub mod Interleaved
pub mod Alone
use mathlib.Core.Path.{subst}
use mathlib.Core.List.{append-nil, append_assoc, map-append}
use cotrex_ai.Base.{
  ℕ, ◌≡◌, ◌≢◌, refl, sym, ap, ◌∙◌, ◌⊎◌, inl, inr, true, false, some, String, List, [], ◌∷◌, ◌++◌,
  map, Result, ok, err, ok_or, Result-cases, Option-cases, Bool-cases, Method, ◌>>=◌, ◌>>◌, bound,
  pure, lift, arith, ◌==◌, nat_eq, ==_iff, if◌then◌else◌,
}
use cotrex_ai.Kernel.Event.{Event, EventPayload, payloads}
use cotrex_ai.Kernel.Store.{EventStore, EventStoreError, IsEventLog}
use cotrex_ai.Execution.Request.{
  ExecutionRequest, ExecutionResult, ExecutionError, internal, event_append_failed, executor_failed,
  Executor,
}
use cotrex_ai.Execution.Registry.{get}
use cotrex_ai.Execution.Engine.{
  ExecutionEngine, SubmitEnv, requested, completed, failed, append, report, dispatch, submit,
}
use cotrex_ai.Execution.Engine.Audit.{append_cases, report-Reported}
use cotrex_ai.Execution.Engine.Trail.{Told, nothing-Told, request-Told}

-- Where the submit of a thread stands.
pub data Pc (W : Type 0) : Type 0 where
  waiting : Pc W
  admitted : Executor W → Pc W
  ran answered : Result ExecutionResult ExecutionError → Pc W

pub record Threads (S : EventStore) (W : Type 0) : Type 0 where
  pub engine : ExecutionEngine S W
  pub world : W
  pub pc : ℕ → Pc W

abbrev pub update {ℓ} : {A : Type ℓ} → ℕ → A → (ℕ → A) → ℕ → A
update i a f j = if i == j then a else f j

module _ {S : EventStore} {W : Type 0} where
  -- `submit` up to "Dispatch execution".
  unfoldable pub admit :
      SubmitEnv S → ExecutionRequest → Method (ExecutionEngine S W × W) (Executor W) ExecutionError
  admit w request (g, world) =
      (do
        lift (g.validator request)
        executor ← lift (ok_or (get g.registry request.action) (internal "no executor registered"))
        append w.first (requested w.requested_at request)
        pure executor)
        (g, world)

  abbrev pub entered :
      Result (Executor W) ExecutionError × (ExecutionEngine S W × W) → ℕ → Threads S W → Threads S W
  entered (ok x, (g, world)) i y = record {
    engine = g;
    world = world;
    pc = update i (admitted x) y.pc;
  }
  entered (err e, (g, world)) i y = record {
    engine = g;
    world = world;
    pc = update i (answered (err e)) y.pc;
  }

  -- What each thread submits.
  module _ (job : ℕ → SubmitEnv S × ExecutionRequest) where
    -- The next step of thread `i`.
    abbrev pub step_from : Pc W → ℕ → Threads S W → Threads S W
    step_from waiting i y = entered (admit (job i).0 (job i).1 (y.engine, y.world)) i y
    step_from (admitted x) i y =
        let (r, world) = x (job i).0.executor_ms (job i).1 y.world in
        record y { world = world; pc = update i (ran r) y.pc }
    step_from (ran r) i y =
        let (a, (g, world)) = report (job i).0 (job i).1 r (y.engine, y.world) in
        record { engine = g; world = world; pc = update i (answered a) y.pc }
    step_from (answered r) i y = y

    unfoldable pub step : ℕ → Threads S W → Threads S W
    step i y = step_from (y.pc i) i y

    -- The threads take their steps in this order.
    unfoldable pub run : List ℕ → Threads S W → Threads S W
    run [] y = y
    run (i ∷ is) y = run is (step i y)

  abbrev pub initial : ExecutionEngine S W → W → Threads S W
  initial g world = record { engine = g; world = world; pc = λ i. waiting }
