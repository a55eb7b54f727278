-- ===== src/Agent/Controller.antt =====
-- The controller (agent/src/controller.rs) over any planner and any resolver. The proofs
-- are in the module below.
pub mod Governed
pub mod Session
use cotrex_ai.Base.{
  ℕ, String, ◌<>◌, Bool, true, false, Option, none, some, Result, ok, err, Method, ltb, ◌-◌,
  if◌then◌else◌,
}
use cotrex_ai.Base.Text.{show_i32}
use cotrex_ai.FilePath.{FilePath}
use cotrex_ai.Kernel.Event.{Uuid}
use cotrex_ai.Kernel.Store.{EventStore}
use cotrex_ai.Execution.Request.{ExecutionRequest, ExecutionResult, ExecutionError, show_error}
use cotrex_ai.Execution.Engine.{ExecutionEngine, SubmitEnv, submit}
use cotrex_ai.Agent.Resolver.{
  AgentGoal, AgentDecision, execute, complete, need_more_context, PlanStep, show_resolution_error,
  CapabilityResolver, resolve,
}

pub record AgentResult : Type 0 where
  pub goal_id : Uuid
  pub success : Bool
  pub summary : String
  pub exit_code : Option ℕ

pub data AgentError : Type 0 where
  lacks_context : String → AgentError
  execution_failed : String → AgentError

-- `{:?}` of an `Option<i32>`
abbrev pub show_exit_code : Option ℕ → String
show_exit_code none = "None"
show_exit_code (some n) = "Some(" <> (show_i32 n <> ")")

abbrev pub unwrap_error : Option String → String
unwrap_error none = "unknown error"
unwrap_error (some e) = e

unfoldable pub result_to_agent_result : Uuid → ExecutionResult → AgentResult
result_to_agent_result goal_id result = record {
  goal_id = goal_id;
  success = result.success;
  summary =
      if result.success
      then "execution completed (exit code: " <> (show_exit_code result.exit_code <> ")")
      else "execution failed: " <> unwrap_error result.error;
  exit_code = result.exit_code;
}

-- The answer of the engine as the agent reports it.
abbrev pub reported : Uuid → Result ExecutionResult ExecutionError → Result AgentResult AgentError
reported id (ok result) = ok (result_to_agent_result id result)
reported id (err e) = err (execution_failed ("execution engine error: " <> show_error e))

module _ {S : EventStore} {W : Type 0} (planner : String → AgentDecision)
    (resolver : CapabilityResolver) where
  -- What follows a plan step that has been resolved: the request takes the goal's id.
  unfoldable pub carry_out :
      SubmitEnv S
      → AgentGoal
      → ExecutionRequest
      → Method (ExecutionEngine S W × W) AgentResult AgentError
  carry_out w goal request s =
      let (r, s') = submit w (record request { id = goal.id }) s in (reported goal.id r, s')

  -- `process_goal`; `drawn` is the uuid that the resolver draws.
  unfoldable pub process_goal :
      SubmitEnv S → Uuid → AgentGoal → Method (ExecutionEngine S W × W) AgentResult AgentError
  process_goal w drawn goal s = elim (planner goal.description) [
    | execute step ↦ elim (resolver drawn step) [
      | err e ↦ (err (execution_failed (show_resolution_error e)), s)
      | ok request ↦ carry_out w goal request s
    ]
    | complete summary ↦
        (ok (record { goal_id = goal.id; success = true; summary = summary; exit_code = none }), s)
    | need_more_context reason ↦ (err (lacks_context reason), s)
  ]
