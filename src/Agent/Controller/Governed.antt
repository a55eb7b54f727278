-- ===== src/Agent/Controller/Governed.antt =====
-- The agent acts within the policy of the engine.
use mathlib.Core.Path.{subst}
use cotrex_ai.Base.{
  true, some, none, Bool-cases, String, ◌≡◌, refl, ap, sym, ◌<>◌, ◌∙◌, false, List, [], ◌∷◌, ◌++◌,
  ◌⊎◌, inl, inr, Result-cases, arith, ok, err, contains,
}
use cotrex_ai.FilePath.{FilePath}
use cotrex_ai.Kernel.Event.{Uuid, Event, payloads}
use cotrex_ai.Kernel.Store.{EventStore, IsEventLog}
use cotrex_ai.Execution.Request.{
  capability_eq, show_capability, ExecutionRequest, ExecutionResult, Executor, new,
}
use cotrex_ai.Execution.Registry.{get}
use cotrex_ai.Execution.Policy.{ExecutionPolicy, validate, check_all}
use cotrex_ai.Execution.Engine.{ExecutionEngine, SubmitEnv, submit, requested, completed}
use cotrex_ai.Execution.Engine.Audit.{submit_ok}
use cotrex_ai.Agent.Resolver.{
  AgentGoal, AgentDecision, execute, complete, need_more_context, PlanStep, resolve, action_of,
  capability_of,
}
use cotrex_ai.Agent.Controller.{
  AgentResult, execution_failed, process_goal, carry_out, reported, result_to_agent_result,
  show_exit_code, unwrap_error,
}

pub decision-cases :
    (d : AgentDecision)
    → ((step : PlanStep) × (d ≡ execute step))
      ⊎ ((summary : String) × (d ≡ complete summary))
      ⊎ ((reason : String) × (d ≡ need_more_context reason))
decision-cases (execute step) = inl (step, refl)
decision-cases (complete summary) = inr (inl (summary, refl))
decision-cases (need_more_context reason) = inr (inr (reason, refl))

-- The request that stands for a plan step of a goal.
abbrev pub request_of : (String → FilePath) → AgentGoal → PlanStep → ExecutionRequest
request_of path_of goal step = record {
  id = goal.id;
  action = action_of path_of step;
  required_capabilities = capability_of step ∷ [];
}

-- The answer to a goal tells of the result `res` of its execution.
abbrev pub Reports : ExecutionResult → AgentResult → Type 0
Reports res r =
    (r.success ≡ res.success)
    × (r.exit_code ≡ res.exit_code)
    × (((res.success ≡ true)
          × (r.summary
              ≡ "execution completed (exit code: " <> (show_exit_code res.exit_code <> ")")))
        ⊎ ((res.success ≡ false) × (r.summary ≡ "execution failed: " <> unwrap_error res.error)))

goal_id_lem : (id : Uuid) (res : ExecutionResult) → (result_to_agent_result id res).goal_id ≡ id
unfolding result_to_agent_result
goal_id_lem id res = refl

result_to_agent_result-Reports :
    (id : Uuid) (res : ExecutionResult) → Reports res (result_to_agent_result id res)
unfolding result_to_agent_result
result_to_agent_result-Reports id res = elim (Bool-cases res.success) [
  | inl done ↦ (refl, refl, inl (done, rw done refl))
  | inr failed ↦ (refl, refl, inr (failed, rw failed refl))
]

module _ {S : EventStore} {W : Type 0} (planner : String → AgentDecision)
    (path_of : String → FilePath) where
  -- A goal whose plan needs a capability that the policy of the engine does not grant is refused:
  -- no event is appended, and the world is not touched.
  process_goal_denied :
      (p : ExecutionPolicy) (w : SubmitEnv S) (drawn : Uuid) (goal : AgentGoal)
      (g : ExecutionEngine S W) (world : W) (step : PlanStep)
      → g.validator ≡ validate p
      → planner goal.description ≡ execute step
      → contains p.granted (capability_of step) ≡ false
      → process_goal planner (resolve path_of) w drawn goal (g, world) ≡ (
        err (
            execution_failed (
              "execution engine error: "
              <> ("validation failed: "
                  <> ("missing capability: " <> show_capability (capability_of step))))),
        (g, world),
      )
  unfolding process_goal carry_out resolve new submit validate check_all
  process_goal_denied p w drawn goal g world step policy planned denied =
      rw (planned, policy, denied, process_goal) refl

  -- What a goal that is answered with `r` has done: the planner called it complete, with the summary
  -- of the answer, and nothing has changed; or it planned a step, for which the registered executor
  -- was run on the request with the goal's id, which the log has got with its completion.
  abbrev pub Achieved :
      (S.State → List Event)
      → SubmitEnv S
      → AgentGoal
      → ExecutionEngine S W × W
      → AgentResult
      → ExecutionEngine S W × W
      → Type 0
  Achieved log w goal (g, world) r (g', world') =
      ((summary : String) × (planner goal.description ≡ complete summary)
        × (r ≡ record { goal_id = goal.id; success = true; summary = summary; exit_code = none })
        × (g' ≡ g)
        × (world' ≡ world))
      ⊎ ((step : PlanStep) × (res : ExecutionResult) × (executor : Executor W) × (planner
              goal.description
            ≡ execute step)
          × (get g.registry (action_of path_of step) ≡ some executor)
          × (executor w.executor_ms (request_of path_of goal step) world ≡ (ok res, world'))
          × (r.goal_id ≡ goal.id)
          × Reports res r
          × (payloads (log g'.store)
              ≡ payloads (log g.store)
                ++ requested w.requested_at (request_of path_of goal step)
                  ∷ completed w.duration_ms w.finished_at (request_of path_of goal step) res
                  ∷ []))

  -- A goal that succeeds was called complete by the planner, with the summary of the answer, and
  -- nothing has changed; or the planner gave a step for it. Then the executor that is registered for
  -- the step's action was run, once, on the request for the step under the goal's id, and succeeded;
  -- the answer has the goal's id and tells of its result: whether it was a success, the exit code,
  -- and a summary made from them or from the error; and the log has got the request and its
  -- completion.
  pub process_goal_ok :
      {log : S.State → List Event} {Valid : S.State → Type 0} (L : IsEventLog S log Valid)
      (w : SubmitEnv S) (drawn : Uuid) (goal : AgentGoal) (g : ExecutionEngine S W) (world : W)
      (r : AgentResult)
      → (process_goal planner (resolve path_of) w drawn goal (g, world)).0 ≡ ok r
      → Achieved log w goal
          (g, world)
          r
          (process_goal planner (resolve path_of) w drawn goal (g, world)).1
  unfolding process_goal carry_out resolve new
  process_goal_ok {log} L w drawn goal g world r h =
      let q = λ (step : PlanStep). request_of path_of goal step in
      elim (decision-cases (planner goal.description)) [
        | inl (step, planned) ↦
            let run = submit w (q step) (g, world) in
            let whole : process_goal planner (resolve path_of) w drawn goal (g, world)
                ≡ (reported goal.id run.0, run.1) =
              rw (planned, process_goal) refl in
            elim (Result-cases run.0) [
              | inl (res, good) ↦
                  let (_, (executor, found, ran), grown) =
                    submit_ok log L w (q step) g world res good in
                  let answer : ok r ≡ ok (result_to_agent_result goal.id res) =
                    sym h ∙ ap (λ z. z.0) whole ∙ ap (reported goal.id) good in
                  let same : r ≡ result_to_agent_result goal.id res = cc answer in
                  subst
                    (λ a.
                      Achieved log w goal (g, world) a
                        (process_goal planner (resolve path_of) w drawn goal (g, world)).1)
                    (sym same)
                    (subst (Achieved log w goal (g, world) (result_to_agent_result goal.id res))
                      (sym (ap (λ z. z.1) whole))
                      (inr (
                        step,
                        res,
                        executor,
                        planned,
                        found,
                        ran,
                        goal_id_lem goal.id res,
                        result_to_agent_result-Reports goal.id res,
                        grown,
                      )))
              | inr (x, bad) ↦ cc (sym h ∙ ap (λ z. z.0) whole ∙ ap (reported goal.id) bad)
            ]
        | inr (inl (summary, planned)) ↦ inl (
          summary,
          planned,
          ground (arith, planned, h),
          ground (arith, planned),
          ground (arith, planned),
        )
        | inr (inr (reason, planned)) ↦ ground (arith, planned, h)
      ]
