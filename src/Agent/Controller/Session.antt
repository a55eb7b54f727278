-- ===== src/Agent/Controller/Session.antt =====
-- What goals, one after another, can do to the world through one controller.
use mathlib.Core.Path.{subst}
use mathlib.Core.List.{append-nil, append_assoc, append-eq-nil_iff}
use cotrex_ai.Base.{
  String, ◌≡◌, ◌≢◌, ◌⊎◌, All-append, inl, inr, refl, sym, ◌∙◌, ap, true, List, [], ◌∷◌, ◌++◌, All,
  arith, contains, length, ◌≤◌,
}
use cotrex_ai.FilePath.{FilePath}
use cotrex_ai.Kernel.Event.{Uuid, Event, EventPayload, payloads}
use cotrex_ai.Kernel.Store.{EventStore, IsEventLog}
use cotrex_ai.Execution.Request.{
  capability_eq, Capability, command_run, file_write, file_delete, ExecutionAction, new,
}
use cotrex_ai.Execution.Policy.{ExecutionPolicy, validate, validate-ok}
use cotrex_ai.Execution.System.{System}
use cotrex_ai.Execution.Engine.{ExecutionEngine, SubmitEnv, requested}
use cotrex_ai.Execution.Engine.World.{Wired, submit-Allowed, submit_keeps}
use cotrex_ai.Execution.Executors.Effects.{
  Effect, made_dir, wrote, removed, ran, perform_all, perform_all-append, Allowed,
}
use cotrex_ai.Agent.Resolver.{
  AgentGoal, AgentDecision, execute, PlanStep, execute_command, write_file, delete_file, resolve,
  action_of, capability_of,
}
use cotrex_ai.Agent.Controller.{process_goal, carry_out}
use cotrex_ai.Agent.Controller.Governed.{decision-cases, request_of}

-- The capability that stands for a call of the operating system.
abbrev capability_for : Effect → Capability
capability_for (made_dir dir) = file_write
capability_for (wrote target content) = file_write
capability_for (removed target) = file_delete
capability_for (ran program wd) = command_run

abbrev pub Permitted : ExecutionPolicy → Effect → Type 0
Permitted p e = contains p.granted (capability_for e) ≡ true

module _ (O : System) (debug : ExecutionAction → String) (planner : String → AgentDecision)
    (path_of : String → FilePath) where
  Allowed-Permitted :
      (p : ExecutionPolicy) (step : PlanStep) (s : O.State) (es : List Effect)
      → contains p.granted (capability_of step) ≡ true
      → All (Allowed O debug s (action_of path_of step)) es
      → All (Permitted p) es
  unfolding action_of capability_of
  Allowed-Permitted p step s [] h all = tt
  Allowed-Permitted p (execute_command c as') s (ran x wd ∷ es) h all =
      (h, Allowed-Permitted p (execute_command c as') s es h all.1)
  Allowed-Permitted p (execute_command c as') s (made_dir x ∷ es) h all = absurd all.0
  Allowed-Permitted p (execute_command c as') s (wrote x b ∷ es) h all = absurd all.0
  Allowed-Permitted p (execute_command c as') s (removed x ∷ es) h all = absurd all.0
  Allowed-Permitted p (write_file f b) s (ran x wd ∷ es) h all = absurd all.0
  Allowed-Permitted p (write_file f b) s (made_dir x ∷ es) h all =
      (h, Allowed-Permitted p (write_file f b) s es h all.1)
  Allowed-Permitted p (write_file f b) s (wrote x c ∷ es) h all =
      (h, Allowed-Permitted p (write_file f b) s es h all.1)
  Allowed-Permitted p (write_file f b) s (removed x ∷ es) h all = absurd all.0
  Allowed-Permitted p (delete_file f) s (ran x wd ∷ es) h all = absurd all.0
  Allowed-Permitted p (delete_file f) s (made_dir x ∷ es) h all = absurd all.0
  Allowed-Permitted p (delete_file f) s (wrote x c ∷ es) h all = absurd all.0
  Allowed-Permitted p (delete_file f) s (removed x ∷ es) h all =
      (h, Allowed-Permitted p (delete_file f) s es h all.1)

  module _ {S : EventStore} {log : S.State → List Event} {Valid : S.State → Type 0}
      (L : IsEventLog S log Valid) where
    -- What one goal, with the engine's state and the world before and after, has led to.
    abbrev pub Governed :
        ExecutionPolicy
        → SubmitEnv S
        → AgentGoal
        → ExecutionEngine S O.State × O.State
        → ExecutionEngine S O.State × O.State
        → Type 0
    Governed p w goal s t =
        (es : List Effect) × (more : List EventPayload) × (t.1 ≡ perform_all O debug es s.1)
        × (payloads (log t.0.store) ≡ payloads (log s.0.store) ++ more)
        × (length more ≤ 2)
        × ((es ≡ [])
            ⊎ ((step : PlanStep) × (planner goal.description ≡ execute step)
                × (contains p.granted (capability_of step) ≡ true)
                × All (Allowed O debug s.1 (action_of path_of step)) es
                × ((later : List EventPayload) × (more
                      ≡ requested w.requested_at (request_of path_of goal step) ∷ later))))

    -- A goal, whatever the planner makes of it, changes the world by calls alone that the planned
    -- step may come to, and appends at most two events. Where there is such a call, the policy of
    -- the engine grants the capability of the step, and the first event is the request for it under
    -- the id of the goal.
    pub process_goal-Governed :
        (p : ExecutionPolicy) (w : SubmitEnv S) (drawn : Uuid) (goal : AgentGoal)
        (g : ExecutionEngine S O.State) (world : O.State)
        → g.validator ≡ validate p
        → Wired O debug g.registry
        → Governed p w goal
            (g, world)
            (process_goal planner (resolve path_of) w drawn goal (g, world)).1
    unfolding process_goal carry_out resolve new
    process_goal-Governed p w drawn goal g world policy wired =
        elim (decision-cases (planner goal.description)) [
          | inl (step, planned) ↦
              let q = request_of path_of goal step in
              let (es, more, moved, all, grown, few, why) =
                submit-Allowed O debug L w q g world wired in
              rw (planned, process_goal)
                (
                  es,
                  more,
                  moved,
                  grown,
                  few,
                  elim why [
                    | inl none_made ↦ inl none_made
                    | inr (valid, asked) ↦ inr (
                      step,
                      refl,
                      ((validate-ok p q).0 (ap (λ f. f q) (sym policy) ∙ valid)).0,
                      all,
                      asked,
                    )
                  ],
                )
          | inr (inl (summary, planned)) ↦
              rw (planned, process_goal) ([], [], refl, sym (append-nil _), omega arith, inl refl)
          | inr (inr (reason, planned)) ↦
              rw (planned, process_goal) ([], [], refl, sym (append-nil _), omega arith, inl refl)
        ]

    -- The states that goals, one after another, lead to.
    pub data Reached (start : ExecutionEngine S O.State × O.State)
        : ExecutionEngine S O.State × O.State → Type 0 where
      at_start : Reached start start
      after_goal :
          {s : ExecutionEngine S O.State × O.State} (w : SubmitEnv S) (drawn : Uuid)
          (goal : AgentGoal)
          → Reached start s
          → Reached start (process_goal planner (resolve path_of) w drawn goal s).1

    process_goal_keeps :
        (w : SubmitEnv S) (drawn : Uuid) (goal : AgentGoal)
        (s : ExecutionEngine S O.State × O.State)
        → let t = (process_goal planner (resolve path_of) w drawn goal s).1 in
          (t.0.validator ≡ s.0.validator) × (t.0.registry ≡ s.0.registry)
    unfolding process_goal carry_out resolve new
    process_goal_keeps w drawn goal s = elim (decision-cases (planner goal.description)) [
      | inl (step, planned) ↦
          rw (planned, process_goal) (submit_keeps w (request_of path_of goal step) s.0 s.1)
      | inr (inl (summary, planned)) ↦ rw (planned, process_goal) (refl, refl)
      | inr (inr (reason, planned)) ↦ rw (planned, process_goal) (refl, refl)
    ]

    Reached-keeps :
        {start s : ExecutionEngine S O.State × O.State}
        → Reached start s
        → (s.0.validator ≡ start.0.validator) × (s.0.registry ≡ start.0.registry)
    Reached-keeps at_start = (refl, refl)
    Reached-keeps (after_goal {s} w drawn goal r) =
        let (v, e) = process_goal_keeps w drawn goal s in
        let (v', e') = Reached-keeps r in (v ∙ v', e ∙ e')

    -- What a whole session has led to.
    abbrev pub Within :
        ExecutionPolicy
        → ExecutionEngine S O.State × O.State
        → ExecutionEngine S O.State × O.State
        → Type 0
    Within p start s =
        (es : List Effect) × (more : List EventPayload) × (s.1 ≡ perform_all O debug es start.1)
        × All (Permitted p) es
        × (payloads (log s.0.store) ≡ payloads (log start.0.store) ++ more)
        × ((es ≡ []) ⊎ (more ≢ []))

    -- However many goals a controller is given, and whatever its planner makes of them: the world
    -- has been changed by calls alone for which the policy grants the capability, the log has only
    -- grown, and it has grown where there was such a call.
    pub Reached-Within :
        (p : ExecutionPolicy) {start s : ExecutionEngine S O.State × O.State}
        → start.0.validator ≡ validate p
        → Wired O debug start.0.registry
        → Reached start s
        → Within p start s
    Reached-Within p policy wired at_start = ([], [], refl, tt, sym (append-nil _), inl refl)
    Reached-Within p {start} policy wired (after_goal {s} w drawn goal r) =
        let (kept, same) = Reached-keeps r in
        let (es, more, moved, all, grown, why) = Reached-Within p policy wired r in
        let (es', more', moved', grown', few, why') =
          process_goal-Governed p w drawn goal s.0 s.1 (kept ∙ policy)
            (subst (Wired O debug) (sym same) wired) in
        (
          es ++ es',
          more ++ more',
          moved'
              ∙ ap (perform_all O debug es') moved
              ∙ sym (perform_all-append O debug es es' start.1),
          All-append (Permitted p) es es' all (elim why' [
            | inl still ↦ subst (All (Permitted p)) (sym still) tt
            | inr (step, planned, granted, allowed, asked) ↦
                Allowed-Permitted p step s.1 es' granted allowed
          ]),
          grown' ∙ ap (λ l. l ++ more') grown ∙ append_assoc _ more more',
          elim why' [
            | inl still ↦ elim why [
              | inl quiet ↦ inl (rw (quiet, still) refl)
              | inr grew ↦ inr (λ e. grew ((append-eq-nil_iff {p = more} {q = more'}).0 e).0)
            ]
            | inr (step, planned, granted, allowed, asked) ↦
                inr (λ e. cc (((append-eq-nil_iff {p = more} {q = more'}).0 e).1, asked.1))
          ],
        )
