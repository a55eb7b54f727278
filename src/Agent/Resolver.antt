-- ===== src/Agent/Resolver.antt =====
-- Decisions (agent/src/decision.rs) and the resolver (agent/src/resolver.rs). `PathBuf::from` is a
-- parameter, `path_of`.
use cotrex_ai.Base.{ℕ, String, ◌<>◌, List, [], ◌∷◌, Result, ok}
use cotrex_ai.FilePath.{FilePath, cur_dir}
use cotrex_ai.Kernel.Event.{Uuid}
use cotrex_ai.Execution.Request.{
  Capability, command_run, file_write, file_delete, ExecutionAction, run, write, delete,
  ExecutionRequest, new,
}

pub record AgentGoal : Type 0 where
  pub id : Uuid
  pub description : String

pub data PlanStep : Type 0 where
  execute_command : String → List String → PlanStep
  write_file : String → List ℕ → PlanStep
  delete_file : String → PlanStep

pub data AgentDecision : Type 0 where
  execute : PlanStep → AgentDecision
  complete need_more_context : String → AgentDecision

pub data ResolutionError : Type 0 where
  unsupported_capability invalid_plan_step : String → ResolutionError

-- `args.join(" ")`
abbrev join_args : List String → String
join_args [] = ""
join_args (a ∷ []) = a
join_args (a ∷ (b ∷ as')) = a <> (" " <> join_args (b ∷ as'))

-- `full_command`
abbrev full_command : String → List String → String
full_command command [] = command
full_command command (a ∷ rest) = command <> (" " <> join_args (a ∷ rest))

-- The capability that the resolver asks for.
unfoldable pub capability_of : PlanStep → Capability
capability_of (execute_command command args) = command_run
capability_of (write_file path content) = file_write
capability_of (delete_file path) = file_delete

-- `Display` of an error.
abbrev pub show_resolution_error : ResolutionError → String
show_resolution_error (unsupported_capability message) = "unsupported capability: " <> message
show_resolution_error (invalid_plan_step message) = "invalid plan step: " <> message

-- The trait; the uuid is the one that `ExecutionRequest::new` draws.
abbrev pub CapabilityResolver : Type 0
CapabilityResolver = Uuid → PlanStep → Result ExecutionRequest ResolutionError

module _ (path_of : String → FilePath) where
  unfoldable pub action_of : PlanStep → ExecutionAction
  action_of (execute_command command args) = run (full_command command args) (cur_dir ∷ [])
  action_of (write_file path content) = write (path_of path) content (cur_dir ∷ [])
  action_of (delete_file path) = delete (path_of path) (cur_dir ∷ [])

  -- `DefaultResolver::resolve`
  unfoldable pub resolve : CapabilityResolver
  resolve id step = ok (new id (action_of step) (capability_of step ∷ []))
