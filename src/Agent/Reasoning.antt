-- ===== src/Agent/Reasoning.antt =====
-- What reasons for the agent: the planner (agent/src/planner.rs), the provider of decisions
-- (agent/src/provider.rs) with its context (agent/src/context.rs), and the parser of a model's output
-- (agent/src/parser.rs). serde_json and `str::to_lowercase` are parameters.
pub mod Boundary
use cotrex_ai.Base.{
  ℕ, String, ◌<>◌, Bool, true, false, Option, none, some, List, [], ◌∷◌, ◌++◌, Result, ok, err,
  ok_or, and_then, map_err, if◌then◌else◌, ◌==◌, string_eq,
}
use cotrex_ai.Base.Map.{Map, get, insert}
use cotrex_ai.Base.Chars.{trim, is_empty_text, strip_text, into_bytes}
use cotrex_ai.Kernel.Event.{Uuid}
use cotrex_ai.Agent.Resolver.{
  AgentGoal, AgentDecision, execute, complete, need_more_context, PlanStep, execute_command,
  write_file, delete_file,
}
use cotrex_ai.Agent.Controller.{AgentResult}

pub data ParseError : Type 0 where
  invalid_json unknown_action missing_field : String → ParseError

pub record RawDecision : Type 0 where
  pub action : String
  pub path : Option String
  pub content : Option String
  pub command : Option String
  pub args : Option (List String)
  pub summary : Option String

-- `unwrap_or_else` and `unwrap_or_default`
abbrev pub or_else {ℓ} : {A : Type ℓ} → Option A → A → A
or_else none d = d
or_else (some a) d = a

-- The branches of the `match` on the action.
abbrev pub command_of : RawDecision → Result AgentDecision ParseError
command_of raw =
    and_then (ok_or raw.command (missing_field "command"))
      (λ command. ok (execute (execute_command command (or_else raw.args []))))

abbrev writing_of : RawDecision → Result AgentDecision ParseError
writing_of raw = and_then (ok_or raw.path (missing_field "path")) (λ path.
    and_then (ok_or raw.content (missing_field "content"))
      (λ content. ok (execute (write_file path (into_bytes content)))))

abbrev deletion_of : RawDecision → Result AgentDecision ParseError
deletion_of raw =
    and_then (ok_or raw.path (missing_field "path")) (λ path. ok (execute (delete_file path)))

unfoldable pub decide : RawDecision → Result AgentDecision ParseError
decide raw =
    if raw.action == "execute_command"
    then command_of raw
    else if raw.action == "write_file"
    then writing_of raw
    else if raw.action == "delete_file"
    then deletion_of raw
    else if raw.action == "complete"
    then ok (complete (or_else raw.summary "completed"))
    else if raw.action == "need_context"
    then ok (need_more_context (or_else raw.summary "need more context"))
    else err (unknown_action raw.action)

-- `ResponseParser::parse`
unfoldable pub parse :
    (String → Result RawDecision String) → String → Result AgentDecision ParseError
parse from_str raw = and_then (map_err invalid_json (from_str raw)) decide

-- The argument of a goal that starts with a word, where it is not empty.
unfoldable pub argument : Option String → Option String
argument none = none
argument (some rest) = if is_empty_text (trim rest) then none else some (trim rest)

-- `or_else` on two options.
abbrev pub either : Option String → Option String → Option String
either none b = b
either (some a) b = some a

abbrev not_understood : String → AgentDecision
not_understood goal =
    need_more_context
      ("I don't understand '" <> goal <> "'. Try: create <file>, delete <file>, run <command>")

abbrev plan_run : String → Option String → AgentDecision
plan_run goal none = not_understood goal
plan_run goal (some cmd) = execute (execute_command cmd [])

abbrev plan_delete : String → Option String → Option String → AgentDecision
plan_delete goal none cmd = plan_run goal cmd
plan_delete goal (some filename) cmd = execute (delete_file filename)

abbrev pub plan_create : String → Option String → Option String → Option String → AgentDecision
plan_create goal none filename cmd = plan_delete goal filename cmd
plan_create goal (some filename) other cmd =
    execute (write_file filename (into_bytes ("content of " <> filename)))

-- `MockPlanner::plan`
unfoldable pub plan : (String → String) → String → AgentDecision
plan to_lowercase goal =
    let lower = to_lowercase goal in
    plan_create goal (argument (strip_text lower "create ")) (argument (strip_text lower "delete "))
      (argument (either (strip_text lower "run ") (strip_text lower "execute ")))

pub record Observation : Type 0 where
  pub id : Uuid
  pub description : String
  pub timestamp : ℕ

pub record AgentContext : Type 0 where
  pub observations : List Observation
  pub history : List AgentResult

unfoldable pub new_context : AgentContext
new_context = record { observations = []; history = [] }

unfoldable add_observation : Observation → AgentContext → AgentContext
add_observation observation c = record c { observations = c.observations ++ observation ∷ [] }

unfoldable add_result : AgentResult → AgentContext → AgentContext
add_result result c = record c { history = c.history ++ result ∷ [] }

pub data ProviderError : Type 0 where
  model_unavailable reasoning_failed : String → ProviderError

pub record MockProvider : Type 0 where
  pub responses : Map String AgentDecision

unfoldable new_provider : MockProvider
new_provider = record { responses = [] }

unfoldable with_response : String → AgentDecision → MockProvider → MockProvider
with_response goal decision p = record p { responses = insert goal decision p.responses }

-- `MockProvider::reason`
unfoldable pub reason : AgentGoal → AgentContext → MockProvider → Result AgentDecision ProviderError
reason goal context p = ok (
    or_else (get goal.description p.responses)
      (need_more_context ("no mock response for: " <> goal.description)))
