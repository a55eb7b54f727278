-- ===== src/Tests/Agent.antt =====
-- The agent on concrete inputs.
use cotrex_ai.Base.{ℕ, suc, false, String, ◌≡◌, refl, none, [], ◌∷◌, ok}
use cotrex_ai.FilePath.{FilePath, normal}
use cotrex_ai.Base.Map
use cotrex_ai.Kernel.Store.Memory
use cotrex_ai.Kernel.Store.Memory.{memory_store}
use cotrex_ai.Kernel.Store.Memory.Laws
use cotrex_ai.Execution.Registry
use cotrex_ai.Execution.Request.{file_delete, ExecutionResult, Executor, new}
use cotrex_ai.Execution.Engine
use cotrex_ai.Execution.Policy.{validate, check_all}
use cotrex_ai.Execution.Engine.{ExecutionEngine, SubmitEnv}
use cotrex_ai.Agent.Resolver.{
  AgentGoal, AgentDecision, execute, delete_file, resolve, action_of, capability_of,
}
use cotrex_ai.Agent.Controller.{AgentResult, process_goal, carry_out, result_to_agent_result}
use cotrex_ai.Agent.Controller.Governed.{Achieved, process_goal_ok}

abbrev path_of : String → FilePath
path_of s = normal s ∷ []

abbrev clean_up : String → AgentDecision
clean_up goal = execute (delete_file "old.txt")

abbrev goal : AgentGoal
goal = record { id = 9; description = "clean up" }

abbrev strict : ExecutionEngine memory_store ℕ
strict = record {
  store = record { events = []; next_sequence = 1; capacity = none };
  validator = validate (record { granted = [] });
  registry = record { executors = [] };
}

abbrev times : SubmitEnv memory_store
times = record {
  first = record { id = 1; now = 60 };
  second = record { id = 2; now = 61 };
  requested_at = 60;
  finished_at = 61;
  duration_ms = 4;
  executor_ms = 3;
}

abbrev finished : ExecutionResult
finished = record {
  execution_id = 9;
  success = false;
  exit_code = none;
  duration_ms = 3;
  error = none;
  stdout = [];
  stderr = [];
}

-- An executor that counts its calls.
abbrev counting : Executor ℕ
counting ms q s = (ok finished, suc s)

abbrev lenient : ExecutionEngine memory_store ℕ
lenient = record strict {
  validator = validate (record { granted = file_delete ∷ [] });
  registry = record { executors = (Registry.file_delete, counting) ∷ [] };
}

abbrev answer : AgentResult
answer = record {
  goal_id = 9;
  success = false;
  summary = "execution failed: unknown error";
  exit_code = none;
}

cleaned : (process_goal clean_up (resolve path_of) times 4 goal (lenient, 0)).0 ≡ ok answer
unfolding process_goal carry_out resolve new result_to_agent_result Engine.submit Engine.append
    Engine.dispatch Engine.report Registry.get Registry.discriminant Map.get Memory.append action_of
    capability_of validate check_all
cleaned = refl

process_goal_ok_example :
    Achieved clean_up path_of
      (λ s. s.events)
      times
      goal
      (lenient, 0)
      answer
      (process_goal clean_up (resolve path_of) times 4 goal (lenient, 0)).1
process_goal_ok_example =
    process_goal_ok clean_up path_of Laws.memory_store-IsEventLog times 4 goal lenient 0 answer
      cleaned
