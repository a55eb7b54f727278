-- ===== src/Tests/Session.antt =====
-- An agent over the executors of files, on a toy system.
use cotrex_ai.Base.{
  ℕ, suc, String, ◌≡◌, ◌≢◌, ◌⊎◌, ◌++◌, ◌≤◌, refl, true, none, List, [], ◌∷◌, ok, err, All, length,
  contains,
}
use cotrex_ai.FilePath.{FilePath, normal}
use cotrex_ai.Kernel.Event.{EventPayload, payloads}
use cotrex_ai.Kernel.Store.Memory.{memory_store}
use cotrex_ai.Kernel.Store.Memory.Laws
use cotrex_ai.Execution.Request.{ExecutionAction, file_write, capability_eq}
use cotrex_ai.Execution.Policy.{ExecutionPolicy, validate}
use cotrex_ai.Execution.Registry
use cotrex_ai.Execution.Registry.{ExecutorRegistry, register}
use cotrex_ai.Execution.System.{System}
use cotrex_ai.Execution.Engine.{ExecutionEngine, SubmitEnv, requested}
use cotrex_ai.Execution.Engine.World.{Wired, executor_of, new-Wired, register-Wired}
use cotrex_ai.Execution.Executors.Effects.{Effect, perform_all, Allowed}
use cotrex_ai.Agent.Resolver.{
  AgentGoal, AgentDecision, PlanStep, execute, write_file, action_of, capability_of, resolve,
}
use cotrex_ai.Agent.Controller.{process_goal}
use cotrex_ai.Agent.Controller.Governed.{request_of}
use cotrex_ai.Agent.Controller.Session.{
  Permitted, process_goal-Governed, at_start, after_goal, Reached-Within,
}

-- Every path exists; the state counts the writes.
abbrev disk : System
disk = record {
  State = ℕ;
  canonicalize = λ p s. ok p;
  exists = λ p s. true;
  create_dir_all = λ p s. (ok tt, s);
  write = λ p content s. (ok tt, suc s);
  remove_file = λ p s. (err "permission denied", s);
  output = λ program wd s. (err "No such file or directory", s);
}

abbrev debug : ExecutionAction → String
debug a = "action"

abbrev path_of : String → FilePath
path_of s = normal s ∷ []

abbrev scribble : String → AgentDecision
scribble goal = execute (write_file "a.txt" (104 ∷ 105 ∷ []))

abbrev policy : ExecutionPolicy
policy = record { granted = file_write ∷ [] }

abbrev registry : ExecutorRegistry ℕ
registry =
    (register Registry.file_delete (executor_of disk debug Registry.file_delete)
      (register Registry.file_write (executor_of disk debug Registry.file_write) Registry.new).1).1

registry-Wired : Wired disk debug registry
registry-Wired =
    register-Wired disk debug Registry.file_delete
      (register Registry.file_write (executor_of disk debug Registry.file_write) Registry.new).1
      (register-Wired disk debug Registry.file_write Registry.new (new-Wired disk debug))

abbrev engine : ExecutionEngine memory_store ℕ
engine = record {
  store = record { events = []; next_sequence = 1; capacity = none };
  validator = validate policy;
  registry = registry;
}

abbrev times : SubmitEnv memory_store
times = record {
  first = record { id = 1; now = 60 };
  second = record { id = 2; now = 61 };
  requested_at = 60;
  finished_at = 61;
  duration_ms = 4;
  executor_ms = 3;
}

abbrev note : AgentGoal
note = record { id = 9; description = "take a note" }

process_goal-Governed_example :
    let t = (process_goal scribble (resolve path_of) times 4 note (engine, 0)).1 in
    (es : List Effect) × (more : List EventPayload) × (t.1 ≡ perform_all disk debug es 0)
    × (payloads t.0.store.events ≡ [] ++ more)
    × (length more ≤ 2)
    × ((es ≡ [])
        ⊎ ((step : PlanStep) × (scribble "take a note" ≡ execute step)
            × (contains policy.granted (capability_of step) ≡ true)
            × All (Allowed disk debug 0 (action_of path_of step)) es
            × ((later : List EventPayload) × (more
                  ≡ requested 60 (request_of path_of note step) ∷ later))))
process_goal-Governed_example =
    process_goal-Governed disk debug scribble path_of Laws.memory_store-IsEventLog policy times 4
      note engine 0 refl registry-Wired

Reached-Within_example :
    let s = (process_goal scribble (resolve path_of) times 4 note (engine, 0)).1 in
    let t = (process_goal scribble (resolve path_of) times 5 note s).1 in
    (es : List Effect) × (more : List EventPayload) × (t.1 ≡ perform_all disk debug es 0)
    × All (Permitted policy) es
    × (payloads t.0.store.events ≡ [] ++ more)
    × ((es ≡ []) ⊎ (more ≢ []))
Reached-Within_example =
    Reached-Within disk debug scribble path_of Laws.memory_store-IsEventLog policy refl
      registry-Wired (after_goal times 5 note (after_goal times 4 note at_start))
