-- ===== src/Tests/Threads.antt =====
-- Two threads at one engine on concrete inputs.
use cotrex_ai.Base.{ℕ, ◌≡◌, List, [], ◌∷◌, ◌++◌, map, if◌then◌else◌, ◌==◌, nat_eq}
use cotrex_ai.Kernel.Event.{EventPayload, payloads}
use cotrex_ai.Kernel.Store.Memory.{memory_store}
use cotrex_ai.Kernel.Store.Memory.Laws
use cotrex_ai.Execution.Request.{ExecutionRequest}
use cotrex_ai.Execution.Engine.{SubmitEnv}
use cotrex_ai.Execution.Engine.Threads.{initial, run}
use cotrex_ai.Execution.Engine.Threads.Interleaved.{of_thread, Tells, run-IsInterleaved}
use cotrex_ai.Tests.Execution.{engine, times, save_notes, drop_notes}

-- Thread 0 writes, every other deletes.
abbrev jobs : ℕ → SubmitEnv memory_store × ExecutionRequest
jobs i = if i == 0 then (times, save_notes) else (times, drop_notes)

abbrev schedule : List ℕ
schedule = 0 ∷ 1 ∷ 1 ∷ 0 ∷ 1 ∷ 0 ∷ []

run-IsInterleaved_example :
    let y = run jobs schedule (initial engine 0) in
    (trail : List (ℕ × EventPayload)) × (payloads y.engine.store.events
      ≡ [] ++ map (λ e. e.1) trail)
    × ((i : ℕ) → Tells Laws.memory_store-IsEventLog jobs i (y.pc i) (of_thread i trail))
run-IsInterleaved_example = run-IsInterleaved Laws.memory_store-IsEventLog jobs schedule engine 0
