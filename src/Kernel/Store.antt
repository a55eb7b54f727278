-- ===== src/Kernel/Store.antt =====
-- The event store's interface (kernel/src/store.rs): the trait `EventStore`, its errors, and what
-- the comments on the trait promise. The in-memory implementation is in the modules below.
pub mod Memory
pub mod Reported
pub mod Persistent
use cotrex_ai.Base.{
  ℕ, suc, ◌+◌, ◌-◌, ◌<◌, String, ◌<>◌, ◌≡◌, List, [], ◌∷◌, ◌++◌, length, drop, Result, ok, err,
  Method, u64_mod,
}
use cotrex_ai.Base.Text.{show_u64}
use cotrex_ai.Kernel.Event.{Event, EventPayload}

pub data EventStoreError : Type 0 where
  storage_failure : String → EventStoreError
  invalid_sequence : ℕ → ℕ → EventStoreError
  replay_failure : String → EventStoreError
  projection_failure : String → EventStoreError
  backpressure : EventStoreError

-- `Display` of an error, by its `error` attributes.
abbrev pub show_store_error : EventStoreError → String
show_store_error (storage_failure e) = "storage failure: " <> e
show_store_error (invalid_sequence expected actual) =
    "invalid sequence: expected " <> (show_u64 expected <> (", got " <> show_u64 actual))
show_store_error (replay_failure e) = "replay failure: " <> e
show_store_error (projection_failure e) = "projection failure: " <> e
show_store_error backpressure = "backpressure: store at capacity, append blocked or rejected"

pub record ReplayResult : Type 0 where
  pub events : List Event
  pub snapshot_end : ℕ

-- The trait. A method through `&self` that writes behind a lock returns the new state. `Env` is
-- what the outside world answers to one call: the new uuid, the clock, the file system.
pub record EventStore : Type 1 where
  pub State : Type 0
  pub Env : Type 0
  pub append : Env → EventPayload → Method State Event EventStoreError
  pub replay : Env → ℕ → State → Result ReplayResult EventStoreError
  pub len : State → ℕ
  pub next_sequence : State → ℕ

-- The events carry the sequence numbers k, k + 1, k + 2 and so on.
abbrev pub IsNumbered : ℕ → List Event → Type 0
IsNumbered k [] = Unit
IsNumbered k (e ∷ es) = (e.sequence ≡ k) × IsNumbered (suc k) es

-- The contract of the trait: `log` gives the committed events of a state, `Valid` says which states
-- the store can be in.
pub record IsEventLog (S : EventStore) (log : S.State → List Event) (Valid : S.State → Type 0)
    : Type 0 where
  pub log_numbered : (s : S.State) → Valid s → IsNumbered 1 (log s)
  pub append_ok :
      (w : S.Env) (p : EventPayload) (s : S.State) (e : Event)
      → (S.append w p s).0 ≡ ok e
      → (log (S.append w p s).1 ≡ log s ++ e ∷ []) × (e.payload ≡ p)
  pub append_err :
      (w : S.Env) (p : EventPayload) (s : S.State) (x : EventStoreError)
      → (S.append w p s).0 ≡ err x
      → (S.append w p s).1 ≡ s
  pub append_valid :
      (w : S.Env) (p : EventPayload) (s : S.State)
      → Valid s
      → length (log s) + 2 < u64_mod
      → Valid (S.append w p s).1
  pub replay_ok :
      (w : S.Env) (start : ℕ) (s : S.State) (r : ReplayResult)
      → Valid s
      → S.replay w start s ≡ ok r
      → r.events ≡ drop (start - 1) (log s)
