-- ===== src/Kernel/Store/Memory.antt =====
-- `MemoryEventStore` (kernel/src/store.rs). The proofs are in the modules below. A method holds the
-- lock of `events` from its start to its end, so that calls of several threads run one by one; the
-- locks are never poisoned, since no thread panics while it holds one.
pub mod Numbered
pub mod Laws
pub mod Capacity
use cotrex_ai.Base.{
  ℕ, String, ◌<>◌, Bool, true, false, ◌&&◌, Option, none, some, List, [], ◌∷◌, ◌++◌, length, filter,
  last?, Result, ok, err, Method, leb, add_u64, if◌then◌else◌,
}
use cotrex_ai.Base.Text.{show_u64}
use cotrex_ai.Kernel.Event.{Uuid, Event, EventPayload}
use cotrex_ai.Kernel.Store.{EventStore, EventStoreError, backpressure, replay_failure, ReplayResult}

pub record MemoryEventStore : Type 0 where
  pub events : List Event
  pub next_sequence : ℕ
  pub capacity : Option ℕ

-- What one `append` takes from outside: `Uuid::new_v4()` and the clock in seconds.
pub record Stamp : Type 0 where
  pub id : Uuid
  pub now : ℕ

unfoldable pub new : MemoryEventStore
new = record { events = []; next_sequence = 1; capacity = none }

unfoldable pub with_capacity : ℕ → MemoryEventStore
with_capacity capacity = record { events = []; next_sequence = 1; capacity = some capacity }

-- `if let Some(cap) = self.capacity && events.len() >= cap`
abbrev pub reached : Option ℕ → ℕ → Bool
reached none n = false
reached (some cap) n = leb cap n

abbrev pub is_full : MemoryEventStore → Bool
is_full s = reached s.capacity (length s.events)

-- The event that `append` builds.
abbrev pub stamped : Stamp → EventPayload → MemoryEventStore → Event
stamped w payload s = record {
  id = w.id;
  sequence = s.next_sequence;
  occurred_at = w.now;
  payload = payload;
}

unfoldable pub append : Stamp → EventPayload → Method MemoryEventStore Event EventStoreError
append w payload s =
    let event = stamped w payload s in
    if is_full s then (err backpressure, s) else (
      ok event,
      record s { events = s.events ++ event ∷ []; next_sequence = add_u64 s.next_sequence 1 },
    )

-- The first pair of neighbours whose sequence numbers do not grow: the loop over `windows(2)`.
unfoldable pub first_disorder : List Event → Option (ℕ × ℕ)
first_disorder [] = none
first_disorder (a ∷ []) = none
first_disorder (a ∷ (b ∷ es)) =
    if leb b.sequence a.sequence then some (a.sequence, b.sequence) else first_disorder (b ∷ es)

abbrev disorder_message : ℕ → ℕ → String
disorder_message a b = "ordering corruption: " <> (show_u64 a <> (" >= " <> show_u64 b))

-- The sequence numbers from `start` to `stop`, both included.
abbrev pub in_range : ℕ → ℕ → Event → Bool
in_range start stop e = leb start e.sequence && leb e.sequence stop

-- "Verify ordering": fail at the first disorder.
unfoldable pub check_order : ReplayResult → Result ReplayResult EventStoreError
unfolding first_disorder
check_order r = elim (first_disorder r.events) [
  | some (a, b) ↦ err (replay_failure (disorder_message a b))
  | none ↦ ok r
]

unfoldable pub replay : ℕ → MemoryEventStore → Result ReplayResult EventStoreError
unfolding check_order
replay start s = elim (last? s.events) [
  | none ↦ ok (record { events = []; snapshot_end = 0 })
  | some last ↦
      let snapshot_end = last.sequence in
      let filtered = filter (in_range start snapshot_end) s.events in
      check_order (record { events = filtered; snapshot_end = snapshot_end })
]

unfoldable pub len : MemoryEventStore → ℕ
len s = length s.events

abbrev pub memory_store : EventStore
memory_store = record {
  State = MemoryEventStore;
  Env = Stamp;
  append = append;
  replay = λ w. replay;
  len = len;
  next_sequence = λ s. s.next_sequence;
}
