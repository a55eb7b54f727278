-- ===== src/Kernel/Store/Memory/Laws.antt =====
-- What `MemoryEventStore` promises: consecutive sequence numbers, replay, and backpressure.
use mathlib.Core.Path.{ap₂}
use cotrex_ai.Base.{
  drop-nil, eq-nil_of_last, ℕ, ◌+◌, ◌-◌, ◌≤◌, ◌<◌, ◌≡◌, refl, ◌∙◌, inl, inr, some, List, [], ◌∷◌,
  ◌++◌, arith, length, length-snoc, drop, drop-length_snoc, last?, ok, err, u64_mod, Option-cases,
  Bool-cases,
}
use cotrex_ai.Kernel.Event.{Event, EventPayload}
use cotrex_ai.Kernel.Store.{EventStoreError, ReplayResult, IsNumbered, IsEventLog}
use cotrex_ai.Kernel.Store.Memory.{
  MemoryEventStore, Stamp, new, with_capacity, is_full, append, check_order, replay, memory_store,
}
use cotrex_ai.Kernel.Store.Memory.Numbered.{
  IsNumbered-snoc, IsNumbered-drop, last-IsNumbered, first_disorder-IsNumbered, filter-IsNumbered,
}

pub record IsValid (s : MemoryEventStore) : Type 0 where
  pub numbered : IsNumbered 1 s.events
  pub next : s.next_sequence ≡ length s.events + 1
  pub room : length s.events + 1 < u64_mod
  pub within : (cap : ℕ) → s.capacity ≡ some cap → length s.events ≤ cap

-- A new store, bounded or not, is valid.
pub new-IsValid : IsValid new
unfolding new
new-IsValid = record { numbered = tt; next = refl; room = omega arith; within = λ cap h. cc }

pub with_capacity-IsValid : (cap : ℕ) → IsValid (with_capacity cap)
unfolding with_capacity
with_capacity-IsValid cap = record {
  numbered = tt;
  next = refl;
  room = omega arith;
  within = λ c h. omega arith;
}

-- Appending keeps a store valid while the sequence numbers fit a `u64`.
pub append-IsValid :
    (w : Stamp) (p : EventPayload) (s : MemoryEventStore)
    → IsValid s
    → length s.events + 2 < u64_mod
    → IsValid (append w p s).1
unfolding append
append-IsValid w p s v room = elim (Bool-cases (is_full s)) [
  | inl full ↦ rw full v
  | inr free ↦ rw free (record {
    numbered = IsNumbered-snoc 1 s.events _ v.numbered (omega (arith, v.next));
    next = rw length-snoc (omega (arith, v.next));
    room = rw length-snoc (omega arith);
    within = λ cap c. rw length-snoc (ground (arith, v.within cap c));
  })
]

-- What a successful append adds, and that a refused one changes nothing.
append-snoc :
    (w : Stamp) (p : EventPayload) (s : MemoryEventStore) (e : Event)
    → (append w p s).0 ≡ ok e
    → ((append w p s).1.events ≡ s.events ++ e ∷ [])
      × (e.payload ≡ p)
      × (e.sequence ≡ s.next_sequence)
unfolding append
append-snoc w p s e h = ground arith

append_refused :
    (w : Stamp) (p : EventPayload) (s : MemoryEventStore) (x : EventStoreError)
    → (append w p s).0 ≡ err x
    → (append w p s).1 ≡ s
unfolding append
append_refused w p s x h = ground arith

pub check_order-IsNumbered :
    (k : ℕ) (r : ReplayResult) → IsNumbered k r.events → check_order r ≡ ok r
unfolding check_order
check_order-IsNumbered k r h = rw (first_disorder-IsNumbered k r.events h, check_order)

abbrev snapshot : List Event → ℕ → ReplayResult
snapshot es stop = record { events = es; snapshot_end = stop }

-- On a valid store `replay` never fails. It returns every committed event from `start` on, in
-- order and without gaps, and the number of events as the end of the snapshot.
pub replay-drop :
    (start : ℕ) (s : MemoryEventStore)
    → IsValid s
    → replay start s
      ≡ ok (record { events = drop (start - 1) s.events; snapshot_end = length s.events })
unfolding replay
replay-drop start s v = elim (Option-cases (last? s.events)) [
  | inl none_yet ↦ let nil = eq-nil_of_last s.events none_yet in rw (nil, replay) (rw drop-nil)
  | inr (l, found) ↦
      let stop : l.sequence ≡ length s.events =
        omega (arith, last-IsNumbered 1 s.events l v.numbered found) in
      rw (found, replay)
        (rw stop (
          rw (filter-IsNumbered start (length s.events) 1 s.events v.numbered (omega arith))
            (check_order-IsNumbered _ _ (IsNumbered-drop (start - 1) 1 s.events v.numbered))))
]

-- An appended event is what a replay from its sequence number returns, and nothing else.
replay-append :
    (w : Stamp) (p : EventPayload) (s : MemoryEventStore) (e : Event)
    → IsValid s
    → length s.events + 2 < u64_mod
    → (append w p s).0 ≡ ok e
    → replay e.sequence (append w p s).1
      ≡ ok (record { events = e ∷ []; snapshot_end = e.sequence })
replay-append w p s e v room h =
    let (grown, _, numbered) = append-snoc w p s e h in
    let behind : e.sequence - 1 ≡ length s.events = omega (arith, v.next, numbered) in
    replay-drop e.sequence (append w p s).1 (append-IsValid w p s v room)
    ∙ ap₂ (λ es n. ok (snapshot es n)) (rw (grown, behind) (drop-length_snoc s.events e))
        (rw (grown, length-snoc) (omega (arith, v.next, numbered)))

-- The in-memory store keeps the contract of the trait.
pub memory_store-IsEventLog : IsEventLog memory_store (λ s. s.events) IsValid
memory_store-IsEventLog = record {
  log_numbered = λ s v. v.numbered;
  append_ok = λ w p s e h. let (grown, same, _) = append-snoc w p s e h in (grown, same);
  append_err = append_refused;
  append_valid = append-IsValid;
  replay_ok = λ w start s r v h. cc (replay-drop start s v);
}
