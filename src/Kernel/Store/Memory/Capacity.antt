-- ===== src/Kernel/Store/Memory/Capacity.antt =====
-- Backpressure of `MemoryEventStore`, over any sequence of calls of `append`.
use mathlib.Core.List.{append-nil, append_assoc, map-append}
use cotrex_ai.Base.{
  ℕ, suc, ◌+◌, ◌-◌, ◌≤◌, ◌<◌, ◌≡◌, refl, sym, ap, ◌∙◌, inl, inr, true, false, Option, none, some,
  List, [], ◌∷◌, ◌++◌, map, arith, length, length-snoc, take, take-nil, u64_mod, Bool-cases,
}
use cotrex_ai.Kernel.Event.{EventPayload, payloads}
use cotrex_ai.Kernel.Store.Memory.{MemoryEventStore, Stamp, stamped, reached, is_full, append}
use cotrex_ai.Kernel.Store.Memory.Laws.{IsValid, append-IsValid}

-- The calls of all threads, in the order in which they took the lock.
unfoldable append_all : List (Stamp × EventPayload) → MemoryEventStore → MemoryEventStore
append_all [] s = s
append_all ((w, p) ∷ calls) s = append_all calls (append w p s).1

abbrev asked : List (Stamp × EventPayload) → List EventPayload
asked = map (λ c. c.1)

-- What a store of this capacity, with this many events, still takes.
abbrev pub admitted : Option ℕ → ℕ → List EventPayload → List EventPayload
admitted none n ps = ps
admitted (some cap) n ps = take (cap - n) ps

take_none {ℓ} : {A : Type ℓ} (cap n : ℕ) (xs : List A) → cap ≤ n → take (cap - n) xs ≡ []
take_none cap n xs h = let z : cap - n ≡ 0 = omega arith in rw z

admitted-reached :
    (c : Option ℕ) (n : ℕ) (ps : List EventPayload) → reached c n ≡ true → admitted c n ps ≡ []
admitted-reached none n ps h = cc
admitted-reached (some cap) n ps h = take_none cap n ps (ground arith)

admitted_next :
    (c : Option ℕ) (n : ℕ) (p : EventPayload) (ps : List EventPayload)
    → reached c n ≡ false
    → admitted c n (p ∷ ps) ≡ p ∷ admitted c (suc n) ps
admitted_next none n p ps h = refl
admitted_next (some cap) n p ps h = let z : cap - n ≡ suc (cap - suc n) = ground arith in rw z

admitted_none : (c : Option ℕ) (n : ℕ) → admitted c n [] ≡ []
admitted_none none n = refl
admitted_none (some c) n = take-nil (c - n)

module _ (w : Stamp) (p : EventPayload) (s : MemoryEventStore) where
  append_full : is_full s ≡ true → (append w p s).1 ≡ s
  unfolding append
  append_full full = rw full

  capacity-append : (append w p s).1.capacity ≡ s.capacity
  unfolding append
  capacity-append = ground arith

  events-append : is_full s ≡ false → (append w p s).1.events ≡ s.events ++ stamped w p s ∷ []
  unfolding append
  events-append free = rw free

  length-append_le : length (append w p s).1.events ≤ suc (length s.events)
  length-append_le = elim (Bool-cases (is_full s)) [
    | inl full ↦ rw (append_full full) (omega arith)
    | inr free ↦ rw (events-append free, length-snoc) (omega arith)
  ]

-- Whatever the calls, the store keeps the events that it had, and behind them the payloads of the
-- first calls, in the order of the calls, as many as the capacity leaves room for; all of them if
-- there is no capacity. The later calls leave no trace.
append_all-admitted :
    (calls : List (Stamp × EventPayload)) (s : MemoryEventStore)
    → payloads (append_all calls s).events
      ≡ payloads s.events ++ admitted s.capacity (length s.events) (asked calls)
unfolding append_all
append_all-admitted [] s = rw (admitted_none, append-nil)
append_all-admitted ((w, p) ∷ calls) s = elim (Bool-cases (is_full s)) [
  | inl full ↦
      let none_of =
        λ (ps : List EventPayload). admitted-reached s.capacity (length s.events) ps full in
      ap (λ t. payloads (append_all calls t).events) (append_full w p s full)
      ∙ append_all-admitted calls s
      ∙ ap (λ ps. payloads s.events ++ ps) (none_of (asked calls) ∙ sym (none_of (p ∷ asked calls)))
  | inr free ↦
      append_all-admitted calls (append w p s).1
      ∙ rw (
        capacity-append w p s,
        events-append w p s free,
        length-snoc,
        map-append,
        append_assoc,
        admitted_next s.capacity _ p (asked calls) free,
      )
]

-- After any calls that do not use up the `u64` sequence numbers a valid store is valid.
append_all-IsValid :
    (calls : List (Stamp × EventPayload)) (s : MemoryEventStore)
    → IsValid s
    → length s.events + length calls + 2 < u64_mod
    → IsValid (append_all calls s)
unfolding append_all
append_all-IsValid [] s v room = v
append_all-IsValid ((w, p) ∷ calls) s v room =
    append_all-IsValid calls (append w p s).1 (append-IsValid w p s v (omega arith))
      (omega (arith, length-append_le w p s))
