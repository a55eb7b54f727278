-- ===== src/Kernel/Store/Persistent/Simulation.antt =====
-- The persistent store against the in-memory store.
use mathlib.Core.Path.{subst, ap₂}
use cotrex_ai.Base.{
  ◌+◌, ◌<◌, ◌≤◌, String, ◌≡◌, refl, sym, ap, ◌∙◌, ◌⊎◌, inl, inr, List, [], ◌∷◌, ◌++◌, arith, length,
  length-snoc, map, Result, ok, err, Result-cases, Bool-cases, Method, bound, bound_ok, bound_err,
  pure, u64_mod, ℕ,
}
use cotrex_ai.Kernel.Event.{Event, EventPayload}
use cotrex_ai.Kernel.Store.{EventStoreError, storage_failure, backpressure}
use cotrex_ai.Kernel.Store.Memory
use cotrex_ai.Kernel.Store.Memory.{MemoryEventStore, Stamp, reached}
use cotrex_ai.Kernel.Store.Memory.Laws
use cotrex_ai.Kernel.Store.Persistent.{
  Format, Disk, PersistentEventStore, is_full, stamped, count_up, commit, counted, append, replay,
}
use cotrex_ai.Kernel.Store.Persistent.Journal.{
  IsFormat, IsJournal, IsValid, count_up_keeps, write_meta_err,
}
use cotrex_ai.Kernel.Store.Persistent.Reading.{replay_recorded}
use cotrex_ai.Kernel.Store.Persistent.Commit.{append-Appended}

-- Calls of `append`, one after another: the answers, and the store behind the last.
abbrev pub append_each :
    {S : Type 0}
    → (Stamp → EventPayload → Method S Event EventStoreError)
    → List (Stamp × EventPayload)
    → S
    → List (Result Event EventStoreError) × S
append_each m [] s = ([], s)
append_each m ((w, p) ∷ calls) s =
    let (r, s') = m w p s in let (rs, t) = append_each m calls s' in (r ∷ rs, t)

-- No storage failed: each call was answered with its event or refused for want of room.
abbrev pub IsStored : List (Result Event EventStoreError) → Type 0
IsStored [] = Unit
IsStored (ok e ∷ rs) = IsStored rs
IsStored (err backpressure ∷ rs) = IsStored rs
IsStored (err x ∷ rs) = ⊥

module _ {F : Format} {D : Disk} {content pending : D.State → List String} (G : IsFormat F)
    (J : IsJournal D content pending) where
  -- Both stores are in order, with the same events and the same capacity.
  pub record Same (s : PersistentEventStore F D) (m : MemoryEventStore) : Type 0 where
    pub kept : IsValid content pending s m.events
    pub held : Laws.IsValid m
    pub bounded : s.capacity ≡ m.capacity

  -- A call ends with its event or a storage failure, and leaves the capacity.
  abbrev Ends :
      Event
      → PersistentEventStore F D
      → Result Event EventStoreError × PersistentEventStore F D
      → Type 0
  Ends event s r =
      ((r.0 ≡ ok event) ⊎ ((y : String) × (r.0 ≡ err (storage_failure y))))
      × (r.1.capacity ≡ s.capacity)

  count_up_err :
      (s : PersistentEventStore F D) (x : EventStoreError)
      → (count_up F D s).0 ≡ err x
      → (y : String) × (x ≡ storage_failure y)
  unfolding count_up
  count_up_err s x h = write_meta_err F D (counted F D s.meta) s.disk x h

  counted-Ends :
      (event : Event) (s t : PersistentEventStore F D)
      → t.capacity ≡ s.capacity
      → Ends event s (bound (λ u. pure event) (count_up F D t))
  counted-Ends event s t same =
      let (_, _, _, kept) = count_up_keeps F J.cache t in
      elim (Result-cases (count_up F D t).0) [
        | inl (u, good) ↦
            subst (Ends event s) (sym (bound_ok (λ v. pure event) (count_up F D t) good))
              (inl refl, kept ∙ same)
        | inr (x, bad) ↦
            let (y, stored) = count_up_err t x bad in
            subst (Ends event s) (sym (bound_err (λ v. pure event) (count_up F D t) bad))
              (inr (y, ap (λ e. err e) stored), kept ∙ same)
      ]

  commit-Ends :
      (line : String) (event : Event) (s : PersistentEventStore F D)
      → Ends event s (commit F D line event s)
  unfolding commit
  commit-Ends line event s =
      let d = (D.write_line line s.disk).1 in
      elim (Result-cases (D.write_line line s.disk).0) [
        | inr (x, bad) ↦ rw (bad, commit) (inr (x, refl), refl)
        | inl (u, good) ↦ elim (Result-cases (D.flush d).0) [
          | inr (x, bad) ↦ rw (good, bad, commit) (inr (x, refl), refl)
          | inl (v, fine) ↦
              rw (good, fine, commit)
                (counted-Ends event s (record s { disk = (D.flush d).1 }) refl)
        ]
      ]

  -- An append, as far as the in-memory store sees it: refused where both are full, and otherwise
  -- ended with the event that both make, or a storage failure.
  append_compared :
      (w : Stamp) (p : EventPayload) (s : PersistentEventStore F D) (m : MemoryEventStore)
      → Same s m
      → ((append F D w p s ≡ (err backpressure, s)) × (Memory.append w p m ≡ (err backpressure, m)))
        ⊎ ((Memory.append w p m).0 ≡ ok (Memory.stamped w p m))
          × Ends (Memory.stamped w p m) s (append F D w p s)
  unfolding append Memory.append
  append_compared w p s m same =
      let count : s.meta.event_count ≡ length m.events = same.kept.count in
      let number : s.meta.next_sequence ≡ m.next_sequence =
        omega (arith, same.kept.next, same.held.next) in
      let fit : is_full F D s ≡ Memory.is_full m = rw (count, same.bounded) refl in
      let event : stamped F D w p s ≡ Memory.stamped w p m = rw number refl in
      elim (Bool-cases (is_full F D s)) [
        | inl full ↦ inl (rw (full, append) refl, rw (sym fit ∙ full, Memory.append) refl)
        | inr free ↦
            let free' = sym fit ∙ free in
            inr (
              rw (free', Memory.append) refl,
              subst (λ e. Ends e s (append F D w p s)) event
                  (elim (Result-cases (F.encode (stamped F D w p s))) [
                    | inr (x, bad) ↦ rw (free, bad, append) (inr (x, refl), refl)
                    | inl (line, written) ↦
                        rw (free, written, append) (commit-Ends line (stamped F D w p s) s)
                  ]),
            )
      ]

  capacity-append :
      (w : Stamp) (p : EventPayload) (m : MemoryEventStore)
      → (Memory.append w p m).1.capacity ≡ m.capacity
  unfolding Memory.append
  capacity-append w p m = ground arith

  appended-Same :
      (w : Stamp) (p : EventPayload) (s : PersistentEventStore F D) (m : MemoryEventStore)
      (e : Event)
      → Same s m
      → length m.events + 2 < u64_mod
      → (Memory.append w p m).0 ≡ ok e
      → (append F D w p s).0 ≡ ok e
      → (append F D w p s).1.capacity ≡ s.capacity
      → Same (append F D w p s).1 (Memory.append w p m).1
        × (length (Memory.append w p m).1.events ≤ length m.events + 1)
  appended-Same w p s m e same room made good capacity =
      let (grown, _) = Laws.memory_store-IsEventLog.append_ok w p m e made in
      let t = (append F D w p s).1 in
      let valid : IsValid content pending t (m.events ++ e ∷ []) =
        elim (append-Appended G J w p s m.events same.kept room) [
          | inl (e', carried, v, inl answer) ↦
              let twin : e' ≡ e = cc (answer, good) in
              subst (λ x. IsValid content pending t (m.events ++ x ∷ [])) twin v
          | inl (e', carried, v, inr (x, failed)) ↦ cc (failed, good)
          | inr (x, failed, m', c', left) ↦ cc (failed, good)
        ] in
      (
        record {
          kept = rw grown valid;
          held = Laws.append-IsValid w p m same.held room;
          bounded = capacity ∙ same.bounded ∙ sym (capacity-append w p m);
        },
        rw (grown, length-snoc) (omega arith),
      )

  -- One append that the storage does not fail: both stores answer alike, and are the same again.
  append-Same :
      (w : Stamp) (p : EventPayload) (s : PersistentEventStore F D) (m : MemoryEventStore)
      (rs : List (Result Event EventStoreError))
      → Same s m
      → length m.events + 2 < u64_mod
      → IsStored ((append F D w p s).0 ∷ rs)
      → ((Memory.append w p m).0 ≡ (append F D w p s).0)
        × IsStored rs
        × (Same (append F D w p s).1 (Memory.append w p m).1
            × (length (Memory.append w p m).1.events ≤ length m.events + 1))
  append-Same w p s m rs same room stored =
      let Go = λ (r : Result Event EventStoreError). IsStored (r ∷ rs) in
      elim (append_compared w p s m same) [
        | inl (refused, refused') ↦ (
          ap (λ x. x.0) (refused') ∙ sym (ap (λ x. x.0) refused),
          subst Go (ap (λ x. x.0) refused) stored,
          rw (refused, refused') (same, omega arith),
        )
        | inr (made, (inl good, capacity)) ↦ (
          made ∙ sym good,
          subst Go good stored,
          appended-Same w p s m (Memory.stamped w p m) same room made good capacity,
        )
        | inr (made, (inr (y, failed), capacity)) ↦ absurd (subst Go failed stored)
      ]

  -- The persistent store does as the in-memory store does: from stores with the same events and
  -- capacity, any appends that the storage does not fail are answered alike, by the same events and
  -- the same refusals, and leave stores with the same events and capacity.
  pub append_each-Same :
      (calls : List (Stamp × EventPayload)) (s : PersistentEventStore F D) (m : MemoryEventStore)
      → Same s m
      → length m.events + length calls + 1 < u64_mod
      → IsStored (append_each (append F D) calls s).0
      → ((append_each Memory.append calls m).0 ≡ (append_each (append F D) calls s).0)
        × Same (append_each (append F D) calls s).1 (append_each Memory.append calls m).1
  append_each-Same [] s m same room stored = (refl, same)
  append_each-Same ((w, p) ∷ calls) s m same room stored =
      let (alike, rest, (again, more)) = append-Same w p s m _ same (omega arith) stored in
      let (alike', at_end) =
        append_each-Same calls (append F D w p s).1 (Memory.append w p m).1 again (omega arith)
          rest in
      (ap₂ ◌∷◌ alike alike', at_end)

  -- Stores with the same events and capacity answer a replay from any number above 0 alike, where
  -- the log can be read.
  replay_alike :
      (start : ℕ) (s : PersistentEventStore F D) (m : MemoryEventStore)
      → Same s m
      → D.lines s.disk ≡ ok (map (λ l. ok l) (content s.disk))
      → 1 ≤ start
      → replay F D start s ≡ Memory.replay start m
  replay_alike start s m same readable above =
      replay_recorded F D s start m.events same.kept readable above
      ∙ sym (Laws.replay-drop start m same.held)
