-- ===== src/Kernel/Store/Persistent/Reading.antt =====
-- What `replay` reads back from a persistent store in order.
use mathlib.Core.Path.{subst}
use cotrex_ai.Base.{
  ℕ, suc, ◌+◌, ◌-◌, ◌≤◌, String, ◌<>◌, ◌≡◌, refl, sym, ap, ◌∙◌, inl, inr, false, List, [], ◌∷◌, map,
  arith, length, drop, drop-nil, filter, ok, err, Bool-cases, nat_eq, ◌==◌,
}
use cotrex_ai.Base.Text.{show_u64}
use cotrex_ai.Kernel.Event.{Event}
use cotrex_ai.Kernel.Store.{EventStoreError, replay_failure, ReplayResult, IsNumbered}
use cotrex_ai.Kernel.Store.Memory.{in_range}
use cotrex_ai.Kernel.Store.Memory.Numbered.{IsNumbered-drop, filter-IsNumbered}
use cotrex_ai.Kernel.Store.Memory.Laws.{check_order-IsNumbered}
use cotrex_ai.Kernel.Store.Persistent.{
  Format, Disk, PersistentEventStore, read_lines, check_gaps, replay,
}
use cotrex_ai.Kernel.Store.Persistent.Journal.{Records, IsValid}

read_lines-Records :
    (F : Format) (D : Disk) (start stop n : ℕ) (ls : List String) (es : List Event)
    → Records F ls es
    → read_lines F D start stop n (map (λ l. ok l) ls) ≡ ok (filter (in_range start stop) es)
unfolding read_lines
read_lines-Records F D start stop n [] [] h = refl
read_lines-Records F D start stop n (l ∷ ls) (e ∷ es) (full, read, rest) =
    let tail = read_lines-Records F D start stop (suc n) ls es rest in
    elim (Bool-cases (in_range start stop e)) [
      | inl inside ↦ rw (full, read, inside, tail, read_lines) refl
      | inr outside ↦ rw (full, read, outside, tail, read_lines) refl
    ]
read_lines-Records F D start stop n [] (e ∷ es) h = absurd h
read_lines-Records F D start stop n (l ∷ ls) [] h = absurd h

check_gaps-IsNumbered :
    (F : Format) (D : Disk) (k : ℕ) (es : List Event)
    → IsNumbered k es
    → check_gaps F D k es ≡ ok tt
unfolding check_gaps
check_gaps-IsNumbered F D k [] h = refl
check_gaps-IsNumbered F D k (e ∷ es) h = ground (arith, check_gaps-IsNumbered F D (suc k) es h.1)

-- The error of the check for gaps.
abbrev pub gap : ℕ → ℕ → EventStoreError
gap expected got =
    replay_failure ("sequence gap: expected " <> (show_u64 expected <> (", got " <> show_u64 got)))

first_gap :
    (F : Format) (D : Disk) (e : Event) (es : List Event)
    → e.sequence ≡ 1
    → check_gaps F D 0 (e ∷ es) ≡ err (gap 0 1)
unfolding check_gaps
first_gap F D e es h = rw (h, check_gaps) refl

abbrev snapshot : List Event → ℕ → ReplayResult
snapshot es stop = record { events = es; snapshot_end = stop }

module _ (F : Format) (D : Disk) {content pending : D.State → List String}
    (s : PersistentEventStore F D) where
  -- Over a log in order that can be read, a replay from a number above 0 succeeds and returns the
  -- events from that number on, and the number of events.
  pub replay_recorded :
      (start : ℕ) (es : List Event)
      → IsValid content pending s es
      → D.lines s.disk ≡ ok (map (λ l. ok l) (content s.disk))
      → 1 ≤ start
      → replay F D start s ≡ ok (record { events = drop (start - 1) es; snapshot_end = length es })
  unfolding replay
  replay_recorded start [] v readable h =
      rw (v.count, replay) (ap (λ es. ok (snapshot es 0)) (sym (drop-nil (start - 1))))
  replay_recorded start (e ∷ es) v readable h =
      let stop : s.meta.next_sequence - 1 ≡ length (e ∷ es) = omega (arith, v.next) in
      let some_events : (s.meta.event_count == 0) ≡ false = ground (arith, v.count) in
      let part = drop (start - 1) (e ∷ es) in
      let numbered : IsNumbered start part =
        let same : start - 1 + 1 ≡ start = omega arith in
        subst (λ k. IsNumbered k part) same (IsNumbered-drop (start - 1) 1 (e ∷ es) v.numbered) in
      let read =
        read_lines-Records F D start (length (e ∷ es)) 0 (content s.disk) (e ∷ es) v.recorded
        ∙ ap (λ xs. ok xs)
            (filter-IsNumbered start (length (e ∷ es)) 1 (e ∷ es) v.numbered (omega arith)) in
      rw (some_events, readable, stop, read, replay)
        (rw (check_order-IsNumbered start (snapshot part (length (e ∷ es))) numbered)
          (rw (check_gaps-IsNumbered F D start part numbered) refl))

  -- A replay from 0, which the in-memory store answers with all events, fails over a log that holds
  -- an event: the check for gaps expects the number 0 first.
  replay_zero :
      (e : Event) (es : List Event)
      → IsValid content pending s (e ∷ es)
      → D.lines s.disk ≡ ok (map (λ l. ok l) (content s.disk))
      → replay F D 0 s ≡ err (gap 0 1)
  unfolding replay
  replay_zero e es v readable =
      let stop : s.meta.next_sequence - 1 ≡ length (e ∷ es) = omega (arith, v.next) in
      let some_events : (s.meta.event_count == 0) ≡ false = ground (arith, v.count) in
      let read =
        read_lines-Records F D 0 (length (e ∷ es)) 0 (content s.disk) (e ∷ es) v.recorded
        ∙ ap (λ xs. ok xs)
            (filter-IsNumbered 0 (length (e ∷ es)) 1 (e ∷ es) v.numbered (omega arith)) in
      rw (some_events, readable, stop, read, replay)
        (rw (check_order-IsNumbered 1 (snapshot (e ∷ es) (length (e ∷ es))) v.numbered)
          (rw (first_gap F D e es v.numbered.0) refl))
