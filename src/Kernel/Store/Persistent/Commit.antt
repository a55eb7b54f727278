-- ===== src/Kernel/Store/Persistent/Commit.antt =====
-- What `append` does to a persistent store in order, whichever of its calls fails.
use mathlib.Core.Path.{subst}
use cotrex_ai.Base.{
  ◌+◌, ◌<◌, String, ◌≡◌, refl, false, sym, ◌∙◌, ◌⊎◌, inl, inr, List, [], ◌∷◌, ◌++◌, arith, length,
  length-snoc, Result, ok, err, Result-cases, Bool-cases, bound, bound_ok, bound_err, pure, u64_mod,
}
use cotrex_ai.Kernel.Event.{Event, EventPayload}
use cotrex_ai.Kernel.Store.{EventStoreError, storage_failure, backpressure}
use cotrex_ai.Kernel.Store.Memory.{Stamp}
use cotrex_ai.Kernel.Store.Memory.Numbered.{IsNumbered-snoc}
use cotrex_ai.Kernel.Store.Persistent.{
  Format, Disk, PersistentEventStore, count_up, is_full, stamped, commit, append,
}
use cotrex_ai.Kernel.Store.Persistent.Journal.{
  IsFormat, IsJournal, IsValid, Records-snoc, count_up_keeps,
}

module _ {F : Format} {D : Disk} {content pending : D.State → List String} (G : IsFormat F)
    (J : IsJournal D content pending) where
  -- What an append may leave. The event is in the log and counted, and is what the call returns
  -- unless the cache could not be written; or the call failed, the counters and the log are as
  -- before, and the writer keeps at most one line, the event with the next number.
  abbrev pub Appended :
      EventPayload
      → PersistentEventStore F D
      → List Event
      → Result Event EventStoreError × PersistentEventStore F D
      → Type 0
  Appended p s es r =
      ((e : Event) × (e.payload ≡ p)
        × IsValid content pending r.1 (es ++ e ∷ [])
        × ((r.0 ≡ ok e) ⊎ ((x : EventStoreError) × (r.0 ≡ err x))))
      ⊎ ((x : EventStoreError) × (r.0 ≡ err x)
          × (r.1.meta ≡ s.meta)
          × (content r.1.disk ≡ content s.disk)
          × ((pending r.1.disk ≡ [])
              ⊎ ((l : String) × (e : Event) × (pending r.1.disk ≡ l ∷ [])
                  × ((F.blank l ≡ false) × (F.decode l ≡ ok e))
                  × (e.sequence ≡ length es + 1)
                  × (e.payload ≡ p))))

  counted_up :
      (s t : PersistentEventStore F D) (es : List Event) (e : Event) (line : String)
      → IsValid content pending s es
      → length es + 2 < u64_mod
      → F.encode e ≡ ok line
      → e.sequence ≡ s.meta.next_sequence
      → t.meta ≡ s.meta
      → content t.disk ≡ content s.disk ++ line ∷ []
      → pending t.disk ≡ []
      → IsValid content pending (count_up F D t).1 (es ++ e ∷ [])
  counted_up s t es e line v room written numbered same grown flushed =
      let (c, p, m, k) = count_up_keeps F J.cache t in
      record {
        flushed = p ∙ flushed;
        recorded =
            rw (c, grown)
              (Records-snoc F (content s.disk) es line e v.recorded (G.round_trip e line written));
        numbered = IsNumbered-snoc 1 es e v.numbered (omega (arith, v.next, numbered));
        next = rw (m, same, length-snoc) (omega (arith, v.next));
        count = rw (m, same, length-snoc) (omega (arith, v.count));
        room = rw length-snoc (omega arith);
      }

  finished :
      (s t : PersistentEventStore F D) (es : List Event) (e : Event)
      → IsValid content pending (count_up F D t).1 (es ++ e ∷ [])
      → Appended e.payload s es (bound (λ u. pure e) (count_up F D t))
  finished s t es e v = elim (Result-cases (count_up F D t).0) [
    | inl (u, good) ↦
        subst (Appended e.payload s es) (sym (bound_ok (λ u'. pure e) (count_up F D t) good))
          (inl (e, refl, v, inl refl))
    | inr (x, bad) ↦
        subst (Appended e.payload s es) (sym (bound_err (λ u'. pure e) (count_up F D t) bad))
          (inl (e, refl, v, inr (x, refl)))
  ]

  commit-Appended :
      (s : PersistentEventStore F D) (es : List Event) (e : Event) (line : String)
      → IsValid content pending s es
      → length es + 2 < u64_mod
      → F.encode e ≡ ok line
      → e.sequence ≡ s.meta.next_sequence
      → Appended e.payload s es (commit F D line e s)
  unfolding commit
  commit-Appended s es e line v room written numbered =
      let d1 = (D.write_line line s.disk).1 in
      let d2 = (D.flush d1).1 in
      elim (Result-cases (D.write_line line s.disk).0) [
        | inr (x, bad) ↦
            let (c, p) = J.write_err line s.disk x bad in
            rw (bad, commit) (inr (storage_failure x, refl, refl, c, inl (p ∙ v.flushed)))
        | inl (u, good) ↦
            let (c, p) = J.write_ok line s.disk good in
            let p' : pending d1 ≡ line ∷ [] = rw (p, v.flushed) refl in
            elim (Result-cases (D.flush d1).0) [
              | inr (x, bad) ↦
                  let (c2, p2) = J.flush_err d1 x bad in
                  rw (good, bad, commit)
                    (inr (
                      storage_failure x,
                      refl,
                      refl,
                      c2 ∙ c,
                      inr (line, e, p2 ∙ p', G.round_trip e line written, numbered ∙ v.next, refl),
                    ))
              | inl (u', good') ↦
                  let (c2, p2) = J.flush_ok d1 good' in
                  let t = record s { disk = d2 } in
                  rw (good, good', commit)
                    (finished s t es e (
                      counted_up s t es e line v room written numbered refl (c2 ∙ rw (c, p') refl)
                        p2))
            ]
      ]

  pub append-Appended :
      (w : Stamp) (p : EventPayload) (s : PersistentEventStore F D) (es : List Event)
      → IsValid content pending s es
      → length es + 2 < u64_mod
      → Appended p s es (append F D w p s)
  unfolding append
  append-Appended w p s es v room = elim (Bool-cases (is_full F D s)) [
    | inl full ↦ rw (full, append) (inr (backpressure, refl, refl, refl, inl v.flushed))
    | inr free ↦ elim (Result-cases (F.encode (stamped F D w p s))) [
      | inr (x, bad) ↦
          rw (free, bad, append) (inr (storage_failure x, refl, refl, refl, inl v.flushed))
      | inl (line, written) ↦
          rw (free, written, append)
            (commit-Appended s es (stamped F D w p s) line v room written refl)
    ]
  ]
