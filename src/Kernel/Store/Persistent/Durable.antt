-- ===== src/Kernel/Store/Persistent/Durable.antt =====
-- What an append leaves to the next run of the program.
use mathlib.Core.Path.{subst}
use cotrex_ai.Base.{
  ◌+◌, ◌<◌, ◌≡◌, refl, sym, ap, ◌∙◌, ◌⊎◌, inl, inr, List, [], ◌∷◌, ◌++◌, arith, length, length-snoc,
  Result, Result-cases, Bool-cases, ok, err, u64_mod, String, ℕ, map, false, bound, bound_ok,
  bound_err, pure, ltb, add_u64,
}
use cotrex_ai.Kernel.Event.{Event, EventPayload}
use cotrex_ai.Kernel.Store.{
  EventStoreError, storage_failure, replay_failure, IsNumbered, backpressure,
}
use cotrex_ai.Kernel.Store.Memory.{Stamp}
use cotrex_ai.Kernel.Store.Memory.Numbered.{IsNumbered-snoc}
use cotrex_ai.Kernel.Store.Persistent.{
  Format, Disk, PersistentEventStore, append, commit, count_up, stamped, is_full, open_store,
  scan_lines, scan_log,
}
use cotrex_ai.Kernel.Store.Persistent.Journal.{
  IsFormat, IsKept, Records, Records-snoc, IsValid, count_up_keeps,
}
use cotrex_ai.Kernel.Store.Persistent.Buffered.{
  IsCompact, IsBuffered, AllOneLine, IsLeft, IsFront, IsEnded, ended-left, write_err-IsFront,
  write_ok-IsFront, flush_err-IsFront, flush_ok-IsEnded, read_front, AllOneLine-snoc,
}
use cotrex_ai.Kernel.Store.Persistent.Recovery.{IsDirectory, IsCached, Opened, open_store-Opened}

-- A scan fails at a line that is cut short.
scan_lines-cut :
    (F : Format) (D : Disk) (count last : ℕ) (ls : List String) (es : List Event) (t x : String)
    → Records F ls es
    → F.blank t ≡ false
    → F.decode t ≡ err x
    → scan_lines F D count last (map (λ l. ok l) (ls ++ t ∷ [])) ≡ err (replay_failure x)
unfolding scan_lines
scan_lines-cut F D count last [] [] t x h full bad = rw (full, bad, scan_lines) refl
scan_lines-cut F D count last (l ∷ ls) (e ∷ es) t x (filled, read, rest) full bad =
    elim (Bool-cases (ltb last e.sequence)) [
      | inl above ↦
          rw (filled, read, above, scan_lines)
            (scan_lines-cut F D (add_u64 count 1) e.sequence ls es t x rest full bad)
      | inr below ↦
          rw (filled, read, below, scan_lines)
            (scan_lines-cut F D (add_u64 count 1) last ls es t x rest full bad)
    ]
scan_lines-cut F D count last [] (e ∷ es) t x h full bad = absurd h
scan_lines-cut F D count last (l ∷ ls) [] t x h full bad = absurd h

snoc_full : (ls : List String) (t : String) → ls ++ t ∷ [] ≡ [] → ⊥
snoc_full [] t h = cc h
snoc_full (l ∷ ls) t h = cc h

module _ {F : Format} {D : Disk} {content pending : D.State → List String}
    (K : IsDirectory D content pending) where
  -- A store does not open over a log whose last line is cut short.
  open_store_cut :
      (d : D.State) (ls : List String) (es : List Event) (t x : String)
      → Records F ls es
      → F.blank t ≡ false
      → F.decode t ≡ err x
      → content d ≡ ls ++ t ∷ []
      → (y : EventStoreError) × ((open_store F D d).0 ≡ err y)
  unfolding open_store scan_log
  open_store_cut d ls es t x recorded full bad held =
      let d1 = (D.create_dir_all d).1 in
      elim (Result-cases (D.create_dir_all d).0) [
        | inr (y, failed) ↦ (storage_failure y, rw (failed, open_store) refl)
        | inl (u, made) ↦ elim (K.readable d1) [
          | inl (missing, empty) ↦
              absurd (snoc_full ls t (sym held ∙ sym (K.mkdir_keeps d) ∙ empty))
          | inr (there, lines) ↦ (
            replay_failure x,
            rw
                (
                  made,
                  there,
                  lines,
                  K.mkdir_keeps d,
                  held,
                  scan_lines-cut F D 0 0 ls es t x recorded full bad,
                  open_store,
                )
                refl,
          )
        ]
      ]

module _ {F : Format} {D : Disk} {file buffer : D.State → String}
    {content pending : D.State → List String} (G : IsFormat F) (H : IsCompact F)
    (B : IsBuffered D file buffer content) (C : IsKept D content pending)
    (K : IsDirectory D content pending) where
  -- What a call of `append` with the outcome `r` leaves to the next run, which opens the store on the
  -- files `d`.
  abbrev pub Survives : EventPayload → List Event → Result Event EventStoreError → D.State → Type 0
  Survives p es r d =
      ((e : Event) × (e.payload ≡ p)
        × ((r ≡ ok e) ⊎ ((x : EventStoreError) × (r ≡ err x)))
        × Opened F C K (content d) (es ++ e ∷ []) (open_store F D d))
      ⊎ ((x : EventStoreError) × (r ≡ err x)
          × (Opened F C K (content d) es (open_store F D d)
              ⊎ ((y : EventStoreError) × ((open_store F D d).0 ≡ err y)
                  × ((before : List String) × (t : String) × (content d ≡ before ++ t ∷ [])
                      × Records F before es))))

  -- The lines of the log, which ends with the end of a line.
  abbrev pub IsWhole : PersistentEventStore F D → Type 0
  IsWhole s = AllOneLine (content s.disk) × IsEnded B (content s.disk) s.disk

  opening :
      (later : List Event) (d : D.State)
      → Records F (content d) later
      → IsNumbered 1 later
      → length later + 1 < u64_mod
      → IsCached F D d
      → Opened F C K (content d) later (open_store F D d)
  opening later d recorded numbered small cached =
      open_store-Opened F C K d later recorded numbered small cached

  unchanged :
      (p : EventPayload) (s : PersistentEventStore F D) (es : List Event)
      (r : Result Event EventStoreError) (x : EventStoreError) (last d : D.State)
      → IsValid content pending s es
      → IsWhole s
      → IsEnded B (content s.disk) last
      → IsLeft B last d
      → IsCached F D d
      → r ≡ err x
      → Survives p es r d
  unchanged p s es r x last d v (one, _) ended left cached failed =
      let same =
        B.read_whole d (content s.disk) one (ended-left B (content s.disk) last d ended left) in
      inr (
        x,
        failed,
        inl (
            opening es d (subst (λ ls. Records F ls es) (sym same) v.recorded) v.numbered v.room
              cached),
      )

  added :
      (s : PersistentEventStore F D) (es : List Event) (e : Event) (line : String) (d : D.State)
      → IsValid content pending s es
      → length es + 2 < u64_mod
      → F.encode e ≡ ok line
      → e.sequence ≡ s.meta.next_sequence
      → IsCached F D d
      → content d ≡ content s.disk ++ line ∷ []
      → Opened F C K (content d) (es ++ e ∷ []) (open_store F D d)
  added s es e line d v room written number cached same =
      opening (es ++ e ∷ []) d
        (subst (λ ls. Records F ls (es ++ e ∷ [])) (sym same)
          (Records-snoc F (content s.disk) es line e v.recorded (G.round_trip e line written)))
        (IsNumbered-snoc 1 es e v.numbered (omega (arith, v.next, number)))
        (rw length-snoc (omega arith)) cached

  -- A write or a flush has failed, and the line is in file and buffer up to some place.
  interrupted :
      (s : PersistentEventStore F D) (es : List Event) (e : Event) (line : String)
      (r : Result Event EventStoreError) (x : EventStoreError) (last d : D.State)
      → IsValid content pending s es
      → IsWhole s
      → length es + 2 < u64_mod
      → F.encode e ≡ ok line
      → e.sequence ≡ s.meta.next_sequence
      → IsCached F D d
      → IsFront B (content s.disk) line last
      → IsLeft B last d
      → r ≡ err x
      → Survives e.payload es r d
  interrupted s es e line r x last d v (one, _) room written number cached front left failed =
      elim (read_front B (content s.disk) line last d one (H.one_line e line written) front left) [
        | inl same ↦ inr (
          x,
          failed,
          inl (
              opening es d (subst (λ ls. Records F ls es) (sym same) v.recorded) v.numbered v.room
                cached),
        )
        | inr (inl same) ↦
            inl (e, refl, inr (x, failed), added s es e line d v room written number cached same)
        | inr (inr (t, c, same, joined, some_part, some_lost)) ↦
            let (full, (y, bad)) =
              H.incomplete e t c (written ∙ ap (λ l. ok l) (sym joined)) some_part some_lost in
            let (z, unopened) =
              open_store_cut K d (content s.disk) es t y v.recorded full bad same in
            inr (x, failed, inr (z, unopened, (content s.disk, t, same, v.recorded)))
      ]

  -- The event has been flushed.
  flushed :
      (s t : PersistentEventStore F D) (es : List Event) (e : Event) (line : String) (d : D.State)
      → IsValid content pending s es
      → IsWhole s
      → length es + 2 < u64_mod
      → F.encode e ≡ ok line
      → e.sequence ≡ s.meta.next_sequence
      → IsCached F D d
      → IsEnded B (content s.disk ++ line ∷ []) t.disk
      → IsLeft B (bound (λ u. pure e) (count_up F D t)).1.disk d
      → Survives e.payload es (bound (λ u. pure e) (count_up F D t)).0 d
  flushed s t es e line d v (one, _) room written number cached (held, idle) left =
      let (f, b, m, k) = count_up_keeps F B.cache t in
      let ls = content s.disk ++ line ∷ [] in
      let all = AllOneLine-snoc (content s.disk) line one (H.one_line e line written) in
      let open_behind : IsLeft B (count_up F D t).1.disk d
          → Opened F C K (content d) (es ++ e ∷ []) (open_store F D d) =
        λ l. added s es e line d v room written number cached (
          B.read_whole d ls all
            (ended-left B ls (count_up F D t).1.disk d (f ∙ held, b ∙ idle) l)) in
      elim (Result-cases (count_up F D t).0) [
        | inl (u, good) ↦
            let whole = bound_ok (λ u'. pure e) (count_up F D t) good in
            inl (
              e,
              refl,
              inl (ap (λ r. r.0) whole),
              open_behind (subst (λ r. IsLeft B r.1.disk d) whole left),
            )
        | inr (x, bad) ↦
            let whole = bound_err (λ u'. pure e) (count_up F D t) bad in
            inl (
              e,
              refl,
              inr (x, ap (λ r. r.0) whole),
              open_behind (subst (λ r. IsLeft B r.1.disk d) whole left),
            )
      ]

  commit-Survives :
      (s : PersistentEventStore F D) (es : List Event) (e : Event) (line : String) (d : D.State)
      → IsValid content pending s es
      → IsWhole s
      → length es + 2 < u64_mod
      → F.encode e ≡ ok line
      → e.sequence ≡ s.meta.next_sequence
      → IsCached F D d
      → IsLeft B (commit F D line e s).1.disk d
      → Survives e.payload es (commit F D line e s).0 d
  unfolding commit
  commit-Survives s es e line d v w room written number cached left =
      let d1 = (D.write_line line s.disk).1 in
      let d2 = (D.flush d1).1 in
      let ls = content s.disk in
      elim (Result-cases (D.write_line line s.disk).0) [
        | inr (x, bad) ↦
            let whole : commit F D line e s ≡ (err (storage_failure x), record s { disk = d1 }) =
              rw (bad, commit) refl in
            interrupted s es e line (commit F D line e s).0 (storage_failure x) d1 d v w room
              written number cached (write_err-IsFront B ls line s.disk x w.1 bad)
              (subst (λ r. IsLeft B r.1.disk d) whole left) (ap (λ r. r.0) whole)
        | inl (u, good) ↦
            let (y, held, kept) = write_ok-IsFront B ls line s.disk w.1 good in
            elim (Result-cases (D.flush d1).0) [
              | inr (x, bad) ↦
                  let whole : commit F D line e s
                      ≡ (err (storage_failure x), record s { disk = d2 }) =
                    rw (good, bad, commit) refl in
                  interrupted s es e line (commit F D line e s).0 (storage_failure x) d2 d v w room
                    written number cached (flush_err-IsFront B ls line y x d1 held kept bad)
                    (subst (λ r. IsLeft B r.1.disk d) whole left) (ap (λ r. r.0) whole)
              | inl (u', good') ↦
                  let t = record s { disk = d2 } in
                  let whole : commit F D line e s ≡ bound (λ v. pure e) (count_up F D t) =
                    rw (good, good', commit) refl in
                  subst (λ r. Survives e.payload es r.0 d) (sym whole)
                    (flushed s t es e line d v w room written number cached
                      (flush_ok-IsEnded B ls line y d1 held kept good')
                      (subst (λ r. IsLeft B r.1.disk d) whole left))
            ]
      ]

  -- The program ends behind an append to a store in order whose log ends with the end of a line, and
  -- of what the writer has kept a front part may have come to the file. Where the append returned its
  -- event, the next run finds the events before and this one when it opens the store. Where it failed,
  -- the next run finds these, or the events before; or the line of the event is cut short in the log,
  -- and then opening the store fails, although the lines of the events before are all there.
  pub append-Survives :
      (w : Stamp) (p : EventPayload) (s : PersistentEventStore F D) (es : List Event) (d : D.State)
      → IsValid content pending s es
      → IsWhole s
      → length es + 2 < u64_mod
      → IsLeft B (append F D w p s).1.disk d
      → IsCached F D d
      → Survives p es (append F D w p s).0 d
  unfolding append
  append-Survives w p s es d v ended room left cached = elim (Bool-cases (is_full F D s)) [
    | inl full ↦
        let whole : append F D w p s ≡ (err backpressure, s) = rw (full, append) refl in
        unchanged p s es (append F D w p s).0 backpressure s.disk d v ended ended.1
          (subst (λ r. IsLeft B r.1.disk d) whole left) cached (ap (λ r. r.0) whole)
    | inr free ↦ elim (Result-cases (F.encode (stamped F D w p s))) [
      | inr (x, bad) ↦
          let whole : append F D w p s ≡ (err (storage_failure x), s) =
            rw (free, bad, append) refl in
          unchanged p s es (append F D w p s).0 (storage_failure x) s.disk d v ended ended.1
            (subst (λ r. IsLeft B r.1.disk d) whole left) cached (ap (λ r. r.0) whole)
      | inl (line, written) ↦
          let e = stamped F D w p s in
          let whole : append F D w p s ≡ commit F D line e s = rw (free, written, append) refl in
          subst (λ r. Survives p es r.0 d) (sym whole)
            (commit-Survives s es e line d v ended room written refl cached
              (subst (λ r. IsLeft B r.1.disk d) whole left))
    ]
  ]
