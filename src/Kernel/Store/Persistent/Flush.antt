-- ===== src/Kernel/Store/Persistent/Flush.antt =====
-- An append behind one whose flush failed.
use cotrex_ai.Base.{
  false, err, String, ◌≡◌, refl, ap, ◌∙◌, inl, inr, List, [], ◌∷◌, ◌++◌, arith, ok, Result-cases,
  Bool-cases, bound, bound_ok, bound_err, pure, sym,
}
use cotrex_ai.Kernel.Event.{Event, EventPayload}
use cotrex_ai.Kernel.Store.{storage_failure}
use cotrex_ai.Kernel.Store.Memory.{Stamp}
use cotrex_ai.Kernel.Store.Persistent.{
  Format, Disk, PersistentEventStore, is_full, stamped, commit, append, count_up,
}
use cotrex_ai.Kernel.Store.Persistent.Journal.{IsFormat, IsJournal, count_up_keeps}

module _ {F : Format} {D : Disk} {content pending : D.State → List String} (G : IsFormat F)
    (J : IsJournal D content pending) where
  -- While the writer keeps a line, an append that succeeds writes that line and its own, with the
  -- number that the counters give it.
  append_behind :
      (w : Stamp) (q : EventPayload) (t : PersistentEventStore F D) (kept : String) (e : Event)
      → pending t.disk ≡ kept ∷ []
      → (append F D w q t).0 ≡ ok e
      → (line : String) × (F.decode line ≡ ok e)
        × (e.sequence ≡ t.meta.next_sequence)
        × (e.payload ≡ q)
        × (content (append F D w q t).1.disk ≡ content t.disk ++ kept ∷ line ∷ [])
  unfolding append commit
  append_behind w q t kept e held h = elim (Bool-cases (is_full F D t)) [
    | inl full ↦ ground (arith, full, h)
    | inr free ↦ elim (Result-cases (F.encode (stamped F D w q t))) [
      | inr (x, bad) ↦ ground (arith, free, bad, h)
      | inl (line, written) ↦
          let d1 = (D.write_line line t.disk).1 in
          let d2 = (D.flush d1).1 in
          elim (Result-cases (D.write_line line t.disk).0) [
            | inr (x, bad) ↦ ground (arith, free, written, bad, h)
            | inl (u, good) ↦ elim (Result-cases (D.flush d1).0) [
              | inr (x, bad) ↦ ground (arith, free, written, good, bad, h)
              | inl (u', good') ↦
                  let t' = record t { disk = d2 } in
                  let event = stamped F D w q t in
                  let (c1, p1) = J.write_ok line t.disk good in
                  let (c2, p2) = J.flush_ok d1 good' in
                  let (c3, p3, m3, k3) = count_up_keeps F J.cache t' in
                  let whole : append F D w q t ≡ bound (λ v. pure event) (count_up F D t') =
                    rw (free, written, good, good', append, commit) refl in
                  let grown : content (count_up F D t').1.disk
                      ≡ content t.disk ++ kept ∷ line ∷ [] =
                    c3 ∙ c2 ∙ rw (c1, p1, held) refl in
                  elim (Result-cases (count_up F D t').0) [
                    | inr (x, bad) ↦
                        cc (h, whole, bound_err (λ v. pure event) (count_up F D t') bad)
                    | inl (v, done) ↦
                        let ended = whole ∙ bound_ok (λ v'. pure event) (count_up F D t') done in
                        let same : event ≡ e = cc (ended, h) in
                        (
                          line,
                          (G.round_trip event line written).1 ∙ ap (λ y. ok y) same,
                          ap (λ y. y.sequence) (sym same),
                          ap (λ y. y.payload) (sym same),
                          ap (λ r. content r.1.disk) ended ∙ grown,
                        )
                  ]
            ]
          ]
    ]
  ]

  -- An append whose line is written to the buffer, and whose flush fails, answers with that error and
  -- changes no counter, and the buffer keeps the line.
  flush_failed :
      (v : Stamp) (p : EventPayload) (s : PersistentEventStore F D) (kept x : String)
      → is_full F D s ≡ false
      → F.encode (stamped F D v p s) ≡ ok kept
      → (D.write_line kept s.disk).0 ≡ ok tt
      → (D.flush (D.write_line kept s.disk).1).0 ≡ err x
      → append F D v p s
        ≡ (err (storage_failure x), record s { disk = (D.flush (D.write_line kept s.disk).1).1 })
  unfolding append commit
  flush_failed v p s kept x free encoded good bad =
      rw (free, encoded, good, bad, append, commit) refl

  -- Where the flush of an append fails behind a write to the buffer that went well, and the next
  -- append succeeds, the first is answered with the error, and yet both their events are in the log,
  -- one behind the other and with the same sequence number.
  pub append-kept :
      (v w : Stamp) (p q : EventPayload) (s : PersistentEventStore F D) (kept x : String)
      (e : Event)
      → pending s.disk ≡ []
      → is_full F D s ≡ false
      → F.encode (stamped F D v p s) ≡ ok kept
      → (D.write_line kept s.disk).0 ≡ ok tt
      → (D.flush (D.write_line kept s.disk).1).0 ≡ err x
      → (append F D w q (append F D v p s).1).0 ≡ ok e
      → ((append F D v p s).0 ≡ err (storage_failure x))
        × (first : Event) × (line : String) × (content (append F D w q (append F D v p s).1).1.disk
            ≡ content s.disk ++ kept ∷ line ∷ [])
        × (F.decode kept ≡ ok first)
        × (F.decode line ≡ ok e)
        × (first.payload ≡ p)
        × (e.payload ≡ q)
        × (first.sequence ≡ e.sequence)
  append-kept v w p q s kept x e empty free encoded good bad h =
      let d1 = (D.write_line kept s.disk).1 in
      let t = record s { disk = (D.flush d1).1 } in
      let failed = flush_failed v p s kept x free encoded good bad in
      let (c1, p1) = J.write_ok kept s.disk good in
      let (c2, p2) = J.flush_err d1 x bad in
      let (line, reads, number, carried, grown) =
        append_behind w q t kept e (p2 ∙ rw (p1, empty) refl)
          (sym (ap (λ r. (append F D w q r.1).0) failed) ∙ h) in
      (
        ap (λ r. r.0) failed,
        stamped F D v p s,
        line,
        ap (λ r. content (append F D w q r.1).1.disk) failed ∙ grown ∙ rw (c2, c1) refl,
        (G.round_trip (stamped F D v p s) kept encoded).1,
        reads,
        refl,
        carried,
        sym number,
      )
