-- ===== src/Kernel/Store/Persistent/Journal.antt =====
-- What the persistent store relies on, of the file system and of serde_json, and when its files and
-- its counters are in order.
use cotrex_ai.Base.{
  ◌+◌, ◌<◌, String, ◌≡◌, refl, ◌∙◌, false, List, [], ◌∷◌, ◌++◌, length, ok, err, Result-cases, inl,
  inr, u64_mod, arith,
}
use cotrex_ai.Kernel.Event.{Event}
use cotrex_ai.Kernel.Store.{IsNumbered, EventStoreError, storage_failure}
use cotrex_ai.Kernel.Store.Persistent.{
  StoreMeta, Format, Disk, PersistentEventStore, write_meta_atomic, counted, count_up,
}

-- What serde_json writes of an event is no blank line, and is read back as the event.
pub record IsFormat (F : Format) : Type 0 where
  pub round_trip :
      (e : Event) (line : String)
      → F.encode e ≡ ok line
      → (F.blank line ≡ false) × (F.decode line ≡ ok e)

-- Writing the cache leaves the log alone: what its file holds and what the writer keeps.
pub record IsKept {A B : Type 0} (D : Disk) (content : D.State → A) (pending : D.State → B)
    : Type 0 where
  pub tmp_keeps :
      (text : String) (d : D.State)
      → (content (D.write_tmp text d).1 ≡ content d) × (pending (D.write_tmp text d).1 ≡ pending d)
  pub rename_keeps :
      (d : D.State)
      → (content (D.rename_tmp d).1 ≡ content d) × (pending (D.rename_tmp d).1 ≡ pending d)

-- The log file holds the lines `content`; `pending` are the lines that the `BufWriter` still keeps.
-- It keeps them when a flush fails, and hands all of them to the file when one succeeds. That is so
-- while the lines fit its buffer, and a write to the file fails as a whole.
pub record IsJournal (D : Disk) (content pending : D.State → List String) : Type 0 where
  pub write_ok :
      (line : String) (d : D.State)
      → (D.write_line line d).0 ≡ ok tt
      → (content (D.write_line line d).1 ≡ content d)
        × (pending (D.write_line line d).1 ≡ pending d ++ line ∷ [])
  pub write_err :
      (line : String) (d : D.State) (x : String)
      → (D.write_line line d).0 ≡ err x
      → (content (D.write_line line d).1 ≡ content d)
        × (pending (D.write_line line d).1 ≡ pending d)
  pub flush_ok :
      (d : D.State)
      → (D.flush d).0 ≡ ok tt
      → (content (D.flush d).1 ≡ content d ++ pending d) × (pending (D.flush d).1 ≡ [])
  pub flush_err :
      (d : D.State) (x : String)
      → (D.flush d).0 ≡ err x
      → (content (D.flush d).1 ≡ content d) × (pending (D.flush d).1 ≡ pending d)
  pub cache : IsKept D content pending

-- The lines are the events, one each.
abbrev pub Records : Format → List String → List Event → Type 0
Records F [] [] = Unit
Records F (l ∷ ls) (e ∷ es) = (F.blank l ≡ false) × (F.decode l ≡ ok e) × Records F ls es
Records F _ _ = ⊥

pub Records-snoc :
    (F : Format) (ls : List String) (es : List Event) (l : String) (e : Event)
    → Records F ls es
    → (F.blank l ≡ false) × (F.decode l ≡ ok e)
    → Records F (ls ++ l ∷ []) (es ++ e ∷ [])
Records-snoc F [] [] l e h (b, d) = (b, d, tt)
Records-snoc F (k ∷ ls) (x ∷ es) l e h new = (h.0, h.1, Records-snoc F ls es l e h.2 new)
Records-snoc F [] (x ∷ es) l e h new = absurd h
Records-snoc F (k ∷ ls) [] l e h new = absurd h

-- The store holds the events `es`: its log has their lines and nothing is pending, they are
-- numbered, and the counters count them.
pub record IsValid {F : Format} {D : Disk} (content pending : D.State → List String)
    (s : PersistentEventStore F D) (es : List Event) : Type 0 where
  pub flushed : pending s.disk ≡ []
  pub recorded : Records F (content s.disk) es
  pub numbered : IsNumbered 1 es
  pub next : s.meta.next_sequence ≡ length es + 1
  pub count : s.meta.event_count ≡ length es
  pub room : length es + 1 < u64_mod

-- The cache is not written only where the format or the disk fails.
pub write_meta_err :
    (F : Format) (D : Disk) (m : StoreMeta) (d : D.State) (x : EventStoreError)
    → (write_meta_atomic F D m d).0 ≡ err x
    → (y : String) × (x ≡ storage_failure y)
unfolding write_meta_atomic
write_meta_err F D m d x h = elim (Result-cases (F.encode_meta m)) [
  | inr (y, bad) ↦ (y, ground (arith, bad, h))
  | inl (text, good) ↦ elim (Result-cases (D.write_tmp text d).0) [
    | inr (y, bad) ↦ (y, ground (arith, good, bad, h))
    | inl (u, done) ↦ elim (Result-cases (D.rename_tmp (D.write_tmp text d).1).0) [
      | inr (y, bad) ↦ (y, ground (arith, good, done, bad, h))
      | inl (v, moved) ↦ ground (arith, good, done, moved, h)
    ]
  ]
]

module _ (F : Format) {A B : Type 0} {D : Disk} {content : D.State → A} {pending : D.State → B}
    (C : IsKept D content pending) where
  pub write_meta_keeps :
      (m : StoreMeta) (d : D.State)
      → (content (write_meta_atomic F D m d).1 ≡ content d)
        × (pending (write_meta_atomic F D m d).1 ≡ pending d)
  unfolding write_meta_atomic
  write_meta_keeps m d = elim (Result-cases (F.encode_meta m)) [
    | inr (x, bad) ↦ rw (bad, write_meta_atomic) (refl, refl)
    | inl (text, good) ↦
        let (c1, p1) = C.tmp_keeps text d in
        let d' = (D.write_tmp text d).1 in
        let (c2, p2) = C.rename_keeps d' in
        elim (Result-cases (D.write_tmp text d).0) [
          | inr (x, bad) ↦ rw (good, bad, write_meta_atomic) (c1, p1)
          | inl (u, done) ↦ rw (good, done, write_meta_atomic) (c2 ∙ c1, p2 ∙ p1)
        ]
  ]

  -- Counting up leaves the log alone, whether the cache could be written or not.
  pub count_up_keeps :
      (s : PersistentEventStore F D)
      → (content (count_up F D s).1.disk ≡ content s.disk)
        × (pending (count_up F D s).1.disk ≡ pending s.disk)
        × ((count_up F D s).1.meta ≡ counted F D s.meta)
        × ((count_up F D s).1.capacity ≡ s.capacity)
  unfolding count_up
  count_up_keeps s = let (c, p) = write_meta_keeps (counted F D s.meta) s.disk in (c, p, refl, refl)
