-- ===== src/Kernel/Store/Persistent/Recovery.antt =====
-- A store that is opened anew: what `open` makes of the files that an earlier run has left.
use mathlib.Core.Path.{subst}
use cotrex_ai.Base.{
  ◌+◌, ◌<◌, String, ◌≡◌, refl, sym, ap, ◌∙◌, ◌⊎◌, inl, inr, true, false, Option, none, some, List,
  [], ◌∷◌, arith, length, map, Result, ok, err, Result-cases, bound_ok, bound_err, ◌>>◌, u64_mod,
  nat_eq,
}
use cotrex_ai.Kernel.Event.{Event}
use cotrex_ai.Kernel.Store.{EventStoreError, storage_failure, IsNumbered}
use cotrex_ai.Kernel.Store.Persistent.{
  Format, Disk, StoreMeta, PersistentEventStore, write_meta_atomic, scan_log, cached_meta,
  resolve_meta, open_store, finish, storing,
}
use cotrex_ai.Kernel.Store.Persistent.Journal.{
  IsKept, Records, IsValid, write_meta_keeps, write_meta_err,
}
use cotrex_ai.Kernel.Store.Persistent.Opening.{scan_log_recorded}

-- What `open` relies on: making the directory and opening the log change no line, a writer that is
-- just opened keeps none, and the log is read line by line, or is missing where it has none.
pub record IsDirectory (D : Disk) (content pending : D.State → List String) : Type 0 where
  pub mkdir_keeps : (d : D.State) → content (D.create_dir_all d).1 ≡ content d
  pub mkdir_cache :
      (d : D.State)
      → (D.meta_exists (D.create_dir_all d).1 ≡ D.meta_exists d)
        × (D.read_meta (D.create_dir_all d).1 ≡ D.read_meta d)
  pub open_ok :
      (d : D.State)
      → (D.open_log d).0 ≡ ok tt
      → (content (D.open_log d).1 ≡ content d) × (pending (D.open_log d).1 ≡ [])
  pub open_err :
      (d : D.State) (x : String) → (D.open_log d).0 ≡ err x → content (D.open_log d).1 ≡ content d
  pub readable :
      (d : D.State)
      → (D.log_exists d ≡ false) × (content d ≡ [])
        ⊎ (D.log_exists d ≡ true) × (D.lines d ≡ ok (map (λ l. ok l) (content d)))

only_empty : (F : Format) (es : List Event) → Records F [] es → es ≡ []
only_empty F [] h = refl
only_empty F (e ∷ es) h = absurd h

-- Counters that a store has written.
abbrev IsCounted : StoreMeta → Type 0
IsCounted m = m.next_sequence ≡ m.event_count + 1

-- The cache is missing or unreadable, or holds counters that a store has written.
abbrev pub IsCached : (F : Format) (D : Disk) → D.State → Type 0
IsCached F D d =
    (cached_meta F D d ≡ none) ⊎ ((m : StoreMeta) × (cached_meta F D d ≡ some m) × IsCounted m)

abbrev counters : List Event → StoreMeta
counters es = record { next_sequence = length es + 1; event_count = length es }

module _ (F : Format) {D : Disk} {content pending : D.State → List String}
    (C : IsKept D content pending) (K : IsDirectory D content pending) where
  resolved :
      (d : D.State) (es : List Event)
      → Records F (content d) es
      → IsNumbered 1 es
      → length es + 1 < u64_mod
      → IsCached F D d
      → (log : Option StoreMeta) × (scan_log F D d ≡ ok log)
        × (resolve_meta F D (cached_meta F D d) log ≡ counters es)
  unfolding scan_log resolve_meta
  resolved d es recorded numbered room cached = elim (K.readable d) [
    | inl (missing, empty) ↦
        let none_held : es ≡ [] = only_empty F es (subst (λ ls. Records F ls es) empty recorded) in
        (
          none,
          rw missing refl,
          rw none_held (elim cached [
            | inl nothing ↦ rw nothing refl
            | inr (m, found, counted) ↦ rw found (ground (arith, counted))
          ]),
        )
    | inr (there, lines) ↦ (
      some (counters es),
      scan_log_recorded F D d (content d) es there lines recorded numbered room,
      elim cached [
        | inl nothing ↦ rw nothing refl
        | inr (m, found, counted) ↦ rw found (ground (arith, counted))
      ],
    )
  ]

  cached_keeps : (d : D.State) → cached_meta F D (D.create_dir_all d).1 ≡ cached_meta F D d
  unfolding cached_meta
  cached_keeps d = rw ((K.mkdir_cache d).0, (K.mkdir_cache d).1) refl

  -- What opening may lead to: a store in order with the events of the log; or the error of a call,
  -- with the lines of the log as they were.
  abbrev pub Opened :
      List String
      → List Event
      → Result (PersistentEventStore F D) EventStoreError × D.State
      → Type 0
  Opened before es r =
      ((t : PersistentEventStore F D) × (r.0 ≡ ok t)
        × (t.capacity ≡ none)
        × IsValid content pending t es)
      ⊎ ((x : String) × (r.0 ≡ err (storage_failure x)) × (content r.1 ≡ before))

  abbrev rest :
      StoreMeta → Unit {0} → D.State → Result (PersistentEventStore F D) EventStoreError × D.State
  rest m u =
      storing F D D.open_log >> (λ d. (ok (record { disk = d; meta = m; capacity = none }), d))

  -- The rest of `open`, from the writing of the cache on.
  finishing :
      (d : D.State) (es : List Event)
      → Records F (content d) es
      → IsNumbered 1 es
      → length es + 1 < u64_mod
      → Opened (content d) es (finish F D (counters es) d)
  unfolding finish
  finishing d es recorded numbered room =
      let m = counters es in
      let d2 = (write_meta_atomic F D m d).1 in
      let (c, p) = write_meta_keeps F C m d in
      elim (Result-cases (write_meta_atomic F D m d).0) [
        | inr (x, bad) ↦
            let (y, stored) = write_meta_err F D m d x bad in
            subst (Opened (content d) es) (sym (bound_err (rest m) (write_meta_atomic F D m d) bad))
              (inr (y, ap (λ e. err e) stored, c))
        | inl (u, good) ↦
            subst (Opened (content d) es) (sym (bound_ok (rest m) (write_meta_atomic F D m d) good))
              (elim (Result-cases (D.open_log d2).0) [
                | inr (x, bad) ↦ inr (x, rw bad refl, rw bad (K.open_err d2 x bad ∙ c))
                | inl (v, fine) ↦
                    let (c', p') = K.open_ok d2 fine in
                    inl (
                      record { disk = (D.open_log d2).1; meta = m; capacity = none },
                      rw fine refl,
                      refl,
                      record {
                        flushed = p';
                        recorded = subst (λ ls. Records F ls es) (sym (c' ∙ c)) recorded;
                        numbered = numbered;
                        next = refl;
                        count = refl;
                        room = room;
                      },
                    )
              ])
      ]

  -- Opening over a log that holds the lines of numbered events, and whose cache holds what a store
  -- has written, if anything, gives a store in order with these events, unless a call of the file
  -- system other than the reading of the log fails; then the log is as it was.
  pub open_store-Opened :
      (d : D.State) (es : List Event)
      → Records F (content d) es
      → IsNumbered 1 es
      → length es + 1 < u64_mod
      → IsCached F D d
      → Opened (content d) es (open_store F D d)
  unfolding open_store
  open_store-Opened d es recorded numbered room cached =
      let d1 = (D.create_dir_all d).1 in
      elim (Result-cases (D.create_dir_all d).0) [
        | inr (x, bad) ↦ inr (x, rw bad refl, rw bad (K.mkdir_keeps d))
        | inl (u, made) ↦
            let (log, scanned, same) =
              resolved d1 es (subst (λ ls. Records F ls es) (sym (K.mkdir_keeps d)) recorded)
                numbered room
                (subst (λ c. (c ≡ none) ⊎ ((m : StoreMeta) × (c ≡ some m) × IsCounted m))
                  (sym (cached_keeps d)) cached) in
            rw (made, scanned, same)
              (subst (λ ls. Opened ls es (finish F D (counters es) d1)) (K.mkdir_keeps d)
                (finishing d1 es (subst (λ ls. Records F ls es) (sym (K.mkdir_keeps d)) recorded)
                  numbered room))
      ]
