-- ===== src/Kernel/Store/Persistent.antt =====
-- `PersistentEventStore` (kernel/src/persistent_store.rs): events as lines of JSON in a file, with a
-- cache of the counters beside it. serde_json and the file system are parameters. The proofs are in
-- the modules below. A call holds its locks from its start to its end; they are never poisoned.
pub mod Journal
pub mod Commit
pub mod Reading
pub mod Flush
pub mod Opening
pub mod Recovery
pub mod Buffered
pub mod Durable
pub mod Simulation
pub mod Verify
use cotrex_ai.Base.{
  ℕ, suc, ◌+◌, ◌-◌, String, ◌<>◌, ◌≡◌, Bool, true, false, not, ◌&&◌, Option, none, some, List, [],
  ◌∷◌, ◌++◌, length, Result, ok, err, map_err, and_then, Method, bound, ◌>>=◌, ◌>>◌, pure, leb, ltb,
  add_u64, if◌then◌else◌, ◌==◌, nat_eq,
}
use cotrex_ai.Base.Text.{show_u64}
use cotrex_ai.Kernel.Event.{Uuid, Event, EventPayload}
use cotrex_ai.Kernel.Store.{
  EventStoreError, storage_failure, replay_failure, backpressure, ReplayResult,
}
use cotrex_ai.Kernel.Store.Memory.{Stamp, in_range, check_order, reached}

pub record StoreMeta : Type 0 where
  pub next_sequence : ℕ
  pub event_count : ℕ

-- serde_json on events and on the cache, and the test `line.trim().is_empty()`. An error is the text
-- that it prints.
pub record Format : Type 0 where
  pub encode : Event → Result String String
  pub decode : String → Result Event String
  pub encode_meta : StoreMeta → Result String String
  pub decode_meta : String → Result StoreMeta String
  pub blank : String → Bool

-- The directory of the store: the log behind a `BufWriter`, and meta.json with its temporary file.
pub record Disk : Type 1 where
  pub State : Type 0
  pub create_dir_all : Method State (Unit {0}) String
  pub meta_exists : State → Bool
  pub read_meta : State → Result String String
  pub log_exists : State → Bool
  -- `File::open` and `BufReader::lines`.
  pub lines : State → Result (List (Result String String)) String
  pub open_log : Method State (Unit {0}) String
  -- `line.push`, which ends the line, and `write_all`.
  pub write_line : String → Method State (Unit {0}) String
  pub flush : Method State (Unit {0}) String
  pub write_tmp : String → Method State (Unit {0}) String
  pub rename_tmp : Method State (Unit {0}) String

abbrev pub fresh : StoreMeta
fresh = record { next_sequence = 1; event_count = 0 }

module _ (F : Format) (D : Disk) where
  pub record PersistentEventStore : Type 0 where
    pub disk : D.State
    pub meta : StoreMeta
    pub capacity : Option ℕ

  -- A call of the disk whose error is a `StorageFailure`.
  abbrev pub storing : Method D.State (Unit {0}) String → Method D.State (Unit {0}) EventStoreError
  storing m d = let (r, d') = m d in (map_err storage_failure r, d')

  unfoldable pub write_meta_atomic : StoreMeta → Method D.State (Unit {0}) EventStoreError
  write_meta_atomic meta d = elim (F.encode_meta meta) [
    | err e ↦ (err (storage_failure e), d)
    | ok text ↦ (do storing (D.write_tmp text); storing D.rename_tmp) d
  ]

  -- The loop of `scan_log`: the number of events and the highest sequence number so far.
  unfoldable pub scan_lines :
      ℕ → ℕ → List (Result String String) → Result (Option StoreMeta) EventStoreError
  scan_lines count max_seq [] =
      ok (some (record { next_sequence = add_u64 max_seq 1; event_count = count }))
  scan_lines count max_seq (err e ∷ ls) = err (replay_failure e)
  scan_lines count max_seq (ok line ∷ ls) = elim (F.blank line) [
    | true ↦ scan_lines count max_seq ls
    | false ↦ elim (F.decode line) [
      | err e ↦ err (replay_failure e)
      | ok event ↦ elim (ltb max_seq event.sequence) [
        | true ↦ scan_lines (add_u64 count 1) event.sequence ls
        | false ↦ scan_lines (add_u64 count 1) max_seq ls
      ]
    ]
  ]

  unfoldable pub scan_log : D.State → Result (Option StoreMeta) EventStoreError
  scan_log d =
      if not (D.log_exists d)
      then ok none
      else and_then (map_err replay_failure (D.lines d)) (λ ls. scan_lines 0 0 ls)

  -- "Read cache (if exists)"
  unfoldable pub cached_meta : D.State → Option StoreMeta
  cached_meta d =
      if D.meta_exists d
      then elim (D.read_meta d) [
        | err e ↦ none
        | ok text ↦ elim (F.decode_meta text) [ err e ↦ none | ok meta ↦ some meta ]
      ]
      else none

  -- "Resolve meta: prefer log, repair cache if mismatch"
  unfoldable pub resolve_meta : Option StoreMeta → Option StoreMeta → StoreMeta
  resolve_meta (some cached) (some log) =
      if cached.next_sequence == log.next_sequence then cached else log
  resolve_meta none (some log) = log
  resolve_meta (some cached) none = if cached.event_count == 0 then cached else fresh
  resolve_meta none none = fresh

  -- From "write_meta_atomic" on.
  unfoldable pub finish :
      StoreMeta → D.State → Result PersistentEventStore EventStoreError × D.State
  finish meta = do
    write_meta_atomic meta
    storing D.open_log
    λ d. (ok (record { disk = d; meta = meta; capacity = none }), d)

  unfoldable pub open_store : D.State → Result PersistentEventStore EventStoreError × D.State
  open_store = do
    storing D.create_dir_all
    meta ← λ d. (and_then (scan_log d) (λ log. ok (resolve_meta (cached_meta d) log)), d)
    finish meta

  unfoldable pub with_capacity : ℕ → D.State → Result PersistentEventStore EventStoreError × D.State
  with_capacity capacity = do store ← open_store; pure (record store { capacity = some capacity })

  abbrev pub is_full : PersistentEventStore → Bool
  is_full s = reached s.capacity s.meta.event_count

  abbrev pub stamped : Stamp → EventPayload → PersistentEventStore → Event
  stamped w payload s = record {
    id = w.id;
    sequence = s.meta.next_sequence;
    occurred_at = w.now;
    payload = payload;
  }

  -- "Update metadata"
  abbrev pub counted : StoreMeta → StoreMeta
  counted meta = record {
    next_sequence = add_u64 meta.next_sequence 1;
    event_count = add_u64 meta.event_count 1;
  }

  -- A call of the disk by a method of the store.
  abbrev on_disk :
      Method D.State (Unit {0}) EventStoreError
      → Method PersistentEventStore (Unit {0}) EventStoreError
  on_disk m s = let (r, d) = m s.disk in (r, record s { disk = d })

  -- "Persist metadata atomically", with the counters already counted up.
  unfoldable pub count_up : Method PersistentEventStore (Unit {0}) EventStoreError
  count_up s = on_disk (write_meta_atomic (counted s.meta)) (record s { meta = counted s.meta })

  -- From "Write to log" on.
  unfoldable pub commit : String → Event → Method PersistentEventStore Event EventStoreError
  commit line event = do
    on_disk (storing (D.write_line line))
    on_disk (storing D.flush)
    count_up
    pure event

  unfoldable pub append : Stamp → EventPayload → Method PersistentEventStore Event EventStoreError
  append w payload s =
      let event = stamped w payload s in
      if is_full s then (err backpressure, s) else elim (F.encode event) [
        | err e ↦ (err (storage_failure e), s)
        | ok line ↦ commit line event s
      ]

  -- The loop of `replay` over the lines of the log, with the number of the line.
  unfoldable pub read_lines :
      ℕ → ℕ → ℕ → List (Result String String) → Result (List Event) EventStoreError
  read_lines start stop n [] = ok []
  read_lines start stop n (err e ∷ ls) = err (replay_failure e)
  read_lines start stop n (ok line ∷ ls) =
      let rest = read_lines start stop (suc n) ls in
      if F.blank line then rest else elim (F.decode line) [
        | err e ↦ err (replay_failure ("line " <> (show_u64 (suc n) <> (": " <> e))))
        | ok event ↦
            if in_range start stop event
            then and_then rest (λ events. ok (event ∷ events))
            else rest
      ]

  -- "Verify no gaps". The expected number is not wrapped: of events in ascending order from the
  -- start number on, the one at index `i` has at least `start + i`, which is a u64.
  unfoldable pub check_gaps : ℕ → List Event → Result (Unit {0}) EventStoreError
  check_gaps expected [] = ok tt
  check_gaps expected (event ∷ events) =
      let rest = check_gaps (suc expected) events in
      if event.sequence == expected
      then rest
      else err (
          replay_failure (
            "sequence gap: expected "
            <> (show_u64 expected <> (", got " <> show_u64 event.sequence))))

  unfoldable pub replay : ℕ → PersistentEventStore → Result ReplayResult EventStoreError
  replay start s =
      let snapshot_end = s.meta.next_sequence - 1 in
      if s.meta.event_count == 0
      then ok (record { events = []; snapshot_end = 0 })
      else and_then (map_err replay_failure (D.lines s.disk)) (λ ls.
        and_then (read_lines start snapshot_end 0 ls) (λ events.
          and_then (check_order (record { events = events; snapshot_end = snapshot_end }))
            (λ r. and_then (check_gaps start r.events) (λ _. ok r))))

  unfoldable pub len : PersistentEventStore → ℕ
  len s = s.meta.event_count
