-- ===== src/Tests/Persistent.antt =====
-- The persistent store on concrete inputs.
use cotrex_ai.Base.{
  ℕ, String, ◌≡◌, ◌↔◌, refl, Bool, true, false, ◌&&◌, none, List, [], ◌∷◌, ◌++◌, arith, Result, ok,
  err, ◌==◌, nat_eq, string_eq, map, if◌then◌else◌,
}
use cotrex_ai.Kernel.Event.{Event, EventPayload, execution_failed}
use cotrex_ai.Kernel.Store.Memory.{Stamp}
use cotrex_ai.Kernel.Store.Persistent.{
  Format, Disk, PersistentEventStore, append, replay, commit, count_up, write_meta_atomic, fresh,
}
use cotrex_ai.Kernel.Store.Persistent.Journal.{IsFormat, IsKept, IsJournal, IsValid}
use cotrex_ai.Kernel.Store.Persistent.Reading.{replay_recorded}
use cotrex_ai.Kernel.Store.{EventStoreError, storage_failure, IsNumbered}
use cotrex_ai.Kernel.Store.Persistent.Verify.{
  VerificationResult, verify, collect_lines, order_errors, gap_errors, Holds, verify_iff,
}
use cotrex_ai.Kernel.Store.Persistent.{cached_meta, open_store}
use cotrex_ai.Kernel.Store.Persistent.Recovery.{IsDirectory, IsCached, Opened, open_store-Opened}
use cotrex_ai.Base.{inl, inr}
use cotrex_ai.Kernel.Store.Memory
use cotrex_ai.Kernel.Store.Memory.{MemoryEventStore}
use cotrex_ai.Kernel.Store.Persistent.Simulation.{append_each, IsStored, Same, append_each-Same}
use cotrex_ai.Kernel.Store.Persistent.Flush.{append-kept}

-- Events that failures stand for, told apart by their error, and printed as it.
abbrev failure : String → Event
failure text = record {
  id = 1;
  sequence = 1;
  occurred_at = 60;
  payload =
      execution_failed (record { execution_id = 0; error = text; duration_ms = 0; failed_at = 0 });
}

abbrev print : Event → Result String String
print e = elim e.payload [
  | execution_failed f ↦
      if (e.id == 1 && e.sequence == 1)
        && ((e.occurred_at == 60 && f.execution_id == 0)
            && ((f.duration_ms == 0 && f.failed_at == 0) && (f.error == "a")))
      then ok "a"
      else err "no format"
  | other ↦ err "no format"
]

abbrev toy : Format
toy = record {
  encode = print;
  decode = λ l. ok (failure l);
  encode_meta = λ m. ok "{}";
  decode_meta = λ t. err "no format";
  blank = λ l. false;
}

print_lem :
    (i s o : ℕ) (p : EventPayload) (line : String)
    → print (record { id = i; sequence = s; occurred_at = o; payload = p }) ≡ ok line
    → (◌≡◌ {A = Bool} false false)
      × (◌≡◌ {A = Result Event String}
          (ok (failure line))
          (ok (record { id = i; sequence = s; occurred_at = o; payload = p })))
print_lem i s o (execution_failed f) line h = ground (arith, string_eq.beq_iff f.error "a")
print_lem i s o _ line h = cc h

toy-IsFormat : IsFormat toy
toy-IsFormat = record {
  round_trip = λ e line h. print_lem e.id e.sequence e.occurred_at e.payload line h;
}

-- The lines in the file, the pending lines, and whether the file can be written; where not, a flush
-- fails once.
abbrev files : Disk
files = record {
  State = List String × List String × Bool;
  create_dir_all = λ d. (ok tt, d);
  meta_exists = λ d. false;
  read_meta = λ d. err "No such file or directory";
  log_exists = λ d. true;
  lines = λ d. ok (map (λ l. ok l) d.0);
  open_log = λ d. (ok tt, (d.0, [], d.2));
  write_line = λ l d. (ok tt, (d.0, d.1 ++ l ∷ [], d.2));
  flush = λ d. elim d.2 [
    | true ↦ (ok tt, (d.0 ++ d.1, [], true))
    | false ↦ (err "disk full", (d.0, d.1, true))
  ];
  write_tmp = λ t d. (ok tt, d);
  rename_tmp = λ d. (ok tt, d);
}

files-IsKept : IsKept files (λ d. d.0) (λ d. d.1)
files-IsKept = record { tmp_keeps = λ t d. (refl, refl); rename_keeps = λ d. (refl, refl) }

files-IsJournal : IsJournal files (λ d. d.0) (λ d. d.1)
files-IsJournal = record {
  write_ok = λ line d h. (refl, refl);
  write_err = λ line d x h. cc h;
  flush_ok = λ d h. ground arith;
  flush_err = λ d x h. ground arith;
  cache = files-IsKept;
}

-- A new store, whose next event is the one that `toy` can print.
abbrev opened : PersistentEventStore toy files
opened = record { disk = ([], [], true); meta = fresh; capacity = none }

opened-IsValid : IsValid (λ d. d.0) (λ d. d.1) opened []
opened-IsValid = record {
  flushed = refl;
  recorded = tt;
  numbered = tt;
  next = refl;
  count = refl;
  room = omega arith;
}

abbrev stamp : Stamp
stamp = record { id = 1; now = 60 }

abbrev held_one : PersistentEventStore toy files
held_one = record {
  disk = ("a" ∷ [], [], true);
  meta = record { next_sequence = 2; event_count = 1 };
  capacity = none;
}

held_one-IsValid : IsValid (λ d. d.0) (λ d. d.1) held_one (failure "a" ∷ [])
held_one-IsValid = record {
  flushed = refl;
  recorded = (refl, refl, tt);
  numbered = (refl, tt);
  next = refl;
  count = refl;
  room = omega arith;
}

replay_recorded_example :
    replay toy files 1 held_one ≡ ok (record { events = failure "a" ∷ []; snapshot_end = 1 })
replay_recorded_example =
    replay_recorded toy files held_one 1 (failure "a" ∷ []) held_one-IsValid refl (omega arith)

-- A new store on a disk that is full for the next flush.
abbrev crowded : PersistentEventStore toy files
crowded = record opened { disk = ([], [], false) }

abbrev twice : Result Event EventStoreError × PersistentEventStore toy files
twice =
    append toy files stamp (failure "a").payload
      (append toy files stamp (failure "a").payload crowded).1

appended : twice.0 ≡ ok (failure "a")
unfolding append commit count_up write_meta_atomic
appended = refl

append-kept_example :
    ((append toy files stamp (failure "a").payload crowded).0 ≡ err (storage_failure "disk full"))
    × (first : Event) × (line : String) × (twice.1.disk.0 ≡ [] ++ "a" ∷ line ∷ [])
    × (◌≡◌ {A = Result Event String} (ok (failure "a")) (ok first))
    × (◌≡◌ {A = Result Event String} (ok (failure line)) (ok (failure "a")))
    × (first.payload ≡ (failure "a").payload)
    × ((failure "a").payload ≡ (failure "a").payload)
    × (first.sequence ≡ (failure "a").sequence)
append-kept_example =
    append-kept toy-IsFormat files-IsJournal stamp stamp (failure "a").payload (failure "a").payload
      crowded "a" "disk full" (failure "a") refl refl refl refl refl appended

files-IsDirectory : IsDirectory files (λ d. d.0) (λ d. d.1)
files-IsDirectory = record {
  mkdir_keeps = λ d. refl;
  mkdir_cache = λ d. (refl, refl);
  open_ok = λ d h. (refl, refl);
  open_err = λ d x h. refl;
  readable = λ d. inr (refl, refl);
}

no_cache : (d : files.State) → IsCached toy files d
unfolding cached_meta
no_cache d = inl refl

open_store-Opened_example :
    Opened toy files-IsKept files-IsDirectory
      ("a" ∷ [])
      (failure "a" ∷ [])
      (open_store toy files held_one.disk)
open_store-Opened_example =
    open_store-Opened toy files-IsKept files-IsDirectory held_one.disk (failure "a" ∷ [])
      (refl, refl, tt) (refl, tt) (omega arith) (no_cache held_one.disk)

abbrev one_line : List (Result String String)
one_line = ok "a" ∷ []

abbrev intact : VerificationResult
intact = record { event_count = 1; errors = []; valid = true }

intact_log : verify toy files (record opened { disk = ("a" ∷ [], [], true) }) ≡ ok intact
unfolding verify collect_lines order_errors gap_errors
intact_log = refl

verify_iff_example :
    (intact.valid ≡ true) ↔ ((es : List Event) × Holds toy one_line es × IsNumbered 1 es)
verify_iff_example =
    verify_iff toy files (record opened { disk = ("a" ∷ [], [], true) }) one_line intact refl
      intact_log

abbrev volatile : MemoryEventStore
volatile = record { events = []; next_sequence = 1; capacity = none }

opened-Same : Same toy-IsFormat files-IsJournal opened volatile
opened-Same = record {
  kept = opened-IsValid;
  held = record { numbered = tt; next = refl; room = omega arith; within = λ cap h. cc h };
  bounded = refl;
}

abbrev one_call : List (Stamp × EventPayload)
one_call = (stamp, (failure "a").payload) ∷ []

one_call-IsStored : IsStored (append_each (append toy files) one_call opened).0
unfolding append commit count_up write_meta_atomic
one_call-IsStored = tt

append_each-Same_example :
    ((append_each Memory.append one_call volatile).0
      ≡ (append_each (append toy files) one_call opened).0)
    × Same toy-IsFormat files-IsJournal
        (append_each (append toy files) one_call opened).1
        (append_each Memory.append one_call volatile).1
append_each-Same_example =
    append_each-Same toy-IsFormat files-IsJournal one_call opened volatile opened-Same (omega arith)
      one_call-IsStored
