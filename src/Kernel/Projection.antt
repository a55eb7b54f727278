-- ===== src/Kernel/Projection.antt =====
-- `FileChangeProjection` (kernel/src/projection.rs): its life cycle, its state and its methods. The
-- proofs are in the modules below. A call runs with no other thread between its locks, which are
-- never poisoned.
pub mod Files
pub mod Rebuild
pub mod Lifecycle
use cotrex_ai.Base.{
  ℕ, suc, String, ◌<>◌, ◌≡◌, ◌↔◌, Bool, true, false, not, Option, none, some, List, [], ◌∷◌, arith,
  length, Result, ok, err, Method, ◌>>=◌, ◌>>◌, pure, raise, lift, Eq, ◌==◌, list_eq, add_u64,
  if◌then◌else◌,
}
use cotrex_ai.Base.Map
use cotrex_ai.Base.Map.{Map}
use cotrex_ai.FilePath.{FilePath, component_eq}
use cotrex_ai.Kernel.Event.{Event, EventPayload, file_changed, FileChanged, FileOperation}
use cotrex_ai.Kernel.Store.{EventStore, EventStoreError, projection_failure, ReplayResult}

pub data ProjectionStatus : Type 0 where
  created initialized processing failed rebuilding : ProjectionStatus

abbrev pub can_transition_to : ProjectionStatus → ProjectionStatus → Bool
can_transition_to created initialized = true
can_transition_to initialized processing = true
can_transition_to initialized rebuilding = true
can_transition_to processing failed = true
can_transition_to processing rebuilding = true
can_transition_to failed rebuilding = true
can_transition_to rebuilding initialized = true
can_transition_to _ _ = false

-- `{:?}`
abbrev pub show_status : ProjectionStatus → String
show_status created = "Created"
show_status initialized = "Initialized"
show_status processing = "Processing"
show_status failed = "Failed"
show_status rebuilding = "Rebuilding"

abbrev status_beq : ProjectionStatus → ProjectionStatus → Bool
status_beq created created = true
status_beq initialized initialized = true
status_beq processing processing = true
status_beq failed failed = true
status_beq rebuilding rebuilding = true
status_beq _ _ = false

pub status_beq_iff : (a b : ProjectionStatus) → (status_beq a b ≡ true) ↔ (a ≡ b)
status_beq_iff created b = ground arith
status_beq_iff _ b = ground arith

instance abbrev pub status_eq : Eq ProjectionStatus
status_eq = record { beq = status_beq; beq_iff = status_beq_iff }

pub record FileRecord : Type 0 where
  pub path : FilePath
  pub last_operation : FileOperation
  pub change_count : ℕ

pub record FileChangeProjection : Type 0 where
  pub state : Map FilePath FileRecord
  pub status : ProjectionStatus
  pub checkpoint : ℕ

unfoldable pub new : FileChangeProjection
new = record { state = []; status = created; checkpoint = 0 }

unfoldable pub set_status :
    ProjectionStatus → Method FileChangeProjection (Unit {0}) EventStoreError
set_status next p =
    if can_transition_to p.status next then (ok tt, record p { status = next }) else (
      err (
          projection_failure
            ("invalid transition: " <> (show_status p.status <> (" -> " <> show_status next)))),
      p,
    )

-- The entry that `entry(path).or_insert_with(…)` gives, written to by the lines behind it.
abbrev pub touched : FileChanged → Option FileRecord → FileRecord
touched fc none = record {
  path = fc.path;
  last_operation = fc.operation;
  change_count = add_u64 0 1;
}
touched fc (some entry) = record entry {
  last_operation = fc.operation;
  change_count = add_u64 entry.change_count 1;
}

unfoldable pub track : EventPayload → Map FilePath FileRecord → Map FilePath FileRecord
track (file_changed fc) m = Map.insert fc.path (touched fc (Map.get fc.path m)) m
track _ m = m

unfoldable pub process_event : Event → Method FileChangeProjection (Unit {0}) EventStoreError
unfolding track
process_event e p = (ok tt, record p { state = track e.payload p.state; checkpoint = e.sequence })

-- `for event in &result.events { self.process_event(event)?; }`
unfoldable pub process_all : List Event → Method FileChangeProjection (Unit {0}) EventStoreError
process_all [] = pure tt
process_all (e ∷ es) = do process_event e; process_all es

abbrev clear : Method FileChangeProjection (Unit {0}) EventStoreError
clear p = (ok tt, record p { state = []; checkpoint = 0 })

-- "Only transition to Rebuilding if not in Created state"
abbrev enter_rebuilding : Method FileChangeProjection (Unit {0}) EventStoreError
enter_rebuilding p = if p.status == created then (ok tt, p) else set_status rebuilding p

-- The rest of `rebuild`, from the replay's result on.
unfoldable pub replay_into :
    Result ReplayResult EventStoreError → Method FileChangeProjection (Unit {0}) EventStoreError
unfolding set_status
replay_into replayed = do result ← lift replayed; process_all result.events; set_status initialized

module _ (S : EventStore) (w : S.Env) (store : S.State) where
  unfoldable pub rebuild : Method FileChangeProjection (Unit {0}) EventStoreError
  unfolding set_status
  rebuild = do enter_rebuilding; clear; replay_into (S.replay w 1 store)

  unfoldable pub initialize : Method FileChangeProjection (Unit {0}) EventStoreError
  unfolding rebuild
  initialize = rebuild

unfoldable pub start_processing : Method FileChangeProjection (Unit {0}) EventStoreError
unfolding set_status
start_processing = set_status processing

unfoldable pub mark_failed : Method FileChangeProjection (Unit {0}) EventStoreError
unfolding set_status
mark_failed = set_status failed

unfoldable pub file_count : FileChangeProjection → ℕ
file_count p = length p.state

unfoldable pub get_file : FileChangeProjection → FilePath → Option FileRecord
get_file p path = Map.get path p.state
