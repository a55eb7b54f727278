-- ===== src/Kernel/AiContext.antt =====
-- `AiContextProjection` (kernel/src/ai_context.rs). The proofs are in the module below. A call runs
-- with no other thread between its locks, which are never poisoned.
pub mod Recent
use cotrex_ai.Base.{
  ℕ, suc, ◌+◌, String, ◌<>◌, Bool, true, false, Option, none, some, List, [], ◌∷◌, ◌++◌, length,
  drop, is_empty, Result, ok, err, Method, ◌>>=◌, ◌>>◌, pure, lift, list_eq, add_u64, ltb,
  if◌then◌else◌,
}
use cotrex_ai.Base.Map
use cotrex_ai.Base.Map.{Map}
use cotrex_ai.FilePath.{FilePath, component_eq, display}
use cotrex_ai.Kernel.Event.{Event, EventPayload, file_changed, FileChanged, FileOperation}
use cotrex_ai.Kernel.Event
use cotrex_ai.Kernel.Store.{EventStore, EventStoreError, projection_failure}
use cotrex_ai.Kernel.Projection.{
  ProjectionStatus, created, initialized, processing, failed, can_transition_to, show_status,
}

pub data WorkspaceStatus : Type 0 where
  empty active idle : WorkspaceStatus

pub record AiContextSummary : Type 0 where
  pub workspace_status : WorkspaceStatus
  pub recent_changes : List String
  pub file_count : ℕ
  total_changes : ℕ

pub record FileInfo : Type 0 where
  pub last_operation : FileOperation
  pub change_count : ℕ

pub record AiContextProjection : Type 0 where
  pub status : ProjectionStatus
  pub checkpoint : ℕ
  pub files : Map FilePath FileInfo
  pub recent_changes : List String

unfoldable pub new : AiContextProjection
new = record { status = created; checkpoint = 0; files = []; recent_changes = [] }

-- `state.files.values().map(|f| f.change_count).sum()`
abbrev total : Map FilePath FileInfo → ℕ
total [] = 0
total ((path, info) ∷ files) = add_u64 info.change_count (total files)

abbrev workspace_status : ℕ → Bool → WorkspaceStatus
workspace_status file_count no_changes =
    if ltb 0 file_count then (if no_changes then idle else active) else empty

unfoldable pub summary : AiContextProjection → AiContextSummary
summary p = record {
  workspace_status = workspace_status (length p.files) (is_empty p.recent_changes);
  recent_changes = p.recent_changes;
  file_count = length p.files;
  total_changes = total p.files;
}

-- `format!("{:?}", fc.operation).to_lowercase()`
abbrev lowercase : FileOperation → String
lowercase Event.created = "created"
lowercase Event.modified = "modified"
lowercase Event.deleted = "deleted"

abbrev pub description : FileChanged → String
description fc = display fc.path <> (" " <> lowercase fc.operation)

-- The entry that `entry(path).or_insert_with(…)` gives, written to by the lines behind it.
abbrev pub touched : FileChanged → Option FileInfo → FileInfo
touched fc none = record { last_operation = fc.operation; change_count = add_u64 0 1 }
touched fc (some info) = record {
  last_operation = fc.operation;
  change_count = add_u64 info.change_count 1;
}

-- "Track recent changes (keep last 10)"
unfoldable pub remember : String → List String → List String
remember change recent =
    let longer = recent ++ change ∷ [] in if ltb 10 (length longer) then drop 1 longer else longer

unfoldable pub track : EventPayload → AiContextProjection → AiContextProjection
track (file_changed fc) p = record p {
  files = Map.insert fc.path (touched fc (Map.get fc.path p.files)) p.files;
  recent_changes = remember (description fc) p.recent_changes;
}
track _ p = p

unfoldable pub process_event : Event → Method AiContextProjection (Unit {0}) EventStoreError
process_event e p = (ok tt, record (track e.payload p) { checkpoint = e.sequence })

-- `for event in &result.events { self.process_event(event)?; }`
unfoldable pub process_all : List Event → Method AiContextProjection (Unit {0}) EventStoreError
process_all [] = pure tt
process_all (e ∷ es) = do process_event e; process_all es

abbrev pub clear : Method AiContextProjection (Unit {0}) EventStoreError
clear p = (ok tt, record p { checkpoint = 0; files = []; recent_changes = [] })

module _ (S : EventStore) (w : S.Env) (store : S.State) where
  unfoldable pub rebuild : Method AiContextProjection (Unit {0}) EventStoreError
  rebuild = do clear; result ← lift (S.replay w 1 store); process_all result.events

  unfoldable pub initialize : Method AiContextProjection (Unit {0}) EventStoreError
  initialize = do rebuild; λ p. (ok tt, record p { status = initialized })

unfoldable pub set_status : ProjectionStatus → Method AiContextProjection (Unit {0}) EventStoreError
set_status next p =
    if can_transition_to p.status next then (ok tt, record p { status = next }) else (
      err (
          projection_failure
            ("invalid transition: " <> (show_status p.status <> (" -> " <> show_status next)))),
      p,
    )

unfoldable pub start_processing : Method AiContextProjection (Unit {0}) EventStoreError
start_processing = set_status processing

unfoldable pub mark_failed : Method AiContextProjection (Unit {0}) EventStoreError
mark_failed = set_status failed
