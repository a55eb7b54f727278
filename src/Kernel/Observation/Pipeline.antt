-- ===== src/Kernel/Observation/Pipeline.antt =====
-- The pipeline (kernel/src/observation/pipeline.rs). The proofs are in the module below. A call runs
-- with no other thread between its locks, which are never poisoned.
pub mod Laws
pub mod Status
pub mod Rename
use cotrex_ai.Base.{
  ℕ, suc, ◌+◌, String, ◌<>◌, ◌≡◌, ◌↔◌, Bool, true, false, List, [], ◌∷◌, arith, length, Result, ok,
  err, map_err, Method, bound, add_u64, if◌then◌else◌, Eq, ◌==◌,
}
use cotrex_ai.FilePath.{FilePath}
use cotrex_ai.Kernel.Event.{EventPayload}
use cotrex_ai.Kernel.Store.{EventStore, EventStoreError, projection_failure}
use cotrex_ai.Kernel.Observation.Translator.{RawObservation, TranslationError, translate}
use cotrex_ai.Kernel.Observation.Filter
use cotrex_ai.Kernel.Observation.Filter.{ObservationFilter, accept, reject}

pub data ObservationStatus : Type 0 where
  created initializing watching failed stopped : ObservationStatus

abbrev pub can_transition_to : ObservationStatus → ObservationStatus → Bool
can_transition_to created initializing = true
can_transition_to initializing watching = true
can_transition_to watching failed = true
can_transition_to failed initializing = true
can_transition_to watching stopped = true
can_transition_to _ _ = false

-- `{:?}`
abbrev pub show_status : ObservationStatus → String
show_status created = "Created"
show_status initializing = "Initializing"
show_status watching = "Watching"
show_status failed = "Failed"
show_status stopped = "Stopped"

-- `self.status() != ObservationStatus::Watching`, negated
abbrev pub is_watching : ObservationStatus → Bool
is_watching watching = true
is_watching _ = false

pub record PipelineStats : Type 0 where
  pub accepted : ℕ
  pub rejected : ℕ
  pub events_created : ℕ

pub record ObservationPipeline : Type 0 where
  pub status : ObservationStatus
  pub filter : ObservationFilter
  pub stats : PipelineStats

unfoldable pub new : FilePath → ObservationPipeline
new root = record {
  status = created;
  filter = Filter.new root;
  stats = record { accepted = 0; rejected = 0; events_created = 0 };
}

unfoldable pub set_status :
    ObservationStatus → Method ObservationPipeline (Unit {0}) EventStoreError
set_status next p =
    if can_transition_to p.status next then (ok tt, record p { status = next }) else (
      err (
          projection_failure
            ("invalid transition: " <> (show_status p.status <> (" -> " <> show_status next)))),
      p,
    )

unfoldable pub initialize : Method ObservationPipeline (Unit {0}) EventStoreError
initialize = set_status initializing

unfoldable pub start_watching : Method ObservationPipeline (Unit {0}) EventStoreError
start_watching = set_status watching

unfoldable pub mark_failed : Method ObservationPipeline (Unit {0}) EventStoreError
mark_failed = set_status failed

unfoldable pub recover : Method ObservationPipeline (Unit {0}) EventStoreError
recover = set_status initializing

unfoldable pub stop : Method ObservationPipeline (Unit {0}) EventStoreError
stop = set_status stopped

abbrev pub count_rejected : ObservationPipeline → ObservationPipeline
count_rejected p = record p { stats = record p.stats { rejected = add_u64 p.stats.rejected 1 } }

abbrev pub count_accepted : ℕ → ObservationPipeline → ObservationPipeline
count_accepted n p = record p {
  stats = record p.stats {
    accepted = add_u64 p.stats.accepted 1;
    events_created = add_u64 p.stats.events_created n;
  };
}

abbrev translation_failed : TranslationError → EventStoreError
translation_failed e = projection_failure ("translation failed: " <> e.reason)

module _ (S : EventStore) where
  -- `for payload in payloads { store.append(payload)?; }`; `w i` answers the i-th append.
  unfoldable pub append_each :
      (ℕ → S.Env) → ℕ → List EventPayload → Method S.State (Unit {0}) EventStoreError
  append_each w i [] store = (ok tt, store)
  append_each w i (p ∷ ps) store = bound (λ e. append_each w (suc i) ps) (S.append (w i) p store)

  -- "Append to store" and "Update stats".
  unfoldable pub append_payloads :
      (ℕ → S.Env) → List EventPayload → Method (ObservationPipeline × S.State) ℕ EventStoreError
  append_payloads w payloads (p, store) =
      let (appended, store') = append_each w 0 payloads store in
      elim appended [
        | err e ↦ (err e, (p, store'))
        | ok _ ↦ (ok (length payloads), (count_accepted (length payloads) p, store'))
      ]

  -- The clock is read at `now`, and for a rename again at `later`.
  unfoldable pub process_observation :
      ℕ
      → ℕ
      → (ℕ → S.Env)
      → RawObservation
      → Method (ObservationPipeline × S.State) ℕ EventStoreError
  process_observation now later w o (p, store) =
      if is_watching p.status
      then elim (Filter.filter p.filter o) [
        | reject reason ↦ (ok 0, (count_rejected p, store))
        | accept ↦ elim (map_err translation_failed (translate now later o)) [
          | err e ↦ (err e, (p, store))
          | ok payloads ↦ append_payloads w payloads (p, store)
        ]
      ]
      else (err (projection_failure "pipeline not watching"), (p, store))
