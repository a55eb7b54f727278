-- ===== src/Tests/Observation.antt =====
-- The observation pipeline on concrete inputs.
use cotrex_ai.Base.{
  ℕ, ◌↔◌, ◌≡◌, ◌≢◌, ◌<◌, refl, ◌⊎◌, some, [], ◌∷◌, ◌++◌, All, ok, err, length, take,
}
use cotrex_ai.Base.Text.{ends_with}
use cotrex_ai.FilePath.{FilePath, root_dir, normal, as_str, strip_prefix}
use cotrex_ai.Kernel.Event.{FileOperation, payloads}
use cotrex_ai.Kernel.Store.{backpressure}
use cotrex_ai.Kernel.Store.Memory.{MemoryEventStore, Stamp, memory_store, append}
use cotrex_ai.Kernel.Store.Memory.Laws
use cotrex_ai.Kernel.Observation.Translator.{
  RawObservation, RawOperation, renamed, translate, change,
}
use cotrex_ai.Kernel.Observation.Filter.{accept, reject, filter, check_component, check_components}
use cotrex_ai.Kernel.Observation.Filter
use cotrex_ai.Kernel.Observation.Accepted.{IsClean, filter-accept}
use cotrex_ai.Kernel.Observation.Pipeline.{
  ObservationPipeline, watching, process_observation, append_payloads, append_each, count_accepted,
  count_rejected,
}
use cotrex_ai.Kernel.Observation.Pipeline.Laws.{
  translated, process_observation_ok, process_observation_err,
}
use cotrex_ai.Kernel.Observation.Pipeline.Rename.{rename_torn}

abbrev project : FilePath
project = root_dir ∷ normal "project" ∷ []

abbrev main_rs : RawObservation
main_rs = record {
  path = root_dir ∷ normal "project" ∷ normal "src" ∷ normal "main.rs" ∷ [];
  operation = RawOperation.created;
}

abbrev rules : Filter.ObservationFilter
rules = record { root = project; ignore_patterns = ".git" ∷ "target" ∷ [] }

accept_normal_file : filter rules main_rs ≡ accept
unfolding filter check_components check_component strip_prefix ends_with
accept_normal_file = refl

reject_git_directory :
    filter rules
      (record main_rs { path = root_dir ∷ normal "project" ∷ normal ".git" ∷ normal "config" ∷ [] })
    ≡ reject "matches ignore pattern: .git"
unfolding filter check_components check_component strip_prefix ends_with
reject_git_directory = refl

filter-accept_example : (filter rules main_rs ≡ accept) ↔ (
    (rel : FilePath) × (main_rs.path ≡ project ++ rel)
    × All (λ c. IsClean (".git" ∷ "target" ∷ []) (as_str c)) rel)
filter-accept_example = filter-accept rules main_rs

abbrev on : ObservationPipeline
on = record {
  status = watching;
  filter = rules;
  stats = record { accepted = 4; rejected = 2; events_created = 5 };
}

abbrev stamps : ℕ → Stamp
stamps i = record { id = i; now = 60 }

abbrev room_for_two : MemoryEventStore
room_for_two = record { events = []; next_sequence = 1; capacity = some 2 }

observed_ok : (process_observation memory_store 60 60 stamps main_rs (on, room_for_two)).0 ≡ ok 1
unfolding process_observation append_payloads append_each append translate filter check_components
    check_component strip_prefix ends_with
observed_ok = refl

process_observation_ok_example :
    let r = process_observation memory_store 60 60 stamps main_rs (on, room_for_two) in
    (on.status ≡ watching)
    × ((◌≡◌ {A = ℕ} 1 0)
          × (r.1 ≡ (count_rejected on, room_for_two))
          × (filter on.filter main_rs ≢ accept)
        ⊎ (1 ≡ length (translated 60 60 main_rs))
          × (r.1.0 ≡ count_accepted 1 on)
          × (payloads r.1.1.events ≡ [] ++ translated 60 60 main_rs)
          × (filter on.filter main_rs ≡ accept))
process_observation_ok_example =
    process_observation_ok memory_store (λ s. s.events) Laws.memory_store-IsEventLog 60 60 stamps
      main_rs on room_for_two 1 observed_ok

abbrev moved : RawObservation
moved = record main_rs { operation = renamed (root_dir ∷ normal "project" ∷ normal "old.rs" ∷ []) }

abbrev room_for_one : MemoryEventStore
room_for_one = record { events = []; next_sequence = 1; capacity = some 1 }

moved_err :
    (process_observation memory_store 60 61 stamps moved (on, room_for_one)).0 ≡ err backpressure
unfolding process_observation append_payloads append_each append translate filter check_components
    check_component strip_prefix ends_with
moved_err = refl

process_observation_err_example :
    let r = process_observation memory_store 60 61 stamps moved (on, room_for_one) in
    (r.1.0 ≡ on)
    × (k : ℕ) × (k < length (translated 60 61 moved))
    × (payloads r.1.1.events ≡ [] ++ take k (translated 60 61 moved))
    × (on.status ≢ watching → k ≡ 0)
process_observation_err_example =
    process_observation_err memory_store (λ s. s.events) Laws.memory_store-IsEventLog 60 61 stamps
      moved on room_for_one backpressure moved_err

rename_torn_example :
    let r = process_observation memory_store 60 61 stamps moved (on, room_for_one) in
    (r.0 ≡ err backpressure)
    × (r.1.0 ≡ on)
    × (payloads r.1.1.events
        ≡ change (root_dir ∷ normal "project" ∷ normal "old.rs" ∷ []) FileOperation.deleted 60 ∷ [])
rename_torn_example =
    rename_torn 60 61 stamps moved (root_dir ∷ normal "project" ∷ normal "old.rs" ∷ []) on
      room_for_one refl
      (unfold filter check_components check_component strip_prefix ends_with in refl) refl refl
