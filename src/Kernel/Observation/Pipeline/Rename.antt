-- ===== src/Kernel/Observation/Pipeline/Rename.antt =====
-- A rename at a store with room for one event.
use mathlib.Core.List.{map-append}
use cotrex_ai.Base.{ℕ, suc, ◌≡◌, some, [], ◌∷◌, ◌++◌, arith, length, length-snoc, err}
use cotrex_ai.FilePath.{FilePath}
use cotrex_ai.Kernel.Event.{Event, FileOperation, payloads}
use cotrex_ai.Kernel.Store.{backpressure}
use cotrex_ai.Kernel.Store.Memory.{MemoryEventStore, Stamp, stamped, append, memory_store}
use cotrex_ai.Kernel.Observation.Translator.{RawObservation, renamed, change, translate}
use cotrex_ai.Kernel.Observation.Filter
use cotrex_ai.Kernel.Observation.Filter.{accept}
use cotrex_ai.Kernel.Observation.Pipeline.{
  ObservationPipeline, watching, append_each, append_payloads, process_observation,
}

-- A watching pipeline that accepts a rename, at a store with room for one event only, fails, and
-- leaves the deletion of the old path in the store without the creation of the new one. Its counters
-- do not show the event.
pub rename_torn :
    (now later : ℕ) (w : ℕ → Stamp) (o : RawObservation) (from : FilePath) (p : ObservationPipeline)
    (s : MemoryEventStore)
    → p.status ≡ watching
    → Filter.filter p.filter o ≡ accept
    → o.operation ≡ renamed from
    → s.capacity ≡ some (suc (length s.events))
    → let r = process_observation memory_store now later w o (p, s) in
      (r.0 ≡ err backpressure)
      × (r.1.0 ≡ p)
      × (payloads r.1.1.events ≡ payloads s.events ++ change from FileOperation.deleted now ∷ [])
unfolding process_observation append_payloads append_each translate append
rename_torn now later w o from p s on accepted op room =
    let gone = change from FileOperation.deleted now in
    let e = stamped (w 0) gone s in
    ground (arith, length-snoc s.events e, map-append (λ (x : Event). x.payload) s.events (e ∷ []))
