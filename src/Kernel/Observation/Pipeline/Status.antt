-- ===== src/Kernel/Observation/Pipeline/Status.antt =====
-- The life cycle of the pipeline over any sequence of calls.
use cotrex_ai.Base.{ℕ, ◌≡◌, ◌≢◌, refl, ◌∙◌, ◌⊎◌, inl, true, List, [], ◌∷◌, arith}
use cotrex_ai.Kernel.Store.{EventStore}
use cotrex_ai.Kernel.Observation.Translator.{RawObservation}
use cotrex_ai.Kernel.Observation.Pipeline.{
  watching, stopped, ObservationPipeline, can_transition_to, set_status, initialize, start_watching,
  mark_failed, recover, stop, append_payloads, process_observation,
}

-- The calls of the pipeline's methods.
pub data Call (S : EventStore) : Type 0 where
  call_initialize call_start call_fail call_recover call_stop : Call S
  observe : ℕ → ℕ → (ℕ → S.Env) → RawObservation → Call S

module _ {S : EventStore} where
  unfoldable pub perform : Call S → ObservationPipeline × S.State → ObservationPipeline × S.State
  perform call_initialize (p, store) = ((initialize p).1, store)
  perform call_start (p, store) = ((start_watching p).1, store)
  perform call_fail (p, store) = ((mark_failed p).1, store)
  perform call_recover (p, store) = ((recover p).1, store)
  perform call_stop (p, store) = ((stop p).1, store)
  perform (observe now later w o) s = (process_observation S now later w o s).1

  unfoldable pub run : List (Call S) → ObservationPipeline × S.State → ObservationPipeline × S.State
  run [] s = s
  run (c ∷ cs) s = run cs (perform c s)

module _ (S : EventStore) where
  status-process_observation :
      (now later : ℕ) (w : ℕ → S.Env) (o : RawObservation) (p : ObservationPipeline)
      (store : S.State)
      → (process_observation S now later w o (p, store)).1.0.status ≡ p.status
  unfolding process_observation append_payloads
  status-process_observation now later w o p store = ground arith

  -- Every call keeps the status or takes it along an edge of the diagram of RFC-0003.
  perform_status :
      (c : Call S) (p : ObservationPipeline) (store : S.State)
      → let t = (perform c (p, store)).0.status in
        (t ≡ p.status) ⊎ (can_transition_to p.status t ≡ true)
  unfolding perform initialize start_watching mark_failed recover stop set_status
  perform_status (observe now later w o) p store =
      inl (status-process_observation now later w o p store)
  perform_status call_initialize p store = ground arith
  perform_status _ p store = ground arith

  -- A pipeline that does not watch appends nothing, whatever call is made.
  perform_off :
      (c : Call S) (p : ObservationPipeline) (store : S.State)
      → p.status ≢ watching
      → (perform c (p, store)).1 ≡ store
  unfolding perform process_observation
  perform_off (observe now later w o) p store off = ground arith
  perform_off call_initialize p store off = refl
  perform_off _ p store off = refl

  -- A stopped pipeline stays stopped and leaves the store alone, whatever calls follow.
  stopped_final :
      (cs : List (Call S)) (p : ObservationPipeline) (store : S.State)
      → p.status ≡ stopped
      → ((run cs (p, store)).0.status ≡ stopped) × ((run cs (p, store)).1 ≡ store)
  unfolding run
  stopped_final [] p store h = (h, refl)
  stopped_final (c ∷ cs) p store h =
      let (q, t) = perform c (p, store) in
      let still : q.status ≡ stopped = ground (arith, perform_status c p store) in
      let (status, unchanged) = stopped_final cs q t still in
      (status, unchanged ∙ perform_off c p store (λ e. cc))
