-- ===== src/Kernel/Observation/Pipeline/Laws.antt =====
-- What `process_observation` does to the pipeline and to a store that keeps its contract.
use mathlib.Core.Path.{subst}
use mathlib.Core.List.{append-nil, append_assoc}
use cotrex_ai.Base.{
  ℕ, suc, ◌<◌, ◌≡◌, ◌≢◌, refl, sym, ap, ◌∙◌, ◌⊎◌, inl, inr, List, [], ◌∷◌, ◌++◌, arith, length,
  take, Result, ok, err, Result-cases, bound_ok, bound_err, Bool-cases,
}
use cotrex_ai.Kernel.Event.{Event, EventPayload, payloads}
use cotrex_ai.Kernel.Store.{EventStore, EventStoreError, IsEventLog}
use cotrex_ai.Kernel.Store.Reported.{reported-append}
use cotrex_ai.Kernel.Observation.Translator.{RawObservation, translate}
use cotrex_ai.Kernel.Observation.Filter
use cotrex_ai.Kernel.Observation.Filter.{FilterDecision, accept, reject}
use cotrex_ai.Kernel.Observation.Pipeline.{
  ObservationPipeline, is_watching, watching, count_accepted, count_rejected, append_each,
  append_payloads, process_observation,
}

-- The payloads that an observation stands for, by RFC-0003.
abbrev pub translated : ℕ → ℕ → RawObservation → List EventPayload
translated now later o = elim (translate now later o) [ ok ps ↦ ps | err e ↦ [] ]

-- An observation stands for one event at least.
translated_pos : (now later : ℕ) (o : RawObservation) → 0 < length (translated now later o)
unfolding translate
translated_pos now later o = ground arith

module _ (S : EventStore) (log : S.State → List Event) {Valid : S.State → Type 0}
    (L : IsEventLog S log Valid) where
  abbrev reported : S.State → List EventPayload
  reported store = payloads (log store)

  -- The outcome of appending `ps`: all of them and `ok`, or a proper part from the front and an
  -- error.
  abbrev pub Appended :
      List EventPayload → S.State → Result (Unit {0}) EventStoreError × S.State → Type 0
  Appended ps store r =
      (k : ℕ) × (reported r.1 ≡ reported store ++ take k ps)
      × ((r.0 ≡ ok tt) × (k ≡ length ps)
          ⊎ ((x : EventStoreError) × (r.0 ≡ err x) × (k < length ps)))

  append_each-Appended :
      (w : ℕ → S.Env) (i : ℕ) (ps : List EventPayload) (store : S.State)
      → Appended ps store (append_each S w i ps store)
  unfolding append_each
  append_each-Appended w i [] store = (0, sym (append-nil _), inl (refl, refl))
  append_each-Appended w i (p ∷ ps) store =
      let next = λ (e : Event). append_each S w (suc i) ps in
      elim (Result-cases (S.append (w i) p store).0) [
        | inl (e, stored) ↦
            let t = (S.append (w i) p store).1 in
            let (k, grown, rest) = append_each-Appended w (suc i) ps t in
            subst (Appended (p ∷ ps) store) (sym (bound_ok next (S.append (w i) p store) stored)) (
              suc k,
              grown ∙ rw (reported-append S log L (w i) p store e stored, append_assoc),
              ground arith,
            )
        | inr (x, refused) ↦
            subst (Appended (p ∷ ps) store) (sym (bound_err next (S.append (w i) p store) refused))
              (
                0,
                ap reported (L.append_err (w i) p store x refused) ∙ sym (append-nil _),
                inr (x, refl, omega arith),
              )
      ]

module _ (S : EventStore) (log : S.State → List Event) {Valid : S.State → Type 0}
    (L : IsEventLog S log Valid) (now later : ℕ) (w : ℕ → S.Env) (o : RawObservation)
    (p : ObservationPipeline) (store : S.State) where
  abbrev after : Result ℕ EventStoreError × (ObservationPipeline × S.State)
  after = process_observation S now later w o (p, store)

  -- A call that succeeds was made while watching. It has either rejected the observation, counted
  -- that and appended nothing, or accepted it, appended all its events in order, counted them and
  -- returned their number.
  pub process_observation_ok :
      (n : ℕ)
      → after.0 ≡ ok n
      → (p.status ≡ watching)
        × ((n ≡ 0) × (after.1 ≡ (count_rejected p, store)) × (Filter.filter p.filter o ≢ accept)
            ⊎ (n ≡ length (translated now later o))
              × (after.1.0 ≡ count_accepted n p)
              × (payloads (log after.1.1) ≡ payloads (log store) ++ translated now later o)
              × (Filter.filter p.filter o ≡ accept))
  unfolding process_observation append_payloads translate
  process_observation_ok n h =
      ground (arith, append_each-Appended S log L w 0 (translated now later o) store)

  -- A call that fails leaves the pipeline as it was, its counters included. The store has got a
  -- proper part, from the front, of the observation's events: none, if the pipeline was not
  -- watching.
  pub process_observation_err :
      (x : EventStoreError)
      → after.0 ≡ err x
      → (after.1.0 ≡ p)
        × (k : ℕ) × (k < length (translated now later o))
        × (payloads (log after.1.1) ≡ payloads (log store) ++ take k (translated now later o))
        × (p.status ≢ watching → k ≡ 0)
  unfolding process_observation append_payloads translate
  process_observation_err x h =
      let ps = translated now later o in
      let (k, grown, rest) = append_each-Appended S log L w 0 ps store in
      elim (Bool-cases (is_watching p.status)) [
        | inl on ↦ (
          ground arith,
          k,
          ground (arith, grown, rest),
          ground (arith, grown, rest),
          λ off. ground arith,
        )
        | inr off ↦ (
          ground arith,
          0,
          translated_pos now later o,
          ground (arith, append-nil (payloads (log store))),
          λ e. refl,
        )
      ]
