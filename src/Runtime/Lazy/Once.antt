-- ===== src/Runtime/Lazy/Once.antt =====
-- Over any interleaving of calls the factory creates once at most.
use cotrex_ai.Base.{
  ℕ, zero, suc, ◌≤◌, ◌≡◌, refl, ◌⊎◌, inl, inr, String, List, [], ◌∷◌, ◌++◌, ap, ◌∙◌, arith, Result,
}
use cotrex_ai.Runtime.Lazy.{
  State, uninitialized, loading, ready, failed, LazyProvider, Refusal, new, enter, leave,
}

-- What the threads do: one calls, or one that is creating ends its creation with a result.
pub data Move (P E : Type 0) : Type 0 where
  call : Move P E
  finish : Result P E → Move P E

-- The provider, the number of threads in a creation, and the number of creations begun so far.
pub record World (F P : Type 0) : Type 0 where
  pub lazy : LazyProvider F P
  pub creating : ℕ
  pub begun : ℕ

abbrev pub IsDone : {P : Type 0} → State P → Type 0
IsDone {P} s = ((p : P) × (s ≡ ready p)) ⊎ ((message : String) × (s ≡ failed message))

-- No creation yet, one going on, or one that has ended.
abbrev IsOnce : {F P : Type 0} → World F P → Type 0
IsOnce w =
    (w.lazy.state ≡ uninitialized) × (w.creating ≡ 0) × (w.begun ≡ 0)
    ⊎ (w.lazy.state ≡ loading) × (w.creating ≡ 1) × (w.begun ≡ 1)
    ⊎ IsDone w.lazy.state × (w.creating ≡ 0) × (w.begun ≡ 1)

module _ {F P E : Type 0} (show : E → String) where
  abbrev entered : World F P → (Result (Unit {0}) (Refusal E) ⊎ F) × LazyProvider F P → World F P
  entered w (inl r, l) = record w { lazy = l }
  entered w (inr f, l) = record { lazy = l; creating = suc w.creating; begun = suc w.begun }

  unfoldable pub move : Move P E → World F P → World F P
  move call w = entered w (enter w.lazy)
  move (finish r) w = elim w.creating [
    | zero ↦ w
    | suc n ↦ record w { lazy = (leave show r w.lazy).1; creating = n }
  ]

  unfoldable pub run : List (Move P E) → World F P → World F P
  run [] w = w
  run (m ∷ ms) w = run ms (move m w)

  move-IsOnce : (m : Move P E) (w : World F P) → IsOnce w → IsOnce (move m w)
  unfolding move enter leave
  move-IsOnce call w h = ground arith
  move-IsOnce (finish r) w h = ground arith

  -- However calls and ends of creations interleave, the factory is asked to create at most once,
  -- and one creation at most is going on, which is when callers are told that the model is loading.
  run-IsOnce : (ms : List (Move P E)) (w : World F P) → IsOnce w → IsOnce (run ms w)
  unfolding run
  run-IsOnce [] w h = h
  run-IsOnce (m ∷ ms) w h = run-IsOnce ms (move m w) (move-IsOnce m w h)

  -- From a new provider, whatever the threads do, the factory has been asked to create once at most.
  pub begun_once :
      (f : F) (ms : List (Move P E))
      → (run ms (record { lazy = new f; creating = 0; begun = 0 })).begun ≤ 1
  unfolding new
  begun_once f ms = ground (
    arith,
    run-IsOnce ms (record { lazy = new f; creating = 0; begun = 0 }) (inl (refl, refl, refl)),
  )

  run-append :
      (ms later : List (Move P E)) (w : World F P) → run (ms ++ later) w ≡ run later (run ms w)
  unfolding run
  run-append [] later w = refl
  run-append (m ∷ ms) later w = run-append ms later (move m w)

  move_done : (m : Move P E) (w : World F P) → IsDone w.lazy.state → w.creating ≡ 0 → move m w ≡ w
  unfolding move enter
  move_done call w done idle = ground arith
  move_done (finish r) w done idle = ground arith

  run_done :
      (ms : List (Move P E)) (w : World F P) → IsDone w.lazy.state → w.creating ≡ 0 → run ms w ≡ w
  unfolding run
  run_done [] w done idle = refl
  run_done (m ∷ ms) w done idle = ap (run ms) (move_done m w done idle) ∙ run_done ms w done idle

  done_idle : (w : World F P) → IsOnce w → IsDone w.lazy.state → w.creating ≡ 0
  done_idle w once done = ground arith

  -- From a new provider, however calls and ends of creations interleave: once the creation has
  -- ended, with a provider or with an error, no later call or end changes anything. A provider that
  -- is ready is never replaced, and one that has failed is never created again.
  pub done_final :
      (f : F) (ms later : List (Move P E))
      → IsDone (run ms (record { lazy = new f; creating = 0; begun = 0 })).lazy.state
      → run (ms ++ later) (record { lazy = new f; creating = 0; begun = 0 })
        ≡ run ms (record { lazy = new f; creating = 0; begun = 0 })
  unfolding new
  done_final f ms later done =
      let w = run ms (record { lazy = new f; creating = 0; begun = 0 }) in
      run-append ms later _
      ∙ run_done later w done (done_idle w (run-IsOnce ms _ (inl (refl, refl, refl))) done)
