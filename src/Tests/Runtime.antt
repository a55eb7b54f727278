-- ===== src/Tests/Runtime.antt =====
-- The providers on concrete inputs.
use cotrex_ai.Base.{refl, ℕ, suc, ◌≡◌, ◌≤◌, ◌⊎◌, ◌++◌, inl, String, List, [], ◌∷◌, ok, err}
use cotrex_ai.Contract.{ProviderInfo, uninitialized, ready}
use cotrex_ai.Runtime.Local.{LocalModel, LocalProvider, ProviderError, load, unload}
use cotrex_ai.Runtime.Local.Lifecycle.{IsSettled, never_stuck, at_start, after_load, after_unload}
use cotrex_ai.Runtime.Lazy.{new, enter, leave}
use cotrex_ai.Runtime.Lazy.Once.{Move, call, finish, move, run, begun_once, IsDone, done_final}

-- A model that counts the calls of it and answers with its prompt.
abbrev name_card : ProviderInfo
name_card = record { name = "local"; version = "1"; supported_capabilities = [] }

abbrev echo : LocalModel
echo = record {
  State = ℕ;
  Config = Unit {0};
  load = λ c s. (ok tt, suc s);
  infer = λ q s. ok q.prompt;
  unload = λ s. (ok tt, suc s);
  info = λ s. record { name = "echo"; version = "1"; backend = "none" };
}

abbrev idle : LocalProvider echo
idle = record { lifecycle = uninitialized; config = tt; model = 0; info = name_card }

never_stuck_example :
    IsSettled echo (load echo (unload echo idle).1).1
    × (((load echo (unload echo idle).1).1.lifecycle ≡ ready)
        ⊎ ((load echo (load echo (unload echo idle).1).1).1.lifecycle ≡ ready)
        ⊎ ((e : ProviderError) × ((echo.load tt (load echo (unload echo idle).1).1.model).0
              ≡ err e)))
never_stuck_example =
    never_stuck echo idle (load echo (unload echo idle).1).1 refl
      (after_load (after_unload at_start))

abbrev moves : List (Move ℕ String)
moves = call ∷ call ∷ finish (ok 5) ∷ call ∷ finish (err "late") ∷ []

begun_once_example :
    (run {F = ℕ} (λ e. e) moves (record { lazy = new 3; creating = 0; begun = 0 })).begun ≤ 1
begun_once_example = begun_once {F = ℕ} (λ e. e) 3 moves

-- The creation has ended, with the provider 5.
abbrev ended : List (Move ℕ String)
ended = call ∷ call ∷ finish (ok 5) ∷ []

ended_lem :
    IsDone
      (run {F = ℕ} (λ e. e) ended (record { lazy = new 3; creating = 0; begun = 0 })).lazy.state
unfolding run move new enter leave
ended_lem = inl (5, refl)

done_final_example :
    run {F = ℕ}
      (λ e. e)
      (ended ++ call ∷ finish (err "late") ∷ [])
      (record { lazy = new 3; creating = 0; begun = 0 })
    ≡ run (λ e. e) ended (record { lazy = new 3; creating = 0; begun = 0 })
done_final_example = done_final {F = ℕ} (λ e. e) 3 ended (call ∷ finish (err "late") ∷ []) ended_lem
