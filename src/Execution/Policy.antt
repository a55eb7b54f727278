-- ===== src/Execution/Policy.antt =====
-- The capability check (execution/src/policy.rs).
use cotrex_ai.Base.{
  ◌<>◌, ◌≡◌, ◌↔◌, refl, inl, inr, true, false, List, [], ◌∷◌, ◌++◌, arith, All, Result, ok, err,
  contains, if◌then◌else◌, Bool-cases,
}
use cotrex_ai.Execution.Request.{
  Capability, command_run, file_write, file_delete, capability_eq, show_capability,
  ExecutionRequest, ExecutionError, validation_failed,
}

pub record ExecutionPolicy : Type 0 where
  pub granted : List Capability

unfoldable pub new : List Capability → ExecutionPolicy
new granted = record { granted = granted }

unfoldable allow_all : ExecutionPolicy
allow_all = record { granted = command_run ∷ file_write ∷ file_delete ∷ [] }

unfoldable deny_all : ExecutionPolicy
deny_all = record { granted = [] }

-- The loop over the required capabilities.
unfoldable pub check_all : ExecutionPolicy → List Capability → Result (Unit {0}) ExecutionError
check_all p [] = ok tt
check_all p (c ∷ cs) =
    let rest = check_all p cs in
    if contains p.granted c
    then rest
    else err (validation_failed ("missing capability: " <> show_capability c))

unfoldable pub validate : ExecutionPolicy → ExecutionRequest → Result (Unit {0}) ExecutionError
unfolding check_all
validate p request = check_all p request.required_capabilities

abbrev pub Granted : ExecutionPolicy → Capability → Type 0
Granted p c = contains p.granted c ≡ true

check_all-Granted :
    (p : ExecutionPolicy) (cs : List Capability) → (check_all p cs ≡ ok tt) ↔ All (Granted p) cs
unfolding check_all
check_all-Granted p [] = ground arith
check_all-Granted p (c ∷ cs) = ground (arith, check_all-Granted p cs)

-- A policy lets a request pass exactly if it grants every capability that the request requires.
pub validate-ok :
    (p : ExecutionPolicy) (r : ExecutionRequest)
    → (validate p r ≡ ok tt) ↔ All (Granted p) r.required_capabilities
unfolding validate
validate-ok p r = check_all-Granted p r.required_capabilities

-- A refusal names the first required capability that the policy does not grant.
pub check_all-err :
    (p : ExecutionPolicy) (cs : List Capability) (x : ExecutionError)
    → check_all p cs ≡ err x
    → (before after : List Capability) × (c : Capability) × (cs ≡ before ++ c ∷ after)
      × All (Granted p) before
      × (contains p.granted c ≡ false)
      × (x ≡ validation_failed ("missing capability: " <> show_capability c))
unfolding check_all
check_all-err p [] x h = cc
check_all-err p (c ∷ cs) x h = elim (Bool-cases (contains p.granted c)) [
  | inl has ↦
      let (before, after, d, split, passed, missing, shown) =
        check_all-err p cs x (ground (arith, has, h)) in
      (c ∷ before, after, d, cc, (has, passed), missing, shown)
  | inr lacks ↦ ([], cs, c, refl, tt, lacks, ground (arith, lacks, h))
]
