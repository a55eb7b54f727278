-- ===== src/Kernel/Observation/Accepted.antt =====
-- What the observation filter lets through.
use Prim.Native.String.{len}
use text.Mathlib.Text.{starts_with}
use cotrex_ai.Base.{
  ◌≤◌, String, ◌≡◌, ◌≢◌, ◌↔◌, refl, ◌⊎◌, inl, inr, false, none, some, List, [], ◌∷◌, ◌++◌, arith,
  All, string_eq, contains, Option-cases,
}
use cotrex_ai.Base.Text.{ends_with}
use cotrex_ai.FilePath.{
  strip_prefix_eq, strip_prefix-append, FilePath, Component, root_dir, cur_dir, parent_dir, normal,
  as_str, component_eq, strip_prefix,
}
use cotrex_ai.Kernel.Observation.Translator.{RawObservation}
use cotrex_ai.Kernel.Observation.Filter.{
  accept, ObservationFilter, check_component, check_components, filter,
}

-- A name that no rule of the filter touches: not a pattern, not hidden, no backup, no swap file.
pub record IsClean (patterns : List String) (name : String) : Type 0 where
  no_pattern : contains patterns name ≡ false
  not_hidden : (starts_with name "." ≡ false) ⊎ (len name ≤ 1)
  no_backup : ends_with name "~" ≡ false
  no_swap : (ends_with name ".swp" ≡ false) × (ends_with name ".swo" ≡ false)

check_component-IsClean :
    (patterns : List String) (name : String)
    → (check_component patterns name ≡ none) ↔ IsClean patterns name
unfolding check_component
check_component-IsClean patterns name = (λ h. ground arith, λ h. ground arith)

abbrev AllClean : List String → FilePath → Type 0
AllClean patterns = All (λ c. IsClean patterns (as_str c))

check_components-AllClean :
    (patterns : List String) (cs : FilePath)
    → (check_components patterns cs ≡ accept) ↔ AllClean patterns cs
unfolding check_components
check_components-AllClean patterns [] = (λ h. tt, λ h. refl)
check_components-AllClean patterns (c ∷ cs) =
    let head = check_component-IsClean patterns (as_str c) in
    let rest = check_components-AllClean patterns cs in
    elim (Option-cases (check_component patterns (as_str c))) [
      | inl clean ↦ rw (clean, check_components) (λ h. (head.0 clean, rest.0 h), λ h. rest.1 h.1)
      | inr (reason, found) ↦ rw (found, check_components) (λ h. cc, λ h. cc (head.1 h.0))
    ]

-- The filter accepts exactly the paths under the root whose components below the root are all
-- clean.
pub filter-accept :
    (f : ObservationFilter) (o : RawObservation)
    → (filter f o ≡ accept) ↔ (
        (rel : FilePath) × (o.path ≡ f.root ++ rel)
        × All (λ c. IsClean f.ignore_patterns (as_str c)) rel)
unfolding filter
filter-accept f o = (
  λ h. elim (Option-cases (strip_prefix f.root o.path)) [
    | inl outside ↦ cc outside
    | inr (rel, found) ↦ (
      rel,
      strip_prefix_eq f.root o.path rel found,
      (check_components-AllClean f.ignore_patterns rel).0 (cc found),
    )
  ],
  λ (rel, inside, clean).
      let found : strip_prefix f.root o.path ≡ some rel =
        rw inside (strip_prefix-append f.root rel) in
      rw (found, filter) ((check_components-AllClean f.ignore_patterns rel).1 clean),
)

All-map {ℓ κ ν} :
    {A : Type ℓ} {P : A → Type κ} {Q : A → Type ν} (xs : List A)
    → ((x : A) → P x → Q x)
    → All P xs
    → All Q xs
All-map [] f h = tt
All-map (x ∷ xs) f h = (f x h.0, All-map xs f h.1)

not_parent : (patterns : List String) (c : Component) → IsClean patterns (as_str c) → c ≢ parent_dir
not_parent patterns root_dir h e = cc
not_parent patterns cur_dir h e = cc
not_parent patterns (normal s) h e = cc
not_parent patterns parent_dir h e = ground arith

-- An accepted path does not leave the root: below it there is no `..`.
filter-no_parent :
    (f : ObservationFilter) (o : RawObservation)
    → filter f o ≡ accept
    → (rel : FilePath) × (o.path ≡ f.root ++ rel) × All (λ c. c ≢ parent_dir) rel
filter-no_parent f o h =
    let (rel, inside, clean) = (filter-accept f o).0 h in
    (rel, inside, All-map rel (not_parent f.ignore_patterns) clean)
