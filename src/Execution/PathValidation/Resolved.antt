-- ===== src/Execution/PathValidation/Resolved.antt =====
-- What the checks on a path that the file executors act on guarantee.
use mathlib.Core.Path.{subst}
use mathlib.Core.List.{reverse, reverse-reverse, reverse-cons, append-nil, append_assoc, map-append}
use cotrex_ai.Base.{
  ◌≡◌, ◌↔◌, ◌≢◌, ◌⊎◌, refl, sym, ◌∙◌, true, false, inl, inr, List, [], ◌∷◌, ◌++◌, map, arith, All,
  ok, err, Result-cases, Bool-cases, String,
}
use cotrex_ai.FilePath.{
  FilePath, Component, root_dir, cur_dir, parent_dir, normal, is_absolute, join, starts_with,
  starts_with_eq,
}
use cotrex_ai.Execution.System.{System}
use cotrex_ai.Execution.PathValidation.{
  has_parent_dir, validate_raw_path, rejoin, climb, canonical_target, resolve_within,
}

has_parent_dir_lem :
    (cs : List Component) → (has_parent_dir cs ≡ false) ↔ All (λ c. c ≢ parent_dir) cs
has_parent_dir_lem [] = ground arith
has_parent_dir_lem (parent_dir ∷ cs) = (λ h. cc, λ (apart, rest). absurd (apart refl))
has_parent_dir_lem (root_dir ∷ cs) = ground (arith, has_parent_dir_lem cs)
has_parent_dir_lem (cur_dir ∷ cs) = ground (arith, has_parent_dir_lem cs)
has_parent_dir_lem (normal s ∷ cs) = ground (arith, has_parent_dir_lem cs)

-- The raw check passes exactly the relative paths without a parent component.
pub validate_raw_path_lem :
    (path : FilePath)
    → (validate_raw_path path ≡ ok tt)
      ↔ ((is_absolute path ≡ false) × All (λ c. c ≢ parent_dir) path)
unfolding validate_raw_path
validate_raw_path_lem path = ground (arith, has_parent_dir_lem path)

abbrev singles : List Component → List FilePath
singles = map (λ c. c ∷ [])

module _ (O : System) (s : O.State) where
  -- Where the search for an existing ancestor of a path ends: at a part `up` of the path, from the
  -- front, that has a canonical form; the components behind it are put back one by one.
  abbrev IsClimbed : FilePath → List FilePath → FilePath → Type 0
  IsClimbed path remaining t =
      (up back : List Component) × (canonical : FilePath) × (path ≡ up ++ back)
      × (O.canonicalize up s ≡ ok canonical)
      × (t ≡ rejoin canonical (singles back ++ remaining))

  -- Where a part of the path has no canonical form, the loop goes on with its parent.
  climb_up :
      (c : Component) (rev : List Component) (remaining : List FilePath) (t : FilePath) (e : String)
      → O.canonicalize (reverse (c ∷ rev)) s ≡ err e
      → climb O s (c ∷ rev) remaining ≡ ok t
      → climb O s rev ((c ∷ []) ∷ remaining) ≡ ok t
  unfolding climb
  climb_up root_dir rev remaining t e missing h = cc (missing, h)
  climb_up _ rev remaining t e missing h = ground (arith, missing, h)

  climb-IsClimbed :
      (rev : List Component) (remaining : List FilePath) (t : FilePath)
      → climb O s rev remaining ≡ ok t
      → IsClimbed (reverse rev) remaining t
  unfolding climb
  climb-IsClimbed [] remaining t h = elim (Result-cases (O.canonicalize [] s)) [
    | inl (canonical, found) ↦ ([], [], canonical, refl, found, ground (arith, found, h))
    | inr (e, missing) ↦ ground (arith, missing, h)
  ]
  climb-IsClimbed (c ∷ rev) remaining t h =
      let next : climb O s rev ((c ∷ []) ∷ remaining) ≡ ok t
          → IsClimbed (reverse (c ∷ rev)) remaining t =
        λ higher.
          let (up, back, canonical, split, found, built) =
            climb-IsClimbed rev ((c ∷ []) ∷ remaining) t higher in
          (
            up,
            back ++ c ∷ [],
            canonical,
            reverse-cons c rev ∙ rw (split, append_assoc) refl,
            found,
            built ∙ rw (map-append, append_assoc) refl,
          ) in
      elim (Result-cases (O.canonicalize (reverse (c ∷ rev)) s)) [
        | inl (canonical, found) ↦
            (reverse (c ∷ rev), [], canonical, sym (append-nil _), found, ground (arith, found, h))
        | inr (e, missing) ↦ next (climb_up c rev remaining t e missing h)
      ]

  -- What the canonical form of a joined path, or of its existing part, has to be.
  abbrev IsTarget : FilePath → FilePath → Type 0
  IsTarget joined t =
      (O.exists joined s ≡ true) × (O.canonicalize joined s ≡ ok t)
      ⊎ (O.exists joined s ≡ false) × IsClimbed joined [] t

  canonical_target-IsTarget :
      (joined t : FilePath) → canonical_target O s joined ≡ ok t → IsTarget joined t
  unfolding canonical_target
  canonical_target-IsTarget joined t h = elim (Bool-cases (O.exists joined s)) [
    | inl there ↦ inl (there, ground (arith, there, h))
    | inr absent ↦
        let found : climb O s (reverse joined) [] ≡ ok t = ground (arith, absent, h) in
        let climbed = climb-IsClimbed (reverse joined) [] t found in
        inr (absent, subst (λ p. IsClimbed p [] t) (reverse-reverse joined) climbed)
  ]

  -- What `resolve_within` has checked of a path: it lies under the canonical form of the working
  -- directory, as far as it exists.
  abbrev pub Within : FilePath → FilePath → Type 0
  Within wd path =
      (canonical_wd inside : FilePath) × (O.canonicalize wd s ≡ ok canonical_wd)
      × IsTarget (join wd path) (canonical_wd ++ inside)

  -- A path that `resolve_within` returns is the joined path, and its canonical form lies under that
  -- of the working directory. If nothing exists at the path, the canonical form is that of a part
  -- of it, from the front, with the other components put behind.
  pub resolve_within_ok :
      (wd path resolved : FilePath)
      → resolve_within O s wd path ≡ ok resolved
      → (resolved ≡ join wd path) × Within wd path
  unfolding resolve_within
  resolve_within_ok wd path resolved h = elim (Result-cases (O.canonicalize wd s)) [
    | inr (e, missing) ↦ ground (arith, missing, h)
    | inl (canonical_wd, found) ↦ elim (Result-cases (canonical_target O s (join wd path))) [
      | inr (e, missing) ↦ ground (arith, found, missing, h)
      | inl (target, reached) ↦ elim (Bool-cases (starts_with target canonical_wd)) [
        | inr escapes ↦ ground (arith, found, reached, escapes, h)
        | inl stays ↦
            let (inside, split) = starts_with_eq target canonical_wd stays in
            (
              ground (arith, found, reached, stays, h),
              (
                canonical_wd,
                inside,
                found,
                subst (IsTarget (join wd path)) split
                    (canonical_target-IsTarget (join wd path) target reached),
              ),
            )
      ]
    ]
  ]
