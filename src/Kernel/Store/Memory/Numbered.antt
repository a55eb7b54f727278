-- ===== src/Kernel/Store/Memory/Numbered.antt =====
-- Lists of events with consecutive sequence numbers: their end, their order and their parts.
use cotrex_ai.Base.{
  ℕ, zero, suc, ◌+◌, ◌-◌, ◌≤◌, ◌≡◌, refl, inl, inr, none, some, List, [], ◌∷◌, ◌++◌, arith, length,
  drop, filter, last?, leb, Bool-cases, if◌then◌else◌,
}
use cotrex_ai.Kernel.Event.{Event}
use cotrex_ai.Kernel.Store.{IsNumbered}
use cotrex_ai.Kernel.Store.Memory.{first_disorder, in_range}

pub IsNumbered-snoc :
    (k : ℕ) (es : List Event) (e : Event)
    → IsNumbered k es
    → e.sequence ≡ k + length es
    → IsNumbered k (es ++ e ∷ [])
IsNumbered-snoc k [] e h p = (omega arith, tt)
IsNumbered-snoc k (x ∷ es) e h p = (h.0, IsNumbered-snoc (suc k) es e h.1 (omega arith))

pub IsNumbered-drop : (n k : ℕ) (es : List Event) → IsNumbered k es → IsNumbered (n + k) (drop n es)
IsNumbered-drop zero k es h = let e : k ≡ 0 + k = omega arith in rw (← e) h
IsNumbered-drop (suc n) k [] h = tt
IsNumbered-drop (suc n) k (x ∷ es) h =
    let e : n + suc k ≡ suc n + k = omega arith in rw (← e) (IsNumbered-drop n (suc k) es h.1)

pub last-IsNumbered :
    (k : ℕ) (es : List Event) (l : Event)
    → IsNumbered k es
    → last? es ≡ some l
    → l.sequence + 1 ≡ k + length es
last-IsNumbered k [] l h p = cc
last-IsNumbered k (x ∷ []) l h p = ground arith
last-IsNumbered k (x ∷ (y ∷ es)) l h p = omega (arith, last-IsNumbered (suc k) (y ∷ es) l h.1 p)

pub first_disorder-IsNumbered :
    (k : ℕ) (es : List Event) → IsNumbered k es → first_disorder es ≡ none
unfolding first_disorder
first_disorder-IsNumbered k [] h = refl
first_disorder-IsNumbered k (a ∷ []) h = refl
first_disorder-IsNumbered k (a ∷ (b ∷ es)) h =
    ground (arith, first_disorder-IsNumbered (suc k) (b ∷ es) h.1)

drop_from :
    (start k : ℕ) (e : Event) (es : List Event)
    → drop (start - k) (e ∷ es) ≡ (if leb start k then e ∷ es else drop (start - suc k) es)
drop_from start k e es = elim (Bool-cases (leb start k)) [
  | inl below ↦ let z : start - k ≡ 0 = ground arith in rw (z, below)
  | inr above ↦ let z : start - k ≡ suc (start - suc k) = ground arith in rw (z, above)
]

drop_below : (start k : ℕ) (es : List Event) → start ≤ k → drop (start - k) es ≡ es
drop_below start k es h = let z : start - k ≡ 0 = omega arith in rw z

pub filter-IsNumbered :
    (start stop k : ℕ) (es : List Event)
    → IsNumbered k es
    → k + length es ≤ stop + 1
    → filter (in_range start stop) es ≡ drop (start - k) es
filter-IsNumbered start stop k [] h p =
    elim (start - k) as (λ n. ◌≡◌ {A = List Event} [] (drop n [])) [ zero ↦ refl | suc n ↦ refl ]
filter-IsNumbered start stop k (e ∷ es) h p = rw drop_from (
    ground (
      arith,
      filter-IsNumbered start stop (suc k) es h.1 (omega arith),
      drop_below start (suc k) es,
    ))
