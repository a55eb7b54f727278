-- ===== src/Base/Order.antt =====
-- The order of texts, and what a sorted list of them does not depend on.
use Prim.Native.Nat.{Ordering}
use Prim.Native.String.{String, [], ◌∷◌, compare}
use Prim.Native.String.compare as Compare
use mathlib.Core.Path.{◌≡◌}
use native.Mathlib.Omega.{arith}

pub compare_flip :
    (s t : String)
    → (compare s t ≡ Ordering.lt → compare t s ≡ Ordering.gt)
      × (compare s t ≡ Ordering.gt → compare t s ≡ Ordering.lt)
compare_flip [] [] = ground (arith, Compare.nil-nil)
compare_flip [] (d ∷ t) = ground (arith, Compare.nil-cons d t, Compare.cons-nil d t)
compare_flip (c ∷ s) [] = ground (arith, Compare.nil-cons c s, Compare.cons-nil c s)
compare_flip (c ∷ s) (d ∷ t) =
    ground (arith, Compare.cons-cons c d s t, Compare.cons-cons d c t s, compare_flip s t)

pub compare_trans :
    (s t u : String)
    → compare s t ≡ Ordering.lt
    → compare t u ≡ Ordering.lt
    → compare s u ≡ Ordering.lt
compare_trans [] [] u a b = ground (arith, a, Compare.nil-nil)
compare_trans (c ∷ s) [] u a b = ground (arith, a, Compare.cons-nil c s)
compare_trans s (d ∷ t) [] a b = ground (arith, b, Compare.cons-nil d t)
compare_trans [] (d ∷ t) (e ∷ u) a b = Compare.nil-cons e u
compare_trans (c ∷ s) (d ∷ t) (e ∷ u) a b = ground (
  arith,
  Compare.cons-cons c d s t,
  Compare.cons-cons d e t u,
  Compare.cons-cons c e s u,
  compare_trans s t u,
)
