-- ===== src/Base/Sort.antt =====
-- `sort` on texts, and that it forgets their order.
use Prim.Native.Nat.{Ordering}
use Prim.Native.String.{String, compare}
use text.Mathlib.TextEquality.{path_by_compare}
use mathlib.Core.Path.{◌≡◌, refl, ap, ◌∙◌}
use mathlib.Core.List.{List, [], ◌∷◌, Permᴰ}
use native.Mathlib.Omega.{arith}
use cotrex_ai.Base.Order.{compare_flip, compare_trans}

abbrev sort_insert : String → List String → List String
sort_insert x [] = x ∷ []
sort_insert x (y ∷ ys) =
    let rest = sort_insert x ys in
    elim (compare y x) [ Ordering.gt ↦ x ∷ (y ∷ ys) | other ↦ y ∷ rest ]

-- `sort`
unfoldable pub sort : List String → List String
sort [] = []
sort (x ∷ xs) = sort_insert x (sort xs)

sort_insert_comm :
    (x y : String) (l : List String)
    → sort_insert x (sort_insert y l) ≡ sort_insert y (sort_insert x l)
sort_insert_comm x y [] =
    ground (arith, compare_flip x y, path_by_compare x y, compare_flip y x, path_by_compare y x)
sort_insert_comm x y (z ∷ l) = ground (
  arith,
  sort_insert_comm x y l,
  compare_flip x y,
  compare_flip y x,
  compare_flip z x,
  compare_flip z y,
  path_by_compare x y,
  path_by_compare y x,
  path_by_compare z x,
  path_by_compare z y,
  compare_trans x z y,
  compare_trans y z x,
  compare_trans x y z,
  compare_trans y x z,
)

pub sort-Perm : {xs ys : List String} → Permᴰ xs ys → sort xs ≡ sort ys
unfolding sort
sort-Perm Permᴰ.nil = refl
sort-Perm (Permᴰ.cons {a} {b} {l₁} {l₂} e p) =
    ap (λ x. sort_insert x (sort l₁)) e ∙ ap (λ l. sort_insert b l) (sort-Perm p)
sort-Perm (Permᴰ.swap {a} {b} {a'} {b'} {l} e f) =
    sort_insert_comm a b (sort l)
    ∙ ap (λ x. sort_insert x (sort_insert a (sort l))) f
    ∙ ap (λ x. sort_insert a' (sort_insert x (sort l))) e
sort-Perm (Permᴰ.trans p q) = sort-Perm p ∙ sort-Perm q
