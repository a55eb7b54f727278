-- ===== src/Runtime/Prompt/Order.antt =====
-- The hash of a context does not depend on the order of the recent changes.
use cotrex_ai.Base.{String, ◌≡◌, List, refl}
use cotrex_ai.Base.Sort.{sort-Perm}
use mathlib.Core.List.{Permᴰ}
use cotrex_ai.Runtime.Prompt.{InferenceContext, Hasher, compute_hash}

-- Two contexts that differ in nothing but the order of their recent changes have the same hash,
-- whatever the hasher is.
compute_hash-Perm :
    (H : Hasher) (c : InferenceContext) (changes : List String)
    → Permᴰ c.recent_changes changes
    → compute_hash H c ≡ compute_hash H (record c { recent_changes = changes })
unfolding compute_hash
compute_hash-Perm H c changes p = rw (sort-Perm p, compute_hash) refl
