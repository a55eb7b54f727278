-- ===== src/Runtime/Manager/Download/Hashed.antt =====
-- The digest of a file is that of all its bytes, whatever the buffers.
use cotrex_ai.Base.{
  ℕ, zero, suc, ◌≤◌, ◌<◌, ◌≡◌, some, List, [], ◌∷◌, ◌++◌, length, take, drop, arith, refl, sym, ◌∙◌,
  ap,
}
use cotrex_ai.Runtime.Manager.Download.{Digest, hash_loop}

pub take-append-drop {ℓ} : {A : Type ℓ} (n : ℕ) (xs : List A) → take n xs ++ drop n xs ≡ xs
take-append-drop zero xs = refl
take-append-drop (suc n) [] = refl
take-append-drop (suc n) (x ∷ xs) = ap (λ ys. x ∷ ys) (take-append-drop n xs)

pub length-drop-le {ℓ} : {A : Type ℓ} (n : ℕ) (xs : List A) → length (drop n xs) ≤ length xs
length-drop-le zero xs = omega arith
length-drop-le (suc n) [] = omega arith
length-drop-le (suc n) (x ∷ xs) = omega (arith, length-drop-le n xs)

module _ (D : Digest) where
  -- A hasher that is fed in parts.
  pub record Streaming : Type 0 where
    pub update-nil : (h : D.Hasher) → D.update [] h ≡ h
    pub update-append :
        (xs ys : List ℕ) (h : D.Hasher) → D.update (xs ++ ys) h ≡ D.update ys (D.update xs h)

  pub hash_loop_all :
      Streaming
      → (fuel : ℕ) (bytes : List ℕ) (h : D.Hasher) → length bytes < fuel
      → hash_loop D fuel bytes h ≡ some (D.update bytes h)
  unfolding hash_loop
  hash_loop_all law (suc fuel) [] h enough = ap some (sym (law.update-nil h))
  hash_loop_all law (suc fuel) (x ∷ xs) h enough =
      hash_loop_all law fuel (drop 8192 (x ∷ xs)) (D.update (take 8192 (x ∷ xs)) h)
        (omega (arith, length-drop-le 8191 xs))
      ∙ ap some (sym (law.update-append (take 8192 (x ∷ xs)) (drop 8192 (x ∷ xs)) h))
      ∙ ap (λ b. some (D.update b h)) (take-append-drop 8192 (x ∷ xs))
  hash_loop_all law zero bytes h enough = ground arith
