-- ===== src/Providers/Llama/Generation/Positions.antt =====
-- Where the tokens of an inference are placed.
use cotrex_ai.Base.{
  ℕ, zero, suc, ◌+◌, ◌≤◌, ◌≡◌, List, [], ◌∷◌, ◌++◌, length, length-snoc, Result, Bool-cases, ok,
  err, Method, bound, arith, inl, inr, refl,
}
use cotrex_ai.Runtime.Local.{ProviderError}
use cotrex_ai.Providers.Llama.{Binding}
use cotrex_ai.Providers.Llama.Generation.{Session, place, decode, draw, spell, extend, generate}

-- The positions of a list of placed tokens are `n`, `n + 1` and so on.
abbrev pub From {ℓ} : {A : Type ℓ} → ℕ → List (A × ℕ) → Type 0
From n [] = Unit {0}
From n ((token, position) ∷ xs) = (position ≡ n) × From (suc n) xs

pub From-snoc {ℓ} :
    {A : Type ℓ} (n : ℕ) (xs : List (A × ℕ)) (token : A) (position : ℕ)
    → From n xs
    → position ≡ n + length xs
    → From n (xs ++ (token, position) ∷ [])
From-snoc n [] token position h at = (omega arith, tt)
From-snoc n (x ∷ xs) token position h at =
    (h.0, From-snoc (suc n) xs token position h.1 (omega arith))

module _ (B : Binding) where
  -- What a run from `s` has placed and generated after at most `k` more tokens.
  abbrev Extends : Session B → ℕ → Result (Unit {0}) ProviderError × Session B → Type 0
  Extends s k o =
      From 0 o.1.placed
      × (length o.1.placed ≤ length s.placed + k)
      × (o.1.generated_tokens ≤ s.generated_tokens + k)
      × (o.0 ≡ ok tt
          → (o.1.n_cur ≡ length o.1.placed)
            × (length o.1.placed + s.generated_tokens ≡ length s.placed + o.1.generated_tokens))

  extend-Extends :
      (model : B.Model) (token : B.Token) (position : ℕ) (s : Session B)
      → From 0 s.placed
      → position ≡ length s.placed
      → s.n_cur ≡ length s.placed
      → Extends s 1 (extend B model token position s)
  unfolding extend spell place decode
  extend-Extends model token position s counted at now = ground (
    arith,
    From-snoc 0 s.placed token position counted (omega arith),
    length-snoc s.placed (token, position),
  )

  -- A run that goes on from another one.
  bound-Extends :
      (s : Session B) (k n all : ℕ)
      → k + n ≡ all
      → (f : Method (Session B) (Unit {0}) ProviderError)
        (o : Result (Unit {0}) ProviderError × Session B)
      → Extends s k o
      → ((t : Session B) → From 0 t.placed → t.n_cur ≡ length t.placed → Extends t n (f t))
      → Extends s all (bound (λ u. f) o)
  bound-Extends s k n all sum f (err e, t) one others = ground arith
  bound-Extends s k n all sum f (ok u, t) one others =
      let at = one.3 refl in
      let rest = others t one.0 at.0 in
      (rest.0, omega arith, omega arith, λ good. ground (arith, rest.3 good))

  pub generate-Extends :
      (model : B.Model) (rounds : ℕ) (s : Session B)
      → From 0 s.placed
      → s.n_cur ≡ length s.placed
      → Extends s rounds (generate B model rounds s)
  unfolding generate draw
  generate-Extends model zero s counted now = ground arith
  generate-Extends model (suc rounds) s counted now =
      let s1 = (draw B s).1 in
      let token = (draw B s).0 in
      elim (Bool-cases (B.is_eog_token model token)) [
        | inl ends ↦ rw (ends, generate) (ground arith)
        | inr goes ↦
            rw (goes, generate)
              (bound-Extends s1 1 rounds (suc rounds) (omega arith) (generate B model rounds)
                (extend B model token s1.n_cur s1)
                (extend-Extends model token s1.n_cur s1 counted now now)
                (generate-Extends model rounds))
      ]
