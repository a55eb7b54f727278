-- ===== src/Providers/Llama/Generation/Bounds.antt =====
-- What the two last phases of an inference place in all.
use cotrex_ai.Base.{
  ℕ, suc, ◌+◌, ◌-◌, ◌≤◌, ◌≡◌, Bool, List, [], ◌∷◌, length, length-snoc, Result, ok, err, Method,
  bound, arith, refl, nat_beq,
}
use cotrex_ai.Runtime.Local.{ProviderError, InferenceRequest}
use cotrex_ai.Providers.Llama.{Binding}
use cotrex_ai.Providers.Llama.Generation.{
  Session, place, decode, fill, generate, begin, write, start_counting,
}
use cotrex_ai.Providers.Llama.Generation.Positions.{From, From-snoc, generate-Extends}

module _ (B : Binding) where
  -- What the batch of the binding counts: the tokens added to it, which decoding leaves in it.
  pub record Counting : Type 0 where
    pub new_counts : (capacity : ℕ) → B.n_tokens (B.new_batch capacity) ≡ 0
    pub add_counts :
        (token : B.Token) (position : ℕ) (logits : Bool) (batch : B.Batch)
        → (B.add token position logits batch).0 ≡ ok tt
        → B.n_tokens (B.add token position logits batch).1 ≡ suc (B.n_tokens batch)
    pub decode_counts :
        (context : B.Context) (batch : B.Batch)
        → B.n_tokens (B.decode (context, batch)).1.1 ≡ B.n_tokens batch

  -- What the loop over the prompt has placed, up to the call that fails where one does.
  abbrev Fills : ℕ → Result (Unit {0}) ProviderError × Session B → Type 0
  Fills n o =
      From 0 o.1.placed
      × (length o.1.placed ≤ n)
      × (o.1.generated_tokens ≡ 0)
      × (o.0 ≡ ok tt → (length o.1.placed ≡ n) × (B.n_tokens o.1.batch ≡ n))

  place-Fills :
      Counting
      → (token : B.Token) (logits : Bool) (i : ℕ) (s : Session B) → Fills i (ok tt, s)
      → Fills (suc i) (place B token i logits s)
  unfolding place
  place-Fills law token logits i s filled = ground (
    arith,
    From-snoc 0 s.placed token i filled.0 (omega (arith, filled.3 refl)),
    length-snoc s.placed (token, i),
    law.add_counts token i logits s.batch,
  )

  bound-Fills :
      (i n : ℕ) (f : Method (Session B) (Unit {0}) ProviderError)
      (o : Result (Unit {0}) ProviderError × Session B)
      → Fills i o
      → i ≤ n
      → ((t : Session B) → Fills i (ok tt, t) → Fills n (f t))
      → Fills n (bound (λ u. f) o)
  bound-Fills i n f (err e, t) filled less rest =
      (filled.0, omega (arith, filled.1), filled.2, λ h. ground arith)
  bound-Fills i n f (ok u, t) filled less rest = rest t filled

  fill-Fills :
      Counting
      → (last i n : ℕ) (tokens : List B.Token) (s : Session B) → i + length tokens ≡ n
      → Fills i (ok tt, s)
      → Fills n (fill B last i tokens s)
  unfolding fill
  fill-Fills law last i n [] s sum filled = ground arith
  fill-Fills law last i n (token ∷ tokens) s sum filled =
      bound-Fills (suc i) n (fill B last (suc i) tokens) (place B token i (nat_beq i last) s)
        (place-Fills law token (nat_beq i last) i s filled) (omega arith)
        (λ t more. fill-Fills law last (suc i) n tokens t (omega arith) more)

  decode-Fills : Counting → (n : ℕ) (s : Session B) → Fills n (ok tt, s) → Fills n (decode B s)
  unfolding decode
  decode-Fills law n s filled = ground (arith, law.decode_counts s.context s.batch)

  -- What an inference has placed and generated, whether it fails or not.
  abbrev pub Written :
      InferenceRequest → List B.Token → Result (Unit {0}) ProviderError × Session B → Type 0
  Written request tokens o =
      From 0 o.1.placed
      × (length o.1.placed ≤ length tokens + request.max_tokens)
      × (o.1.generated_tokens ≤ request.max_tokens)
      × (o.0 ≡ ok tt → length o.1.placed ≡ length tokens + o.1.generated_tokens)

  generate-Written :
      (model : B.Model) (request : InferenceRequest) (tokens : List B.Token)
      (o : Result (Unit {0}) ProviderError × Session B)
      → Fills (length tokens) o
      → Written request tokens
          (bound (λ u. generate B model request.max_tokens) (bound (λ u. start_counting B) o))
  generate-Written model request tokens (err e, t) filled =
      (filled.0, omega (arith, filled.1), omega (arith, filled.2), λ h. ground arith)
  generate-Written model request tokens (ok u, t) filled =
      let at = filled.3 refl in
      let t1 = (start_counting B t).1 in
      let rest =
        generate-Extends B model request.max_tokens t1 filled.0 (omega (arith, at.0, at.1)) in
      (
        rest.0,
        omega (arith, rest.1, at.0),
        omega (arith, rest.2, filled.2),
        λ h. omega (arith, (rest.3 h).1, at.0, filled.2),
      )

  pub write-Written :
      Counting
      → (model : B.Model) (seed : ℕ) (request : InferenceRequest) (context : B.Context)
        (tokens : List B.Token)
      → Written request tokens (write B model request tokens (begin B seed request context tokens))
  unfolding write begin
  write-Written law model seed request context tokens =
      generate-Written model request tokens
        (bound (λ u. decode B)
          (fill B (length tokens - 1) 0 tokens (begin B seed request context tokens)))
        (bound-Fills (length tokens) (length tokens) (decode B)
          (fill B (length tokens - 1) 0 tokens (begin B seed request context tokens))
          (fill-Fills law (length tokens - 1) 0 (length tokens) tokens
            (begin B seed request context tokens) (omega arith)
            (
              tt,
              omega arith,
              refl,
              λ h. (refl, law.new_counts (length tokens + request.max_tokens + 1)),
            ))
          (omega arith) (decode-Fills law (length tokens)))
