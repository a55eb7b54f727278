-- ===== src/Providers/Llama/Generation/Within.antt =====
-- An inference stays within its context.
use cotrex_ai.Base.{
  Result, err, ◌⊎◌, inl, inr, ℕ, suc, ◌+◌, ◌≤◌, ◌<◌, ◌≡◌, Bool, some, List, [], ◌∷◌, length, All,
  ok, and_then, arith, refl,
}
use cotrex_ai.Runtime.Local.{ProviderError, InferenceRequest}
use cotrex_ai.Providers.Llama.{
  Binding, LlamaCppModel, LoadedConfig, check_size, open_context, prepare,
}
use cotrex_ai.Providers.Llama.Generation.{Session, write, begin, respond, finish, infer}
use cotrex_ai.Providers.Llama.Generation.Positions.{From}
use cotrex_ai.Providers.Llama.Generation.Bounds.{Counting, Written, write-Written}

pub From-below {ℓ} :
    {A : Type ℓ} (n limit : ℕ) (xs : List (A × ℕ))
    → From n xs
    → n + length xs ≤ limit
    → All (λ x. x.1 < limit) xs
From-below n limit [] h less = tt
From-below n limit (x ∷ xs) h less =
    (omega (arith, h.0), From-below (suc n) limit xs h.1 (omega arith))

module _ (B : Binding) where
  prepare-fits :
      (model : B.Model) (loaded : LoadedConfig) (request : InferenceRequest) (context : B.Context)
      (tokens : List B.Token)
      → prepare B model loaded request ≡ ok (context, tokens)
      → (length tokens + request.max_tokens ≤ loaded.context) × (1 ≤ length tokens)
  unfolding prepare check_size open_context
  prepare-fits model loaded request context tokens h = ground arith

  or_all :
      (request : InferenceRequest) (tokens : List B.Token)
      (o : Result (Unit {0}) ProviderError × Session B)
      → Written B request tokens o
      → ((e : ProviderError) × (o.0 ≡ err e))
        ⊎ (length o.1.placed ≡ length tokens + o.1.generated_tokens)
  or_all request tokens (ok u, s) all = inr (all.3 refl)
  or_all request tokens (err e, s) all = inl (e, refl)

  -- Once the prompt has passed the checks, an inference gives the batch, whether a call fails or
  -- not, the positions 0, 1, 2 and so on, all of them below the length of the context, and it
  -- generates at most `max_tokens` tokens. It answers with the error of the call that fails, or with
  -- the text, and has then placed the tokens of the prompt and those generated, each once.
  pub infer_within_context :
      Counting B
      → (seed : ℕ) (profiling : Bool) (request : InferenceRequest) (s : LlamaCppModel B)
        (model : B.Model) (loaded : LoadedConfig) (context : B.Context) (tokens : List B.Token)
      → s.model ≡ some model
      → s.loaded_config ≡ some loaded
      → prepare B model loaded request ≡ ok (context, tokens)
      → (let o = write B model request tokens (begin B seed request context tokens) in
          From 0 o.1.placed
          × All (λ x. x.1 < loaded.context) o.1.placed
          × (o.1.generated_tokens ≤ request.max_tokens)
          × (infer B seed profiling request s
              ≡ and_then o.0 (λ u. ok (respond B profiling (length tokens) o.1)))
          × (((e : ProviderError) × (o.0 ≡ err e))
              ⊎ (length o.1.placed ≡ length tokens + o.1.generated_tokens)))
  unfolding infer finish
  infer_within_context law seed profiling request s model loaded context tokens there config good =
      let all = write-Written B law model seed request context tokens in
      let fits = prepare-fits model loaded request context tokens good in
      (
        all.0,
        From-below 0 loaded.context
            (write B model request tokens (begin B seed request context tokens)).1.placed all.0
            (omega (arith, all.1, fits.0)),
        all.2,
        rw (there, config, good) refl,
        or_all request tokens (write B model request tokens (begin B seed request context tokens))
            all,
      )
