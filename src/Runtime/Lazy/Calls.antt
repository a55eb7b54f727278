-- ===== src/Runtime/Lazy/Calls.antt =====
-- The calls of a lazy provider (runtime/src/lazy_provider.rs) where nobody else calls in between,
-- over any provider that the factory makes.
use cotrex_ai.Base.{String, ◌≡◌, none, [], Result, ok, err, ◌⊎◌, inl, inr, arith, refl}
use cotrex_ai.Contract.{CapabilityRequest, CapabilityResponse, ProviderInfo}
use cotrex_ai.Runtime.Local.{RuntimeError, provider_error, ProviderHealth, unhealthy}
use cotrex_ai.Runtime.Lazy.{
  State, uninitialized, loading, ready, failed, LazyProvider, Refusal, refused, creation_failed,
  new, enter, leave,
}

-- The trait `CapabilityProvider` of a provider as the factory makes it.
pub record Interface (P : Type 0) : Type 0 where
  pub info : P → ProviderInfo
  pub health : P → ProviderHealth
  pub execute : CapabilityRequest → P → Result CapabilityResponse RuntimeError

abbrev error_of : Refusal RuntimeError → RuntimeError
error_of (refused message) = provider_error message
error_of (creation_failed e) = e

-- `execute` behind `ensure_ready`.
abbrev serve :
    {P : Type 0}
    → Interface P
    → CapabilityRequest
    → State P
    → Result CapabilityResponse RuntimeError
serve I request (ready p) = I.execute request p
serve I request uninitialized = err (provider_error "model not ready")
serve I request loading = err (provider_error "model not ready")
serve I request (failed message) = err (provider_error "model not ready")

module _ {F P : Type 0} (I : Interface P) where
  unfoldable pub info : LazyProvider F P → ProviderInfo
  info l = elim l.state [
    | ready p ↦ I.info p
    | uninitialized ↦ record {
      name = "lazy";
      version = "uninitialized";
      supported_capabilities = [];
    }
    | loading ↦ record { name = "lazy"; version = "uninitialized"; supported_capabilities = [] }
    | failed message ↦ record {
      name = "lazy";
      version = "uninitialized";
      supported_capabilities = [];
    }
  ]

  unfoldable pub health : LazyProvider F P → ProviderHealth
  health l = elim l.state [
    | ready p ↦ I.health p
    | failed message ↦ unhealthy "model failed to load"
    | uninitialized ↦ unhealthy "model not loaded"
    | loading ↦ unhealthy "model not loaded"
  ]

  -- `show` is `to_string` of an error, `create` is `ProviderFactory::create`.
  module _ (show : RuntimeError → String) (create : F → Result P RuntimeError) where
    abbrev after_entry :
        (Result (Unit {0}) (Refusal RuntimeError) ⊎ F)
        → LazyProvider F P
        → Result (Unit {0}) (Refusal RuntimeError) × LazyProvider F P
    after_entry (inl r) l = (r, l)
    after_entry (inr f) l = leave show (create f) l

    unfoldable pub ensure_ready :
        LazyProvider F P → Result (Unit {0}) (Refusal RuntimeError) × LazyProvider F P
    ensure_ready l = let (entry, l1) = enter l in after_entry entry l1

    unfoldable pub execute :
        CapabilityRequest
        → LazyProvider F P
        → Result CapabilityResponse RuntimeError × LazyProvider F P
    execute request l =
        let (r, l1) = ensure_ready l in
        elim r [ ok u ↦ (serve I request l1.state, l1) | err e ↦ (err (error_of e), l1) ]

  -- The first call creates the provider and answers with it; every later call answers with the same
  -- provider, whatever creating another one would give. Where the creation fails, the first call
  -- answers with its error and every later call with its text, without another attempt, and the
  -- provider is reported as unhealthy.
  execute_lem :
      (show : RuntimeError → String) (create later : F → Result P RuntimeError) (factory : F)
      (first second : CapabilityRequest)
      → ((p : P)
          → create factory ≡ ok p
          → (l : LazyProvider F P) × (execute show create first (new factory)
              ≡ (I.execute first p, l))
            × (execute show later second l ≡ (I.execute second p, l))
            × (health l ≡ I.health p))
        × ((e : RuntimeError)
            → create factory ≡ err e
            → (l : LazyProvider F P) × (execute show create first (new factory) ≡ (err e, l))
              × (execute show later second l ≡ (err (provider_error (show e)), l))
              × (health l ≡ unhealthy "model failed to load"))
  unfolding execute ensure_ready enter leave new health
  execute_lem show create later factory first second = (
    λ p made. (record { factory = none; state = ready p }, ground (arith, made), refl, refl),
    λ e refused_it. (
      record { factory = none; state = failed (show e) },
      ground (arith, refused_it),
      refl,
      refl,
    ),
  )
