-- ===== src/Runtime/Local/Lifecycle.antt =====
-- The lifecycle of a local provider, and what it answers.
use cotrex_ai.Base.{String, ◌≡◌, ◌≢◌, ◌↔◌, ◌⊎◌, inl, inr, arith, ok, err, Result-cases}
use cotrex_ai.Contract.{
  ProviderState, ProviderStateError, uninitialized, ready, failed, loading, unloading, invalid_load,
  invalid_unload, ExplainRustRequest, ExplainRustResponse,
}
use cotrex_ai.Contract
use cotrex_ai.Runtime.Local.{
  LocalModel, LocalProvider, ProviderError, state_error, load, unload, transition, settle, execute,
  explain_rust_of, adapt_request, adapt_response,
}

module _ (M : LocalModel) where
  -- A provider at rest: no load and no unload is going on.
  abbrev pub IsSettled : LocalProvider M → Type 0
  IsSettled p = (p.lifecycle ≢ loading) × (p.lifecycle ≢ unloading)

  -- What `load` does to a provider at rest: refused, without effect, where a model is loaded;
  -- otherwise the model has been asked, and its answer decides between `Ready` and `Failed`.
  pub load_lem :
      (p : LocalProvider M)
      → IsSettled p
      → IsSettled (load M p).1
        × ((p.lifecycle ≡ ready) × (load M p ≡ (err (state_error (invalid_load ready)), p))
            ⊎ (p.lifecycle ≢ ready)
              × ((load M p).0 ≡ (M.load p.config p.model).0)
              × ((load M p).1.model ≡ (M.load p.config p.model).1)
              × ((load M p).1.lifecycle ≡ ready ↔ (load M p).0 ≡ ok tt)
              × (((load M p).1.lifecycle ≡ ready) ⊎ ((load M p).1.lifecycle ≡ failed)))
  unfolding load transition settle Contract.load Contract.loaded Contract.fail
  load_lem p settled = ground arith

  -- What `unload` does: refused, without effect, unless a model is loaded; otherwise the model has
  -- been asked, and its answer decides between `Uninitialized` and `Failed`.
  unload_lem :
      (p : LocalProvider M)
      → (p.lifecycle ≢ ready) × (unload M p ≡ (err (state_error (invalid_unload p.lifecycle)), p))
        ⊎ (p.lifecycle ≡ ready)
          × ((unload M p).0 ≡ (M.unload p.model).0)
          × ((unload M p).1.model ≡ (M.unload p.model).1)
          × ((unload M p).1.lifecycle ≡ uninitialized ↔ (unload M p).0 ≡ ok tt)
          × (((unload M p).1.lifecycle ≡ uninitialized) ⊎ ((unload M p).1.lifecycle ≡ failed))
  unfolding unload transition settle Contract.unload Contract.unloaded Contract.fail
  unload_lem p = ground arith

  -- A local provider never explains Rust: whatever the model infers, the call does not succeed,
  -- since the adapter makes a build summary of every inference.
  explain_rust_refused :
      (show : ProviderStateError → String) (q : ExplainRustRequest) (p : LocalProvider M)
      (r : ExplainRustResponse)
      → explain_rust_of M show q p ≢ ok r
  unfolding explain_rust_of execute adapt_request adapt_response
  explain_rust_refused show q p r = λ h. ground arith

  -- The states that calls of `load` and `unload` lead to.
  pub data Reached (start : LocalProvider M) : LocalProvider M → Type 0 where
    at_start : Reached start start
    after_load : {p : LocalProvider M} → Reached start p → Reached start (load M p).1
    after_unload : {p : LocalProvider M} → Reached start p → Reached start (unload M p).1

  unload-IsSettled : (p : LocalProvider M) → IsSettled p → IsSettled (unload M p).1
  unfolding unload transition settle Contract.unload Contract.unloaded Contract.fail
  unload-IsSettled p settled = ground arith

  Reached-IsSettled : {start p : LocalProvider M} → IsSettled start → Reached start p → IsSettled p
  Reached-IsSettled settled at_start = settled
  Reached-IsSettled settled (after_load {p} r) = (load_lem p (Reached-IsSettled settled r)).0
  Reached-IsSettled settled (after_unload {p} r) = unload-IsSettled p (Reached-IsSettled settled r)

  -- No sequence of calls of `load` and `unload` gets a new provider stuck: in every state that one
  -- leads to, failures of the model included, the provider is at rest, and is ready, or becomes
  -- ready by one more `load`, unless the model refuses that, as its error says.
  pub never_stuck :
      (start p : LocalProvider M)
      → start.lifecycle ≡ uninitialized
      → Reached start p
      → IsSettled p
        × ((p.lifecycle ≡ ready)
            ⊎ ((load M p).1.lifecycle ≡ ready)
            ⊎ ((e : ProviderError) × ((M.load p.config p.model).0 ≡ err e)))
  never_stuck start p fresh r =
      let settled = Reached-IsSettled (ground (arith, fresh)) r in
      (
        settled,
        elim (Result-cases (M.load p.config p.model).0) [
          | inl (t, good) ↦ ground (arith, load_lem p settled)
          | inr (e, bad) ↦ inr (inr (e, bad))
        ],
      )
