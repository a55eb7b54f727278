-- ===== src/Runtime/Lazy.antt =====
-- `LazyProvider` (runtime/src/lazy_provider.rs), whose factory makes the provider at the first call.
-- `ensure_ready` lets its lock go while the factory works, so that it is two steps here, between
-- which other threads may call.
pub mod Once
pub mod Calls
use cotrex_ai.Base.{String, Option, none, some, Result, ok, err, ◌⊎◌, inl, inr}

pub data State (P : Type 0) : Type 0 where
  uninitialized loading : State P
  ready : P → State P
  failed : String → State P

pub record LazyProvider (F P : Type 0) : Type 0 where
  pub factory : Option F
  pub state : State P

pub data Refusal (E : Type 0) : Type 0 where
  refused : String → Refusal E
  creation_failed : E → Refusal E

unfoldable pub new : {F P : Type 0} → F → LazyProvider F P
new factory = record { factory = some factory; state = uninitialized }

module _ {F P E : Type 0} where
  -- `factory.take()`, and the state behind it.
  abbrev take_factory :
      Option F → LazyProvider F P → (Result (Unit {0}) (Refusal E) ⊎ F) × LazyProvider F P
  take_factory none l = (inl (err (refused "factory consumed")), l)
  take_factory (some f) l = (inr f, record { factory = none; state = loading })

  -- `ensure_ready` up to the creation: either it ends, or it goes on to create with the factory.
  unfoldable pub enter : LazyProvider F P → (Result (Unit {0}) (Refusal E) ⊎ F) × LazyProvider F P
  enter l = elim l.state [
    | ready p ↦ (inl (ok tt), l)
    | failed message ↦ (inl (err (refused message)), l)
    | loading ↦ (inl (err (refused "model is loading")), l)
    | uninitialized ↦ take_factory l.factory l
  ]

  -- `ensure_ready` behind the creation; `show` is `to_string` of its error.
  unfoldable pub leave :
      (E → String)
      → Result P E
      → LazyProvider F P
      → Result (Unit {0}) (Refusal E) × LazyProvider F P
  leave show (ok p) l = (ok tt, record l { state = ready p })
  leave show (err e) l = (err (creation_failed e), record l { state = failed (show e) })
