-- ===== src/Execution/Registry.antt =====
-- The registry of executors (execution/src/registry.rs).
use cotrex_ai.Base.{
  ℕ, suc, ◌≡◌, ◌≢◌, ◌↔◌, refl, inl, inr, Bool, true, false, Option, none, some, [], ◌∷◌, arith,
  length, Eq, ok, err, Method, Option-cases,
}
use cotrex_ai.Base.Map
use cotrex_ai.Base.Map.{Map, get-insert}
use cotrex_ai.Execution.Request.{
  ExecutionAction, run, write, delete, Executor, RegistryError, duplicate_executor,
}

pub data ExecutionActionDiscriminant : Type 0 where
  command_run file_write file_delete : ExecutionActionDiscriminant

abbrev pub discriminant_beq : ExecutionActionDiscriminant → ExecutionActionDiscriminant → Bool
discriminant_beq command_run command_run = true
discriminant_beq file_write file_write = true
discriminant_beq file_delete file_delete = true
discriminant_beq _ _ = false

pub discriminant_beq_iff :
    (a b : ExecutionActionDiscriminant) → (discriminant_beq a b ≡ true) ↔ (a ≡ b)
discriminant_beq_iff command_run b = ground arith
discriminant_beq_iff _ b = ground arith

instance abbrev pub discriminant_eq : Eq ExecutionActionDiscriminant
discriminant_eq = record { beq = discriminant_beq; beq_iff = discriminant_beq_iff }

-- `ExecutionActionDiscriminant::from`
unfoldable pub discriminant : ExecutionAction → ExecutionActionDiscriminant
discriminant (run command wd) = command_run
discriminant (write path content wd) = file_write
discriminant (delete path wd) = file_delete

pub record ExecutorRegistry (W : Type 0) : Type 0 where
  pub executors : Map ExecutionActionDiscriminant (Executor W)

module _ {W : Type 0} where
  unfoldable pub new : ExecutorRegistry W
  new = record { executors = [] }

  unfoldable pub register :
      ExecutionActionDiscriminant
      → Executor W
      → Method (ExecutorRegistry W) (Unit {0}) RegistryError
  register d executor r = elim (Map.get d r.executors) [
    | some _ ↦ (err duplicate_executor, r)
    | none ↦ (ok tt, record { executors = Map.insert d executor r.executors })
  ]

  unfoldable pub get : ExecutorRegistry W → ExecutionAction → Option (Executor W)
  unfolding discriminant
  get r action = Map.get (discriminant action) r.executors

  unfoldable pub len : ExecutorRegistry W → ℕ
  len r = length r.executors

  length-insert_new :
      (d : ExecutionActionDiscriminant) (x : Executor W)
      (m : Map ExecutionActionDiscriminant (Executor W))
      → Map.get d m ≡ none
      → length (Map.insert d x m) ≡ suc (length m)
  unfolding Map.get Map.insert
  length-insert_new d x [] h = refl
  length-insert_new d x ((k, y) ∷ m) h =
      ground (arith, length-insert_new d x m, discriminant_beq_iff k d)

  -- A registration that succeeds adds one executor, which alone its actions find from then on, and
  -- there was none for them; every other action finds what it found.
  pub register_ok :
      (d : ExecutionActionDiscriminant) (x : Executor W) (r : ExecutorRegistry W)
      → (register d x r).0 ≡ ok tt
      → (len (register d x r).1 ≡ suc (len r))
        × ((a : ExecutionAction)
            → (discriminant a ≡ d → (get r a ≡ none) × (get (register d x r).1 a ≡ some x))
              × (discriminant a ≢ d → get (register d x r).1 a ≡ get r a))
  unfolding register get len
  register_ok d x r h = elim (Option-cases (Map.get d r.executors)) [
    | inl free ↦ (
      ground (arith, free, length-insert_new d x r.executors free),
      λ a. (
        λ same. ground (
          arith,
          free,
          get-insert d (discriminant a) x r.executors,
          discriminant_beq_iff d (discriminant a),
        ),
        λ other. ground (
          arith,
          free,
          get-insert d (discriminant a) x r.executors,
          discriminant_beq_iff d (discriminant a),
        ),
      ),
    )
    | inr (y, taken) ↦ ground (arith, taken, h)
  ]

  -- A registration that fails found an executor in its place and changes nothing.
  pub register_err :
      (d : ExecutionActionDiscriminant) (x : Executor W) (r : ExecutorRegistry W)
      (e : RegistryError)
      → (register d x r).0 ≡ err e
      → ((register d x r).1 ≡ r) × (Map.get d r.executors ≢ none)
  unfolding register
  register_err d x r e h = ground arith
