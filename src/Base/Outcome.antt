-- ===== src/Base/Outcome.antt =====
-- Rust's `Result`, and methods that change an object and may fail: what was written before an
-- early return stays written, so that the object comes back beside an error too.
use mathlib.Core.Path.{◌≡◌, refl, ap}
use mathlib.Core.Logic.{◌⊎◌, inl, inr}
use mathlib.Core.Bool.{Bool, true, false}
use mathlib.Core.Option.{Option, none, some}

pub data Result {ℓ κ} (A : Type ℓ) (E : Type κ) : Type (ℓ ⊔ κ) where
  ok : A → Result A E
  err : E → Result A E

module _ {ℓ κ} {A : Type ℓ} {E : Type κ} where
  abbrev is_ok : Result A E → Bool
  is_ok (ok a) = true
  is_ok (err e) = false

  -- `Option::ok_or_else`
  abbrev pub ok_or : Option A → E → Result A E
  ok_or none e = err e
  ok_or (some a) e = ok a

-- The `?` operator on a value.
abbrev pub and_then {ℓ κ ν} :
    {A : Type ℓ} {B : Type κ} {E : Type ν} → Result A E → (A → Result B E) → Result B E
and_then (ok a) f = f a
and_then (err e) f = err e

abbrev pub map_err {ℓ κ ν} :
    {A : Type ℓ} {E : Type κ} {F : Type ν} → (E → F) → Result A E → Result A F
map_err f (ok a) = ok a
map_err f (err e) = err (f e)

-- A method of an object of type `S`.
abbrev pub Method : Type 0 → Type 0 → Type 0 → Type 0
Method S A E = S → Result A E × S

abbrev pub bound : {S A B E : Type 0} → (A → Method S B E) → Result A E × S → Result B E × S
bound f (ok a, s) = f a s
bound f (err e, s) = (err e, s)

-- The `?` operator on a method's result, with the rest of the body.
infixl 5 ◌>>=◌ ◌>>◌
abbrev pub ◌>>=◌ : {S A B E : Type 0} → Method S A E → (A → Method S B E) → Method S B E
◌>>=◌ m f s = bound f (m s)

abbrev pub ◌>>◌ : {S B E : Type 0} → Method S (Unit {0}) E → Method S B E → Method S B E
m >> k = m >>= λ _. k

abbrev pub pure : {S A E : Type 0} → A → Method S A E
pure a s = (ok a, s)

abbrev pub raise : {S A E : Type 0} → E → Method S A E
raise e s = (err e, s)

-- A value that the outside world or another object has computed.
abbrev pub lift : {S A E : Type 0} → Result A E → Method S A E
lift r s = (r, s)

-- A body goes on where its first call succeeds, and ends with the error where it fails.
pub bind_ok :
    {S A B E : Type 0} (m : Method S A E) (f : A → Method S B E) {s t : S} {a : A}
    → m s ≡ (ok a, t)
    → (m >>= f) s ≡ f a t
bind_ok m f h = ap (bound f) h

bind_err :
    {S A B E : Type 0} (m : Method S A E) (f : A → Method S B E) {s t : S} {e : E}
    → m s ≡ (err e, t)
    → (m >>= f) s ≡ (err e, t)
bind_err m f h = ap (bound f) h

pub bound_ok :
    {S A B E : Type 0} (f : A → Method S B E) (r : Result A E × S) {a : A}
    → r.0 ≡ ok a
    → bound f r ≡ f a r.1
bound_ok f (x, s) h = ap (λ y. bound f (y, s)) h

pub bound_err :
    {S A B E : Type 0} (f : A → Method S B E) (r : Result A E × S) {e : E}
    → r.0 ≡ err e
    → bound f r ≡ (err e, r.1)
bound_err f (x, s) h = ap (λ y. bound f (y, s)) h

pub Result-cases {ℓ κ} :
    {A : Type ℓ} {E : Type κ} (r : Result A E) → ((a : A) × (r ≡ ok a)) ⊎ ((e : E) × (r ≡ err e))
Result-cases (ok a) = inl (a, refl)
Result-cases (err e) = inr (e, refl)

-- A body that has succeeded has got past its first call.
pub bound_inv :
    {S A B E : Type 0} (f : A → Method S B E) (r : Result A E × S) {b : B} {t : S}
    → bound f r ≡ (ok b, t)
    → (a : A) × (s : S) × (r ≡ (ok a, s)) × (f a s ≡ (ok b, t))
bound_inv f (ok a, s) h = (a, s, refl, h)
bound_inv f (err e, s) h = cc (ap (λ x. x.0) h)
