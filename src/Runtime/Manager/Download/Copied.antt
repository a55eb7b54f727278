-- ===== src/Runtime/Manager/Download/Copied.antt =====
-- The download ends where the body does.
use cotrex_ai.Base.{
  ℕ, zero, suc, ◌<◌, ◌≡◌, String, Option, some, List, [], ◌∷◌, length, Result, ok, err, map_err,
  Method, ◌>>◌, pure, lift, bound, arith, refl, ap,
}
use cotrex_ai.FilePath.{FilePath}
use cotrex_ai.Runtime.Manager.{ModelManagerError, io_error}
use cotrex_ai.Runtime.Manager.Storage.{Files, io}
use cotrex_ai.Runtime.Manager.Download.{Network, copy}

-- A reader that gives some buffers of bytes and then its end, or an error.
pub data Ends (N : Network) : N.Reader → List (List ℕ) → Result (Unit {0}) String → Type 0 where
  at_end : {reader left : N.Reader} → N.read reader ≡ (ok [], left) → Ends N reader [] (ok tt)
  broken :
      {reader left : N.Reader} {e : String}
      → N.read reader ≡ (err e, left)
      → Ends N reader [] (err e)
  more :
      {reader left : N.Reader} {b : ℕ} {bs : List ℕ} {chunks : List (List ℕ)}
      {r : Result (Unit {0}) String}
      → N.read reader ≡ (ok (b ∷ bs), left)
      → Ends N left chunks r
      → Ends N reader ((b ∷ bs) ∷ chunks) r

module _ (F : Files) (N : Network) where
  -- The buffers written to a file one after another, up to the first write that fails.
  unfoldable pub write_each : FilePath → List (List ℕ) → Method F.State (Unit {0}) ModelManagerError
  write_each dest [] = pure tt
  write_each dest (c ∷ cs) = io F (F.write_all dest c) >> write_each dest cs

  go_on :
      (dest : FilePath) (chunks : List (List ℕ)) (r : Result (Unit {0}) String)
      (rest : Method F.State (Option (Unit {0})) ModelManagerError)
      → ((s : F.State)
          → rest s ≡ (write_each dest chunks >> lift (map_err io_error r) >> pure (some tt)) s)
      → (o : Result (Unit {0}) ModelManagerError × F.State)
      → bound (λ u. rest) o
        ≡ bound
            (λ u. pure (some tt))
            (bound (λ u. lift (map_err io_error r)) (bound (λ u. write_each dest chunks) o))
  go_on dest chunks r rest same (ok u, s) = same s
  go_on dest chunks r rest same (err e, s) = refl

  pub copy_all :
      (fuel : ℕ) (dest : FilePath) {reader : N.Reader} {chunks : List (List ℕ)}
      {r : Result (Unit {0}) String}
      → Ends N reader chunks r
      → length chunks < fuel
      → (s : F.State)
      → copy F N fuel dest reader s
        ≡ (write_each dest chunks >> lift (map_err io_error r) >> pure (some tt)) s
  unfolding copy write_each
  copy_all (suc fuel) dest (at_end h) enough s = rw (h, copy) refl
  copy_all (suc fuel) dest (broken h) enough s = rw (h, copy) refl
  copy_all (suc fuel) dest (more {left} {b} {bs} {chunks} {r} h ends) enough s =
      rw (ap (λ x. x.0) h, ap (λ x. x.1) h, copy)
        (go_on dest chunks r (copy F N fuel dest left) (copy_all fuel dest ends (omega arith))
          (io F (F.write_all dest (b ∷ bs)) s))
  copy_all zero dest ends enough s = ground arith
