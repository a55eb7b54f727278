-- ===== src/Runtime/Manager/Download/Ending.antt =====
-- The download ends where the body of the answer does.
use mathlib.Core.Path.{fun_ext}
use cotrex_ai.Base.{
  ℕ, ◌<◌, ◌≡◌, ◌≢◌, String, ◌<>◌, Bool-cases, inl, inr, Option, none, some, List, length, Result,
  ok, err, map_err, Method, ◌>>=◌, ◌>>◌, pure, lift, bound, refl, ap, sym, ◌∙◌, nat_beq, raise,
  if◌then◌else◌,
}
use cotrex_ai.Base.Text.{show_u64}
use cotrex_ai.FilePath.{FilePath}
use cotrex_ai.Runtime.Manager.{ModelManagerError, io_error, download_failed, ModelDefinition}
use cotrex_ai.Runtime.Manager.Storage.{Files, io, model_file_path}
use cotrex_ai.Runtime.Manager.Download.{
  Network, Digest, copy, fetch, flushed, download_url, fetch_to, installed, fresh_download, install,
  keep, choose, download_model, look, verify_gguf_magic, verify_digest, verify_file_size,
}
use cotrex_ai.Runtime.Manager.Download.Copied.{Ends, write_each, copy_all}

-- A call that does not end with `none`.
abbrev Settled : {S A : Type 0} → Result (Option A) ModelManagerError × S → Type 0
Settled o = o.0 ≢ ok none

bound-Settled :
    {S A B : Type 0} (f : A → Method S (Option B) ModelManagerError)
    (o : Result A ModelManagerError × S)
    → ((a : A) (s : S) → Settled (f a s))
    → Settled (bound f o)
bound-Settled f (ok a, s) all = all a s
bound-Settled f (err e, s) all = λ h. cc h

some-Settled :
    {S A B : Type 0} (f : Option A → Method S (Option B) ModelManagerError)
    (o : Result (Option A) ModelManagerError × S)
    → Settled o
    → ((a : A) (s : S) → Settled (f (some a) s))
    → Settled (bound f o)
some-Settled f (ok (some a), s) one all = all a s
some-Settled f (ok none, s) one all = λ h. one refl
some-Settled f (err e, s) one all = λ h. cc h

module _ (F : Files) (N : Network) (D : Digest) where
  copy-Settled :
      (fuel : ℕ) (dest : FilePath) {reader : N.Reader} {chunks : List (List ℕ)}
      {r : Result (Unit {0}) String}
      → Ends N reader chunks r
      → length chunks < fuel
      → (s : F.State) → Settled (copy F N fuel dest reader s)
  copy-Settled fuel dest {reader} {chunks} {r} ends enough s =
      rw (copy_all F N fuel dest ends enough s) (
        bound-Settled (λ u. pure (some tt))
          ((write_each F N dest chunks >> lift (map_err io_error r)) s) (λ u t h. cc h))

  fetch-Settled :
      (fuel : ℕ) (dest : FilePath) (status : ℕ) {reader : N.Reader} {chunks : List (List ℕ)}
      {r : Result (Unit {0}) String}
      → Ends N reader chunks r
      → length chunks < fuel
      → (s : F.State) → Settled (fetch F N fuel dest (status, reader) s)
  unfolding fetch
  fetch-Settled fuel dest status {reader} ends enough s = elim (Bool-cases (nat_beq status 200)) [
    | inr other ↦ rw (other, fetch) (λ h. cc h)
    | inl fine ↦
        rw (fine, fetch)
          (some-Settled (flushed F N dest) ((io F (F.create dest) >> copy F N fuel dest reader) s)
            (bound-Settled (λ u. copy F N fuel dest reader) (io F (F.create dest) s)
              (λ u. copy-Settled fuel dest ends enough))
            (λ u t. bound-Settled (λ v. pure (some u)) (io F (F.flush dest) t) (λ v w h. cc h)))
  ]

  url_Settled :
      (model : ModelDefinition) (status : ℕ) {reader : N.Reader} {chunks : List (List ℕ)}
      {r : Result (Unit {0}) String}
      → N.get model.url ≡ ok (status, reader)
      → Ends N reader chunks r
      → (fuel : ℕ) → length chunks < fuel
      → (dest : FilePath) (s : F.State) → Settled (download_url F N fuel model.url dest s)
  unfolding download_url
  url_Settled model status got ends fuel enough dest s =
      rw got (fetch-Settled fuel dest status ends enough s)

  install-Settled :
      (model : ModelDefinition) (part final : FilePath) (s : F.State)
      → Settled (install F N D model part final s)
  unfolding install
  install-Settled model part final s =
      (bound-Settled (λ u. pure (some final))
        ((look F N D (verify_gguf_magic F part)
            >> look F N D (verify_digest F D part model.sha256)
            >> look F N D (verify_file_size F part model.size)
            >> io F (F.rename part final))
          s)
        (λ u t h. cc h))

  keep-Settled :
      (model : ModelDefinition) (final : FilePath) (s : F.State)
      → Settled (keep F N D model final s)
  unfolding keep
  keep-Settled model final s =
      (bound-Settled (λ u. pure (some final))
        ((look F N D (verify_gguf_magic F final)
            >> look F N D (verify_digest F D final model.sha256))
          s)
        (λ u t h. cc h))

  choose-Settled :
      (model : ModelDefinition) (status : ℕ) {reader : N.Reader} {chunks : List (List ℕ)}
      {r : Result (Unit {0}) String}
      → N.get model.url ≡ ok (status, reader)
      → Ends N reader chunks r
      → (fuel : ℕ) → length chunks < fuel
      → (final : FilePath) (s : F.State) → Settled (choose F N D fuel model final s)
  unfolding fresh_download
  choose-Settled model status got ends fuel enough final s = elim (Bool-cases (F.exists final s)) [
    | inl there ↦ rw there (keep-Settled model final s)
    | inr absent ↦ rw absent (
        bound-Settled (fetch_to F N D fuel model final)
          (model_file_path F (model.filename <> ".part") s)
          (λ part t.
            some-Settled (installed F N D model part final) (download_url F N fuel model.url part t)
              (url_Settled model status got ends fuel enough part t)
              (λ u. install-Settled model part final)))
  ]

  -- With enough fuel, the download of a body is one method, whatever the fuel.
  copy_same :
      {reader : N.Reader} {chunks : List (List ℕ)} {r : Result (Unit {0}) String}
      → Ends N reader chunks r
      → (fuel more_fuel : ℕ) → length chunks < fuel
      → length chunks < more_fuel
      → (dest : FilePath) → copy F N fuel dest reader ≡ copy F N more_fuel dest reader
  copy_same ends fuel more_fuel a b dest =
      fun_ext (λ s. copy_all F N fuel dest ends a s ∙ sym (copy_all F N more_fuel dest ends b s))

  fetch_same :
      {reader : N.Reader} {chunks : List (List ℕ)} {r : Result (Unit {0}) String} (status : ℕ)
      → Ends N reader chunks r
      → (fuel more_fuel : ℕ) → length chunks < fuel
      → length chunks < more_fuel
      → (dest : FilePath)
      → fetch F N fuel dest (status, reader) ≡ fetch F N more_fuel dest (status, reader)
  unfolding fetch
  fetch_same status ends fuel more_fuel a b dest =
      ap
        (λ body.
          if nat_beq status 200
          then (io F (F.create dest) >> body >>= flushed F N dest)
          else raise (download_failed ("HTTP " <> show_u64 status)))
        (copy_same ends fuel more_fuel a b dest)

  fresh_same :
      (model : ModelDefinition) (status : ℕ) {reader : N.Reader} {chunks : List (List ℕ)}
      {r : Result (Unit {0}) String}
      → N.get model.url ≡ ok (status, reader)
      → Ends N reader chunks r
      → (fuel more_fuel : ℕ) → length chunks < fuel
      → length chunks < more_fuel
      → (final : FilePath)
      → fresh_download F N D fuel model final ≡ fresh_download F N D more_fuel model final
  unfolding fresh_download download_url
  fresh_same model status got ends fuel more_fuel a b final =
      ap (λ k. model_file_path F (model.filename <> ".part") >>= k)
        (fun_ext (λ part. fun_ext (λ s. rw got (
          ap (λ m. bound (installed F N D model part final) (m s))
            (fetch_same status ends fuel more_fuel a b part)))))

  choose_same :
      (model : ModelDefinition) (status : ℕ) {reader : N.Reader} {chunks : List (List ℕ)}
      {r : Result (Unit {0}) String}
      → N.get model.url ≡ ok (status, reader)
      → Ends N reader chunks r
      → (fuel more_fuel : ℕ) → length chunks < fuel
      → length chunks < more_fuel
      → choose F N D fuel model ≡ choose F N D more_fuel model
  choose_same model status got ends fuel more_fuel a b =
      ap (λ fresh final s. if F.exists final s then keep F N D model final s else fresh final s)
        (fun_ext (fresh_same model status got ends fuel more_fuel a b))

  -- Where the body of the answer ends, by its end or by an error, any fuel above the number of its
  -- buffers is enough: the download comes to an end, and to the same one with any such fuel.
  pub download_finishes :
      (model : ModelDefinition) (s : F.State) (status : ℕ) (reader : N.Reader)
      (chunks : List (List ℕ)) (r : Result (Unit {0}) String)
      → N.get model.url ≡ ok (status, reader)
      → Ends N reader chunks r
      → (fuel more_fuel : ℕ) → length chunks < fuel
      → length chunks < more_fuel
      → ((download_model F N D fuel model s).0 ≢ ok none)
        × (download_model F N D fuel model s ≡ download_model F N D more_fuel model s)
  unfolding download_model
  download_finishes model s status reader chunks r got ends fuel more_fuel a b = (
    bound-Settled (choose F N D fuel model) (model_file_path F model.filename s)
        (choose-Settled model status got ends fuel a),
    ap (λ k. bound k (model_file_path F model.filename s))
        (choose_same model status got ends fuel more_fuel a b),
  )
