-- ===== src/Runtime/Manager/Download/Verified.antt =====
-- What a finished download has left in the directory of models.
use mathlib.Core.Path.{subst}
use cotrex_ai.Base.{
  refl, true, ◌⊎◌, ap, sym, ℕ, suc, ◌≡◌, inl, inr, String, ◌<>◌, Option, none, some, Option-cases,
  List, length, take, Result-cases, ok, arith, bound_inv, ==_iff, list_eq, nat_eq, string_eq,
  Bool-cases,
}
use cotrex_ai.FilePath.{FilePath}
use cotrex_ai.Runtime.Manager.{ModelDefinition}
use cotrex_ai.Runtime.Manager.Storage.{Files, model_file_path}
use cotrex_ai.Runtime.Manager.Download.{
  Network, Digest, gguf, check_magic, verify_gguf_magic, verify_file_size, compare_digest,
  verify_sha256, verify_digest, download_url, install, fresh_download, installed, fetch_to, keep,
  download_model,
}
use cotrex_ai.Runtime.Manager.Download.Hashed.{Streaming, hash_loop_all}

-- The size of a file is the number of its bytes, and a file that is renamed keeps them.
pub record FileLaws (F : Files) : Type 0 where
  pub size_measures :
      (path : FilePath) (s : F.State) (n : ℕ) (bytes : List ℕ)
      → F.size path s ≡ ok n
      → F.contents path s ≡ ok bytes
      → n ≡ length bytes
  pub rename_moves :
      (part final : FilePath) (s : F.State) (bytes : List ℕ)
      → (F.rename part final s).0 ≡ ok tt
      → F.contents part s ≡ ok bytes
      → F.contents final (F.rename part final s).1 ≡ ok bytes

module _ (F : Files) where
  magic_ok :
      (path : FilePath) (s : F.State)
      → verify_gguf_magic F path s ≡ ok tt
      → (bytes : List ℕ) × (F.contents path s ≡ ok bytes) × (take 4 bytes ≡ gguf)
  unfolding verify_gguf_magic check_magic
  magic_ok path s h = elim (Result-cases (F.contents path s)) [
    | inr (e, bad) ↦ ground (arith, bad, h)
    | inl (bytes, good) ↦ (bytes, good, ground (arith, good, h, ==_iff (take 4 bytes) gguf))
  ]

  size_ok :
      FileLaws F
      → (path : FilePath) (expected : ℕ) (s : F.State) (bytes : List ℕ)
      → verify_file_size F path expected s ≡ ok tt
      → F.contents path s ≡ ok bytes
      → length bytes ≡ expected
  unfolding verify_file_size
  size_ok law path expected s bytes h good = elim (Result-cases (F.size path s)) [
    | inr (e, bad) ↦ ground (arith, bad, h)
    | inl (n, found) ↦ ground (arith, found, h, law.size_measures path s n bytes found good)
  ]

module _ (F : Files) (D : Digest) where
  digest_ok :
      Streaming D
      → (path : FilePath) (expected : Option String) (s : F.State) (bytes : List ℕ)
      → verify_digest F D path expected s ≡ ok tt
      → F.contents path s ≡ ok bytes
      → (expected ≡ none) ⊎ (expected ≡ some (D.hex (D.update bytes D.start)))
  unfolding verify_digest verify_sha256 compare_digest
  digest_ok law path none s bytes h good = inl refl
  digest_ok law path (some d) s bytes h good =
      let whole = hash_loop_all D law (suc (length bytes)) bytes D.start (omega arith) in
      let same : D.hex (D.update bytes D.start) ≡ d =
        ground (arith, good, whole, h, ==_iff (D.hex (D.update bytes D.start)) d) in
      inr (ap (λ x. some x) (sym same))

  -- A file that has passed the checks of its first bytes and of its digest.
  abbrev pub Checked : ModelDefinition → FilePath → F.State → List ℕ → Type 0
  Checked model path s bytes =
      (F.contents path s ≡ ok bytes)
      × (take 4 bytes ≡ gguf)
      × ((model.sha256 ≡ none) ⊎ (model.sha256 ≡ some (D.hex (D.update bytes D.start))))

  check_both :
      Streaming D
      → (model : ModelDefinition) (path : FilePath) (s : F.State)
      → verify_gguf_magic F path s ≡ ok tt
      → verify_digest F D path model.sha256 s ≡ ok tt
      → (bytes : List ℕ) × Checked model path s bytes
  check_both law model path s magic digest =
      let (bytes, found, begins) = magic_ok F path s magic in
      (bytes, (found, begins, digest_ok law path model.sha256 s bytes digest found))

  module _ (N : Network) where
    keep_ok :
        Streaming D
        → (model : ModelDefinition) (final path : FilePath) (s t : F.State)
        → keep F N D model final s ≡ (ok (some path), t)
        → (path ≡ final) × ((bytes : List ℕ) × Checked model final t bytes)
    unfolding keep
    keep_ok law model final path s t h =
        let facts : (verify_gguf_magic F final s ≡ ok tt)
            × (verify_digest F D final model.sha256 s ≡ ok tt)
            × (path ≡ final)
            × (s ≡ t) =
          ground arith in
        (
          facts.2,
          subst (λ u. (bytes : List ℕ) × Checked model final u bytes) facts.3
              (check_both law model final s facts.0 facts.1),
        )

    install_ok :
        Streaming D
        → FileLaws F
        → (model : ModelDefinition) (part final path : FilePath) (s t : F.State)
        → install F N D model part final s ≡ (ok (some path), t)
        → (path ≡ final)
          × ((bytes : List ℕ) × Checked model final t bytes × (length bytes ≡ model.size))
    unfolding install
    install_ok law files model part final path s t h =
        let facts : (verify_gguf_magic F part s ≡ ok tt)
            × (verify_digest F D part model.sha256 s ≡ ok tt)
            × (verify_file_size F part model.size s ≡ ok tt)
            × ((F.rename part final s).0 ≡ ok tt)
            × (path ≡ final)
            × ((F.rename part final s).1 ≡ t) =
          ground arith in
        let (bytes, good) = check_both law model part s facts.0 facts.1 in
        let moved = files.rename_moves part final s bytes facts.3 good.0 in
        (
          facts.4,
          (
            bytes,
            (subst (λ u. F.contents final u ≡ ok bytes) facts.5 moved, good.1, good.2),
            size_ok F files part model.size s bytes facts.2 good.0,
          ),
        )

    fresh_ok :
        Streaming D
        → FileLaws F
        → (fuel : ℕ) (model : ModelDefinition) (final path : FilePath) (s t : F.State)
        → fresh_download F N D fuel model final s ≡ (ok (some path), t)
        → (path ≡ final)
          × ((bytes : List ℕ) × Checked model final t bytes × (length bytes ≡ model.size))
    unfolding fresh_download
    fresh_ok law files fuel model final path s t h =
        let (part, s1, named, after) =
          bound_inv (fetch_to F N D fuel model final)
            (model_file_path F (model.filename <> ".part") s) h in
        let (done, s2, fetched, last) =
          bound_inv (installed F N D model part final) (download_url F N fuel model.url part s1)
            after in
        elim (Option-cases done) [
          | inl nothing ↦ ground (arith, nothing, last)
          | inr (u, something) ↦ install_ok law files model part final path s2 t (
              subst (λ d. installed F N D model part final d s2 ≡ (ok (some path), t)) something
                last)
        ]

    -- A download that succeeds answers with the path of the model's file, and the file at that path
    -- then starts with the bytes of "GGUF" and has the digest that the registry gives, where it
    -- gives one. Where the file was not there before, it also has the size that the registry gives.
    pub download_verified :
        Streaming D
        → FileLaws F
        → (fuel : ℕ) (model : ModelDefinition) (final path : FilePath) (s s1 t : F.State)
        → model_file_path F model.filename s ≡ (ok final, s1)
        → download_model F N D fuel model s ≡ (ok (some path), t)
        → (path ≡ final)
          × ((bytes : List ℕ) × Checked model final t bytes
              × ((F.exists final s1 ≡ true) ⊎ (length bytes ≡ model.size)))
    unfolding download_model
    download_verified law files fuel model final path s s1 t named h =
        elim (Bool-cases (F.exists final s1)) [
          | inl there ↦
              let k = keep_ok law model final path s1 t (ground (arith, there, named, h)) in
              (k.0, (k.1.0, k.1.1, inl there))
          | inr absent ↦
              let k =
                fresh_ok law files fuel model final path s1 t (ground (arith, absent, named, h)) in
              (k.0, (k.1.0, k.1.1, inr k.1.2))
        ]
