-- ===== src/Runtime/Manager/Download.antt =====
-- The downloader (runtime/src/model_manager/downloader.rs), over the files, a network and a digest
-- as parameters. The callback that reports progress is left out.
pub mod Copied
pub mod Ending
pub mod Hashed
pub mod Verified
use cotrex_ai.Base.{
  ℕ, zero, suc, String, ◌<>◌, Bool, true, false, Option, none, some, List, [], ◌∷◌, length, take,
  drop, is_empty, Result, ok, err, map_err, and_then, Method, ◌>>=◌, ◌>>◌, pure, raise, lift, ltb,
  nat_beq, if◌then◌else◌, ◌==◌, string_eq, list_eq, nat_eq,
}
use cotrex_ai.Base.Text.{show_u64}
use cotrex_ai.FilePath.{FilePath}
use cotrex_ai.Runtime.Manager.{
  ModelManagerError, download_failed, checksum_mismatch, io_error, ModelDefinition,
}
use cotrex_ai.Runtime.Manager.Storage.{Files, io, model_file_path}

-- ureq: a request answers with a status and the reader of its body, which gives at most a buffer of
-- bytes at a time, and none at its end.
pub record Network : Type 1 where
  pub Reader : Type 0
  pub get : String → Result (ℕ × Reader) String
  pub read : Reader → Result (List ℕ) String × Reader

-- `Sha256`, and `hex::encode` of its result.
pub record Digest : Type 1 where
  pub Hasher : Type 0
  pub start : Hasher
  pub update : List ℕ → Hasher → Hasher
  pub hex : Hasher → String

-- The bytes of "GGUF".
abbrev pub gguf : List ℕ
gguf = 71 ∷ 71 ∷ 85 ∷ 70 ∷ []

abbrev commas : List ℕ → String
commas [] = ""
commas (n ∷ []) = show_u64 n
commas (n ∷ (m ∷ ms)) = show_u64 n <> ", " <> commas (m ∷ ms)

module _ (F : Files) where
  -- `read_exact` of four bytes, and the comparison.
  unfoldable pub check_magic : List ℕ → Result (Unit {0}) ModelManagerError
  check_magic bytes =
      let magic = take 4 bytes in
      if ltb (length magic) 4
      then err (io_error "failed to fill whole buffer")
      else if magic == gguf
      then ok tt
      else err (checksum_mismatch "GGUF magic bytes" ("[" <> commas magic <> "]"))

  unfoldable pub verify_gguf_magic : FilePath → F.State → Result (Unit {0}) ModelManagerError
  verify_gguf_magic path s = and_then (map_err io_error (F.contents path s)) check_magic

  unfoldable pub verify_file_size : FilePath → ℕ → F.State → Result (Unit {0}) ModelManagerError
  verify_file_size path expected s = and_then (map_err io_error (F.size path s)) (λ n.
      if nat_beq n expected
      then ok tt
      else err (checksum_mismatch (show_u64 expected <> " bytes") (show_u64 n <> " bytes")))

-- The loop over a file in buffers of 8192 bytes; the fuel is enough where it exceeds the length.
unfoldable pub hash_loop : (D : Digest) → ℕ → List ℕ → D.Hasher → Option D.Hasher
hash_loop D zero bytes h = none
hash_loop D (suc fuel) bytes h =
    let rest = hash_loop D fuel (drop 8192 bytes) (D.update (take 8192 bytes) h) in
    if is_empty (take 8192 bytes) then some h else rest

module _ (F : Files) (D : Digest) where
  unfoldable pub compare_digest : String → Option D.Hasher → Result (Unit {0}) ModelManagerError
  compare_digest expected none = err (io_error "out of fuel")
  compare_digest expected (some h) =
      if D.hex h == expected then ok tt else err (checksum_mismatch expected (D.hex h))

  unfoldable pub verify_sha256 : FilePath → String → F.State → Result (Unit {0}) ModelManagerError
  verify_sha256 path expected s =
      and_then (map_err io_error (F.contents path s))
        (λ bytes. compare_digest expected (hash_loop D (suc (length bytes)) bytes D.start))

  -- `if let Some(ref expected) = model.sha256`
  unfoldable pub verify_digest :
      FilePath → Option String → F.State → Result (Unit {0}) ModelManagerError
  verify_digest path none s = ok tt
  verify_digest path (some expected) s = verify_sha256 path expected s

module _ (F : Files) (N : Network) where
  -- The loop of `download_url`, which ends with `none` where the fuel is used up before the body.
  unfoldable pub copy :
      ℕ → FilePath → N.Reader → Method F.State (Option (Unit {0})) ModelManagerError
  copy zero dest reader = pure none
  copy (suc fuel) dest reader =
      let (r, left) = N.read reader in
      elim r [
        | err e ↦ raise (io_error e)
        | ok [] ↦ pure (some tt)
        | ok (b ∷ bs) ↦ io F (F.write_all dest (b ∷ bs)) >> copy fuel dest left
      ]

  abbrev pub flushed :
      FilePath → Option (Unit {0}) → Method F.State (Option (Unit {0})) ModelManagerError
  flushed dest done = io F (F.flush dest) >> pure done

  -- `download_url` from the answer of the server on.
  unfoldable pub fetch :
      ℕ → FilePath → ℕ × N.Reader → Method F.State (Option (Unit {0})) ModelManagerError
  fetch fuel dest (status, reader) =
      if nat_beq status 200
      then (io F (F.create dest) >> copy fuel dest reader >>= flushed dest)
      else raise (download_failed ("HTTP " <> show_u64 status))

  unfoldable pub download_url :
      ℕ → String → FilePath → Method F.State (Option (Unit {0})) ModelManagerError
  download_url fuel url dest =
      lift (map_err (λ e. download_failed ("request failed: " <> e)) (N.get url))
      >>= fetch fuel dest

module _ (F : Files) (N : Network) (D : Digest) where
  -- A check of a file, under `?`.
  abbrev pub look :
      (F.State → Result (Unit {0}) ModelManagerError) → Method F.State (Unit {0}) ModelManagerError
  look check s = (check s, s)

  -- The checks behind the download, and the renaming.
  unfoldable pub install :
      ModelDefinition → FilePath → FilePath → Method F.State (Option FilePath) ModelManagerError
  install model part final =
      look (verify_gguf_magic F part)
      >> look (verify_digest F D part model.sha256)
      >> look (verify_file_size F part model.size)
      >> io F (F.rename part final)
      >> pure (some final)

  abbrev pub installed :
      ModelDefinition
      → FilePath
      → FilePath
      → Option (Unit {0})
      → Method F.State (Option FilePath) ModelManagerError
  installed model part final none = pure none
  installed model part final (some u) = install model part final

  abbrev pub fetch_to :
      ℕ → ModelDefinition → FilePath → FilePath → Method F.State (Option FilePath) ModelManagerError
  fetch_to fuel model final part =
      download_url F N fuel model.url part >>= installed model part final

  -- The branch for a file that is not there yet.
  unfoldable pub fresh_download :
      ℕ → ModelDefinition → FilePath → Method F.State (Option FilePath) ModelManagerError
  fresh_download fuel model final =
      model_file_path F (model.filename <> ".part") >>= fetch_to fuel model final

  -- The branch for a file that is there already.
  unfoldable pub keep :
      ModelDefinition → FilePath → Method F.State (Option FilePath) ModelManagerError
  keep model final =
      look (verify_gguf_magic F final)
      >> look (verify_digest F D final model.sha256)
      >> pure (some final)

  abbrev pub choose :
      ℕ → ModelDefinition → FilePath → Method F.State (Option FilePath) ModelManagerError
  choose fuel model final s =
      if F.exists final s then keep model final s else fresh_download fuel model final s

  unfoldable pub download_model :
      ℕ → ModelDefinition → Method F.State (Option FilePath) ModelManagerError
  download_model fuel model = model_file_path F model.filename >>= choose fuel model
