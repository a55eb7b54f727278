-- ===== src/Execution/Executors/Confined.antt =====
-- What the file executors do to the file system, and when they leave it alone.
use mathlib.Core.Path.{subst}
use cotrex_ai.Base.{
  ℕ, String, ◌≡◌, ◌≢◌, ◌⊎◌, inl, inr, refl, true, false, List, All, Result, ok, err, Result-cases,
  Bool-cases, ◌∙◌, ap, ◌<>◌, sym, Method, ◌>>◌, pure, bound_ok, bound_err,
}
use cotrex_ai.FilePath.{FilePath, is_absolute, parent_dir, join, parent}
use cotrex_ai.Execution.Request.{
  ExecutionAction, run, write, delete, ExecutionRequest, ExecutionResult, ExecutionError,
  executor_failed, internal,
}
use cotrex_ai.Execution.System.{System}
use cotrex_ai.Execution.PathValidation.{validate_raw_path, resolve_within}
use cotrex_ai.Execution.PathValidation.Resolved.{validate_raw_path_lem, Within, resolve_within_ok}
use cotrex_ai.Execution.Executors.{
  calling, create_parents, save, write_file, file_write, delete_file, file_delete, done,
}

module _ (O : System) (debug : ExecutionAction → String) (s : O.State) where
  -- The path is relative, has no parent component, and resolves to a place in the working directory.
  abbrev pub Confined : FilePath → FilePath → Type 0
  Confined wd path =
      (is_absolute path ≡ false) × All (λ c. c ≢ parent_dir) path × Within O s wd path

  -- A path passes both checks, or one of them refuses it.
  pub checks :
      (wd path : FilePath)
      → ((x : ExecutionError) × (validate_raw_path path ≡ err x))
        ⊎ ((x : ExecutionError) × (validate_raw_path path ≡ ok tt)
            × (resolve_within O s wd path ≡ err x))
        ⊎ (validate_raw_path path ≡ ok tt)
          × (resolve_within O s wd path ≡ ok (join wd path))
          × Confined wd path
  checks wd path = elim (Result-cases (validate_raw_path path)) [
    | inr (x, bad) ↦ inl (x, bad)
    | inl (unit, valid) ↦ elim (Result-cases (resolve_within O s wd path)) [
      | inr (x, bad) ↦ inr (inl (x, valid, bad))
      | inl (target, found) ↦
          let (same, within) = resolve_within_ok O s wd path target found in
          let (relative, clean) = (validate_raw_path_lem path).0 valid in
          inr (inr (valid, found ∙ ap (λ p. ok p) same, (relative, clean, within)))
    ]
  ]

  -- What a write that was allowed ends with: a result only behind a write of the content to the path.
  abbrev pub Written :
      ℕ
      → ExecutionRequest
      → FilePath
      → List ℕ
      → Result ExecutionResult ExecutionError × O.State
      → Type 0
  Written ms q target content r =
      ((x : ExecutionError) × (r.0 ≡ err x))
      ⊎ (r.0 ≡ ok (done ms q)) × ((t : O.State) × (O.write target content t ≡ (ok tt, r.1)))

  save-Written :
      (ms : ℕ) (q : ExecutionRequest) (target : FilePath) (content : List ℕ) (t : O.State)
      → Written ms q target content (save O debug ms q target content t)
  unfolding save
  save-Written ms q target content t =
      let made = create_parents O debug (parent target) t in
      let rest : Unit {0} → Method O.State ExecutionResult ExecutionError =
        λ u. calling O debug "file write failed: " (O.write target content) >> pure (done ms q) in
      elim (Result-cases made.0) [
        | inr (x, bad) ↦ inl (x, ap (λ r. r.0) (bound_err rest made bad))
        | inl (u, good) ↦
            subst (Written ms q target content) (sym (bound_ok rest made good))
              (elim (Result-cases (O.write target content made.1).0) [
                | inr (y, bad) ↦ inl (executor_failed ("file write failed: " <> y), rw bad refl)
                | inl (v, good') ↦ inr (
                  rw good' refl,
                  (made.1, ap (λ r. (r, (O.write target content made.1).1)) good' ∙ rw good' refl),
                )
              ])
      ]

  write_cases :
      (ms : ℕ) (q : ExecutionRequest) (path : FilePath) (content : List ℕ) (wd : FilePath)
      → let r = write_file O debug ms q path content wd s in
        ((x : ExecutionError) × (r ≡ (err x, s)))
        ⊎ Confined wd path × Written ms q (join wd path) content r
  unfolding write_file
  write_cases ms q path content wd = elim (checks wd path) [
    | inl (x, bad) ↦ inl (x, rw bad refl)
    | inr (inl (x, valid, bad)) ↦ inl (x, rw (valid, bad) refl)
    | inr (inr (valid, found, confined)) ↦
        inr (confined, rw (valid, found) (save-Written ms q (join wd path) content s))
  ]

  abbrev WriteOutcome :
      ℕ → ExecutionRequest → Result ExecutionResult ExecutionError × O.State → Type 0
  WriteOutcome ms q r =
      ((x : ExecutionError) × (r ≡ (err x, s)))
      ⊎ ((path : FilePath) × (content : List ℕ) × (wd : FilePath) × (q.action
            ≡ write path content wd)
          × Confined wd path
          × Written ms q (join wd path) content r)

  by_action :
      (ms : ℕ) (q : ExecutionRequest) (a : ExecutionAction)
      → q.action ≡ a
      → WriteOutcome ms q (file_write O debug ms q s)
  unfolding file_write
  by_action ms q (write path content wd) h = elim (write_cases ms q path content wd) [
    | inl (x, same) ↦ inl (x, rw (h, file_write) same)
    | inr (confined, written) ↦ inr (path, content, wd, h, confined, rw (h, file_write) written)
  ]
  by_action ms q (run command wd) h = inl (
    internal ("FileWriteExecutor received non-FileWrite action: " <> debug (run command wd)),
    rw (h, file_write) refl,
  )
  by_action ms q (delete path wd) h = inl (
    internal ("FileWriteExecutor received non-FileWrite action: " <> debug (delete path wd)),
    rw (h, file_write) refl,
  )

  -- The executor of file writes either fails and leaves the file system as it was, or the request is
  -- a write to a path confined to the working directory; then a result means that the content has
  -- been written to that path, as the last thing done.
  pub file_write-Confined :
      (ms : ℕ) (q : ExecutionRequest)
      → let r = file_write O debug ms q s in
        ((x : ExecutionError) × (r ≡ (err x, s)))
        ⊎ ((path : FilePath) × (content : List ℕ) × (wd : FilePath) × (q.action
              ≡ write path content wd)
            × Confined wd path
            × Written ms q (join wd path) content r)
  file_write-Confined ms q = by_action ms q q.action refl

  -- What a deletion that was allowed ends with.
  abbrev Deleted :
      ℕ → ExecutionRequest → FilePath → Result ExecutionResult ExecutionError × O.State → Type 0
  Deleted ms q target r =
      (O.exists target s ≡ false) × (r ≡ (ok (done ms q), s))
      ⊎ (O.exists target s ≡ true)
        × (((x : ExecutionError) × (r.0 ≡ err x))
            ⊎ (r.0 ≡ ok (done ms q)) × (O.remove_file target s ≡ (ok tt, r.1)))

  delete_cases :
      (ms : ℕ) (q : ExecutionRequest) (path wd : FilePath)
      → let r = delete_file O debug ms q path wd s in
        ((x : ExecutionError) × (r ≡ (err x, s))) ⊎ Confined wd path × Deleted ms q (join wd path) r
  unfolding delete_file
  delete_cases ms q path wd = elim (checks wd path) [
    | inl (x, bad) ↦ inl (x, rw bad refl)
    | inr (inl (x, valid, bad)) ↦ inl (x, rw (valid, bad) refl)
    | inr (inr (valid, found, confined)) ↦ inr (
      confined,
      elim (Bool-cases (O.exists (join wd path) s)) [
        | inr absent ↦ inl (absent, rw (valid, found, absent) refl)
        | inl there ↦ inr (
          there,
          elim (Result-cases (O.remove_file (join wd path) s).0) [
            | inr (y, bad) ↦
                inl (
                  executor_failed ("file delete failed: " <> y),
                  rw (valid, found, there, bad) refl,
                )
            | inl (u, good) ↦ inr (
              rw (valid, found, there, good) refl,
              ap (λ r. (r, (O.remove_file (join wd path) s).1)) good
                  ∙ rw (valid, found, there, good) refl,
            )
          ],
        )
      ],
    )
  ]

  abbrev DeleteOutcome :
      ℕ → ExecutionRequest → Result ExecutionResult ExecutionError × O.State → Type 0
  DeleteOutcome ms q r =
      ((x : ExecutionError) × (r ≡ (err x, s)))
      ⊎ ((path : FilePath) × (wd : FilePath) × (q.action ≡ delete path wd)
          × Confined wd path
          × Deleted ms q (join wd path) r)

  delete_by_action :
      (ms : ℕ) (q : ExecutionRequest) (a : ExecutionAction)
      → q.action ≡ a
      → DeleteOutcome ms q (file_delete O debug ms q s)
  unfolding file_delete
  delete_by_action ms q (delete path wd) h = elim (delete_cases ms q path wd) [
    | inl (x, same) ↦ inl (x, rw (h, file_delete) same)
    | inr (confined, deleted) ↦ inr (path, wd, h, confined, rw (h, file_delete) deleted)
  ]
  delete_by_action ms q (run command wd) h = inl (
    internal ("FileDeleteExecutor received non-FileDelete action: " <> debug (run command wd)),
    rw (h, file_delete) refl,
  )
  delete_by_action ms q (write path content wd) h = inl (
    internal
        ("FileDeleteExecutor received non-FileDelete action: " <> debug (write path content wd)),
    rw (h, file_delete) refl,
  )

  -- The executor of deletions either fails and leaves the file system as it was, or the request is
  -- a deletion of a path confined to the working directory. Then, if nothing exists there, it
  -- succeeds and changes nothing; otherwise it succeeds only where the file has been removed.
  file_delete-Confined :
      (ms : ℕ) (q : ExecutionRequest)
      → let r = file_delete O debug ms q s in
        ((x : ExecutionError) × (r ≡ (err x, s)))
        ⊎ ((path : FilePath) × (wd : FilePath) × (q.action ≡ delete path wd)
            × Confined wd path
            × Deleted ms q (join wd path) r)
  file_delete-Confined ms q = delete_by_action ms q q.action refl
