-- ===== src/Execution/Executors/Effects.antt =====
-- What an executor does to the world, call by call of the operating system.
use cotrex_ai.Base.{
  ℕ, String, ◌≡◌, ◌⊎◌, inl, inr, refl, ◌∙◌, ap, Option, none, some, List, [], ◌++◌, ◌∷◌, All,
  Result-cases, Bool-cases, Method, ◌>>◌, pure, bound_ok, bound_err,
}
use cotrex_ai.FilePath.{FilePath, join, parent}
use cotrex_ai.Execution.Request.{
  ExecutionAction, run, write, delete, ExecutionRequest, ExecutionResult, ExecutionError, Executor,
}
use cotrex_ai.Execution.System.{System}
use cotrex_ai.Execution.Executors.{
  calling, create_parents, save, write_file, file_write, delete_file, file_delete, command, done,
}
use cotrex_ai.Execution.Executors.Confined.{Confined, checks}

-- A call of the operating system that may change the world.
pub data Effect : Type 0 where
  made_dir : FilePath → Effect
  wrote : FilePath → List ℕ → Effect
  removed : FilePath → Effect
  ran : String → FilePath → Effect

module _ (O : System) (debug : ExecutionAction → String) where
  -- The world behind a call, whether it has succeeded or not.
  abbrev pub perform : Effect → O.State → O.State
  perform (made_dir dir) s = (O.create_dir_all dir s).1
  perform (wrote target content) s = (O.write target content s).1
  perform (removed target) s = (O.remove_file target s).1
  perform (ran program wd) s = (O.output program wd s).1

  abbrev pub perform_all : List Effect → O.State → O.State
  perform_all [] s = s
  perform_all (e ∷ es) s = perform_all es (perform e s)

  pub perform_all-append :
      (es more : List Effect) (s : O.State)
      → perform_all (es ++ more) s ≡ perform_all more (perform_all es s)
  perform_all-append [] more s = refl
  perform_all-append (e ∷ es) more s = perform_all-append es more (perform e s)

  -- The calls that an action, started in the world `s`, may come to.
  abbrev pub Allowed : O.State → ExecutionAction → Effect → Type 0
  Allowed s (write path content wd) (made_dir dir) =
      Confined O debug s wd path × (parent (join wd path) ≡ some dir)
  Allowed s (write path content wd) (wrote target bytes) =
      Confined O debug s wd path × (target ≡ join wd path) × (bytes ≡ content)
  Allowed s (delete path wd) (removed target) = Confined O debug s wd path × (target ≡ join wd path)
  Allowed s (run program wd) (ran started dir) = (started ≡ program) × (dir ≡ wd)
  Allowed s _ _ = ⊥

  -- From `s` to `t` by calls that the action may come to.
  abbrev pub Acts : ExecutionAction → O.State → O.State → Type 0
  Acts a s t = (es : List Effect) × (t ≡ perform_all es s) × All (Allowed s a) es

  -- The executor that stands for an action.
  abbrev pub executor_for : ExecutionAction → Executor O.State
  executor_for (run program wd) = command O debug
  executor_for (write path content wd) = file_write O debug
  executor_for (delete path wd) = file_delete O debug

  made-cases :
      (o : Option FilePath) (s : O.State)
      → ((create_parents O debug o s).1 ≡ s)
        ⊎ ((dir : FilePath) × (o ≡ some dir)
            × ((create_parents O debug o s).1 ≡ perform (made_dir dir) s))
  made-cases none s = inl refl
  made-cases (some dir) s = inr (dir, refl, refl)

  -- `save` ends behind the making of the parents, or behind the write that follows it.
  saved-cases :
      (ms : ℕ) (q : ExecutionRequest) (target : FilePath) (content : List ℕ) (s : O.State)
      → let t = (create_parents O debug (parent target) s).1 in
        ((save O debug ms q target content s).1 ≡ t)
        ⊎ ((save O debug ms q target content s).1 ≡ perform (wrote target content) t)
  unfolding save
  saved-cases ms q target content s =
      let made = create_parents O debug (parent target) s in
      let rest : Unit {0} → Method O.State ExecutionResult ExecutionError =
        λ u. calling O debug "file write failed: " (O.write target content) >> pure (done ms q) in
      elim (Result-cases made.0) [
        | inr (x, bad) ↦ inl (ap (λ r. r.1) (bound_err rest made bad))
        | inl (u, good) ↦ inr (
            ap (λ r. r.1) (bound_ok rest made good)
            ∙ elim (Result-cases (O.write target content made.1).0) [
              | inr (y, bad) ↦ rw bad refl
              | inl (v, fine) ↦ rw fine refl
            ])
      ]

  saved :
      (ms : ℕ) (q : ExecutionRequest) (path : FilePath) (content : List ℕ) (wd : FilePath)
      (s : O.State)
      → Confined O debug s wd path
      → Acts (write path content wd) s (save O debug ms q (join wd path) content s).1
  saved ms q path content wd s confined =
      let target = join wd path in
      elim (made-cases (parent target) s) [
        | inl same ↦ elim (saved-cases ms q target content s) [
          | inl ended ↦ ([], ended ∙ same, tt)
          | inr ended ↦ (
            wrote target content ∷ [],
            ended ∙ ap (perform (wrote target content)) same,
            ((confined, refl, refl), tt),
          )
        ]
        | inr (dir, over, made) ↦ elim (saved-cases ms q target content s) [
          | inl ended ↦ (made_dir dir ∷ [], ended ∙ made, ((confined, over), tt))
          | inr ended ↦ (
            made_dir dir ∷ wrote target content ∷ [],
            ended ∙ ap (perform (wrote target content)) made,
            ((confined, over), ((confined, refl, refl), tt)),
          )
        ]
      ]

  write_acts :
      (ms : ℕ) (q : ExecutionRequest) (path : FilePath) (content : List ℕ) (wd : FilePath)
      (s : O.State)
      → Acts (write path content wd) s (write_file O debug ms q path content wd s).1
  unfolding write_file
  write_acts ms q path content wd s = elim (checks O debug s wd path) [
    | inl (x, bad) ↦ ([], rw bad refl, tt)
    | inr (inl (x, valid, bad)) ↦ ([], rw (valid, bad) refl, tt)
    | inr (inr (valid, found, confined)) ↦ rw (valid, found) (saved ms q path content wd s confined)
  ]

  delete_acts :
      (ms : ℕ) (q : ExecutionRequest) (path wd : FilePath) (s : O.State)
      → Acts (delete path wd) s (delete_file O debug ms q path wd s).1
  unfolding delete_file
  delete_acts ms q path wd s = elim (checks O debug s wd path) [
    | inl (x, bad) ↦ ([], rw bad refl, tt)
    | inr (inl (x, valid, bad)) ↦ ([], rw (valid, bad) refl, tt)
    | inr (inr (valid, found, confined)) ↦ elim (Bool-cases (O.exists (join wd path) s)) [
      | inr absent ↦ ([], rw (valid, found, absent) refl, tt)
      | inl there ↦ (
        removed (join wd path) ∷ [],
        elim (Result-cases (O.remove_file (join wd path) s).0) [
          | inr (y, bad) ↦ rw (valid, found, there, bad) refl
          | inl (u, good) ↦ rw (valid, found, there, good) refl
        ],
        ((confined, refl), tt),
      )
    ]
  ]

  acts_by :
      (ms : ℕ) (q : ExecutionRequest) (a : ExecutionAction) (s : O.State)
      → q.action ≡ a
      → Acts a s (executor_for a ms q s).1
  unfolding file_write file_delete command
  acts_by ms q (run program wd) s h = (
    ran program wd ∷ [],
    elim (Result-cases (O.output program wd s).0) [
      | inr (y, bad) ↦ rw (h, command, bad) refl
      | inl (out, good) ↦ rw (h, command, good) refl
    ],
    ((refl, refl), tt),
  )
  acts_by ms q (write path content wd) s h = rw (h, file_write) (write_acts ms q path content wd s)
  acts_by ms q (delete path wd) s h = rw (h, file_delete) (delete_acts ms q path wd s)

  -- An executor, whether it succeeds or fails, changes the world by calls alone that its action may
  -- come to: a directory above a confined path, the content into that path, the file at it, the
  -- program of the request.
  pub executor-Acts :
      (ms : ℕ) (q : ExecutionRequest) (s : O.State)
      → Acts q.action s (executor_for q.action ms q s).1
  executor-Acts ms q s = acts_by ms q q.action s refl
