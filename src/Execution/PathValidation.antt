-- ===== src/Execution/PathValidation.antt =====
-- The confinement of paths to a working directory (execution/src/executor/path_validation.rs).
pub mod Resolved
use mathlib.Core.List.{reverse}
use cotrex_ai.Base.{
  String, ◌<>◌, Bool, true, false, List, [], ◌∷◌, Result, ok, err, map_err, and_then, if◌then◌else◌,
  not,
}
use cotrex_ai.FilePath.{
  FilePath, Component, root_dir, cur_dir, parent_dir, normal, display, is_absolute, join,
  starts_with,
}
use cotrex_ai.Execution.Request.{ExecutionError, executor_failed}
use cotrex_ai.Execution.System.{System}

-- `for component in path.components() { if matches!(component, ParentDir) { … } }`
abbrev pub has_parent_dir : List Component → Bool
has_parent_dir [] = false
has_parent_dir (parent_dir ∷ cs) = true
has_parent_dir (c ∷ cs) = has_parent_dir cs

unfoldable pub validate_raw_path : FilePath → Result (Unit {0}) ExecutionError
validate_raw_path path =
    if is_absolute path
    then err (executor_failed ("path must be relative, got absolute: " <> display path))
    else if has_parent_dir path
    then err (executor_failed ("path must not contain '..' components: " <> display path))
    else ok tt

-- "Rebuild path: canonical ancestor + remaining components". `remaining` stands here with the
-- component pushed last in front, the order in which `iter().rev()` gives them.
unfoldable pub rejoin : FilePath → List FilePath → FilePath
rejoin result [] = result
rejoin result (comp ∷ remaining) = rejoin (join result comp) remaining

module _ (O : System) (s : O.State) where
  -- The loop that looks for an existing ancestor. The ancestor is kept in reverse, so that a step to
  -- its parent takes its first component off.
  unfoldable pub climb : List Component → List FilePath → Result FilePath ExecutionError
  climb [] remaining = elim (O.canonicalize [] s) [
    | ok canonical ↦ ok (rejoin canonical remaining)
    | err e ↦ err (executor_failed "failed to resolve path: no canonical ancestor found")
  ]
  climb (c ∷ up) remaining =
      let higher = climb up ((c ∷ []) ∷ remaining) in
      elim (O.canonicalize (reverse (c ∷ up)) s) [
        | ok canonical ↦ ok (rejoin canonical remaining)
        | err e ↦ elim c [
          | root_dir ↦ err (executor_failed "failed to resolve path: no canonical ancestor found")
          | _ ↦ higher
        ]
      ]

  -- "Try to canonicalize the target; if it doesn't exist yet, canonicalize the parent"
  unfoldable pub canonical_target : FilePath → Result FilePath ExecutionError
  canonical_target joined =
      if O.exists joined s
      then map_err (λ e. executor_failed ("failed to canonicalize target path: " <> e))
          (O.canonicalize joined s)
      else climb (reverse joined) []

  unfoldable pub resolve_within : FilePath → FilePath → Result FilePath ExecutionError
  resolve_within working_directory rel_path =
      let joined = join working_directory rel_path in
      and_then
        (map_err (λ e. executor_failed ("failed to canonicalize working directory: " <> e))
          (O.canonicalize working_directory s))
        (λ canonical_wd. and_then (canonical_target joined) (λ target.
          if starts_with target canonical_wd
          then ok joined
          else err (executor_failed ("path escapes working directory: " <> display rel_path))))
