-- ===== src/Kernel/Observation/Filter.antt =====
-- The observation filter (kernel/src/observation/filter.rs).
use Prim.Native.String.{len}
use text.Mathlib.Text.{starts_with}
use cotrex_ai.Base.{
  String, ◌<>◌, ◌&&◌, ◌||◌, Option, none, some, List, [], ◌∷◌, ◌++◌, ltb, string_eq, contains,
  if◌then◌else◌,
}
use cotrex_ai.Base.Text.{ends_with}
use cotrex_ai.FilePath.{FilePath, as_str, strip_prefix}
use cotrex_ai.Kernel.Observation.Translator.{RawObservation}

pub data FilterDecision : Type 0 where
  accept : FilterDecision
  reject : String → FilterDecision

pub record ObservationFilter : Type 0 where
  pub root : FilePath
  pub ignore_patterns : List String

unfoldable pub new : FilePath → ObservationFilter
new root = record {
  root = root;
  ignore_patterns = ".git" ∷ "target" ∷ ".DS_Store" ∷ "Thumbs.db" ∷ [];
}

unfoldable add_ignore_pattern : String → ObservationFilter → ObservationFilter
add_ignore_pattern pattern f = record f { ignore_patterns = f.ignore_patterns ++ pattern ∷ [] }

-- The body of the loop for one component: the reason for which it is rejected, if any.
unfoldable pub check_component : List String → String → Option String
check_component patterns name =
    if contains patterns name
    then some ("matches ignore pattern: " <> name)
    else if starts_with name "." && ltb 1 (len name)
    then some ("hidden file: " <> name)
    else if ends_with name "~"
    then some ("temp file: " <> name)
    else if ends_with name ".swp" || ends_with name ".swo"
    then some ("swap file: " <> name)
    else none

unfoldable pub check_components : List String → FilePath → FilterDecision
check_components patterns [] = accept
check_components patterns (c ∷ cs) = elim (check_component patterns (as_str c)) [
  | some reason ↦ reject reason
  | none ↦ check_components patterns cs
]

unfoldable pub filter : ObservationFilter → RawObservation → FilterDecision
filter f observation = elim (strip_prefix f.root observation.path) [
  | some relative ↦ check_components f.ignore_patterns relative
  | none ↦ reject "path outside project root"
]
