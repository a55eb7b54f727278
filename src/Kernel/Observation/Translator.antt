-- ===== src/Kernel/Observation/Translator.antt =====
-- Raw observations and their translation (kernel/src/observation/translator.rs).
use cotrex_ai.Base.{ℕ, String, List, [], ◌∷◌, Result, ok, list_eq}
use cotrex_ai.FilePath.{FilePath, component_eq}
use cotrex_ai.Kernel.Event.{EventPayload, file_changed, FileOperation}

pub data RawOperation : Type 0 where
  created modified deleted : RawOperation
  renamed : FilePath → RawOperation

pub record RawObservation : Type 0 where
  pub path : FilePath
  pub operation : RawOperation

pub record TranslationError : Type 0 where
  pub reason : String
  pub observation : RawObservation

abbrev pub change : FilePath → FileOperation → ℕ → EventPayload
change path operation now =
    file_changed (record { path = path; operation = operation; timestamp = now })

translate_operation : RawOperation → FilePath → ℕ → ℕ → List EventPayload
translate_operation RawOperation.created path now later = change path FileOperation.created now ∷ []
translate_operation RawOperation.modified path now later =
    change path FileOperation.modified now ∷ []
translate_operation RawOperation.deleted path now later = change path FileOperation.deleted now ∷ []
translate_operation (renamed from) path now later =
    change from FileOperation.deleted now ∷ change path FileOperation.created later ∷ []

-- `Translator::translate`. A rename reads the clock twice.
unfoldable pub translate : ℕ → ℕ → RawObservation → Result (List EventPayload) TranslationError
unfolding translate_operation
translate now later o = ok (translate_operation o.operation o.path now later)
