-- ===== src/Execution/System.antt =====
-- The operating system as the executors call it (`std::fs` and `std::process` of Rust), a parameter
-- of their models. An error is the text that `{}` prints of it.
use cotrex_ai.Base.{ℕ, String, Option, List, Result, Method, Bool}
use cotrex_ai.FilePath.{FilePath}

-- What a finished process leaves: its exit code, or the signal that ended it.
pub record Output : Type 0 where
  pub code : Option ℕ
  pub signal : Option ℕ
  pub stdout : List ℕ
  pub stderr : List ℕ

pub record System : Type 1 where
  pub State : Type 0
  pub canonicalize : FilePath → State → Result FilePath String
  pub exists : FilePath → State → Bool
  pub create_dir_all : FilePath → Method State (Unit {0}) String
  pub write : FilePath → List ℕ → Method State (Unit {0}) String
  pub remove_file : FilePath → Method State (Unit {0}) String
  -- A program, started in a directory without arguments, and waited for.
  pub output : String → FilePath → Method State Output String
