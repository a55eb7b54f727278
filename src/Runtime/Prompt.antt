-- ===== src/Runtime/Prompt.antt =====
-- The context of an inference (runtime/src/context.rs) and the prompt that the assembler makes of it
-- and of a request (runtime/src/assembler.rs).
pub mod Order
use cotrex_ai.Base.{
  ℕ, zero, suc, ◌/◌, ◌%◌, String, ◌<>◌, Bool, true, false, Option, none, some, List, [], ◌∷◌, ltb,
  if◌then◌else◌,
}
use cotrex_ai.Base.Text.{show_u64, show_i32}
use cotrex_ai.Base.Chars.{is_empty_text}
use cotrex_ai.Contract.{CapabilityRequest, build_summary, explain_rust}
use cotrex_ai.Base.Sort.{sort}

pub data WorkspaceStatus : Type 0 where
  clean modified failed unknown : WorkspaceStatus

pub record InferenceContext : Type 0 where
  pub recent_changes : List String
  pub workspace_status : WorkspaceStatus
  pub file_count : ℕ
  pub hash : ℕ
  pub git_branch : Option String
  pub git_dirty : Bool
  pub git_modified_count : ℕ
  pub tracked_files : ℕ

-- `InferenceContext::default`, which is also what the source without a workspace answers.
unfoldable pub default_context : InferenceContext
default_context = record {
  recent_changes = [];
  workspace_status = unknown;
  file_count = 0;
  hash = 0;
  git_branch = none;
  git_dirty = false;
  git_modified_count = 0;
  tracked_files = 0;
}

-- `DefaultHasher`, with `Hash` of the types that the context holds.
pub record Hasher : Type 1 where
  pub State : Type 0
  pub start : State
  pub write_u8 : ℕ → State → State
  pub write_usize : ℕ → State → State
  pub write_str : String → State → State
  pub write_option : Option String → State → State
  pub finish : State → ℕ

abbrev status_code : WorkspaceStatus → ℕ
status_code clean = 0
status_code modified = 1
status_code failed = 2
status_code unknown = 3

abbrev bool_code : Bool → ℕ
bool_code true = 1
bool_code false = 0

module _ (H : Hasher) where
  unfoldable pub write_all : List String → H.State → H.State
  write_all [] h = h
  write_all (c ∷ cs) h = write_all cs (H.write_str c h)

  unfoldable pub compute_hash : InferenceContext → ℕ
  compute_hash c =
      let head = H.write_usize c.file_count (H.write_u8 (status_code c.workspace_status) H.start) in
      let git =
        H.write_u8 (bool_code c.git_dirty)
          (H.write_option c.git_branch (write_all (sort c.recent_changes) head)) in
      H.finish (H.write_usize c.tracked_files (H.write_usize c.git_modified_count git))

abbrev hex_digit : ℕ → String
hex_digit (suc (suc (suc (suc (suc (suc (suc (suc (suc (suc zero)))))))))) = "a"
hex_digit (suc (suc (suc (suc (suc (suc (suc (suc (suc (suc (suc zero))))))))))) = "b"
hex_digit (suc (suc (suc (suc (suc (suc (suc (suc (suc (suc (suc (suc zero)))))))))))) = "c"
hex_digit (suc (suc (suc (suc (suc (suc (suc (suc (suc (suc (suc (suc (suc zero))))))))))))) = "d"
hex_digit (suc (suc (suc (suc (suc (suc (suc (suc (suc (suc (suc (suc (suc (suc zero)))))))))))))) =
    "e"
hex_digit n = if ltb n 10 then show_u64 n else "f"

hex_digits : ℕ → ℕ → String
hex_digits zero n = ""
hex_digits (suc digits) n = hex_digits digits (n / 16) <> hex_digit (n % 16)

-- `{:016x}` of a `u64`.
unfoldable pub show_hex : ℕ → String
unfolding hex_digits
show_hex n = hex_digits 16 n

abbrev show_status : WorkspaceStatus → String
show_status clean = "Clean"
show_status modified = "Modified"
show_status failed = "Failed"
show_status unknown = "Unknown"

abbrev show_bool : Bool → String
show_bool true = "true"
show_bool false = "false"

unfoldable pub change_lines : List String → String
change_lines [] = ""
change_lines (c ∷ cs) = "- " <> c <> "\n" <> change_lines cs

abbrev branch_line : Option String → String
branch_line none = ""
branch_line (some branch) = "Branch: " <> branch <> "\n"

abbrev modified_line : ℕ → String
modified_line zero = ""
modified_line (suc n) = "Modified files: " <> show_u64 (suc n) <> "\n"

abbrev changes_part : List String → String
changes_part [] = ""
changes_part (c ∷ cs) = "Recent changes:\n" <> change_lines (c ∷ cs) <> "\n"

-- The part of the prompt that the context fills.
unfoldable pub context_part : InferenceContext → String
context_part context =
    "## Workspace Context\n\n"
    <> "Status: "
    <> show_status context.workspace_status
    <> "\n"
    <> "Files tracked: "
    <> show_u64 context.file_count
    <> "\n"
    <> branch_line context.git_branch
    <> "Working tree dirty: "
    <> show_bool context.git_dirty
    <> "\n"
    <> modified_line context.git_modified_count
    <> "Context hash: "
    <> show_hex context.hash
    <> "\n\n"
    <> changes_part context.recent_changes

-- A stream of the build, where it has printed anything.
abbrev stream_part : String → String → String
stream_part name content =
    if is_empty_text content then "" else name <> ":\n```\n" <> content <> "\n```\n"

unfoldable pub request_part : CapabilityRequest → String
request_part (build_summary req) =
    "## Build Summary Request\n\n"
    <> "Command: "
    <> req.command
    <> "\n"
    <> "Exit code: "
    <> show_i32 req.exit_code
    <> "\n"
    <> stream_part "Stdout" req.stdout
    <> stream_part "Stderr" req.stderr
    <> "\nProvide a concise summary of this build output."
request_part (explain_rust req) =
    "## Rust Code Explanation Request\n\n" <> "Question: " <> req.question <> "\n\n"
    <> "Source:\n```rust\n" <> req.source <> "\n```\n" <> "\nExplain the code above."

-- `DefaultPromptAssembler::assemble`
unfoldable pub assemble : InferenceContext → CapabilityRequest → String
assemble context data_of = context_part context <> request_part data_of
