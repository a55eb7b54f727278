-- ===== src/Agent/Reasoning/Boundary.antt =====
-- Which decisions a model's output, and a goal, can lead to.
use cotrex_ai.Base.{
  ◌⊎◌, String, ◌<>◌, ◌≡◌, ◌≢◌, false, inl, inr, Option, Option-cases, none, some, [], Result,
  Result-cases, ok, err, arith, ap, ==_iff, string_eq, refl,
}
use cotrex_ai.Base.Chars.{is_empty_text, into_bytes, strip_text}
use cotrex_ai.Agent.Resolver.{
  AgentDecision, execute, complete, need_more_context, PlanStep, execute_command, write_file,
  delete_file,
}
use cotrex_ai.Agent.Reasoning.{
  ParseError, invalid_json, missing_field, unknown_action, RawDecision, or_else, decide, parse,
  argument, either, plan_create, plan,
}

-- What the output must hold for a decision.
abbrev pub Asks : RawDecision → AgentDecision → Type 0
Asks raw (execute (execute_command command args)) =
    (raw.action ≡ "execute_command") × (raw.command ≡ some command) × (args ≡ or_else raw.args [])
Asks raw (execute (write_file path content)) =
    (raw.action ≡ "write_file")
    × (raw.path ≡ some path)
    × ((t : String) × (raw.content ≡ some t) × (content ≡ into_bytes t))
Asks raw (execute (delete_file path)) = (raw.action ≡ "delete_file") × (raw.path ≡ some path)
Asks raw (complete summary) =
    (raw.action ≡ "complete") × (summary ≡ or_else raw.summary "completed")
Asks raw (need_more_context reason) =
    (raw.action ≡ "need_context") × (reason ≡ or_else raw.summary "need more context")

decide-Asks : (raw : RawDecision) (d : AgentDecision) → decide raw ≡ ok d → Asks raw d
unfolding decide
decide-Asks raw (execute (execute_command command args)) h =
    ground (arith, ==_iff raw.action "execute_command")
decide-Asks raw (execute (write_file path content)) h = elim (Option-cases raw.content) [
  | inl missing ↦ ground (arith, missing, h)
  | inr (t, there) ↦ (
    ground (arith, there, h, ==_iff raw.action "write_file"),
    ground (arith, there, h),
    (t, there, ground (arith, there, h)),
  )
]
decide-Asks raw (execute (delete_file path)) h = ground (arith, ==_iff raw.action "delete_file")
decide-Asks raw (complete summary) h = ground (arith, ==_iff raw.action "complete")
decide-Asks raw (need_more_context reason) h = ground (arith, ==_iff raw.action "need_context")

-- What the output has held where there is no decision.
abbrev pub Lacks : RawDecision → ParseError → Type 0
Lacks raw (invalid_json m) = ⊥
Lacks raw (missing_field f) =
    (raw.action ≡ "execute_command") × (raw.command ≡ none)
    ⊎ (raw.action ≡ "write_file") × ((raw.path ≡ none) ⊎ (raw.content ≡ none))
    ⊎ (raw.action ≡ "delete_file") × (raw.path ≡ none)
Lacks raw (unknown_action m) =
    (m ≡ raw.action)
    × (raw.action ≢ "execute_command")
    × (raw.action ≢ "write_file")
    × (raw.action ≢ "delete_file")
    × (raw.action ≢ "complete")
    × (raw.action ≢ "need_context")

decide-Lacks : (raw : RawDecision) (e : ParseError) → decide raw ≡ err e → Lacks raw e
unfolding decide
decide-Lacks raw (invalid_json m) h = ground arith
decide-Lacks raw (missing_field f) h = ground (
  arith,
  ==_iff raw.action "execute_command",
  ==_iff raw.action "write_file",
  ==_iff raw.action "delete_file",
)
decide-Lacks raw (unknown_action m) h = ground (
  arith,
  ==_iff raw.action "execute_command",
  ==_iff raw.action "write_file",
  ==_iff raw.action "delete_file",
  ==_iff raw.action "complete",
  ==_iff raw.action "need_context",
)

-- The parser lets a decision through only where the output is JSON, names its action and holds the
-- fields that the action needs, from which the decision is made. Otherwise the output is no JSON, or
-- lacks a field of its action, or its action, which the error names, is none of the five.
pub parse_lem :
    (from_str : String → Result RawDecision String) (text : String)
    → ((m : String) × (from_str text ≡ err m) × (parse from_str text ≡ err (invalid_json m)))
      ⊎ ((raw : RawDecision) × (from_str text ≡ ok raw)
          × (((d : AgentDecision) × (parse from_str text ≡ ok d) × Asks raw d)
              ⊎ ((e : ParseError) × (parse from_str text ≡ err e) × Lacks raw e)))
unfolding parse
parse_lem from_str text = elim (Result-cases (from_str text)) [
  | inr (m, bad) ↦ inl (m, bad, rw (bad, parse) refl)
  | inl (raw, good) ↦ elim (Result-cases (decide raw)) [
    | inl (d, made) ↦ inr (raw, good, inl (d, rw (good, parse) made, decide-Asks raw d made))
    | inr (e, failed) ↦ inr (raw, good, inr (e, rw (good, parse) failed, decide-Lacks raw e failed))
  ]
]

-- A step that names something.
abbrev IsNamed : PlanStep → Type 0
IsNamed (execute_command command args) = (is_empty_text command ≡ false) × (args ≡ [])
IsNamed (write_file path content) =
    (is_empty_text path ≡ false) × (content ≡ into_bytes ("content of " <> path))
IsNamed (delete_file path) = is_empty_text path ≡ false

argument-full : (o : Option String) (s : String) → argument o ≡ some s → is_empty_text s ≡ false
unfolding argument
argument-full none s h = ground arith
argument-full (some rest) s h = ground arith

abbrev Full : Option String → Type 0
Full o = (s : String) → o ≡ some s → is_empty_text s ≡ false

planned :
    (goal : String) (create delete run : Option String) (step : PlanStep)
    → Full create
    → Full delete
    → Full run
    → plan_create goal create delete run ≡ execute step
    → IsNamed step
planned goal (some f) d r (write_file path content) a b c h =
    let same : f ≡ path = ground arith in (a path (ap (λ s. some s) same), ground (arith, same))
planned goal (some f) d r (execute_command command args) a b c h = ground arith
planned goal (some f) d r (delete_file path) a b c h = ground arith
planned goal none (some f) r (delete_file path) a b c h = b path (ground arith)
planned goal none (some f) r (write_file path content) a b c h = ground arith
planned goal none (some f) r (execute_command command args) a b c h = ground arith
planned goal none none (some cmd) (execute_command command args) a b c h =
    (c command (ground arith), ground arith)
planned goal none none (some cmd) (write_file path content) a b c h = ground arith
planned goal none none (some cmd) (delete_file path) a b c h = ground arith
planned goal none none none step a b c h = ground arith

-- The planner never makes a step without a command or a path, whatever the goal is: where nothing
-- but spaces follows the first word, it asks for more context.
plan-IsNamed :
    (to_lowercase : String → String) (goal : String) (step : PlanStep)
    → plan to_lowercase goal ≡ execute step
    → IsNamed step
unfolding plan
plan-IsNamed to_lowercase goal step h =
    let lower = to_lowercase goal in
    planned goal (argument (strip_text lower "create ")) (argument (strip_text lower "delete "))
      (argument (either (strip_text lower "run ") (strip_text lower "execute "))) step
      (argument-full (strip_text lower "create ")) (argument-full (strip_text lower "delete "))
      (argument-full (either (strip_text lower "run ") (strip_text lower "execute "))) h
