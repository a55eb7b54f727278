-- ===== src/Tests/Reasoning.antt =====
-- The parser of a model's output on concrete inputs.
use cotrex_ai.Base.{◌⊎◌, String, ◌≡◌, none, some, [], Result, ok, err, refl}
use cotrex_ai.Base.Chars.{into_bytes, trim}
use cotrex_ai.Agent.Resolver.{AgentDecision, execute, execute_command, write_file}
use cotrex_ai.Agent.Reasoning.{RawDecision, ParseError, invalid_json, parse, decide, plan, argument}
use cotrex_ai.Agent.Reasoning.Boundary.{Asks, Lacks, parse_lem}

abbrev raw : RawDecision
raw = record {
  action = "write_file";
  path = some "hello.txt";
  content = some "hello";
  command = none;
  args = none;
  summary = none;
}

abbrev json : String → Result RawDecision String
json text = ok raw

parse_lem_example :
    ((m : String) × (json "{}" ≡ err m) × (parse json "{}" ≡ err (invalid_json m)))
    ⊎ ((r : RawDecision) × (json "{}" ≡ ok r)
        × (((d : AgentDecision) × (parse json "{}" ≡ ok d) × Asks r d)
            ⊎ ((e : ParseError) × (parse json "{}" ≡ err e) × Lacks r e)))
parse_lem_example = parse_lem json "{}"

parsed : parse json "{}" ≡ ok (execute (write_file "hello.txt" (into_bytes "hello")))
unfolding parse decide
parsed = refl

planned_run : plan (λ s. s) "run  cargo build " ≡ execute (execute_command "cargo build" [])
unfolding plan argument trim
planned_run = refl
