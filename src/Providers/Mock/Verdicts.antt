-- ===== src/Providers/Mock/Verdicts.antt =====
-- What the mock provider says of a build.
use cotrex_ai.Base.{◌≡◌, ◌↔◌, true, none, ok, refl, arith}
use cotrex_ai.Contract.{BuildSummaryRequest, BuildSummaryResponse, build_summary, summarised}
use cotrex_ai.Providers.Mock.{build_summary_response, execute}

-- The mock provider answers a build summary with one, which reports success exactly where the exit
-- code is 0, and gives a recommendation exactly where it reports a failure.
execute-build :
    (q : BuildSummaryRequest)
    → (r : BuildSummaryResponse) × (execute (build_summary q) ≡ ok (summarised r))
      × ((r.success ≡ true) ↔ (q.exit_code ≡ 0))
      × ((r.recommendation ≡ none) ↔ (r.success ≡ true))
unfolding execute build_summary_response
execute-build q = (build_summary_response q, refl, ground arith, ground arith)
