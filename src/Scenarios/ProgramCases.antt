-- ===== src/Scenarios/ProgramCases.antt =====
-- The programs and the names of the levels on concrete arguments.
use konfirm.Base.{◌≡◌, refl, String, Option, none, some, [], ◌∷◌, negsuc, if◌then◌else◌}
use konfirm.Cluster.{Failure, ok}
use konfirm.Logging.{Level, lowercase_level_encoder}
use konfirm.Commands.{Manager, Action, set_up_runs, default_flags, mock, main, exit_code}
use konfirm.Commands.Starts.{calls, until_failure, all_succeed, steps, main-until_failure}
use konfirm.Scenarios.Sample.{accepting, named, smoke_test, empty_run, refused}
use konfirm.Api.{TestPhase}

-- zap's names of its own levels.
abbrev zap_name : Level → String
zap_name level = "debug"

lowercase_levels :
    lowercase_level_encoder zap_name (negsuc 1) (lowercase_level_encoder zap_name (negsuc 4) [])
    ≡ "trace4" ∷ "trace" ∷ []
unfolding lowercase_level_encoder
lowercase_levels = refl

mock_fails : (mock ("mock" ∷ "--fail" ∷ "done" ∷ [])).code ≡ 1
unfolding mock
mock_fails = refl

-- A manager with which the second controller cannot be set up.
abbrev without_runs : Action → Option Failure
without_runs (set_up_runs r) = some refused
without_runs action = none

abbrev manager : Manager
manager = record {
  client = accepting (smoke_test TestPhase.unset (named "smoke")) [] empty_run [];
  parse_standard = λ s. ok (λ t. t);
  real_clock = λ h. 0;
  fails = without_runs;
}

main-until_failure_example :
    (calls (main manager default_flags) ≡ until_failure without_runs (steps manager default_flags))
    × (exit_code (main manager default_flags)
        ≡ (if all_succeed without_runs (steps manager default_flags) then 0 else 1))
main-until_failure_example = main-until_failure manager default_flags
