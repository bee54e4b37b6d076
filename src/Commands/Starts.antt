-- ===== src/Commands/Starts.antt =====
-- When the manager starts, and how the program ends.
use konfirm.Base.{◌≡◌, Bool, true, false, Option, none, some, List, [], ◌∷◌, if◌then◌else◌, arith}
use konfirm.Cluster.{Failure}
use konfirm.Commands.Startup.{
  Flags, Action, new_manager, set_up_tests, set_up_runs, set_up_suites, add_healthz_check,
  add_readyz_check, start, log_info, log_error, exit, Manager, manager_options, test_reconciler,
  run_reconciler, suite_reconciler, main, exit_code,
}

-- The calls that may fail, without what is logged.
abbrev pub calls : List Action → List Action
calls [] = []
calls (log_info m ∷ actions) = calls actions
calls (log_error e m c ∷ actions) = calls actions
calls (exit n ∷ actions) = calls actions
calls (action ∷ actions) = action ∷ calls actions

-- The actions up to the first one that fails, that one included; and whether none of them does.
abbrev pub until_failure : (Action → Option Failure) → List Action → List Action
until_failure fails [] = []
until_failure fails (a ∷ actions) =
    let rest = until_failure fails actions in a ∷ (elim (fails a) [ none ↦ rest | some e ↦ [] ])

abbrev pub all_succeed : (Action → Option Failure) → List Action → Bool
all_succeed fails [] = true
all_succeed fails (a ∷ actions) =
    let rest = all_succeed fails actions in elim (fails a) [ none ↦ rest | some e ↦ false ]

-- All that has to be set up: the manager starts last.
abbrev pub steps : Manager → Flags → List Action
steps mgr flags =
    new_manager (manager_options flags)
    ∷ set_up_tests (test_reconciler mgr)
    ∷ set_up_runs (run_reconciler mgr)
    ∷ set_up_suites (suite_reconciler mgr)
    ∷ add_healthz_check "healthz"
    ∷ add_readyz_check "readyz"
    ∷ start
    ∷ []

-- The program makes a manager, sets the three controllers up with it, adds both checks, and starts
-- it, in this order, until one of these calls fails: so the manager starts only where all others
-- have succeeded. The exit code is 0 where every call succeeds, `Start` as well, and else 1.
pub main-until_failure :
    (mgr : Manager) (flags : Flags)
    → (calls (main mgr flags) ≡ until_failure mgr.fails (steps mgr flags))
      × (exit_code (main mgr flags) ≡ (if all_succeed mgr.fails (steps mgr flags) then 0 else 1))
unfolding main
main-until_failure mgr flags = (ground arith, ground arith)
