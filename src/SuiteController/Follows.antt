-- ===== src/SuiteController/Follows.antt =====
-- What `isRunning` does in each case.
use konfirm.Base.{
  ◌≡◌, ℕ, String, Bool, true, false, none, some, List, [], ◌∷◌, ◌++◌, concat, str_eq, All, pos,
}
use konfirm.Api.{TestRun, TestRunPhase, TestSuite, TestSuitePhase}
use konfirm.Cluster.{
  Reply, ok, err, SuiteMetric, History, create_run, patch_suite_status, inc_suite, set_suite, event,
}
use konfirm.SuiteController.Defs.{TestSuiteReconciler, SuiteExit, returns}
use konfirm.SuiteController.Running.{new_run}

-- Whether a TestSuite names a current run, and where that is among its runs.
pub data Current (name : String) (runs : List TestRun) : Type 0 where
  unnamed : str_eq name "" ≡ true → Current name runs
  missing :
      str_eq name "" ≡ false
      → All (λ run. str_eq run.meta.name name ≡ false) runs
      → Current name runs
  listed :
      str_eq name "" ≡ false
      → (before : List TestRun) (run : TestRun) (others : List TestRun)
      → All (λ t. str_eq t.meta.name name ≡ false) before
      → str_eq run.meta.name name ≡ true
      → runs ≡ before ++ run ∷ others
      → Current name runs

-- A return without an error, with the delay until the next call, or none where it is 0.
abbrev pub ends_after : ℕ → SuiteExit
ends_after delay = returns (record { requeue = false; requeue_after = pos delay }) none

-- How the creation of a run ends, by the server's answer to it: the run that it answers with becomes
-- the suite's current one.
abbrev pub Created :
    TestSuiteReconciler → TestSuite → History → Reply TestRun → SuiteExit × History → Type 0
Created r suite h (ok run) out =
    (sent : TestSuite) × (sent.status.current_test_run ≡ run.meta.name)
    × (sent.status.phase ≡ suite.status.phase)
    × (out.1
        ≡ patch_suite_status suite sent
          ∷ event suite.meta "Normal" "StartedTestRun"
              (concat ("Created test run " ∷ run.meta.name ∷ []))
          ∷ create_run (new_run r suite)
          ∷ h)
Created r suite h (err e) out =
    out ≡ (ends_after r.err_requeue_delay, create_run (new_run r suite) ∷ h)

-- What is recorded of a run that has passed, or failed.
abbrev pub recorded : TestSuite → String → Bool → History → History
recorded suite name true h =
    event suite.meta "Normal" "TestRunPassed" (concat ("test run " ∷ name ∷ " passed" ∷ []))
    ∷ set_suite SuiteMetric.failing suite.meta.namespace suite.meta.name 0
    ∷ set_suite SuiteMetric.passing suite.meta.namespace suite.meta.name 1
    ∷ inc_suite SuiteMetric.runs suite.meta.namespace suite.meta.name
    ∷ h
recorded suite name false h =
    event suite.meta "Warning" "TestRunFailed" (concat ("test run " ∷ name ∷ " failed" ∷ []))
    ∷ set_suite SuiteMetric.passing suite.meta.namespace suite.meta.name 0
    ∷ set_suite SuiteMetric.failing suite.meta.namespace suite.meta.name 1
    ∷ inc_suite SuiteMetric.runs suite.meta.namespace suite.meta.name
    ∷ h

-- How the end of a run ends, by the server's answer to the status patch.
abbrev pub Reported :
    TestSuiteReconciler → String → Bool → Reply TestSuite → History → SuiteExit × History → Type 0
Reported r name passed (ok suite) h out = out ≡ (ends_after 0, recorded suite name passed h)
Reported r name passed (err e) h out = out ≡ (ends_after r.err_requeue_delay, h)

-- The suite becomes Ready with no current run before anything is recorded.
abbrev pub Ended :
    TestSuiteReconciler → TestSuite → String → Bool → History → SuiteExit × History → Type 0
Ended r suite name passed h out =
    (sent : TestSuite) × (sent.status.phase ≡ TestSuitePhase.ready)
    × (sent.status.current_test_run ≡ "")
    × Reported r name passed (r.client.patch_suite_status h suite sent)
        (patch_suite_status suite sent ∷ h) out

abbrev pub FollowsPhase :
    TestSuiteReconciler → TestSuite → String → TestRunPhase → History → SuiteExit × History → Type 0
FollowsPhase r suite name TestRunPhase.passed h out = Ended r suite name true h out
FollowsPhase r suite name TestRunPhase.failed h out = Ended r suite name false h out
FollowsPhase r suite name _ h out = out ≡ (ends_after 0, h)

-- What is expected of `isRunning` in each case.
abbrev pub Follows :
    (r : TestSuiteReconciler) (suite : TestSuite) (runs : List TestRun)
    → Current suite.status.current_test_run runs
    → History
    → SuiteExit × History
    → Type 0
Follows r suite runs (unnamed _) h out =
    Created r suite h (r.client.create_run h (new_run r suite)) out
Follows r suite runs (missing _ _) h out = out ≡ (
  returns (record { requeue = true; requeue_after = pos 0 })
      (some (record { reason = ""; message = "current test run is missing" })),
  h,
)
Follows r suite runs (listed _ before run others _ _ _) h out =
    FollowsPhase r suite run.meta.name run.status.phase h out
