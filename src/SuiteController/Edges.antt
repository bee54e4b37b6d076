-- ===== src/SuiteController/Edges.antt =====
-- The phase diagram of a TestSuite, and what the TestSuite controller may write.
use konfirm.Base.{◌≡◌, String, Bool, true, arith}
use konfirm.Api.{ObjectMeta, TestRun, TestSuite, TestSuitePhase, suite_is_pending, suite_is_running}
use konfirm.Cluster.{
  NamespacedName, History, SuiteMetric, create_run, delete_run, delete_suite, patch_run,
  patch_suite, patch_suite_status, event, touch_suite,
}
use konfirm.Cluster.Keeps.{Keeps, Allows}
use konfirm.SuiteController.Defs.{TestSuiteReconciler}
use konfirm.SuiteController.Prepare.{suite_unset, remove_schedule}
use konfirm.SuiteController.Answers.{HasAnswered}
use konfirm.SuiteController.Running.{new_run, end_run}

-- A TestSuite begins Pending, is then Ready, Running while it has a test run, and Ready again. A run
-- that has not ended makes it Running from any phase.
pub data SuiteEdge : TestSuitePhase → TestSuitePhase → Type 0 where
  stay : {p : TestSuitePhase} → SuiteEdge p p
  admit : SuiteEdge TestSuitePhase.unset TestSuitePhase.pending
  accept : SuiteEdge TestSuitePhase.pending TestSuitePhase.ready
  begin : {p : TestSuitePhase} → SuiteEdge p TestSuitePhase.running
  conclude : SuiteEdge TestSuitePhase.running TestSuitePhase.ready

-- What `Reconcile` writes outside `remove_schedule` and `end_run`, and where.
pub record AllowsSuiteWrites (r : TestSuiteReconciler) (I : History → Type 0) : Type 0 where
  pub patch_run : (a b : TestRun) → Allows I (patch_run a b)
  pub delete_run : (t : TestRun) → Allows I (delete_run t)
  pub patch : (a b : TestSuite) → Allows I (patch_suite a b)
  pub delete : (t : TestSuite) → Allows I (delete_suite t)
  pub touch : (m : SuiteMetric) (ns n : String) → Allows I (touch_suite m ns n)
  pub triggered :
      (m : ObjectMeta) (message : String) → Allows I (event m "Normal" "TestSuiteTriggered" message)
  pub started :
      (m : ObjectMeta) (message : String) → Allows I (event m "Normal" "StartedTestRun" message)
  pub step :
      (a b : TestSuite)
      → SuiteEdge a.status.phase b.status.phase
      → Allows I (patch_suite_status a b)
  pub unschedule : (suite : TestSuite) → Keeps I (remove_schedule r suite)
  pub create :
      (req : NamespacedName) (suite : TestSuite)
      → HasAnswered r req suite
      → suite_is_running suite.status.phase ≡ true
      → suite.status.current_test_run ≡ ""
      → Allows I (create_run (new_run r suite))
  pub end :
      (suite : TestSuite) (name : String) (passed : Bool)
      → suite_is_running suite.status.phase ≡ true
      → Keeps I (end_run r suite name passed)

pub admit_edge : (p : TestSuitePhase) → suite_unset p ≡ true → SuiteEdge p TestSuitePhase.pending
admit_edge TestSuitePhase.unset e = admit
admit_edge _ e = absurd (ground arith)

pub accept_edge :
    (p : TestSuitePhase) → suite_is_pending p ≡ true → SuiteEdge p TestSuitePhase.ready
accept_edge TestSuitePhase.pending e = accept
accept_edge _ e = absurd (ground arith)

pub conclude_edge :
    (p : TestSuitePhase) → suite_is_running p ≡ true → SuiteEdge p TestSuitePhase.ready
conclude_edge TestSuitePhase.running e = conclude
conclude_edge _ e = absurd (ground arith)
