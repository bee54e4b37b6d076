-- ===== src/System/Sound.antt =====
-- What the operator writes, in any order of the calls of its handlers.
use konfirm.Base.{All}
use konfirm.Cluster.{
  History, Effect, create_pod, create_test, create_run, patch_test_status, patch_run_status,
  patch_suite_status,
}
use konfirm.TestController.Phases.{FollowsDiagram}
use konfirm.TestController.Created.{CreatesTestPod}
use konfirm.RunController.Progress.{FollowsRunDiagram, CreatesRunTest}
use konfirm.SuiteController.Progress.{FollowsSuiteDiagram, CreatesSuiteRun}
use konfirm.System.Calls.{Operator}

-- A status goes along an edge of its kind's phase diagram, and what is created is a pod of an
-- unfinished Test, a Test of an unfinished TestRun, or a TestRun of a Running TestSuite, each as the
-- server answered.
abbrev pub IsSound : Operator → Effect → Type 0
IsSound s (patch_test_status a b) = FollowsDiagram (patch_test_status a b)
IsSound s (patch_run_status a b) = FollowsRunDiagram (patch_run_status a b)
IsSound s (patch_suite_status a b) = FollowsSuiteDiagram (patch_suite_status a b)
IsSound s (create_pod p) = CreatesTestPod s.tests (create_pod p)
IsSound s (create_test t) = CreatesRunTest s.runs (create_test t)
IsSound s (create_run t) = CreatesSuiteRun s.suites (create_run t)
IsSound s _ = Unit

module _ (s : Operator) where
  abbrev I : History → Type 0
  I = All (IsSound s)
