-- ===== src/System/Free.antt =====
-- Invariants that every write of the TestSuite controller and of the watcher keeps.
use konfirm.Base.{ℕ, String}
use konfirm.Api.{ObjectMeta, TestRun, TestSuite}
use konfirm.Cluster.{
  History, NamespacedName, SuiteMetric, create_run, delete_run, delete_suite, patch_run,
  patch_suite, patch_suite_status, event, touch_suite, inc_suite, set_suite, enqueue,
}
use konfirm.Cluster.Keeps.{Allows}
use konfirm.SuiteController.{TestSuiteReconciler}
use konfirm.SuiteController.Edges.{AllowsSuiteWrites}
use konfirm.SuiteController.Progress.{end_run-Keeps}
use konfirm.SuiteController.Unschedule.{remove_schedule-Keeps_freely}

pub record AllowsFreely (I : History → Type 0) : Type 0 where
  pub create : (t : TestRun) → Allows I (create_run t)
  pub patch_run : (a b : TestRun) → Allows I (patch_run a b)
  pub delete_run : (t : TestRun) → Allows I (delete_run t)
  pub patch : (a b : TestSuite) → Allows I (patch_suite a b)
  pub status : (a b : TestSuite) → Allows I (patch_suite_status a b)
  pub delete : (t : TestSuite) → Allows I (delete_suite t)
  pub touch : (m : SuiteMetric) (ns n : String) → Allows I (touch_suite m ns n)
  pub inc : (m : SuiteMetric) (ns n : String) → Allows I (inc_suite m ns n)
  pub set : (m : SuiteMetric) (ns n : String) (v : ℕ) → Allows I (set_suite m ns n v)
  pub report : (m : ObjectMeta) (a b c : String) → Allows I (event m a b c)
  pub queue : (req : NamespacedName) → Allows I (enqueue req)

pub suite_writes :
    {I : History → Type 0} (r : TestSuiteReconciler) → AllowsFreely I → AllowsSuiteWrites r I
suite_writes r free = record {
  patch_run = free.patch_run;
  delete_run = free.delete_run;
  patch = free.patch;
  delete = free.delete;
  touch = free.touch;
  triggered = λ m a. free.report m _ _ a;
  started = λ m a. free.report m _ _ a;
  step = λ a b e. free.status a b;
  unschedule = λ suite. remove_schedule-Keeps_freely r suite free.patch free.status;
  create = λ req suite from e f. free.create _;
  end = λ suite name passed e.
      end_run-Keeps r suite name passed (free.status _ _) free.inc free.set free.report;
}
