-- ===== src/SuiteController/Starting.antt =====
-- The invariants of the history that `TestSuiteReconciler.notRunning` keeps.
use konfirm.Base.{ℕ, String, Option, none, some, List}
use konfirm.Api.{TestRun, TestSuite, TestSuitePhase}
use konfirm.Cluster.{History, NamespacedName}
use konfirm.Cluster.Keeps.{Keeps, Keeps-pure}
use konfirm.HelmWatcher.{HelmReleaseMeta}
use konfirm.SuiteController.Defs.{
  TestSuiteReconciler, with_suite_phase, with_current_run, with_suite_condition, patch_status_of,
}
use konfirm.SuiteController.Release.{may_observe, observed_release, list_latest, current_release}
use konfirm.SuiteController.Trigger.{
  SuiteTrigger, manual_trigger, helm_trigger, miss_run, at_time, schedule_trigger, pick_trigger,
  start_run, run_if_triggered, not_running,
}
use konfirm.SuiteController.Edges.{AllowsSuiteWrites, begin}
use konfirm.SuiteController.Writes.{
  flow_rules, patch_suite_of-Keeps, patch_status_of-Keeps, next_run-Keeps, become_ready-Keeps,
  enforce_history-Keeps, active_schedule-Keeps,
}

module _ (r : TestSuiteReconciler) {I : History → Type 0} where
  may_observe-Keeps : (ns : String) (release : NamespacedName) → Keeps I (may_observe r ns release)
  unfolding may_observe
  may_observe-Keeps ns release = search flow_rules

  observed_release-Keeps : (suite : TestSuite) → Keeps I (observed_release r suite)
  unfolding observed_release
  observed_release-Keeps suite = search (flow_rules, may_observe-Keeps)

  list_latest-Keeps : (o : Option NamespacedName) → Keeps I (list_latest r o)
  unfolding list_latest
  list_latest-Keeps none = Keeps-pure _
  list_latest-Keeps (some release) = search flow_rules

  current_release-Keeps : (suite : TestSuite) → Keeps I (current_release r suite)
  unfolding current_release
  current_release-Keeps suite = search (flow_rules, observed_release-Keeps, list_latest-Keeps)

module _ {r : TestSuiteReconciler} {I : History → Type 0} (allows : AllowsSuiteWrites r I) where
  manual_trigger-Keeps : (suite : TestSuite) → Keeps I (manual_trigger r suite)
  unfolding manual_trigger
  manual_trigger-Keeps suite = search (flow_rules, patch_suite_of-Keeps allows)

  helm_trigger-Keeps : (suite : TestSuite) (v : String) → Keeps I (helm_trigger r suite v)
  unfolding helm_trigger
  helm_trigger-Keeps suite v = search (flow_rules, patch_suite_of-Keeps allows)

  miss_run-Keeps :
      (suite : TestSuite) (schedule : Option (ℕ → ℕ)) → Keeps I (miss_run r suite schedule)
  unfolding miss_run
  miss_run-Keeps suite none = Keeps-pure _
  miss_run-Keeps suite (some schedule) = search (flow_rules, next_run-Keeps allows)

  schedule_trigger-Keeps :
      (suite : TestSuite) (schedule : Option (ℕ → ℕ)) (time : ℕ)
      → Keeps I (schedule_trigger r suite schedule time)
  unfolding schedule_trigger at_time
  schedule_trigger-Keeps suite schedule time = search (flow_rules, miss_run-Keeps)

  pick_trigger-Keeps :
      (suite : TestSuite) (schedule : Option (ℕ → ℕ)) (release : Option HelmReleaseMeta)
      → Keeps I (pick_trigger r suite schedule release)
  unfolding pick_trigger
  pick_trigger-Keeps suite schedule release =
      search (flow_rules, manual_trigger-Keeps, helm_trigger-Keeps, schedule_trigger-Keeps)

  triggered-Keeps :
      (base suite : TestSuite) (reason message : String)
      → Keeps I (
          patch_status_of r base (
            with_suite_condition r "NeedsRun" "True" reason message
              (with_current_run "" (with_suite_phase TestSuitePhase.running suite))))
  triggered-Keeps base suite reason message = patch_status_of-Keeps allows base _ begin

  start_run-Keeps : (suite : TestSuite) (t : SuiteTrigger) → Keeps I (start_run r suite t)
  unfolding start_run
  start_run-Keeps suite t = search (flow_rules, triggered-Keeps, allows.triggered)

  run_if_triggered-Keeps :
      (suite : TestSuite) (schedule : Option (ℕ → ℕ)) → Keeps I (run_if_triggered r suite schedule)
  unfolding run_if_triggered
  run_if_triggered-Keeps suite schedule =
      search (flow_rules, current_release-Keeps r, pick_trigger-Keeps, start_run-Keeps)

  pub not_running-Keeps :
      (suite : TestSuite) (runs : List TestRun) → Keeps I (not_running r suite runs)
  unfolding not_running
  not_running-Keeps suite runs =
      search
        (
          flow_rules,
          become_ready-Keeps allows,
          enforce_history-Keeps allows,
          active_schedule-Keeps allows,
          run_if_triggered-Keeps,
        )
        depth 9
