-- ===== src/SuiteController/Reconcile.antt =====
-- `TestSuiteReconciler.Reconcile`.
use konfirm.Base.{is_some, List, [], ◌∷◌, if◌then◌else◌}
use konfirm.Api.{TestRun, TestSuite, suite_is_running}
use konfirm.Cluster.{
  NamespacedName, SuiteMetric, touch_suite, M, pure, ◌>>=◌, ◌>>◌, ask, emit, on_error, on_reply,
  run_kind, suite_kind,
}
use konfirm.Helpers.{add_finalizer, clean_up, clean_up_all}
use konfirm.SuiteController.Defs.{
  TestSuiteReconciler, suite_finalizer, SuiteExit, finally, finished, later,
}
use konfirm.SuiteController.Prepare.{
  handle_schedule, handle_helm, sweep_runs, sort_runs, ensure_suite_phase,
}
use konfirm.SuiteController.Trigger.{not_running}
use konfirm.SuiteController.Running.{is_running}

module _ (r : TestSuiteReconciler) where
  -- "Handle deleted test suites"
  unfoldable pub delete_suite_runs : TestSuite → List TestRun → M SuiteExit
  delete_suite_runs suite [] = do
    (_, failure, _) ← clean_up (suite_kind r.client) r.client suite_finalizer suite
    on_error failure (λ e. pure (later r)) (pure finished)
  delete_suite_runs suite (run ∷ runs) = do
    (_, failure) ← clean_up_all (run_kind r.client) r.client suite_finalizer (run ∷ runs)
    on_error failure (λ e. pure (later r)) (pure finished)

  -- "Phase-specific logic"
  unfoldable pub by_suite_phase : TestSuite → List TestRun → M SuiteExit
  unfolding is_running not_running
  by_suite_phase suite runs =
      if suite_is_running suite.status.phase
      then is_running r suite runs
      else not_running r suite runs

  -- From "Handle deleted test runs" on.
  unfoldable pub with_swept : TestSuite → List TestRun → M SuiteExit
  unfolding sweep_runs finally ensure_suite_phase by_suite_phase
  with_swept suite runs = do
    swept ← sweep_runs r runs
    finally swept λ live. do
      let sorted = sort_runs r live
      phased ← ensure_suite_phase r suite sorted
      finally phased (λ s. by_suite_phase s sorted)

  -- From "Handle deleted test suites" on.
  unfoldable pub with_runs : TestSuite → List TestRun → M SuiteExit
  unfolding delete_suite_runs handle_schedule finally handle_helm with_swept
  with_runs suite runs =
      if is_some suite.meta.deletion_timestamp then delete_suite_runs suite runs else (do
        (_, failure, held) ← add_finalizer (suite_kind r.client) suite_finalizer suite
        on_error failure (λ e. pure (later r))
            (do
              scheduled ← handle_schedule r held
              finally scheduled λ s. do triggered ← handle_helm r s; with_swept triggered runs))

  -- "Ensure the namespaced counters are initialized", and the list of runs.
  unfoldable pub with_suite : NamespacedName → TestSuite → M SuiteExit
  unfolding with_runs
  with_suite req suite = do
    emit (touch_suite SuiteMetric.runs suite.meta.namespace suite.meta.name)
    emit (touch_suite SuiteMetric.passing suite.meta.namespace suite.meta.name)
    emit (touch_suite SuiteMetric.failing suite.meta.namespace suite.meta.name)
    listed ← ask (λ h. r.client.list_runs h req)
    on_reply listed (λ e. pure (later r)) (λ runs. with_runs suite runs)

  -- `Reconcile`
  unfoldable pub reconcile_suite : NamespacedName → M SuiteExit
  unfolding with_suite
  reconcile_suite req = do
    reply ← ask (λ h. r.client.get_suite h req)
    on_reply reply
        (λ e. on_error (r.client.ignore_not_found e) (λ e'. pure (later r)) (pure finished))
        (λ suite. with_suite req suite)
