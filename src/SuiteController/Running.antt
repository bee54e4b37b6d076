-- ===== src/SuiteController/Running.antt =====
-- `TestSuiteReconciler.isRunning`.
use konfirm.Base.{
  String, Bool, true, false, not, Option, none, some, List, [], ◌∷◌, concat, str_eq, pos,
  if◌then◌else◌,
}
use konfirm.Api.{TestRun, TestRunPhase, TestSuite, TestSuitePhase}
use konfirm.Cluster.{
  on_some, SuiteMetric, create_run, event, inc_suite, set_suite, M, pure, ◌>>=◌, ◌>>◌, call, emit,
  on_reply,
}
use konfirm.Helpers.{compute_test_run_hash}
use konfirm.SuiteController.Defs.{
  TestSuiteReconciler, suite_finalizer, SuiteExit, returns, finished, later, patch_status_of,
  with_suite_condition, with_suite_phase, with_current_run,
}

-- The first run of a name.
abbrev pub find_run : String → List TestRun → Option TestRun
find_run name [] = none
find_run name (run ∷ runs) =
    let rest = find_run name runs in if str_eq run.meta.name name then some run else rest

-- `return ctrl.Result{Requeue: true}, errors.New("current test run is missing")`
abbrev pub run_missing : SuiteExit
run_missing =
    returns (record { requeue = true; requeue_after = pos 0 })
      (some (record { reason = ""; message = "current test run is missing" }))

module _ (r : TestSuiteReconciler) where
  -- The TestRun built from the TestSuite's template.
  unfoldable pub new_run : TestSuite → TestRun
  unfolding compute_test_run_hash
  new_run suite = record {
    type = record { api_version = ""; kind = "" };
    meta = record {
      name = "";
      generate_name = concat (suite.meta.name ∷ "-" ∷ []);
      namespace = suite.meta.namespace;
      uid = "";
      generation = 0;
      creation_timestamp = 0;
      deletion_timestamp = none;
      finalizers = suite_finalizer ∷ [];
      owner_references =
          record {
            api_version = suite.type.api_version;
            kind = suite.type.kind;
            name = suite.meta.name;
            uid = suite.meta.uid;
            controller = true;
            block_owner_deletion = true;
          }
          ∷ [];
      labels = [];
      annotations =
          ("konfirm.goraft.tech/template", compute_test_run_hash r.client suite.spec.template) ∷ [];
    };
    spec = record {
      retention_policy = suite.spec.template.retention_policy;
      tests = suite.spec.template.tests;
    };
    status = record { conditions = []; phase = TestRunPhase.unset; message = ""; results = [] };
  }

  -- "Patch status", behind the creation of a TestRun.
  abbrev pub run_started : TestSuite → TestRun → TestSuite
  run_started suite run =
      let message = concat ("created test run " ∷ run.meta.name ∷ []) in
      with_suite_condition r "RunStarted" "True" "TestRunStarted" message (
        with_suite_condition r "NeedsRun" "False" "TestRunStarted" message
          (with_current_run run.meta.name suite))

  -- Behind the creation of a TestRun.
  unfoldable pub started_run : TestSuite → TestRun → M SuiteExit
  unfolding patch_status_of
  started_run suite run = do
    emit (
        event suite.meta "Normal" "StartedTestRun"
          (concat ("Created test run " ∷ run.meta.name ∷ [])))
    patched ← patch_status_of r suite (run_started suite run)
    on_reply patched (λ e. pure (later r)) (λ s. pure finished)

  -- "Create the test run"
  unfoldable pub create_suite_run : TestSuite → M SuiteExit
  unfolding new_run started_run
  create_suite_run suite = do
    let run = new_run suite
    reply ← call (create_run run) (λ h. r.client.create_run h run)
    on_reply reply (λ e. pure (later r)) (λ t. started_run suite t)

  -- "Record an event and update metrics": the gauges in the order in which they are set.
  unfoldable pub report_run : TestSuite → String → Bool → M SuiteExit
  report_run suite name passed =
      let ns = suite.meta.namespace in
      let n = suite.meta.name in
      if passed
      then (do
        emit (set_suite SuiteMetric.passing ns n 1)
        emit (set_suite SuiteMetric.failing ns n 0)
        emit (
            event suite.meta "Normal" "TestRunPassed"
              (concat ("test run " ∷ name ∷ " passed" ∷ [])))
        pure finished)
      else (do
        emit (set_suite SuiteMetric.failing ns n 1)
        emit (set_suite SuiteMetric.passing ns n 0)
        emit (
            event suite.meta "Warning" "TestRunFailed"
              (concat ("test run " ∷ name ∷ " failed" ∷ [])))
        pure finished)

  abbrev pub run_ended : TestSuite → String → TestSuite
  run_ended suite name =
      with_suite_condition r "RunStarted" "False" "TestRunCompleted"
        (concat ("test run " ∷ name ∷ " completed" ∷ []))
        (with_current_run "" (with_suite_phase TestSuitePhase.ready suite))

  -- Behind the status patch.
  unfoldable pub count_run : TestSuite → String → Bool → M SuiteExit
  unfolding report_run
  count_run suite name passed = do
    emit (inc_suite SuiteMetric.runs suite.meta.namespace suite.meta.name)
    report_run suite name passed

  -- "Update test suite status", for a TestRun that has ended.
  unfoldable pub end_run : TestSuite → String → Bool → M SuiteExit
  unfolding patch_status_of count_run
  end_run suite name passed = do
    reply ← patch_status_of r suite (run_ended suite name)
    on_reply reply (λ e. pure (later r)) (λ s. count_run s name passed)

  -- "Handle finished test runs"
  unfoldable pub by_run_phase : TestSuite → String → TestRunPhase → M SuiteExit
  unfolding end_run
  by_run_phase suite name TestRunPhase.passed = end_run suite name true
  by_run_phase suite name TestRunPhase.failed = end_run suite name false
  by_run_phase suite name _ = pure finished

  -- `isRunning`
  unfoldable pub is_running : TestSuite → List TestRun → M SuiteExit
  unfolding create_suite_run by_run_phase
  is_running suite runs =
      if not (str_eq suite.status.current_test_run "")
      then on_some (find_run suite.status.current_test_run runs)
          (λ run. by_run_phase suite run.meta.name run.status.phase) (pure run_missing)
      else create_suite_run suite
