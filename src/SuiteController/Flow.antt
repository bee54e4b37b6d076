-- ===== src/SuiteController/Flow.antt =====
-- The invariants of the history that `TestSuiteReconciler.Reconcile` keeps, call by call.
use konfirm.Base.{is_some, ◌≡◌, refl, String, Bool, true, false, List, [], ◌∷◌, equal_texts}
use konfirm.Api.{TestRun, TestRunPhase, TestSuite, suite_is_running}
use konfirm.Cluster.{
  ◌>>=◌, History, NamespacedName, create_run, delete_suite, patch_suite, Kind, suite_kind,
}
use konfirm.Helpers.Keeps.{add_finalizer-Keeps, clean_up-Keeps}
use konfirm.Cluster.Keeps.{
  Answers, Keeps-ask, Keeps-answered, Keeps-bind_returns, Returns-ask, Keeps, Allows, Keeps-call,
  Keeps-pure, Keeps-bind, Keeps-if, Keeps-on_error, Keeps-on_some,
}
use konfirm.Helpers.{add_finalizer}
use konfirm.Helpers.Leads.{Kept, Keeps-kept}
use konfirm.SuiteController.Answers.{HasAnswered, got-Answered}
use konfirm.SuiteController.Unschedule.{FlowsTo}
use konfirm.SuiteController.Recorded.{
  finally-Keeps_flowed, ensure_suite_phase-Answered, handle_schedule-Answered, handle_helm-Answered,
  hold_suite-Kept,
}
use konfirm.SuiteController.Prepare.{sort_runs, handle_schedule, handle_helm, ensure_suite_phase}
use konfirm.SuiteController.Defs.{
  TestSuiteReconciler, suite_finalizer, patch_status_of, finally, later,
}
use konfirm.SuiteController.Running.{
  find_run, new_run, run_started, create_suite_run, started_run, end_run, by_run_phase, is_running,
}
use konfirm.SuiteController.Reconcile.{
  delete_suite_runs, by_suite_phase, with_swept, with_runs, with_suite, reconcile_suite,
}
use konfirm.SuiteController.Edges.{AllowsSuiteWrites}
use konfirm.SuiteController.Writes.{
  flow_rules, same_phase-Keeps, handle_schedule-Keeps, handle_helm-Keeps, sweep_runs-Keeps,
  ensure_suite_phase-Keeps, clean_runs-Keeps,
}
use konfirm.SuiteController.Starting.{not_running-Keeps}

module _ {r : TestSuiteReconciler} {I : History → Type 0} (allows : AllowsSuiteWrites r I)
    (req : NamespacedName) where
  run_started-Keeps :
      (suite : TestSuite) (run : TestRun)
      → Keeps I (patch_status_of r suite (run_started r suite run))
  run_started-Keeps suite run = same_phase-Keeps allows suite (run_started r suite run) refl

  create_suite_run-Keeps :
      (suite : TestSuite)
      → Allows I (create_run (new_run r suite))
      → Keeps I (create_suite_run r suite)
  unfolding create_suite_run started_run
  create_suite_run-Keeps suite created =
      search (flow_rules, allows.started, run_started-Keeps) depth 9

  by_run_phase-Keeps :
      (suite : TestSuite) (name : String) (phase : TestRunPhase)
      → ((passed : Bool) → Keeps I (end_run r suite name passed))
      → Keeps I (by_run_phase r suite name phase)
  unfolding by_run_phase
  by_run_phase-Keeps suite name TestRunPhase.passed k = k true
  by_run_phase-Keeps suite name TestRunPhase.failed k = k false
  by_run_phase-Keeps suite name TestRunPhase.unset k = Keeps-pure _
  by_run_phase-Keeps suite name TestRunPhase.starting k = Keeps-pure _
  by_run_phase-Keeps suite name TestRunPhase.running k = Keeps-pure _
  by_run_phase-Keeps suite name (TestRunPhase.other _) k = Keeps-pure _

  is_running-Keeps :
      (suite : TestSuite) (runs : List TestRun)
      → HasAnswered r req suite
      → suite_is_running suite.status.phase ≡ true
      → Keeps I (is_running r suite runs)
  unfolding is_running
  is_running-Keeps suite runs from running =
      Keeps-if _ _ _
        (λ named.
          Keeps-on_some (find_run suite.status.current_test_run runs) _ _
            (λ run.
              by_run_phase-Keeps suite run.meta.name run.status.phase
                (λ passed. allows.end suite run.meta.name passed running))
            (Keeps-pure _))
        (λ unnamed.
          create_suite_run-Keeps suite
            (allows.create req suite from running (equal_texts _ _ unnamed)))

  by_suite_phase-Keeps :
      (suite : TestSuite) (runs : List TestRun)
      → HasAnswered r req suite
      → Keeps I (by_suite_phase r suite runs)
  unfolding by_suite_phase
  by_suite_phase-Keeps suite runs from =
      Keeps-if _ _ _ (λ running. is_running-Keeps suite runs from running)
        (λ idle. not_running-Keeps allows suite runs)

  phased-Keeps :
      (suite : TestSuite) (runs : List TestRun)
      → HasAnswered r req suite
      → Keeps I (
          ensure_suite_phase r suite runs >>= λ phased.
          finally phased (λ s. by_suite_phase r s runs))
  phased-Keeps suite runs from =
      Keeps-bind_returns (FlowsTo (HasAnswered r req)) _ _
        (ensure_suite_phase-Keeps allows suite runs)
        (ensure_suite_phase-Answered r req suite runs from)
        (λ x q.
          finally-Keeps_flowed (HasAnswered r req) x _ q
            (λ s here. by_suite_phase-Keeps s runs here))

  with_swept-Keeps :
      (suite : TestSuite) (runs : List TestRun)
      → HasAnswered r req suite
      → Keeps I (with_swept r suite runs)
  unfolding with_swept
  with_swept-Keeps suite runs from = search (
    flow_rules,
    sweep_runs-Keeps allows,
    λ (live : List TestRun). phased-Keeps suite (sort_runs r live) from,
  )

  patch_suite-Keeps : (a b : TestSuite) → Keeps I (Kind.patch (suite_kind r.client) a b)
  unfolding suite_kind
  patch_suite-Keeps a b = Keeps-call (patch_suite a b) _ (allows.patch a b)

  delete_suite-Keeps : (t : TestSuite) → Keeps I (Kind.delete (suite_kind r.client) t)
  unfolding suite_kind
  delete_suite-Keeps t = Keeps-call (delete_suite t) _ (allows.delete t)

  delete_suite_runs-Keeps :
      (suite : TestSuite) (runs : List TestRun) → Keeps I (delete_suite_runs r suite runs)
  unfolding delete_suite_runs
  delete_suite_runs-Keeps suite [] =
      Keeps-bind _ _
        (clean_up-Keeps (suite_kind r.client) patch_suite-Keeps delete_suite-Keeps r.client
          suite_finalizer suite)
        (λ x. Keeps-on_error x.1 _ _ (λ e. Keeps-pure _) (Keeps-pure _))
  delete_suite_runs-Keeps suite (run ∷ runs) = search (flow_rules, clean_runs-Keeps allows)

  prepared-Keeps :
      (suite : TestSuite) (runs : List TestRun)
      → HasAnswered r req suite
      → Keeps I (
          handle_schedule r suite >>= λ scheduled.
          finally scheduled (λ s. handle_helm r s >>= λ triggered. with_swept r triggered runs))
  prepared-Keeps suite runs from =
      Keeps-bind_returns (FlowsTo (HasAnswered r req)) _ _ (handle_schedule-Keeps allows suite)
        (handle_schedule-Answered r req suite from)
        λ scheduled q. finally-Keeps_flowed (HasAnswered r req) scheduled _ q λ s here.
          Keeps-bind_returns (HasAnswered r req) _ _ (handle_helm-Keeps allows s)
            (handle_helm-Answered r req s here) (λ t there. with_swept-Keeps t runs there)

  with_runs-Keeps :
      (suite : TestSuite) (runs : List TestRun)
      → HasAnswered r req suite
      → Keeps I (with_runs r suite runs)
  unfolding with_runs
  with_runs-Keeps suite runs from =
      Keeps-if (is_some suite.meta.deletion_timestamp) (delete_suite_runs r suite runs) _
        (λ deleted. delete_suite_runs-Keeps suite runs)
        (λ live.
          Keeps-bind_returns (Kept (HasAnswered r req))
            (add_finalizer (suite_kind r.client) suite_finalizer suite) _
            (add_finalizer-Keeps (suite_kind r.client) patch_suite-Keeps suite_finalizer suite)
            (hold_suite-Kept r req suite from)
            (λ x q.
              Keeps-kept (HasAnswered r req) x.0 x.1 x.2 _ _ q (λ e. Keeps-pure (later r))
                (λ held. prepared-Keeps x.2 runs held)))

  with_suite-Keeps :
      (suite : TestSuite) → HasAnswered r req suite → Keeps I (with_suite r req suite)
  unfolding with_suite
  with_suite-Keeps suite from =
      search (flow_rules, allows.touch, λ (runs : List TestRun). with_runs-Keeps suite runs from)
        depth 9

  pub reconcile_suite-Keeps : Keeps I (reconcile_suite r req)
  unfolding reconcile_suite
  reconcile_suite-Keeps =
      Keeps-bind_returns (Answers (HasAnswered r req)) _ _ (Keeps-ask _)
        (Returns-ask _ (λ h. got-Answered r req h _ refl))
        (λ reply q.
          Keeps-answered (HasAnswered r req) reply _ _ q
            (λ e.
              Keeps-on_error (r.client.ignore_not_found e) _ _ (λ e'. Keeps-pure _) (Keeps-pure _))
            with_suite-Keeps)
