-- ===== src/RunController/Reconcile.antt =====
-- `Reconcile`, `isRunning` and `isComplete` of `TestRunReconciler`.
use konfirm.Base.{
  ℕ, ◌-◌, String, Bool, true, false, not, ◌&&◌, none, some, List, [], ◌∷◌, is_some, length, concat,
  decimal, ◌==◌, if◌then◌else◌,
}
use konfirm.Api.{Test, TestRun, TestRunPhase, RetainPolicy, run_is_final}
use konfirm.Cluster.{
  Failure, Reply, NamespacedName, patch_run_status, event, Outcome, M, pure, ◌>>=◌, ◌>>◌, emit,
  call, ask, on_error, on_reply, test_kind, run_kind, done, retry_after,
}
use konfirm.Helpers.{add_finalizer, remove_finalizer, clean_up_all}
use konfirm.RunController.Sweep.{TestRunReconciler, run_finalizer, sweep_tests}
use konfirm.Sweep.{Swept, swept, failed, out_of_range}
use konfirm.RunController.Mapping.{map_tests}
use konfirm.RunController.Results.{Tally, no_results, tally_from}

-- How a call of `Reconcile` ends.
pub data Exit : Type 0 where
  returns : Outcome → Exit
  panics : Exit

abbrev pub run_unset : TestRunPhase → Bool
run_unset TestRunPhase.unset = true
run_unset _ = false

-- `policy == RetainNever || (policy == RetainOnFailure && phase == TestRunPassed)`
abbrev pub drops_tests : RetainPolicy → TestRunPhase → Bool
drops_tests RetainPolicy.never phase = true
drops_tests RetainPolicy.on_failure TestRunPhase.passed = true
drops_tests _ _ = false

-- `return ctrl.Result{}, nil`
abbrev pub finish : M Exit
finish = pure (returns (done, none))

module _ (r : TestRunReconciler) where
  -- `return ctrl.Result{Requeue: true, RequeueAfter: r.ErrRequeueDelay}, err`
  abbrev pub retry_run : Failure → M Exit
  retry_run e = pure (returns (retry_after r.err_requeue_delay, some e))

  -- `if err = client.IgnoreNotFound(err); err == nil { … }`, under `err != nil`.
  abbrev pub retry_found : Failure → M Exit
  retry_found e = on_error (r.client.ignore_not_found e) (λ e'. retry_run e') finish

  -- The end of a loop that may return early.
  unfoldable pub after : {A : Type 0} → Swept A → (A → M Exit) → M Exit
  after (swept a) f = f a
  after (failed e) f = retry_run e
  after out_of_range f = pure panics

  -- `r.Client.Status().Patch(ctx, testRun, client.MergeFrom(orig))`
  unfoldable pub patch_status_of : TestRun → TestRun → M (Reply TestRun)
  patch_status_of orig run =
      call (patch_run_status orig run) (λ h. r.client.patch_run_status h orig run)

  abbrev pub with_status : TestRunPhase → String → TestRun → TestRun
  with_status phase message run = record run {
    status = record run.status { phase = phase; message = message };
  }

  -- `meta.SetStatusCondition(&testRun.Status.Conditions, …)`
  abbrev pub with_run_condition : String → String → String → String → TestRun → TestRun
  with_run_condition type status reason message run = record run {
    status = record run.status {
      conditions =
          r.client.set_status_condition
            (record {
              type = type;
              status = status;
              observed_generation = run.meta.generation;
              reason = reason;
              message = message;
            })
            run.status.conditions;
    };
  }

  -- "TestRun is in progress"
  unfoldable pub in_progress : TestRun → TestRun → ℕ → Tally → M Exit
  unfolding patch_status_of
  in_progress orig run count tally = do
    let message = concat (
        decimal (count - tally.completions)
        ∷ " test(s) in progress. "
        ∷ decimal tally.passes
        ∷ " test(s) passed. "
        ∷ decimal tally.failures
        ∷ " test(s) failed."
        ∷ [])
    reply ← patch_status_of orig (
        with_run_condition "RunCompleted" "False" "TestRunInProgress" "Test run is executing" (
          with_run_condition "RunStarted" "True" "TestRunStarted" "Test run has started"
            (with_status TestRunPhase.running message run)))
    on_reply reply (λ e. retry_run e) (λ t. finish)

  -- "Test run is complete". The message of a run that passed counts its failures, which are 0.
  abbrev pub verdict : TestRun → Tally → TestRun
  verdict run tally =
      let count = concat (decimal tally.failures ∷ " of " ∷ decimal tally.completions ∷ []) in
      if tally.failures == 0
      then with_run_condition "RunCompleted" "True" "TestRunPassed"
          (concat (count ∷ " tests passed" ∷ []))
          (with_status TestRunPhase.passed (concat (count ∷ " tests passed" ∷ [])) run)
      else with_run_condition "RunCompleted" "True" "TestRunFailed"
          (concat (count ∷ " tests failed" ∷ []))
          (with_status TestRunPhase.failed (concat (count ∷ " tests failed" ∷ [])) run)

  unfoldable pub complete : TestRun → TestRun → Tally → M Exit
  unfolding patch_status_of
  complete orig run tally = do
    let run' = verdict run tally
    emit (
        if tally.failures == 0
        then event run'.meta "Normal" "TestRunPassed" run'.status.message
        else event run'.meta "Warning" "TestRunFailed" run'.status.message)
    reply ← patch_status_of orig run'
    on_reply reply (λ e. retry_found e) (λ t. finish)

  -- The part of `isRunning` behind its loops; `count` is `len(mapped)`.
  unfoldable pub conclude : TestRun → ℕ → Tally → M Exit
  unfolding in_progress complete
  conclude orig count tally =
      let run = record orig { status = record orig.status { results = tally.results } } in
      if not (count == tally.completions)
      then in_progress orig run count tally
      else complete orig run tally

  unfoldable pub run_is_running : TestRun → List Test → M Exit
  unfolding after conclude map_tests tally_from
  run_is_running run tests = do
    mapped ← map_tests r (length run.spec.tests) tests
    after mapped λ m. do
      tally ← tally_from r run m.items 0 run.spec.tests m.places no_results
      after tally (λ t. conclude run (length m.places) t)

  unfoldable pub run_is_complete : TestRun → List Test → M Exit
  run_is_complete run tests =
      if drops_tests run.spec.retention_policy run.status.phase
      then (do
        (_, failure) ← clean_up_all (test_kind r.client) r.client run_finalizer tests
        on_error failure (λ e. retry_run e) finish)
      else finish

  -- "Handle deleted test runs"
  unfoldable pub delete_run_tests : TestRun → List Test → M Exit
  delete_run_tests run [] = do
    (_, failure, _) ← remove_finalizer (run_kind r.client) run_finalizer run
    on_error failure (λ e. retry_run e) finish
  delete_run_tests run (t ∷ ts) = do
    (_, failure) ← clean_up_all (test_kind r.client) r.client run_finalizer (t ∷ ts)
    on_error failure (λ e. retry_run e) finish

  -- From "Handle deleted test runs" to the end of `Reconcile`.
  unfoldable pub handle_run : TestRun → List Test → M Exit
  unfolding after delete_run_tests run_is_running run_is_complete sweep_tests
  handle_run run tests =
      if is_some run.meta.deletion_timestamp then delete_run_tests run tests else do
        remaining ← sweep_tests r tests
        after remaining (λ ts.
            if run_is_final run.status.phase then run_is_complete run ts else run_is_running run ts)

  -- "If TestRun status is empty, make Starting"
  unfoldable pub ensure_run_phase : TestRun → List Test → M Exit
  unfolding handle_run patch_status_of
  ensure_run_phase run tests =
      if run_unset run.status.phase
      then (do
        reply ← patch_status_of run (with_status TestRunPhase.starting "Test Run is starting" run)
        on_reply reply (λ e. on_error (r.client.ignore_not_found e) (λ _. retry_run e) finish)
            λ t. do
              emit (event t.meta "Normal" "TestRunCreated" t.status.message)
              handle_run t tests)
      else handle_run run tests

  unfoldable pub with_tests : TestRun → List Test → M Exit
  unfolding ensure_run_phase
  with_tests run tests =
      if not (run_is_final run.status.phase) && not (is_some run.meta.deletion_timestamp)
      then (do
        (_, failure, run') ← add_finalizer (run_kind r.client) run_finalizer run
        on_error failure (λ e. retry_found e) (ensure_run_phase run' tests))
      else ensure_run_phase run tests

  -- `TestRunReconciler.Reconcile`
  unfoldable pub reconcile_run : NamespacedName → M Exit
  unfolding with_tests
  reconcile_run req = do
    reply ← ask (λ h. r.client.get_run h req)
    on_reply reply (λ e. retry_found e)
        λ run. do
          listed ← ask (λ h. r.client.list_tests h req)
          on_reply listed (λ e. pure (returns (done, some e))) (λ tests. with_tests run tests)
