-- ===== src/SuiteController/Prepare.antt =====
-- `Reconcile` between the finalizer and the code of the phases: changes of the schedule and of the
-- Helm trigger, deleted test runs, their order, and the phase.
use konfirm.Base.{
  String, Bool, true, false, not, none, is_some, List, [], ◌∷◌, concat, codes, index_of, str_eq,
  ltb, lookup, lookup_or_empty, insert, remove, if◌then◌else◌,
}
use konfirm.Api.{TestRun, TestSuite, TestSuitePhase, run_is_final, suite_is_running}
use konfirm.Cluster.{M, pure, ◌>>=◌, on_reply, run_kind}
use konfirm.Sweep.{Swept, swept, failed, out_of_range, sweep}
use konfirm.SuiteController.Defs.{
  TestSuiteReconciler, suite_finalizer, schedule_annotation, helm_trigger_label, panics, Flow, next,
  stop, carry_on, later, patch_suite_of, patch_status_of, or_later, or_as_sent,
  with_suite_condition, with_suite_phase, with_current_run, with_next_run, with_annotations,
}

-- The label for the release of a trigger: one with a dot as it is, and another behind the
-- TestSuite's namespace.
unfoldable pub helm_label : String → String → String
helm_label namespace release =
    if is_some (index_of b'.' (codes release))
    then release
    else concat (namespace ∷ "." ∷ release ∷ [])

abbrev pub suite_unset : TestSuitePhase → Bool
suite_unset TestSuitePhase.unset = true
suite_unset _ = false

module _ (r : TestSuiteReconciler) where
  -- A schedule that is not the active one clears the next run. An error is only logged.
  unfoldable pub clear_next_run : TestSuite → M TestSuite
  unfolding patch_status_of or_as_sent
  clear_next_run suite =
      if not (
        str_eq suite.spec.when.schedule
          (lookup_or_empty schedule_annotation suite.meta.annotations))
      then if is_some suite.status.next_run
        then (do
          let suite' = with_next_run none suite
          reply ← patch_status_of r suite suite'
          or_as_sent r suite' reply)
        else pure suite
      else pure suite

  -- "removing active schedule"
  unfoldable pub remove_annotation : TestSuite → M (Flow TestSuite)
  unfolding patch_suite_of or_later
  remove_annotation suite =
      if is_some (lookup schedule_annotation suite.meta.annotations)
      then (do
        reply ←
            patch_suite_of r suite
              (with_annotations (remove schedule_annotation suite.meta.annotations) suite)
        or_later r reply)
      else pure (next suite)

  -- "schedule is not defined"
  abbrev pub unscheduled : TestSuite → TestSuite
  unscheduled suite =
      with_suite_condition r "HasSchedule" "False" "ScheduleNotDefined" "schedule is not defined"
        (with_next_run none suite)

  -- Without a schedule. Both patches start from the object before.
  unfoldable pub remove_schedule : TestSuite → M (Flow TestSuite)
  unfolding remove_annotation carry_on patch_status_of or_later
  remove_schedule orig = do
    removed ← remove_annotation orig
    carry_on removed
        λ suite. do reply ← patch_status_of r orig (unscheduled suite); or_later r reply

  -- "Handle changes to scheduling"
  unfoldable pub handle_schedule : TestSuite → M (Flow TestSuite)
  unfolding clear_next_run remove_schedule
  handle_schedule suite =
      if not (str_eq suite.spec.when.schedule "")
      then (do s ← clear_next_run suite; pure (next s))
      else remove_schedule suite

  -- "Handle changes to Helm triggers". The key that is deleted is the name of the constant, no
  -- annotation of the controller. An error is only logged.
  unfoldable pub handle_helm : TestSuite → M TestSuite
  unfolding helm_label patch_suite_of or_as_sent
  handle_helm suite =
      let release = helm_label suite.meta.namespace suite.spec.when.helm_release in
      if not (str_eq suite.spec.when.helm_release "")
      then if not (str_eq (lookup_or_empty helm_trigger_label suite.meta.labels) release)
        then (do
          let suite' = record suite {
            meta = record suite.meta {
              labels = insert helm_trigger_label release suite.meta.labels;
              annotations = remove "TestSuiteLastHelmReleaseAnnotation" suite.meta.annotations;
            };
          }
          reply ← patch_suite_of r suite suite'
          or_as_sent r suite' reply)
        else pure suite
      else pure suite

  -- How the sweep ends, for the code behind it.
  abbrev pub flow_of : {A : Type 0} → Swept A → Flow A
  flow_of (swept a) = next a
  flow_of (failed e) = stop (later r)
  flow_of out_of_range = stop panics

  -- "Handle deleted test runs"
  unfoldable pub sweep_runs : List TestRun → M (Flow (List TestRun))
  unfolding sweep
  sweep_runs runs = do
    swept_runs ← sweep (run_kind r.client) suite_finalizer runs
    pure (flow_of swept_runs)

  -- "Sort TestRuns by creation time"
  abbrev pub created_before : TestRun → TestRun → Bool
  created_before t u = ltb t.meta.creation_timestamp u.meta.creation_timestamp

  abbrev pub sort_runs : List TestRun → List TestRun
  sort_runs runs = r.client.sort_slice created_before runs

  -- The loop under "the TestSuite should be running and focused on the oldest TestRun". It goes on
  -- behind a run that it has found.
  unfoldable pub focus : TestSuite → List TestRun → M (Flow TestSuite)
  unfolding patch_status_of or_later carry_on
  focus suite [] = pure (next suite)
  focus suite (run ∷ runs) =
      let rest = focus suite runs in
      let found = do
        reply ←
            patch_status_of r suite
              (with_current_run run.meta.name (with_suite_phase TestSuitePhase.running suite))
        on_reply reply (λ e. pure (stop (later r))) (λ s. focus s runs)
      in if not (run_is_final run.status.phase) then found else rest

  -- "If no phase is set, default to Pending"
  unfoldable pub default_phase : TestSuite → M (Flow TestSuite)
  unfolding patch_status_of or_later
  default_phase suite =
      if suite_unset suite.status.phase
      then (do
        reply ← patch_status_of r suite (with_suite_phase TestSuitePhase.pending suite)
        or_later r reply)
      else pure (next suite)

  -- "Ensure the correct phase"
  unfoldable pub ensure_suite_phase : TestSuite → List TestRun → M (Flow TestSuite)
  unfolding focus carry_on default_phase
  ensure_suite_phase suite runs =
      if not (suite_is_running suite.status.phase)
      then (do focused ← focus suite runs; carry_on focused (λ s. default_phase s))
      else pure (next suite)
