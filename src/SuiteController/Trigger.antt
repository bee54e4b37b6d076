-- ===== src/SuiteController/Trigger.antt =====
-- The second half of `TestSuiteReconciler.notRunning`: "Trigger a test run, if needed".
use konfirm.Base.{
  ℕ, ◌+◌, ◌-◌, String, false, not, Option, none, some, List, [], ◌∷◌, concat, ltb, str_eq, sub_ℕ,
  pos, lookup_or_empty, insert, if◌then◌else◌,
}
use konfirm.Api.{TestRun, TestSuite, TestSuitePhase}
use konfirm.Cluster.{on_some, event, M, pure, ◌>>=◌, ◌>>◌, ask, emit, on_reply}
use konfirm.HelmWatcher.{HelmReleaseMeta}
use konfirm.SuiteController.Defs.{
  TestSuiteReconciler, last_helm_release_annotation, SuiteExit, returns, panics, Flow, next, stop,
  finally, finished, later, patch_suite_of, patch_status_of, with_suite_condition, with_suite_phase,
  with_current_run, with_next_run, with_annotations,
}
use konfirm.SuiteController.Release.{current_release}
use konfirm.SuiteController.Schedule.{become_ready, enforce_history, active_schedule}

-- `testSuiteTrigger`: its patch is one from the object `base`.
pub record SuiteTrigger : Type 0 where
  pub reason : String
  pub message : String
  pub base : TestSuite

-- Ten seconds.
abbrev pub missed_after : ℕ
missed_after = 10000000000

-- `currentHelmRelase != nil && currentHelmRelase.VersionString != …`
abbrev pub new_version : TestSuite → Option HelmReleaseMeta → Option String
new_version suite none = none
new_version suite (some release) =
    if not (
      str_eq release.version_string
        (lookup_or_empty last_helm_release_annotation suite.meta.annotations))
    then some release.version_string
    else none

-- "annotating last helm release": the annotation becomes that of the version's key.
abbrev pub observed : String → TestSuite → TestSuite
observed version suite =
    with_annotations
      (insert last_helm_release_annotation (lookup_or_empty version suite.meta.annotations)
        suite.meta.annotations)
      suite

module _ (r : TestSuiteReconciler) where
  -- `case testSuite.Trigger.NeedsRun`
  unfoldable pub manual_trigger : TestSuite → M (Flow (TestSuite × SuiteTrigger))
  unfolding patch_suite_of
  manual_trigger suite = do
    reply ← patch_suite_of r suite (record suite { trigger = record { needs_run = false } })
    on_reply reply (λ e. pure (stop (later r)))
        λ s. pure (
          next (
            s,
            record {
              reason = "Manual";
              message = "Test suite was manually triggered";
              base = suite;
            },
          ))

  -- The case of a Helm release.
  unfoldable pub helm_trigger : TestSuite → String → M (Flow (TestSuite × SuiteTrigger))
  unfolding patch_suite_of
  helm_trigger suite version = do
    reply ← patch_suite_of r suite (observed version suite)
    on_reply reply (λ e. pure (stop (later r)))
        λ s. pure (
          next (
            s,
            record {
              reason = "Helm";
              message = "Test suite was triggered by a Helm release";
              base = suite;
            },
          ))

  -- "missed scheduled run, requeueing"
  unfoldable pub miss_run : TestSuite → Option (ℕ → ℕ) → M SuiteExit
  unfolding patch_status_of
  miss_run suite none = pure panics
  miss_run suite (some schedule) = do
    now ← ask r.clock
    let time = schedule now
    reply ← patch_status_of r suite (with_next_run (some time) suite)
    on_reply reply (λ e. pure (later r))
        λ s. do
          now' ← ask r.clock
          pure (returns (record { requeue = false; requeue_after = sub_ℕ time now' }) none)

  -- The branches of `case testSuite.Status.NextRun != nil` on `until`, which is `time - now`.
  unfoldable pub at_time : TestSuite → Option (ℕ → ℕ) → ℕ → ℕ → M (Flow (TestSuite × SuiteTrigger))
  unfolding miss_run
  at_time suite schedule time now =
      if ltb now time
      then pure (stop (returns (record { requeue = false; requeue_after = pos (time - now) }) none))
      else if ltb (time + missed_after) now
      then (do exit ← miss_run suite schedule; pure (stop exit))
      else pure (
          next (
            suite,
            record {
              reason = "Scheduled";
              message =
                  concat ("test run triggered by schedule '" ∷ suite.spec.when.schedule ∷ "'" ∷ []);
              base = suite;
            },
          ))

  -- `case testSuite.Status.NextRun != nil`
  unfoldable pub schedule_trigger :
      TestSuite → Option (ℕ → ℕ) → ℕ → M (Flow (TestSuite × SuiteTrigger))
  unfolding at_time
  schedule_trigger suite schedule time = do now ← ask r.clock; at_time suite schedule time now

  -- The `switch`.
  unfoldable pub pick_trigger :
      TestSuite → Option (ℕ → ℕ) → Option HelmReleaseMeta → M (Flow (TestSuite × SuiteTrigger))
  unfolding manual_trigger helm_trigger schedule_trigger
  pick_trigger suite schedule release =
      if suite.trigger.needs_run
      then manual_trigger suite
      else on_some (new_version suite release) (λ version. helm_trigger suite version)
          (on_some suite.status.next_run (λ time. schedule_trigger suite schedule time)
            (pure (stop finished)))

  -- "Trigger the test run"
  unfoldable pub start_run : TestSuite → SuiteTrigger → M SuiteExit
  unfolding patch_status_of
  start_run suite trigger = do
    reply ← patch_status_of r trigger.base (
        with_suite_condition r "NeedsRun" "True" trigger.reason trigger.message
          (with_current_run "" (with_suite_phase TestSuitePhase.running suite)))
    on_reply reply (λ e. pure (later r))
        λ s. do emit (event s.meta "Normal" "TestSuiteTriggered" trigger.message); pure finished

  -- From "Determine the current Helm release" on.
  unfoldable pub run_if_triggered : TestSuite → Option (ℕ → ℕ) → M SuiteExit
  unfolding current_release pick_trigger finally start_run
  run_if_triggered suite schedule = do
    released ← current_release r suite
    finally released λ release. do
      picked ← pick_trigger suite schedule release
      finally picked (λ x. start_run x.0 x.1)

  -- `notRunning`
  unfoldable pub not_running : TestSuite → List TestRun → M SuiteExit
  unfolding become_ready enforce_history active_schedule finally run_if_triggered
  not_running suite runs = do
    ready ← become_ready r suite
    finally ready λ s. do
      kept ← enforce_history r s runs
      finally kept
          λ _. do active ← active_schedule r s; finally active (λ x. run_if_triggered x.0 x.1)
