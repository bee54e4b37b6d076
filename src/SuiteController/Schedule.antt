-- ===== src/SuiteController/Schedule.antt =====
-- The first half of `TestSuiteReconciler.notRunning`: the phase Ready, the history limit and the
-- active schedule.
use konfirm.Base.{
  ℕ, ◌-◌, not, String, Option, none, some, is_some, List, length, take, drop, ltb, str_eq,
  lookup_or_empty, insert, if◌then◌else◌,
}
use konfirm.Api.{TestRun, TestSuite, TestSuitePhase, suite_is_pending}
use konfirm.Cluster.{on_reply, M, pure, ◌>>=◌, ask, on_error, run_kind}
use konfirm.Helpers.{clean_up_all}
use konfirm.SuiteController.Defs.{
  TestSuiteReconciler, suite_finalizer, schedule_annotation, Flow, next, stop, carry_on, later,
  patch_suite_of, patch_status_of, or_later, or_as_sent, with_suite_condition, with_suite_phase,
  with_next_run, with_annotations,
}

module _ (r : TestSuiteReconciler) where
  -- "setting test suite as Ready"
  unfoldable pub become_ready : TestSuite → M (Flow TestSuite)
  unfolding patch_status_of or_later
  become_ready suite =
      if suite_is_pending suite.status.phase
      then (do
        reply ← patch_status_of r suite (with_suite_phase TestSuitePhase.ready suite)
        or_later r reply)
      else pure (next suite)

  -- "Enforce historyLimit", on runs in the order of their creation.
  unfoldable pub enforce_history : TestSuite → List TestRun → M (Flow (List TestRun))
  enforce_history suite runs =
      let l = length runs in
      let m = suite.spec.history_limit in
      if ltb m l
      then (do
        (_, failure) ← clean_up_all (run_kind r.client) r.client suite_finalizer (take (l - m) runs)
        on_error failure (λ e. pure (stop (later r))) (pure (next (drop (l - m) runs))))
      else pure (next runs)

  -- "Annotate with the current schedule"
  unfoldable pub annotate_schedule : TestSuite → M (Flow TestSuite)
  unfolding patch_suite_of or_later
  annotate_schedule suite =
      let schedule = suite.spec.when.schedule in
      if not (str_eq (lookup_or_empty schedule_annotation suite.meta.annotations) schedule)
      then (do
        reply ←
            patch_suite_of r suite
              (with_annotations (insert schedule_annotation schedule suite.meta.annotations) suite)
        or_later r reply)
      else pure (next suite)

  -- "setting next run", for a schedule that parses.
  unfoldable pub set_next_run : TestSuite → (ℕ → ℕ) → M (Flow TestSuite)
  unfolding patch_status_of or_later
  set_next_run suite schedule = if is_some suite.status.next_run then pure (next suite) else (do
    now ← ask r.clock
    reply ← patch_status_of r suite (
        with_suite_condition r "HasSchedule" "True" "ScheduleSet" "schedule is set"
          (with_next_run (some (schedule now)) suite))
    or_later r reply)

  -- "Schedule is defined but not valid". An error is only logged.
  unfoldable pub set_invalid : TestSuite → M TestSuite
  unfolding patch_status_of or_as_sent
  set_invalid suite = do
    let suite' =
        with_suite_condition r "HasSchedule" "False" "InvalidSchedule"
          "schedule is not a valid cron value" (with_next_run none suite)
    reply ← patch_status_of r suite suite'
    or_as_sent r suite' reply

  -- "Parse the schedule and set next run": of `when`, read before the annotation. With the variable
  -- `schedule`, nil unless it parses.
  unfoldable pub parse_schedule : String → TestSuite → M (Flow (TestSuite × Option (ℕ → ℕ)))
  unfolding set_next_run set_invalid carry_on
  parse_schedule when suite =
      on_reply (r.cron_parser when) (λ e. do s ← set_invalid suite; pure (next (s, none)))
        λ schedule. do
          set ← set_next_run suite schedule
          carry_on set (λ s. pure (next (s, some schedule)))

  -- "Ensure active schedule is set"
  unfoldable pub active_schedule : TestSuite → M (Flow (TestSuite × Option (ℕ → ℕ)))
  unfolding annotate_schedule parse_schedule carry_on
  active_schedule suite =
      let when = suite.spec.when.schedule in
      if not (str_eq when "")
      then (do annotated ← annotate_schedule suite; carry_on annotated (λ s. parse_schedule when s))
      else pure (next (suite, none))
