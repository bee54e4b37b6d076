-- ===== src/SuiteController/Prepared.antt =====
-- The schedule and the next run between the finalizer and the code of the phases.
use konfirm.Base.{ℕ, Bool, ◌≡◌, refl, true, false, not, none, List, [], ◌∷◌, str_eq, arith}
use konfirm.Api.{TestRun, TestSuite, TestSuitePhase, suite_is_running, run_is_final}
use konfirm.Cluster.{pure, ◌>>=◌, run_kind}
use konfirm.Cluster.Keeps.{
  Answers, Returns, Returns-pure, Returns-bind_returns, Returns-if, returns_rules,
}
use konfirm.Sweep.{Swept, swept, failed, out_of_range, is_gone}
use konfirm.Sweep.Live.{EndsLive, sweep-EndsLive}
use konfirm.SuiteController.Defs.{
  TestSuiteReconciler, next, stop, carry_on, later, patch_status_of, with_next_run,
  with_suite_phase, with_current_run, suite_finalizer,
}
use konfirm.SuiteController.Prepare.{
  clear_next_run, remove_annotation, unscheduled, remove_schedule, handle_schedule, handle_helm,
  sweep_runs, flow_of, focus, default_phase, ensure_suite_phase,
}
use konfirm.SuiteController.Scheduled.{
  EndsWell, Of, Idle, KeepsSchedule, carry_on-EndsWell, status-EndsWell, patch-EndsWell,
  status-as_sent, patch-as_sent, status-Answers, answered-Returns,
}

module _ {r : TestSuiteReconciler} (keeps : KeepsSchedule r) where
  clear_next_run-Idle :
      (suite : TestSuite)
      → not (str_eq suite.spec.when.schedule "") ≡ true
      → Returns (Of Idle) (clear_next_run r suite)
  unfolding clear_next_run
  clear_next_run-Idle suite scheduled =
      let here : Of Idle suite = ground (arith, scheduled) in
      let sent : Of Idle (with_next_run none suite) = ground (arith, scheduled) in
      search (returns_rules, status-as_sent keeps Idle suite, sent, here)

  remove_annotation-EndsWell :
      (suite : TestSuite) → Returns (EndsWell (λ s. Unit {0})) (remove_annotation r suite)
  unfolding remove_annotation
  remove_annotation-EndsWell suite =
      search (returns_rules, patch-EndsWell keeps (λ s t. Unit {0}) suite)

  remove_schedule-EndsWell :
      (suite : TestSuite) → Returns (EndsWell (Of Idle)) (remove_schedule r suite)
  unfolding remove_schedule
  remove_schedule-EndsWell suite =
      Returns-bind_returns (EndsWell (λ s. Unit {0})) _ _ (remove_annotation-EndsWell suite)
        λ x removed.
          carry_on-EndsWell (λ s. Unit {0}) x _ removed
            (λ s u. status-EndsWell keeps Idle suite (unscheduled r s) (ground arith))

  pub handle_schedule-EndsWell :
      (suite : TestSuite) → Returns (EndsWell (Of Idle)) (handle_schedule r suite)
  unfolding handle_schedule
  handle_schedule-EndsWell suite =
      Returns-if (not (str_eq suite.spec.when.schedule "")) _ _
        (λ scheduled.
          Returns-bind_returns (Of Idle) (clear_next_run r suite) (λ s. pure (next s))
            (clear_next_run-Idle suite scheduled) (λ s idle. Returns-pure (next s) idle))
        (λ free. remove_schedule-EndsWell suite)

  pub handle_helm-Idle :
      (suite : TestSuite) → Of Idle suite → Returns (Of Idle) (handle_helm r suite)
  unfolding handle_helm
  handle_helm-Idle suite idle = search (returns_rules, patch-as_sent keeps Idle suite, idle)

  focus-EndsWell :
      (suite : TestSuite) (runs : List TestRun)
      → Of Idle suite
      → Returns (EndsWell (Of Idle)) (focus r suite runs)
  unfolding focus
  focus-EndsWell suite [] idle = Returns-pure _ idle
  focus-EndsWell suite (run ∷ runs) idle =
      let focused =
        with_current_run run.meta.name (with_suite_phase TestSuitePhase.running suite) in
      Returns-if (not (run_is_final run.status.phase)) _ (focus r suite runs)
        (λ open_run.
          Returns-bind_returns (Answers (Of Idle)) (patch_status_of r suite focused) _
            (status-Answers keeps Idle suite focused idle)
            (λ x q.
              answered-Returns (Of Idle) x _ _ q (λ e. Returns-pure (stop (later r)) tt)
                (λ s i. focus-EndsWell s runs i)))
        (λ ended. focus-EndsWell suite runs idle)

  default_phase-EndsWell :
      (suite : TestSuite) → Of Idle suite → Returns (EndsWell (Of Idle)) (default_phase r suite)
  unfolding default_phase
  default_phase-EndsWell suite idle = search (returns_rules, status-EndsWell keeps Idle suite, idle)

  pub ensure_suite_phase-EndsWell :
      (suite : TestSuite) (runs : List TestRun)
      → Of Idle suite
      → Returns (EndsWell (Of Idle)) (ensure_suite_phase r suite runs)
  unfolding ensure_suite_phase
  ensure_suite_phase-EndsWell suite runs idle =
      Returns-if (not (suite_is_running suite.status.phase)) _ _
        (λ other.
          Returns-bind_returns (EndsWell (Of Idle)) (focus r suite runs)
            (λ x. carry_on x (λ s. default_phase r s)) (focus-EndsWell suite runs idle)
            (λ x q.
              carry_on-EndsWell (Of Idle) x (λ s. default_phase r s) q default_phase-EndsWell))
        (λ running. Returns-pure (next suite) idle)

  flow_of-EndsWell :
      (g p : TestRun → Bool) (n : ℕ) (x : Swept (List TestRun))
      → EndsLive g p n x
      → EndsWell (λ ts. Unit {0}) (flow_of r x)
  flow_of-EndsWell g p n (swept ts) live = tt
  flow_of-EndsWell g p n (failed e) live = tt
  flow_of-EndsWell g p n out_of_range live = live

  pub sweep_runs-EndsWell :
      (runs : List TestRun) → Returns (EndsWell (λ ts. Unit {0})) (sweep_runs r runs)
  unfolding sweep_runs ◌>>=◌ pure
  sweep_runs-EndsWell runs = record {
    at = λ h.
        flow_of-EndsWell (is_gone (run_kind r.client)) (λ t. false) _ _
          (sweep-EndsLive (run_kind r.client) suite_finalizer (λ t. false) (λ t gone. refl) runs h);
  }
