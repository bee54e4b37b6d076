-- ===== src/SuiteController/OnTime.antt =====
-- When a TestSuite that is neither Running nor triggered in another way starts a run.
use konfirm.Base.{
  ◌≡◌, refl, sym, ap, subst, ◌∙◌, ℕ, ◌+◌, ◌-◌, ◌<◌, ◌≤◌, String, true, false, Option, none, some,
  List, ◌∷◌, ◌++◌, [], ltb, pos, sub_ℕ, arith,
}
use konfirm.Api.{TestSuite, TestSuitePhase}
use konfirm.Cluster.{
  Effect, Reply, ok, err, History, patch_suite_status, event, pure, ◌>>=◌, ◌>>◌, ask, call, emit,
  on_reply, on_some,
}
use konfirm.SuiteController.Defs.{
  TestSuiteReconciler, returns, finally, patch_status_of, with_next_run, later, finished,
}
use konfirm.SuiteController.Release.{current_release}
use konfirm.SuiteController.Trigger.{
  missed_after, miss_run, at_time, schedule_trigger, pick_trigger, start_run, run_if_triggered,
}

-- The latest status patch is from `suite` to a Running one without a current run and with the same
-- next run.
abbrev pub Starts : TestSuite → History → History → Type 0
Starts suite h h' =
    (new : TestSuite) × (events : List Effect) × (h' ≡ events ++ patch_suite_status suite new ∷ h)
    × (new.status.phase ≡ TestSuitePhase.running)
    × (new.status.current_test_run ≡ "")
    × (new.status.next_run ≡ suite.status.next_run)

module _ (r : TestSuiteReconciler) (suite : TestSuite) where
  -- No other trigger: what is left is the schedule.
  run_if_triggered-at_time :
      (schedule : Option (ℕ → ℕ)) (time : ℕ) (h : History)
      → suite.trigger.needs_run ≡ false
      → suite.spec.when.helm_release ≡ ""
      → suite.status.next_run ≡ some time
      → run_if_triggered r suite schedule h
        ≡ (at_time r suite schedule time (r.clock h) >>= λ picked.
              finally picked (λ x. start_run r x.0 x.1))
            h
  unfolding run_if_triggered current_release pick_trigger schedule_trigger ◌>>=◌ ask pure on_some
      finally
  run_if_triggered-at_time schedule time h idle no_release at = rw (no_release, idle, at) refl

  start_run_answered :
      (reply : Reply TestSuite) (message : String) (h : History)
      → (events : List Effect) × ((on_reply reply
            (λ e. pure (later r))
            (λ s. emit (event s.meta "Normal" "TestSuiteTriggered" message) >> pure finished)
            h).1
          ≡ events ++ h)
  unfolding ◌>>=◌ emit pure on_reply
  start_run_answered (ok s) message h =
      (event s.meta "Normal" "TestSuiteTriggered" message ∷ [], refl)
  start_run_answered (err e) message h = ([], refl)

  start_run-Starts :
      (reason message : String) (h : History)
      → Starts suite h
          (start_run r suite (record { reason = reason; message = message; base = suite }) h).1
  unfolding start_run patch_status_of ◌>>=◌ call
  start_run-Starts reason message h =
      let (events, e) = start_run_answered _ message _ in (_, events, e, refl, refl, refl)

  miss_run_answered :
      (reply : Reply TestSuite) (time : ℕ) (h : History)
      → (on_reply reply
          (λ e. pure (later r))
          (λ s. ask r.clock >>= λ now.
            pure (returns (record { requeue = false; requeue_after = sub_ℕ time now }) none))
          h).1
        ≡ h
  unfolding ◌>>=◌ ask pure on_reply
  miss_run_answered (ok s) time h = refl
  miss_run_answered (err e) time h = refl

  miss_run_writes :
      (schedule : ℕ → ℕ) (h : History)
      → (miss_run r suite (some schedule) h).1
        ≡ patch_suite_status suite (with_next_run (some (schedule (r.clock h))) suite) ∷ h
  unfolding miss_run patch_status_of ◌>>=◌ ask call
  miss_run_writes schedule h = miss_run_answered _ _ _

  -- What a TestSuite that is triggered neither by hand nor by a release does when its next run is
  -- at `time`: before, it writes nothing and asks to be called at that time; up to ten seconds late,
  -- it becomes Running, with its next run unchanged; and later than that, it sets the time after
  -- now as its next run.
  pub run_if_triggered-on_time :
      (schedule : ℕ → ℕ) (time : ℕ) (h : History)
      → suite.trigger.needs_run ≡ false
      → suite.spec.when.helm_release ≡ ""
      → suite.status.next_run ≡ some time
      → (r.clock h < time
          → run_if_triggered r suite (some schedule) h ≡ (
            returns (record { requeue = false; requeue_after = pos (time - r.clock h) }) none,
            h,
          ))
        × (time ≤ r.clock h
            → r.clock h ≤ time + missed_after
            → Starts suite h (run_if_triggered r suite (some schedule) h).1)
        × (time + missed_after < r.clock h
            → (run_if_triggered r suite (some schedule) h).1
              ≡ patch_suite_status suite (with_next_run (some (schedule (r.clock h))) suite) ∷ h)
  unfolding at_time finally ◌>>=◌ pure
  run_if_triggered-on_time schedule time h idle no_release at =
      let same = run_if_triggered-at_time (some schedule) time h idle no_release at in
      (
        λ early. let e : ltb (r.clock h) time ≡ true = ground arith in same ∙ rw e refl,
        λ late in_time.
            subst (λ x. Starts suite h x.1) (sym same)
              (let e : ltb (r.clock h) time ≡ false = ground arith in
                let m : ltb (time + missed_after) (r.clock h) ≡ false = ground arith in
                rw (e, m) (start_run-Starts "Scheduled" _ h)),
        λ missed.
            ap (λ x. x.1) same
            ∙ (let e : ltb (r.clock h) time ≡ false = ground arith in
                let m : ltb (time + missed_after) (r.clock h) ≡ true = ground arith in
                rw (e, m) (miss_run_writes schedule h)),
      )
