-- ===== src/SuiteController/Exits.antt =====
-- How the parts of `Reconcile` of a TestSuite end that need nothing of its schedule, or one that is
-- there.
use konfirm.Base.{
  ℕ, Bool, String, ◌≡◌, refl, true, false, not, Option, none, some, is_some, List, [], ◌∷◌, str_eq,
  arith, ltb, ◌+◌,
}
use konfirm.Api.{TestRun, TestRunPhase, TestSuite}
use konfirm.Cluster.{NamespacedName, M, pure, ◌>>=◌, ask, on_some}
use konfirm.Cluster.Keeps.{
  Returns, Returns-pure, Returns-bind, Returns-bind_returns, Returns-if, Returns-on_reply,
  Returns-on_error, returns_rules,
}
use konfirm.HelmWatcher.{HelmReleaseMeta}
use konfirm.SuiteController.Defs.{TestSuiteReconciler, Flow, next, stop, carry_on, later, finished}
use konfirm.SuiteController.Release.{
  may_observe, observed_release, list_latest, current_release, split_release,
}
use konfirm.SuiteController.Schedule.{enforce_history}
use konfirm.SuiteController.Trigger.{
  SuiteTrigger, manual_trigger, helm_trigger, miss_run, at_time, schedule_trigger, pick_trigger,
  start_run, run_if_triggered, new_version, missed_after,
}
use konfirm.SuiteController.Running.{
  count_run, report_run, run_missing, started_run, create_suite_run, end_run, by_run_phase,
  is_running,
}
use konfirm.SuiteController.Reconcile.{delete_suite_runs}
use konfirm.SuiteController.Scheduled.{IsExpected, EndsWell, carry_on-EndsWell, finally-IsExpected}

-- Any value.
abbrev pub Any : {A : Type 0} → A → Type 0
Any a = Unit

-- A nil schedule comes with no next run.
abbrev pub Timed : TestSuite × Option (ℕ → ℕ) → Type 0
Timed (suite, none) = is_some suite.status.next_run ≡ false
Timed (suite, some schedule) = Unit

pub Returns-on_some :
    {A B : Type 0} {Q : B → Type 0} (o : Option A) (f : A → M B) (m : M B)
    → ((a : A) → Returns Q (f a))
    → Returns Q m
    → Returns Q (on_some o f m)
unfolding on_some
Returns-on_some none f m rf rm = rm
Returns-on_some (some a) f m rf rm = rf a

module _ (r : TestSuiteReconciler) where
  pub later-IsExpected : Returns IsExpected (pure (later r))
  later-IsExpected = Returns-pure _ tt

  pub finished-IsExpected : Returns IsExpected (pure finished)
  finished-IsExpected = Returns-pure _ tt

  pub ruleset exits = (returns_rules, Returns-on_some, later-IsExpected, finished-IsExpected)

  end_run-IsExpected :
      (suite : TestSuite) (name : String) (passed : Bool)
      → Returns IsExpected (end_run r suite name passed)
  unfolding end_run count_run report_run
  end_run-IsExpected suite name passed = search exits depth 12

  by_run_phase-IsExpected :
      (suite : TestSuite) (name : String) (phase : TestRunPhase)
      → Returns IsExpected (by_run_phase r suite name phase)
  unfolding by_run_phase
  by_run_phase-IsExpected suite name TestRunPhase.passed = end_run-IsExpected suite name true
  by_run_phase-IsExpected suite name TestRunPhase.failed = end_run-IsExpected suite name false
  by_run_phase-IsExpected suite name TestRunPhase.unset = finished-IsExpected
  by_run_phase-IsExpected suite name TestRunPhase.starting = finished-IsExpected
  by_run_phase-IsExpected suite name TestRunPhase.running = finished-IsExpected
  by_run_phase-IsExpected suite name (TestRunPhase.other _) = finished-IsExpected

  create_suite_run-IsExpected : (suite : TestSuite) → Returns IsExpected (create_suite_run r suite)
  unfolding create_suite_run started_run
  create_suite_run-IsExpected suite = search exits depth 12

  missing-IsExpected : Returns IsExpected (pure run_missing)
  missing-IsExpected = Returns-pure run_missing (refl, refl)

  pub is_running-IsExpected :
      (suite : TestSuite) (runs : List TestRun) → Returns IsExpected (is_running r suite runs)
  unfolding is_running
  is_running-IsExpected suite runs =
      search (exits, missing-IsExpected, by_run_phase-IsExpected, create_suite_run-IsExpected) depth
        9

  pub delete_suite_runs-IsExpected :
      (suite : TestSuite) (runs : List TestRun)
      → Returns IsExpected (delete_suite_runs r suite runs)
  unfolding delete_suite_runs
  delete_suite_runs-IsExpected suite [] = search exits
  delete_suite_runs-IsExpected suite (run ∷ runs) = search exits

  start_run-IsExpected :
      (suite : TestSuite) (trigger : SuiteTrigger) → Returns IsExpected (start_run r suite trigger)
  unfolding start_run
  start_run-IsExpected suite trigger = search exits depth 9

  go_on : {A : Type 0} (a : A) → Returns (EndsWell Any) (pure (next a))
  go_on a = Returns-pure (next a) tt

  stop_later : {A : Type 0} → Returns (EndsWell {A = A} Any) (pure (stop (later r)))
  stop_later = Returns-pure (stop (later r)) tt

  go_through :
      {A B : Type 0} (m : M (Flow A)) (f : A → M (Flow B))
      → Returns (EndsWell Any) m
      → ((a : A) → Returns (EndsWell Any) (f a))
      → Returns (EndsWell Any) (m >>= λ x. carry_on x f)
  go_through m f rm rf =
      Returns-bind_returns (EndsWell Any) m _ rm (λ x q. carry_on-EndsWell Any x f q (λ a u. rf a))

  ruleset flows = (returns_rules, Returns-on_some, go_on, stop_later)

  may_observe-EndsWell :
      (namespace : String) (release : NamespacedName)
      → Returns (EndsWell Any) (may_observe r namespace release)
  unfolding may_observe
  may_observe-EndsWell namespace release = search flows depth 8

  observed_release-EndsWell :
      (suite : TestSuite) → Returns (EndsWell Any) (observed_release r suite)
  unfolding observed_release
  observed_release-EndsWell suite =
      Returns-on_some (split_release suite.spec.when.helm_release) _ _
        (λ release.
          go_through (may_observe r suite.meta.namespace release) _
            (may_observe-EndsWell suite.meta.namespace release) (λ allowed. go_on _))
        (go_on _)

  list_latest-EndsWell :
      (release : Option NamespacedName) → Returns (EndsWell Any) (list_latest r release)
  unfolding list_latest
  list_latest-EndsWell none = go_on none
  list_latest-EndsWell (some release) = search flows depth 8

  current_release-EndsWell : (suite : TestSuite) → Returns (EndsWell Any) (current_release r suite)
  unfolding current_release
  current_release-EndsWell suite =
      Returns-if (not (str_eq suite.spec.when.helm_release "")) _ _
        (λ triggers.
          go_through (observed_release r suite) (λ release. list_latest r release)
            (observed_release-EndsWell suite) list_latest-EndsWell)
        (λ free. go_on none)

  manual_trigger-EndsWell : (suite : TestSuite) → Returns (EndsWell Any) (manual_trigger r suite)
  unfolding manual_trigger
  manual_trigger-EndsWell suite = search flows depth 8

  helm_trigger-EndsWell :
      (suite : TestSuite) (version : String) → Returns (EndsWell Any) (helm_trigger r suite version)
  unfolding helm_trigger
  helm_trigger-EndsWell suite version = search flows depth 8

  miss_run-IsExpected :
      (suite : TestSuite) (schedule : ℕ → ℕ) → Returns IsExpected (miss_run r suite (some schedule))
  unfolding miss_run
  miss_run-IsExpected suite schedule = search exits depth 9

  at_time-EndsWell :
      (suite : TestSuite) (schedule : ℕ → ℕ) (time now : ℕ)
      → Returns (EndsWell Any) (at_time r suite (some schedule) time now)
  unfolding at_time
  at_time-EndsWell suite schedule time now =
      Returns-if (ltb now time) _ _ (λ early. Returns-pure _ tt)
        λ due.
          Returns-if (ltb (time + missed_after) now) _ _
            (λ late.
              Returns-bind_returns IsExpected (miss_run r suite (some schedule))
                (λ exit. pure (stop exit)) (miss_run-IsExpected suite schedule)
                (λ exit i. Returns-pure (stop exit) i))
            (λ on_time. go_on _)

  -- With a next run there is a schedule.
  next_run-EndsWell :
      (suite : TestSuite) (schedule : Option (ℕ → ℕ)) (time : Option ℕ)
      → suite.status.next_run ≡ time
      → Timed (suite, schedule)
      → Returns
          (EndsWell Any)
          (on_some time (λ t. schedule_trigger r suite schedule t) (pure (stop finished)))
  unfolding schedule_trigger on_some
  next_run-EndsWell suite schedule none e timed = Returns-pure (stop finished) tt
  next_run-EndsWell suite none (some t) e timed = absurd (ground (arith, e, timed))
  next_run-EndsWell suite (some schedule) (some t) e timed =
      Returns-bind (ask r.clock) (λ now. at_time r suite (some schedule) t now)
        (λ now. at_time-EndsWell suite schedule t now)

  pick_trigger-EndsWell :
      (suite : TestSuite) (schedule : Option (ℕ → ℕ)) (release : Option HelmReleaseMeta)
      → Timed (suite, schedule)
      → Returns (EndsWell Any) (pick_trigger r suite schedule release)
  unfolding pick_trigger
  pick_trigger-EndsWell suite schedule release timed =
      Returns-if suite.trigger.needs_run _ _ (λ manual. manual_trigger-EndsWell suite)
        λ other.
          Returns-on_some (new_version suite release) _ _
            (λ version. helm_trigger-EndsWell suite version)
            (next_run-EndsWell suite schedule suite.status.next_run refl timed)

  pub run_if_triggered-IsExpected :
      (x : TestSuite × Option (ℕ → ℕ)) → Timed x → Returns IsExpected (run_if_triggered r x.0 x.1)
  unfolding run_if_triggered
  run_if_triggered-IsExpected x timed =
      Returns-bind_returns (EndsWell Any) (current_release r x.0) _ (current_release-EndsWell x.0)
        λ found q. finally-IsExpected Any found _ q λ release u.
          Returns-bind_returns (EndsWell Any) (pick_trigger r x.0 x.1 release) _
            (pick_trigger-EndsWell x.0 x.1 release timed)
            (λ picked p. finally-IsExpected Any picked _ p (λ y v. start_run-IsExpected y.0 y.1))

  pub enforce_history-EndsWell :
      (suite : TestSuite) (runs : List TestRun)
      → Returns (EndsWell Any) (enforce_history r suite runs)
  unfolding enforce_history
  enforce_history-EndsWell suite runs = search flows depth 8
