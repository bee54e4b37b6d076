-- ===== src/SuiteController/Recorded.antt =====
-- A TestSuite on its way to `isRunning` has a phase and a current run that the server answered with.
use konfirm.Base.{refl, not, none, is_some, List, [], ◌∷◌, str_eq, lookup_or_empty}
use konfirm.Api.{TestRun, TestSuite, run_is_final, suite_is_running}
use konfirm.Cluster.{
  Failure, History, NamespacedName, Reply, ok, err, M, pure, ◌>>=◌, on_reply, suite_kind, call,
}
use konfirm.Cluster.Keeps.{
  Answers, Keeps, Keeps-pure, Returns, Returns-pure, Returns-bind, Returns-call,
  Returns-bind_returns, Returns-if,
}
use konfirm.Helpers.{add_finalizer}
use konfirm.Helpers.Leads.{Kept, add_finalizer-Kept}
use konfirm.SuiteController.Defs.{
  TestSuiteReconciler, suite_finalizer, schedule_annotation, helm_trigger_label, Flow, next, stop,
  carry_on, finally, SuiteExit, later, patch_suite_of, patch_status_of, or_later, or_as_sent,
  with_next_run,
}
use konfirm.SuiteController.Prepare.{
  helm_label, clear_next_run, remove_schedule, handle_schedule, handle_helm, focus, default_phase,
  ensure_suite_phase, suite_unset,
}
use konfirm.SuiteController.Answers.{HasAnswered, patched-Answered, status-Answered}
use konfirm.SuiteController.Unschedule.{FlowsTo, or_later-FlowsTo}

carry_on-FlowsTo :
    {A B : Type 0} {R : B → Type 0} (Q : A → Type 0) (x : Flow A) (f : A → M (Flow B))
    → FlowsTo Q x
    → ((a : A) → Q a → Returns (FlowsTo R) (f a))
    → Returns (FlowsTo R) (carry_on x f)
unfolding carry_on
carry_on-FlowsTo Q (next a) f q rf = rf a q
carry_on-FlowsTo Q (stop e) f q rf = Returns-pure _ tt

carry_on-Returns :
    {A B : Type 0} {R : B → Type 0} (x : Flow A) (f : A → M (Flow B))
    → ((a : A) → Returns (FlowsTo R) (f a))
    → Returns (FlowsTo R) (carry_on x f)
unfolding carry_on
carry_on-Returns (next a) f rf = rf a
carry_on-Returns (stop e) f rf = Returns-pure _ tt

pub finally-Keeps_flowed :
    {A : Type 0} {I : History → Type 0} (Q : A → Type 0) (x : Flow A) (f : A → M SuiteExit)
    → FlowsTo Q x
    → ((a : A) → Q a → Keeps I (f a))
    → Keeps I (finally x f)
unfolding finally
finally-Keeps_flowed Q (next a) f q kf = kf a q
finally-Keeps_flowed Q (stop e) f q kf = Keeps-pure _

answered-Returns :
    {A B : Type 0} {R : B → Type 0} (Q : A → Type 0) (x : Reply A) (f : Failure → M B) (g : A → M B)
    → Answers Q x
    → ((e : Failure) → Returns R (f e))
    → ((a : A) → Q a → Returns R (g a))
    → Returns R (on_reply x f g)
unfolding on_reply
answered-Returns Q (ok a) f g q rf rg = rg a q
answered-Returns Q (err e) f g q rf rg = rf e

module _ (r : TestSuiteReconciler) (req : NamespacedName) where
  abbrev Q : TestSuite → Type 0
  Q = HasAnswered r req

  patch-Answered : (a b : TestSuite) → Returns (Answers Q) (patch_suite_of r a b)
  unfolding patch_suite_of
  patch-Answered a b = Returns-call _ _ (λ h. patched-Answered r req h a b _ refl)

  patch_status-Answered : (a b : TestSuite) → Returns (Answers Q) (patch_status_of r a b)
  unfolding patch_status_of
  patch_status-Answered a b = Returns-call _ _ (λ h. status-Answered r req h a b _ refl)

  or_as_sent-Answered :
      (sent : TestSuite) (x : Reply TestSuite)
      → Q sent
      → Answers Q x
      → Returns Q (or_as_sent r sent x)
  unfolding or_as_sent
  or_as_sent-Answered sent x here q =
      answered-Returns Q x _ _ q (λ e. Returns-pure _ here) (λ s p. Returns-pure _ p)

  status_or_later-Answered :
      (a b : TestSuite) → Returns (FlowsTo Q) (patch_status_of r a b >>= λ reply. or_later r reply)
  status_or_later-Answered a b =
      Returns-bind_returns (Answers Q) _ _ (patch_status-Answered a b) (or_later-FlowsTo r Q)

  clear_next_run-Answered : (suite : TestSuite) → Q suite → Returns Q (clear_next_run r suite)
  unfolding clear_next_run
  clear_next_run-Answered suite q =
      Returns-if
        (not (
          str_eq suite.spec.when.schedule
            (lookup_or_empty schedule_annotation suite.meta.annotations)))
        _ (pure suite)
        (λ changed.
          Returns-if (is_some suite.status.next_run) _ (pure suite)
            (λ set.
              Returns-bind_returns (Answers Q) (patch_status_of r suite (with_next_run none suite))
                _ (patch_status-Answered suite (with_next_run none suite))
                (λ x p. or_as_sent-Answered (with_next_run none suite) x q p))
            (λ unset. Returns-pure suite q))
        (λ same. Returns-pure suite q)

  remove_schedule-Answered : (suite : TestSuite) → Returns (FlowsTo Q) (remove_schedule r suite)
  unfolding remove_schedule
  remove_schedule-Answered suite =
      Returns-bind _ _
        (λ removed. carry_on-Returns removed _ (λ s. status_or_later-Answered suite _))

  pub handle_schedule-Answered :
      (suite : TestSuite) → Q suite → Returns (FlowsTo Q) (handle_schedule r suite)
  unfolding handle_schedule
  handle_schedule-Answered suite q =
      Returns-if (not (str_eq suite.spec.when.schedule "")) _ (remove_schedule r suite)
        (λ scheduled.
          Returns-bind_returns Q (clear_next_run r suite) (λ s. pure (next s))
            (clear_next_run-Answered suite q) (λ s p. Returns-pure (next s) p))
        (λ unscheduled. remove_schedule-Answered suite)

  pub handle_helm-Answered : (suite : TestSuite) → Q suite → Returns Q (handle_helm r suite)
  unfolding handle_helm
  handle_helm-Answered suite q =
      Returns-if (not (str_eq suite.spec.when.helm_release "")) _ (pure suite)
        (λ triggered.
          Returns-if
            (not (
              str_eq (lookup_or_empty helm_trigger_label suite.meta.labels)
                (helm_label suite.meta.namespace suite.spec.when.helm_release)))
            _ (pure suite)
            (λ changed.
              Returns-bind_returns (Answers Q) _ _ (patch-Answered suite _)
                (λ x p. or_as_sent-Answered _ x q p))
            (λ same. Returns-pure suite q))
        (λ free. Returns-pure suite q)

  focus-Answered :
      (suite : TestSuite) (runs : List TestRun) → Q suite → Returns (FlowsTo Q) (focus r suite runs)
  unfolding focus
  focus-Answered suite [] q = Returns-pure (next suite) q
  focus-Answered suite (run ∷ runs) q =
      Returns-if (not (run_is_final run.status.phase)) _ (focus r suite runs)
        (λ open_run. Returns-bind_returns (Answers Q) _ _ (patch_status-Answered suite _) (λ x p.
          answered-Returns Q x _ _ p (λ e. Returns-pure (stop (later r)) tt)
            (λ s here. focus-Answered s runs here)))
        (λ ended. focus-Answered suite runs q)

  default_phase-Answered :
      (suite : TestSuite) → Q suite → Returns (FlowsTo Q) (default_phase r suite)
  unfolding default_phase
  default_phase-Answered suite q =
      Returns-if (suite_unset suite.status.phase) _ _ (λ unset. status_or_later-Answered suite _)
        (λ set. Returns-pure (next suite) q)

  pub ensure_suite_phase-Answered :
      (suite : TestSuite) (runs : List TestRun)
      → Q suite
      → Returns (FlowsTo Q) (ensure_suite_phase r suite runs)
  unfolding ensure_suite_phase
  ensure_suite_phase-Answered suite runs q =
      Returns-if (not (suite_is_running suite.status.phase)) _ _
        (λ other.
          Returns-bind_returns (FlowsTo Q) (focus r suite runs) _ (focus-Answered suite runs q)
            (λ x p. carry_on-FlowsTo Q x _ p default_phase-Answered))
        (λ running. Returns-pure (next suite) q)

  pub hold_suite-Kept :
      (suite : TestSuite)
      → Q suite
      → Returns (Kept Q) (add_finalizer (suite_kind r.client) suite_finalizer suite)
  unfolding suite_kind call
  hold_suite-Kept suite q =
      add_finalizer-Kept (suite_kind r.client) Q suite_finalizer suite q
        (λ new h. patched-Answered r req h suite new _ refl)
