-- ===== src/SuiteController/Writes.antt =====
-- The invariants of the history that the parts of `TestSuiteReconciler.Reconcile` keep.
use konfirm.Base.{◌≡◌, refl, subst, ℕ, String, Option, List, [], ◌∷◌}
use konfirm.Api.{TestRun, TestSuite, TestSuitePhase}
use konfirm.Cluster.{History, Reply, M, run_kind, Kind, patch_run, delete_run}
use konfirm.Cluster.Keeps.{
  Keeps, Allows, keeps_rules, Keeps-call, Keeps-ask, Keeps-pure, Keeps-bind, Keeps-if,
  Keeps-on_reply,
}
use konfirm.Helpers.{clean_up_all}
use konfirm.Helpers.Keeps.{clean_up_all-Keeps}
use konfirm.Sweep.Keeps.{sweep-Keeps}
use konfirm.SuiteController.Defs.{
  TestSuiteReconciler, suite_finalizer, SuiteExit, Flow, next, stop, carry_on, finally, or_later,
  or_as_sent, patch_suite_of, patch_status_of, with_next_run, with_suite_condition,
  with_suite_phase, with_current_run,
}
use konfirm.SuiteController.Prepare.{
  clear_next_run, handle_schedule, handle_helm, sweep_runs, focus, default_phase,
  ensure_suite_phase,
}
use konfirm.SuiteController.Schedule.{
  become_ready, enforce_history, annotate_schedule, set_next_run, set_invalid, parse_schedule,
  active_schedule,
}
use konfirm.SuiteController.Edges.{
  AllowsSuiteWrites, SuiteEdge, stay, begin, admit_edge, accept_edge,
}

module _ {I : History → Type 0} where
  pub carry_on-Keeps :
      {A B : Type 0} (x : Flow A) (f : A → M (Flow B))
      → ((a : A) → Keeps I (f a))
      → Keeps I (carry_on x f)
  unfolding carry_on
  carry_on-Keeps (next a) f k = k a
  carry_on-Keeps (stop e) f k = Keeps-pure _

  pub finally-Keeps :
      {A : Type 0} (x : Flow A) (f : A → M SuiteExit)
      → ((a : A) → Keeps I (f a))
      → Keeps I (finally x f)
  unfolding finally
  finally-Keeps (next a) f k = k a
  finally-Keeps (stop e) f k = Keeps-pure _

  pub or_later-Keeps : {A : Type 0} (r : TestSuiteReconciler) (x : Reply A) → Keeps I (or_later r x)
  unfolding or_later
  or_later-Keeps r x = search keeps_rules

  pub or_as_sent-Keeps :
      (r : TestSuiteReconciler) (s : TestSuite) (x : Reply TestSuite) → Keeps I (or_as_sent r s x)
  unfolding or_as_sent
  or_as_sent-Keeps r s x = search keeps_rules

pub ruleset flow_rules =
    (keeps_rules, carry_on-Keeps, finally-Keeps, or_later-Keeps, or_as_sent-Keeps)

module _ {r : TestSuiteReconciler} {I : History → Type 0} (allows : AllowsSuiteWrites r I) where
  pub patch_suite_of-Keeps : (a b : TestSuite) → Keeps I (patch_suite_of r a b)
  unfolding patch_suite_of
  patch_suite_of-Keeps a b = Keeps-call _ _ (allows.patch a b)

  pub patch_status_of-Keeps :
      (a b : TestSuite) → SuiteEdge a.status.phase b.status.phase → Keeps I (patch_status_of r a b)
  unfolding patch_status_of
  patch_status_of-Keeps a b e = Keeps-call _ _ (allows.step a b e)

  pub same_phase-Keeps :
      (a b : TestSuite) → a.status.phase ≡ b.status.phase → Keeps I (patch_status_of r a b)
  same_phase-Keeps a b e = patch_status_of-Keeps a b (subst (SuiteEdge a.status.phase) e stay)

  pub next_run-Keeps :
      (suite : TestSuite) (t : Option ℕ) → Keeps I (patch_status_of r suite (with_next_run t suite))
  next_run-Keeps suite t = same_phase-Keeps suite (with_next_run t suite) refl

  clear_next_run-Keeps : (suite : TestSuite) → Keeps I (clear_next_run r suite)
  unfolding clear_next_run
  clear_next_run-Keeps suite = search (flow_rules, next_run-Keeps)

  pub handle_schedule-Keeps : (suite : TestSuite) → Keeps I (handle_schedule r suite)
  unfolding handle_schedule
  handle_schedule-Keeps suite = search (flow_rules, clear_next_run-Keeps, allows.unschedule)

  pub handle_helm-Keeps : (suite : TestSuite) → Keeps I (handle_helm r suite)
  unfolding handle_helm
  handle_helm-Keeps suite = search (flow_rules, patch_suite_of-Keeps)

  patch_run-Keeps : (a b : TestRun) → Keeps I (Kind.patch (run_kind r.client) a b)
  unfolding run_kind
  patch_run-Keeps a b = Keeps-call (patch_run a b) _ (allows.patch_run a b)

  delete_run-Keeps : (t : TestRun) → Keeps I (Kind.delete (run_kind r.client) t)
  unfolding run_kind
  delete_run-Keeps t = Keeps-call (delete_run t) _ (allows.delete_run t)

  pub clean_runs-Keeps :
      (runs : List TestRun)
      → Keeps I (clean_up_all (run_kind r.client) r.client suite_finalizer runs)
  clean_runs-Keeps runs =
      clean_up_all-Keeps (run_kind r.client) patch_run-Keeps delete_run-Keeps r.client
        suite_finalizer runs

  pub sweep_runs-Keeps : (runs : List TestRun) → Keeps I (sweep_runs r runs)
  unfolding sweep_runs
  sweep_runs-Keeps runs =
      Keeps-bind _ _ (sweep-Keeps (run_kind r.client) suite_finalizer patch_run-Keeps runs)
        (λ x. Keeps-pure _)

  found-Keeps :
      (suite : TestSuite) (name : String)
      → Keeps I (
          patch_status_of r suite
            (with_current_run name (with_suite_phase TestSuitePhase.running suite)))
  found-Keeps suite name = patch_status_of-Keeps suite _ begin

  focus-Keeps : (runs : List TestRun) (suite : TestSuite) → Keeps I (focus r suite runs)
  unfolding focus
  focus-Keeps [] suite = Keeps-pure _
  focus-Keeps (run ∷ runs) suite = search (flow_rules, found-Keeps, focus-Keeps runs)

  default_phase-Keeps : (suite : TestSuite) → Keeps I (default_phase r suite)
  unfolding default_phase
  default_phase-Keeps suite =
      Keeps-if _ _ _
        (λ unset.
          Keeps-bind _ _
            (patch_status_of-Keeps suite (with_suite_phase TestSuitePhase.pending suite)
              (admit_edge suite.status.phase unset))
            (λ reply. or_later-Keeps r reply))
        (λ set. Keeps-pure _)

  pub ensure_suite_phase-Keeps :
      (suite : TestSuite) (runs : List TestRun) → Keeps I (ensure_suite_phase r suite runs)
  unfolding ensure_suite_phase
  ensure_suite_phase-Keeps suite runs = search (flow_rules, focus-Keeps, default_phase-Keeps)

  pub become_ready-Keeps : (suite : TestSuite) → Keeps I (become_ready r suite)
  unfolding become_ready
  become_ready-Keeps suite =
      Keeps-if _ _ _
        (λ pending.
          Keeps-bind _ _
            (patch_status_of-Keeps suite (with_suite_phase TestSuitePhase.ready suite)
              (accept_edge suite.status.phase pending))
            (λ reply. or_later-Keeps r reply))
        (λ set. Keeps-pure _)

  pub enforce_history-Keeps :
      (suite : TestSuite) (runs : List TestRun) → Keeps I (enforce_history r suite runs)
  unfolding enforce_history
  enforce_history-Keeps suite runs = search (flow_rules, clean_runs-Keeps)

  annotate_schedule-Keeps : (suite : TestSuite) → Keeps I (annotate_schedule r suite)
  unfolding annotate_schedule
  annotate_schedule-Keeps suite = search (flow_rules, patch_suite_of-Keeps)

  condition-Keeps :
      (suite : TestSuite) (status reason message : String) (t : Option ℕ)
      → Keeps I (
          patch_status_of r suite
            (with_suite_condition r "HasSchedule" status reason message (with_next_run t suite)))
  condition-Keeps suite status reason message t = same_phase-Keeps suite _ refl

  set_next_run-Keeps : (suite : TestSuite) (s : ℕ → ℕ) → Keeps I (set_next_run r suite s)
  unfolding set_next_run
  set_next_run-Keeps suite s = search (flow_rules, condition-Keeps)

  set_invalid-Keeps : (suite : TestSuite) → Keeps I (set_invalid r suite)
  unfolding set_invalid
  set_invalid-Keeps suite = search (flow_rules, condition-Keeps)

  parse_schedule-Keeps : (when : String) (suite : TestSuite) → Keeps I (parse_schedule r when suite)
  unfolding parse_schedule
  parse_schedule-Keeps when suite = search (flow_rules, set_next_run-Keeps, set_invalid-Keeps)

  pub active_schedule-Keeps : (suite : TestSuite) → Keeps I (active_schedule r suite)
  unfolding active_schedule
  active_schedule-Keeps suite = search (flow_rules, annotate_schedule-Keeps, parse_schedule-Keeps)
