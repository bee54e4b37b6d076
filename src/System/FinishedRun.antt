-- ===== src/System/FinishedRun.antt =====
-- TestRuns that have finished, under any calls of the operator's handlers.
use konfirm.Base.{
  ◌≡◌, refl, ap, sym, ◌∙◌, Bool-cases, inl, inr, true, false, String, ◌∷◌, str_eq, eq_iff, arith,
}
use konfirm.Api.{TestRun, TestRunPhase, run_is_final}
use konfirm.Cluster.{History, patch_run_status}
use konfirm.TestController.Writes.{AllowsWrites, reconcile-Keeps}
use konfirm.TestController.Phases.{by_phase-Keeps}
use konfirm.RunController.Progress.{RunEdge}
use konfirm.RunController.Stored.{stored, IsCurrent}
use konfirm.RunController.Current.{AllowsCurrentRun, reconcile_run-Leads}
use konfirm.SuiteController.Flow.{reconcile_suite-Keeps}
use konfirm.HelmWatcher.Writes.{on_event-Keeps}
use konfirm.System.Free.{AllowsFreely, suite_writes}
use konfirm.System.Calls.{Operator, Step, test, run, suite, release, Steps, Steps-keep}

-- No edge of the phase diagram leaves Passed or Failed.
edge_unfinished : {p q : TestRunPhase} → RunEdge p q → run_is_final p ≡ false
edge_unfinished RunEdge.admit = refl
edge_unfinished (RunEdge.proceed e) = e
edge_unfinished (RunEdge.pass e) = e
edge_unfinished (RunEdge.fail e) = e

module _ (s : Operator) (before : String → TestRunPhase) (uid : String) (phase : TestRunPhase)
    (final : run_is_final phase ≡ true) where
  abbrev phase_of : String → History → TestRunPhase
  phase_of = stored s.runs.client.patch_run_status before

  -- The TestRun is stored in the phase.
  abbrev I : History → Type 0
  I h = phase_of uid h ≡ phase

  -- A patch from the phase that is stored is one of another TestRun.
  step_kept :
      (a b : TestRun) (h : History)
      → a.status.phase ≡ phase_of a.meta.uid h
      → RunEdge a.status.phase b.status.phase
      → I h
      → I (patch_run_status a b ∷ h)
  step_kept a b h current edge i = elim (Bool-cases (str_eq a.meta.uid uid)) [
    | inr other ↦ rw other i
    | inl same ↦
        let here = ap (λ u. phase_of u h) (sym ((eq_iff _ _).0 same)) in
        let unfinished = ap run_is_final (sym i ∙ here ∙ sym current) ∙ edge_unfinished edge in
        absurd (ground (arith, final, unfinished))
  ]

  run_writes : AllowsCurrentRun s.runs before I
  run_writes = record {
    tests = record { patch = λ a b h i. i; delete = λ t h i. i };
    create = λ t h i. i;
    patch = λ a b h i. i;
    report = λ m a b c h i. i;
    step = step_kept;
  }

  test_writes : AllowsWrites s.tests I
  test_writes = record {
    pod_writes = record { patch = λ a b h i. i; delete = λ p h i. i };
    patch = λ a b h i. i;
    admit = λ t e h i. i;
    create = λ req t from e h i. i;
    report = λ m a b c h i. i;
    count = λ c ns h i. i;
    by_phase = by_phase-Keeps s.tests (λ a b e h i. i) (λ m a b c h i. i) (λ c ns h i. i);
  }

  freely : AllowsFreely I
  freely = record {
    create = λ t h i. i;
    patch_run = λ a b h i. i;
    delete_run = λ t h i. i;
    patch = λ a b h i. i;
    status = λ a b h i. i;
    delete = λ t h i. i;
    touch = λ m ns n h i. i;
    inc = λ m ns n h i. i;
    set = λ m ns n v h i. i;
    report = λ m a b c h i. i;
    queue = λ req h i. i;
  }

  step_finished : {h h' : History} → IsCurrent s.runs.client before → Step s h h' → I h → I h'
  step_finished current (test req h) i = (reconcile-Keeps s.tests test_writes req).at h i
  step_finished current (run req h) i = reconcile_run-Leads s.runs before current run_writes req h i
  step_finished current (suite req h) i =
      (reconcile_suite-Keeps (suite_writes s.suites freely) req).at h i
  step_finished current (release e h) i = (on_event-Keeps s.releases freely.queue e).at h i

-- Where the reads and patches of a TestRun answer with the phase that is stored, a TestRun that is
-- stored as Passed or Failed is stored so after any sequence of calls of the operator's handlers,
-- whatever else the server answers: the verdict of a TestRun does not change, also where its Tests
-- are deleted or created anew.
pub Steps-finished_run :
    (s : Operator) (before : String → TestRunPhase) (uid : String) {h h' : History}
    → IsCurrent s.runs.client before
    → Steps s h h'
    → run_is_final (stored s.runs.client.patch_run_status before uid h) ≡ true
    → stored s.runs.client.patch_run_status before uid h'
      ≡ stored s.runs.client.patch_run_status before uid h
Steps-finished_run s before uid {h} current steps final =
    Steps-keep {I = I s before uid _ final}
      (λ g g' step. step_finished s before uid _ final current step) steps refl
