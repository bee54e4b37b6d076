-- ===== src/System/Finished.antt =====
-- Tests that have finished, under any calls of the operator's handlers.
use konfirm.Base.{
  ◌≡◌, refl, ap, sym, ◌∙◌, Bool-cases, inl, inr, true, false, String, ◌∷◌, str_eq, eq_iff, arith,
}
use konfirm.Api.{Test, TestPhase, is_final}
use konfirm.Cluster.{History, patch_test_status}
use konfirm.TestController.Phases.{PhaseEdge}
use konfirm.TestController.Stored.{stored, IsCurrent}
use konfirm.TestController.Current.{AllowsCurrent, reconcile-Leads}
use konfirm.RunController.Flow.{AllowsRunWrites, reconcile_run-Keeps}
use konfirm.RunController.Concluded.{conclude-Keeps}
use konfirm.SuiteController.Flow.{reconcile_suite-Keeps}
use konfirm.HelmWatcher.Writes.{on_event-Keeps}
use konfirm.System.Free.{AllowsFreely, suite_writes}
use konfirm.System.Calls.{Operator, Step, test, run, suite, release, Steps, Steps-keep}

-- No edge of the phase diagram leaves Passed or Failed.
edge_unfinished : {p q : TestPhase} → PhaseEdge p q → is_final p ≡ false
edge_unfinished PhaseEdge.admit = refl
edge_unfinished (PhaseEdge.start e) = e
edge_unfinished (PhaseEdge.run e) = e
edge_unfinished (PhaseEdge.pass e) = e
edge_unfinished (PhaseEdge.fail e) = e

module _ (s : Operator) (before : String → TestPhase) (uid : String) (phase : TestPhase)
    (final : is_final phase ≡ true) where
  -- The Test is stored in the phase.
  abbrev I : History → Type 0
  I h = stored s.tests.client.patch_test_status before uid h ≡ phase

  -- A patch from the phase that is stored is one of another Test.
  step_kept :
      (a b : Test) (h : History)
      → a.status.phase ≡ stored s.tests.client.patch_test_status before a.meta.uid h
      → PhaseEdge a.status.phase b.status.phase
      → I h
      → I (patch_test_status a b ∷ h)
  step_kept a b h current edge i = elim (Bool-cases (str_eq a.meta.uid uid)) [
    | inr other ↦ rw other i
    | inl same ↦
        let unfinished =
          ap is_final (
            sym i
            ∙ ap (λ u. stored s.tests.client.patch_test_status before u h)
                (sym ((eq_iff _ _).0 same))
            ∙ sym current)
          ∙ edge_unfinished edge in
        absurd (ground (arith, final, unfinished))
  ]

  test_writes : AllowsCurrent s.tests before I
  test_writes = record {
    pods = record { patch = λ a b h i. i; delete = λ p h i. i };
    create = λ p h i. i;
    patch = λ a b h i. i;
    report = λ m a b c h i. i;
    touch = λ c ns h i. i;
    count = λ c ns h i. i;
    step = step_kept;
  }

  run_writes : AllowsRunWrites s.runs I
  run_writes = record {
    test_writes = record { patch = λ a b h i. i; delete = λ t h i. i };
    patch = λ a b h i. i;
    admit = λ a e h i. i;
    create = λ req run i t from e f h k. k;
    report = λ m a b c h i. i;
    conclude = λ a n t e. conclude-Keeps s.runs (λ m a b c h i. i) a _ (λ b set h i. i) n t refl;
  }

  freely : AllowsFreely I
  freely = record {
    create = λ t h i. i;
    patch_run = λ a b h i. i;
    delete_run = λ t h i. i;
    patch = λ a b h i. i;
    status = λ a b h i. i;
    delete = λ t h i. i;
    touch = λ m ns n h i. i;
    inc = λ m ns n h i. i;
    set = λ m ns n v h i. i;
    report = λ m a b c h i. i;
    queue = λ req h i. i;
  }

  step_finished : {h h' : History} → IsCurrent s.tests.client before → Step s h h' → I h → I h'
  step_finished current (test req h) i = reconcile-Leads s.tests before current test_writes req h i
  step_finished current (run req h) i = (reconcile_run-Keeps run_writes req).at h i
  step_finished current (suite req h) i =
      (reconcile_suite-Keeps (suite_writes s.suites freely) req).at h i
  step_finished current (release e h) i = (on_event-Keeps s.releases freely.queue e).at h i

-- Where the reads and patches of a Test answer with the phase that is stored, a Test that is stored
-- as Passed or Failed is stored so after any sequence of calls of the operator's handlers, whatever
-- else the server answers: no later pod, no repeated reconcile and no other controller changes it.
pub Steps-finished :
    (s : Operator) (before : String → TestPhase) (uid : String) {h h' : History}
    → IsCurrent s.tests.client before
    → Steps s h h'
    → is_final (stored s.tests.client.patch_test_status before uid h) ≡ true
    → stored s.tests.client.patch_test_status before uid h'
      ≡ stored s.tests.client.patch_test_status before uid h
Steps-finished s before uid {h} current steps final =
    Steps-keep {I = I s before uid _ final}
      (λ g g' step. step_finished s before uid _ final current step) steps refl
