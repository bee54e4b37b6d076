-- ===== src/RunController/Concluded.antt =====
-- The phase that the end of `isRunning` sets, and the invariants that setting it keeps.
use konfirm.Base.{ℕ, ◌≡◌, String, Bool, true, false, not, ◌==◌, arith, if◌then◌else◌}
use konfirm.Api.{ObjectMeta, TestRun, TestRunPhase}
use konfirm.Cluster.{Effect, History, patch_run_status, event}
use konfirm.Cluster.Keeps.{Keeps, Allows, keeps_rules, Keeps-call, Keeps-if}
use konfirm.RunController.Sweep.{TestRunReconciler}
use konfirm.RunController.Results.{Tally}
use konfirm.RunController.Reconcile.{conclude, in_progress, complete, patch_status_of, verdict}

abbrev pub concluded : ℕ → Tally → TestRunPhase
concluded n t =
    if n == t.completions
    then if t.failures == 0 then TestRunPhase.passed else TestRunPhase.failed
    else TestRunPhase.running

pub emit_choice :
    {I : History → Type 0} (b : Bool) (x y : Effect)
    → Allows I x
    → Allows I y
    → Allows I (if b then x else y)
emit_choice true x y p q = p
emit_choice false x y p q = q

module _ {I : History → Type 0} (r : TestRunReconciler)
    (report : (m : ObjectMeta) (a b c : String) → Allows I (event m a b c)) (orig : TestRun)
    (phase : TestRunPhase)
    (set : (b : TestRun) → b.status.phase ≡ phase → Allows I (patch_run_status orig b)) where
  status_set : (b : TestRun) → b.status.phase ≡ phase → Keeps I (patch_status_of r orig b)
  unfolding patch_status_of
  status_set b e = Keeps-call (patch_run_status orig b) _ (set b e)

  in_progress-Keeps :
      (b : TestRun) (n : ℕ) (t : Tally)
      → TestRunPhase.running ≡ phase
      → Keeps I (in_progress r orig b n t)
  unfolding in_progress
  in_progress-Keeps b n t e = search (keeps_rules, status_set, e) depth 8

  complete-Keeps :
      (b : TestRun) (t : Tally)
      → (verdict r b t).status.phase ≡ phase
      → Keeps I (complete r orig b t)
  unfolding complete
  complete-Keeps b t e = search (keeps_rules, e, emit_choice, report) depth 9

  pub conclude-Keeps : (n : ℕ) (t : Tally) → concluded n t ≡ phase → Keeps I (conclude r orig n t)
  unfolding conclude
  conclude-Keeps n t e =
      let results = record orig { status = record orig.status { results = t.results } } in
      Keeps-if (not (n == t.completions)) _ _
        (λ open_tests. in_progress-Keeps results n t (ground arith))
        (λ none_open. complete-Keeps results t (ground arith))
