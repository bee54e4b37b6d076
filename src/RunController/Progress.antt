-- ===== src/RunController/Progress.antt =====
-- The phase diagram of a TestRun, and the Tests that its controller creates.
use konfirm.Base.{
  inl, inr, Bool-cases, ◌==◌, ◌≡◌, refl, sym, subst, true, false, ℕ, String, [], ◌∷◌, All, arith,
  some, get_elem?,
}
use konfirm.Api.{
  ObjectMeta, OwnerReference, Test, TestPhase, TestTemplate, TestRun, TestRunPhase, run_is_final,
}
use konfirm.Cluster.{History, Effect, NamespacedName, create_test, patch_run_status, event}
use konfirm.Cluster.Keeps.{Allows}
use konfirm.RunController.Sweep.{TestRunReconciler}
use konfirm.RunController.Answers.{IsRunAnswer}
use konfirm.RunController.Results.{Tally, new_test, test_name}
use konfirm.TestController.{test_finalizer}
use konfirm.RunController.Reconcile.{run_unset, reconcile_run}
use konfirm.RunController.Concluded.{concluded, conclude-Keeps}
use konfirm.RunController.Flow.{AllowsRunWrites, reconcile_run-Keeps}

-- A TestRun begins Starting, is Running until it has Passed or Failed, and stays so.
pub data RunEdge : TestRunPhase → TestRunPhase → Type 0 where
  admit : RunEdge TestRunPhase.unset TestRunPhase.starting
  proceed : {p : TestRunPhase} → run_is_final p ≡ false → RunEdge p TestRunPhase.running
  pass : {p : TestRunPhase} → run_is_final p ≡ false → RunEdge p TestRunPhase.passed
  fail : {p : TestRunPhase} → run_is_final p ≡ false → RunEdge p TestRunPhase.failed

-- A status patch goes from the phase of the object it was based on along an edge.
abbrev pub FollowsRunDiagram : Effect → Type 0
FollowsRunDiagram (patch_run_status orig new) = RunEdge orig.status.phase new.status.phase
FollowsRunDiagram _ = Unit

-- A Test that the controller makes for a TestRun that has not finished: for one of its templates,
-- named after the template's index, in the run's namespace, with the run as its one controlling
-- owner.
pub record IsRunTest (run : TestRun) (t : Test) : Type 0 where
  pub unfinished : run_is_final run.status.phase ≡ false
  pub at :
      (i : ℕ) × (template : TestTemplate) × (get_elem? run.spec.tests i ≡ some template)
      × (t.meta.generate_name ≡ test_name run.meta.name i)
      × (t.spec.template ≡ template.template)
  pub placed : t.meta.namespace ≡ run.meta.namespace
  pub fresh : t.status.phase ≡ TestPhase.unset
  pub retained : t.spec.retention_policy ≡ run.spec.retention_policy
  pub held : t.meta.finalizers ≡ test_finalizer ∷ []
  pub one_owner :
      (o : OwnerReference) × (t.meta.owner_references ≡ o ∷ [])
      × (o.uid ≡ run.meta.uid)
      × (o.name ≡ run.meta.name)
      × (o.controller ≡ true)

-- A Test is created for a TestRun that the server answered with.
abbrev pub CreatesRunTest : TestRunReconciler → Effect → Type 0
CreatesRunTest r (create_test t) =
    (req : NamespacedName) × (run : TestRun) × IsRunAnswer r req run × IsRunTest run t
CreatesRunTest r _ = Unit

pub run_admit_edge : (p : TestRunPhase) → run_unset p ≡ true → RunEdge p TestRunPhase.starting
run_admit_edge TestRunPhase.unset e = admit
run_admit_edge _ e = absurd (ground arith)

pub concluded_edge :
    (p : TestRunPhase) (n : ℕ) (t : Tally) → run_is_final p ≡ false → RunEdge p (concluded n t)
concluded_edge p n t e = elim (Bool-cases (n == t.completions)) [
  | inl all_ended ↦ elim (Bool-cases (t.failures == 0)) [
    | inl none_failed ↦ rw (all_ended, none_failed) (pass e)
    | inr some_failed ↦ rw (all_ended, some_failed) (fail e)
  ]
  | inr some_open ↦ rw some_open (proceed e)
]

pub new_test-IsRunTest :
    (run : TestRun) (i : ℕ) (template : TestTemplate)
    → run_is_final run.status.phase ≡ false
    → get_elem? run.spec.tests i ≡ some template
    → IsRunTest run (new_test run i template)
unfolding new_test
new_test-IsRunTest run i template unfinished at = record {
  unfinished = unfinished;
  at = (i, template, at, refl, refl);
  placed = refl;
  fresh = refl;
  retained = refl;
  held = refl;
  one_owner = (_, refl, refl, refl, refl);
}

module _ (r : TestRunReconciler) where
  report_follows :
      (m : ObjectMeta) (a b c : String) → Allows (All FollowsRunDiagram) (event m a b c)
  report_follows m a b c h k = (tt, k)

  diagram_writes : AllowsRunWrites r (All FollowsRunDiagram)
  diagram_writes = record {
    test_writes = record { patch = λ a b h k. (tt, k); delete = λ t h k. (tt, k) };
    patch = λ a b h k. (tt, k);
    admit = λ a e h k. (run_admit_edge a.status.phase e, k);
    create = λ req run i t from e f h k. (tt, k);
    report = report_follows;
    conclude = λ a n t e.
        conclude-Keeps r report_follows a (concluded n t)
          (λ b set h k.
            (subst (RunEdge a.status.phase) (sym set) (concluded_edge a.status.phase n t e), k))
          n t refl;
  }

  -- Every status patch that the TestRun controller sends, whatever the server answers, goes along an
  -- edge of the phase diagram: an empty phase becomes Starting, and no patch starts from Passed or
  -- Failed.
  pub reconcile_run-FollowsRunDiagram :
      (req : NamespacedName) (h : History)
      → All FollowsRunDiagram h
      → All FollowsRunDiagram (reconcile_run r req h).1
  reconcile_run-FollowsRunDiagram req h k = (reconcile_run-Keeps diagram_writes req).at h k
