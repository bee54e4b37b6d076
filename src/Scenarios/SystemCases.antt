-- ===== src/Scenarios/SystemCases.antt =====
-- The operator as a whole, in a cluster where each of its parts has work to do.
use konfirm.Base.{◌≡◌, refl, subst, String, [], ◌∷◌}
use konfirm.Api.{PodPhase, Test, TestPhase, TestRun, TestRunPhase, RetainPolicy}
use konfirm.Cluster.{Reply, ok, err, Env, History, patch_test_status, patch_run_status}
use konfirm.HelmWatcher.{created, on_event}
use konfirm.TestController.{reconcile, test_finalizer, TestReconciler}
use konfirm.TestController.Stored.{Answer, stored, IsCurrent}
use konfirm.RunController.{TestRunReconciler, reconcile_run}
use konfirm.RunController.Stored.{
  Answer as RunAnswer, stored as run_stored, IsCurrent as IsCurrentRuns,
}
use konfirm.SuiteController.{reconcile_suite}
use konfirm.System.{Operator, Steps, test, run, suite, release, stop, next}
use konfirm.System.Finished.{Steps-finished}
use konfirm.System.FinishedRun.{Steps-finished_run}
use konfirm.Scenarios.Sample.{
  template, accepting, named, held_by, smoke_test, pod_in, empty_run, request,
}
use konfirm.Scenarios.HelmCases.{shop_secret, watcher}
use konfirm.Scenarios.TestCases.{starting}
use konfirm.Scenarios.RunCases.{fresh}
use konfirm.Scenarios.SuiteCases.{triggered}

abbrev operator : TestReconciler → TestRunReconciler → Operator
operator tests runs = record { tests = tests; runs = runs; suites = triggered; releases = watcher }

-- The suite starts a run, a release is installed, the run starts its Test, and the Test its pod.
abbrev after_all : Operator → History → History
after_all s h =
    let started = (reconcile_suite s.suites request h).1 in
    let released = (on_event s.releases (created shop_secret) started).1 in
    (reconcile s.tests request (reconcile_run s.runs request released).1).1

abbrev all_four : (s : Operator) (h : History) → Steps s h (after_all s h)
all_four s h =
    next (suite request h)
      (next (release (created shop_secret) _) (next (run request _) (next (test request _) stop)))

-- A server that stores the phase that it is sent, and answers with what is stored.
abbrev answer : Answer
answer h a b = ok (record b { meta = record b.meta { uid = a.meta.uid } })

abbrev before : String → TestPhase
before uid = TestPhase.running

abbrev smoke_in : TestPhase → Test
smoke_in phase = smoke_test phase (held_by test_finalizer (named "smoke"))

abbrev current : Env
current =
    record (accepting (smoke_in TestPhase.running)
      (pod_in PodPhase.failed (held_by test_finalizer (named "smoke-1")) ∷ []) empty_run []) {
        get_test = λ h req. ok (smoke_in (stored answer before "smoke" h));
        patch_test = λ h a b.
            ok
              (record b { status = record b.status { phase = stored answer before b.meta.uid h } });
        patch_test_status = answer;
      }

abbrev IsStored : History → Reply Test → Type 0
IsStored h (ok t) = t.status.phase ≡ stored answer before t.meta.uid h
IsStored h (err e) = Unit

abbrev IsOf : Test → Reply Test → Type 0
IsOf a (ok t) = t.meta.uid ≡ a.meta.uid
IsOf a (err e) = Unit

current-IsCurrent : IsCurrent current before
current-IsCurrent = record {
  get = λ h req t e. subst (IsStored h) e refl;
  patch = λ h a b t e. subst (IsStored h) e refl;
  patch_status = λ h a b t e. subst (IsOf a) e refl;
}

-- The Test has passed, and its pod is then seen to have failed.
abbrev passed : History
passed = patch_test_status (smoke_in TestPhase.running) (smoke_in TestPhase.passed) ∷ []

abbrev retested : TestReconciler
retested = record { client = current; err_requeue_delay = 60 }

Steps-finished_example :
    stored answer before "smoke" (after_all (operator retested fresh) passed) ≡ TestPhase.passed
Steps-finished_example =
    Steps-finished (operator retested fresh) before "smoke" current-IsCurrent
      (all_four (operator retested fresh) passed) refl

-- The same for TestRuns: the run has passed, and is then found without its Test.
abbrev run_answer : RunAnswer
run_answer h a b = ok (record b { meta = record b.meta { uid = a.meta.uid } })

abbrev run_before : String → TestRunPhase
run_before uid = TestRunPhase.running

abbrev run_in : TestRunPhase → TestRun
run_in phase = record empty_run {
  spec = record {
    retention_policy = RetainPolicy.always;
    tests =
        record { description = "login"; retention_policy = RetainPolicy.never; template = template }
        ∷ [];
  };
  status = record empty_run.status { phase = phase };
}

abbrev current_runs : Env
current_runs = record (accepting (smoke_in TestPhase.running) [] empty_run []) {
  get_run = λ h req. ok (run_in (run_stored run_answer run_before "run" h));
  patch_run = λ h a b. ok (record b {
    status = record b.status { phase = run_stored run_answer run_before b.meta.uid h };
  });
  patch_run_status = run_answer;
}

abbrev IsStoredRun : History → Reply TestRun → Type 0
IsStoredRun h (ok t) = t.status.phase ≡ run_stored run_answer run_before t.meta.uid h
IsStoredRun h (err e) = Unit

abbrev IsOfRun : TestRun → Reply TestRun → Type 0
IsOfRun a (ok t) = t.meta.uid ≡ a.meta.uid
IsOfRun a (err e) = Unit

runs-IsCurrent : IsCurrentRuns current_runs run_before
runs-IsCurrent = record {
  get = λ h req t e. subst (IsStoredRun h) e refl;
  patch = λ h a b t e. subst (IsStoredRun h) e refl;
  patch_status = λ h a b t e. subst (IsOfRun a) e refl;
}

abbrev run_passed : History
run_passed = patch_run_status (run_in TestRunPhase.running) (run_in TestRunPhase.passed) ∷ []

abbrev reread : TestRunReconciler
reread = record { client = current_runs; err_requeue_delay = 60 }

Steps-finished_run_example :
    run_stored run_answer run_before "run" (after_all (operator starting reread) run_passed)
    ≡ TestRunPhase.passed
Steps-finished_run_example =
    Steps-finished_run (operator starting reread) run_before "run" runs-IsCurrent
      (all_four (operator starting reread) run_passed) refl
