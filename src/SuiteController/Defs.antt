-- ===== src/SuiteController/Defs.antt =====
-- The state of `TestSuiteReconciler`, and how the parts of its `Reconcile` end.
use konfirm.Base.{ℕ, String, Bool, false, Option, none, List, ℤ, pos}
use konfirm.Api.{TestSuite, TestSuitePhase}
use konfirm.Cluster.{
  Failure, Reply, Env, History, patch_suite, patch_suite_status, M, pure, call, on_reply,
}

-- A schedule is the function `Next` of `cron.Schedule`, on times in nanoseconds.
pub record TestSuiteReconciler : Type 0 where
  pub client : Env
  pub err_requeue_delay : ℕ
  pub cron_parser : String → Reply (ℕ → ℕ)
  pub clock : History → ℕ

abbrev pub suite_finalizer : String
suite_finalizer = "konfirm.goraft.tech/testsuite-controller"

abbrev pub schedule_annotation : String
schedule_annotation = "konfirm.goraft.tech/active-schedule"

abbrev pub last_helm_release_annotation : String
last_helm_release_annotation = "konfirm.goraft.tech/last-helm-release"

abbrev pub helm_trigger_label : String
helm_trigger_label = "konfirm.goraft.tech/helm-trigger"

-- ctrl.Result, with a delay in nanoseconds that may be negative.
pub record SuiteResult : Type 0 where
  pub requeue : Bool
  pub requeue_after : ℤ

-- How a call of `Reconcile` ends. Calling `Next` of a nil schedule panics.
pub data SuiteExit : Type 0 where
  returns : SuiteResult → Option Failure → SuiteExit
  panics : SuiteExit

-- How a part of it ends: with a value for the code behind it, or by returning.
pub data Flow (A : Type 0) : Type 0 where
  next : A → Flow A
  stop : SuiteExit → Flow A

unfoldable pub carry_on : {A B : Type 0} → Flow A → (A → M (Flow B)) → M (Flow B)
carry_on (next a) f = f a
carry_on (stop e) f = pure (stop e)

unfoldable pub finally : {A : Type 0} → Flow A → (A → M SuiteExit) → M SuiteExit
finally (next a) f = f a
finally (stop e) f = pure e

-- `return ctrl.Result{}, nil`
abbrev pub finished : SuiteExit
finished = returns (record { requeue = false; requeue_after = pos 0 }) none

module _ (r : TestSuiteReconciler) where
  -- `return ctrl.Result{RequeueAfter: r.ErrRequeueDelay}, nil`: the error is logged only.
  abbrev pub later : SuiteExit
  later = returns (record { requeue = false; requeue_after = pos r.err_requeue_delay }) none

  unfoldable pub patch_suite_of : TestSuite → TestSuite → M (Reply TestSuite)
  patch_suite_of orig suite = call (patch_suite orig suite) (λ h. r.client.patch_suite h orig suite)

  unfoldable pub patch_status_of : TestSuite → TestSuite → M (Reply TestSuite)
  patch_status_of orig suite =
      call (patch_suite_status orig suite) (λ h. r.client.patch_suite_status h orig suite)

  -- `if err := …; err != nil { return ctrl.Result{RequeueAfter: r.ErrRequeueDelay}, nil }`. The
  -- object of a call that succeeds is the server's answer.
  unfoldable pub or_later : {A : Type 0} → Reply A → M (Flow A)
  or_later reply = on_reply reply (λ e. pure (stop later)) (λ a. pure (next a))

  -- The same with an error that is only logged: the object stays as it was sent.
  unfoldable pub or_as_sent : TestSuite → Reply TestSuite → M TestSuite
  or_as_sent sent reply = on_reply reply (λ e. pure sent) (λ s. pure s)

  -- `meta.SetStatusCondition(&testSuite.Status.Conditions, …)`
  abbrev pub with_suite_condition : String → String → String → String → TestSuite → TestSuite
  with_suite_condition type status reason message suite = record suite {
    status = record suite.status {
      conditions =
          r.client.set_status_condition
            (record {
              type = type;
              status = status;
              observed_generation = suite.meta.generation;
              reason = reason;
              message = message;
            })
            suite.status.conditions;
    };
  }

abbrev pub with_suite_phase : TestSuitePhase → TestSuite → TestSuite
with_suite_phase phase suite = record suite { status = record suite.status { phase = phase } }

abbrev pub with_current_run : String → TestSuite → TestSuite
with_current_run name suite = record suite {
  status = record suite.status { current_test_run = name };
}

abbrev pub with_next_run : Option ℕ → TestSuite → TestSuite
with_next_run time suite = record suite { status = record suite.status { next_run = time } }

abbrev pub with_annotations : List (String × String) → TestSuite → TestSuite
with_annotations m suite = record suite { meta = record suite.meta { annotations = m } }
