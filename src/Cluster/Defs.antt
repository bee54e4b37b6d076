-- ===== src/Cluster/Defs.antt =====
-- The calls that the controllers make, and the parameter that answers them.
use konfirm.Base.{ℕ, String, Bool, Option, List}
use konfirm.Api.{
  ObjectMeta, Condition, Pod, Secret, Test, TestRun, TestRunSpec, TestSuite, HelmPolicy,
}

-- An `error` of Go: its text, and the reason of an API status (empty for other errors).
pub record Failure : Type 0 where
  pub reason : String
  pub message : String

-- What a call that decodes into an object returns.
pub data Reply (A : Type 0) : Type 0 where
  ok : A → Reply A
  err : Failure → Reply A

-- types.NamespacedName, also the contents of a ctrl.Request.
pub record NamespacedName : Type 0 where
  pub namespace : String
  pub name : String

-- The counter vectors of the Test controller.
pub data Counter : Type 0 where
  passed failed : Counter

-- The gauges and the counter vector of the TestSuite controller.
pub data SuiteMetric : Type 0 where
  passing failing runs : SuiteMetric

-- The calls that write, as they are made, whether or not the server accepts them. A patch carries
-- the object that `client.MergeFrom` was given and the object sent.
pub data Effect : Type 0 where
  create_pod delete_pod : Pod → Effect
  patch_pod : Pod → Pod → Effect
  create_test delete_test : Test → Effect
  patch_test patch_test_status : Test → Test → Effect
  create_run delete_run : TestRun → Effect
  patch_run patch_run_status : TestRun → TestRun → Effect
  delete_suite : TestSuite → Effect
  patch_suite patch_suite_status : TestSuite → TestSuite → Effect
  -- `Recorder.Event` with the object's metadata, the event's type, its reason and its message.
  event : ObjectMeta → String → String → String → Effect
  -- `WithLabelValues(namespace)`, which creates the counter at 0 where there is none; and `Inc`.
  touch inc : Counter → String → Effect
  -- The same for the metrics of a TestSuite, by its namespace and its name, and `Set` of a gauge.
  touch_suite inc_suite : SuiteMetric → String → String → Effect
  set_suite : SuiteMetric → String → String → ℕ → Effect
  -- `AddRateLimited` of the queue of the TestSuite controller.
  enqueue : NamespacedName → Effect

-- The writes so far, the latest first.
abbrev pub History : Type 0
History = List Effect

-- The server may answer by the whole history, so anything other clients do in between is covered.
-- A call that succeeds returns the object as the server then holds it.
pub record Env : Type 0 where
  pub get_test : History → NamespacedName → Reply Test
  pub list_pods : History → NamespacedName → Reply (List Pod)
  pub create_pod : History → Pod → Reply Pod
  pub delete_pod : History → Pod → Option Failure
  pub patch_pod : History → Pod → Pod → Reply Pod
  pub patch_test : History → Test → Test → Reply Test
  pub patch_test_status : History → Test → Test → Reply Test
  pub get_run : History → NamespacedName → Reply TestRun
  pub list_tests : History → NamespacedName → Reply (List Test)
  pub create_test : History → Test → Reply Test
  pub delete_test : History → Test → Option Failure
  pub delete_run : History → TestRun → Option Failure
  pub patch_run : History → TestRun → TestRun → Reply TestRun
  pub patch_run_status : History → TestRun → TestRun → Reply TestRun
  pub get_suite : History → NamespacedName → Reply TestSuite
  pub list_runs : History → NamespacedName → Reply (List TestRun)
  pub create_run : History → TestRun → Reply TestRun
  pub delete_suite : History → TestSuite → Option Failure
  pub patch_suite : History → TestSuite → TestSuite → Reply TestSuite
  pub patch_suite_status : History → TestSuite → TestSuite → Reply TestSuite
  pub get_policy : History → NamespacedName → Reply HelmPolicy
  -- The deployed releases of a name in a namespace, by their labels.
  pub list_releases : History → NamespacedName → Reply (List Secret)
  -- `client.IgnoreNotFound` and `meta.SetStatusCondition`.
  pub ignore_not_found : Failure → Option Failure
  pub set_status_condition : Condition → List Condition → List Condition
  -- `sort.Slice`, which is not stable; the print of spew; and `rand.SafeEncodeString`.
  pub sort_slice : (TestRun → TestRun → Bool) → List TestRun → List TestRun
  pub print_spec : TestRunSpec → List ℕ
  pub safe_encode : String → String

-- ctrl.Result. A duration is its number of nanoseconds; the ones here are not negative.
pub record Result : Type 0 where
  pub requeue : Bool
  pub requeue_after : ℕ

-- What `Reconcile` returns.
abbrev pub Outcome : Type 0
Outcome = Result × Option Failure
