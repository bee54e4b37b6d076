-- ===== src/Api/Suites.antt =====
-- api/v1alpha1/testsuite_types.go and helmpolicy_types.go.
use konfirm.Base.{ℕ, String, Bool, true, false, Option, List}
use konfirm.Api.Meta.{ObjectMeta, TypeMeta, Condition}
use konfirm.Api.Runs.{TestRunSpec}

-- A string type: `unset` is the empty text, then its constants, and any other text.
pub data TestSuitePhase : Type 0 where
  unset pending ready running error : TestSuitePhase
  other : String → TestSuitePhase

-- `IsPending`, `IsReady`, `IsRunning` and `IsError`.
abbrev pub suite_is_pending : TestSuitePhase → Bool
suite_is_pending TestSuitePhase.pending = true
suite_is_pending _ = false

abbrev pub suite_is_ready : TestSuitePhase → Bool
suite_is_ready TestSuitePhase.ready = true
suite_is_ready _ = false

abbrev pub suite_is_running : TestSuitePhase → Bool
suite_is_running TestSuitePhase.running = true
suite_is_running _ = false

abbrev pub suite_is_error : TestSuitePhase → Bool
suite_is_error phase = suite_is_pending phase

pub record TestSuiteTriggers : Type 0 where
  pub schedule : String
  pub helm_release : String

pub record TestSuiteHelmSetUp : Type 0 where
  pub secret_name : String
  pub chart_key : String
  pub values_key : String

pub record TestSuiteSetUp : Type 0 where
  pub helm : TestSuiteHelmSetUp

-- The history limit is a uint8, at most 255.
pub record TestSuiteSpec : Type 0 where
  pub history_limit : ℕ
  pub set_up : TestSuiteSetUp
  pub template : TestRunSpec
  pub when : TestSuiteTriggers

pub record TestSuiteTrigger : Type 0 where
  pub needs_run : Bool

-- `NextRun` is a pointer to a time, here its number of nanoseconds.
pub record TestSuiteStatus : Type 0 where
  pub conditions : List Condition
  pub phase : TestSuitePhase
  pub current_test_run : String
  pub next_run : Option ℕ

pub record TestSuite : Type 0 where
  pub type : TypeMeta
  pub meta : ObjectMeta
  pub spec : TestSuiteSpec
  pub trigger : TestSuiteTrigger
  pub status : TestSuiteStatus

pub record HelmPolicySpec : Type 0 where
  pub export_to : List String

pub record HelmPolicy : Type 0 where
  pub type : TypeMeta
  pub meta : ObjectMeta
  pub spec : HelmPolicySpec
