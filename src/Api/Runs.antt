-- ===== src/Api/Runs.antt =====
-- api/v1alpha1/testrun_types.go.
use konfirm.Base.{String, Bool, true, false, List}
use konfirm.Api.Meta.{ObjectMeta, TypeMeta, Condition}
use konfirm.Api.Tests.{RetainPolicy, TestTemplate}

-- A string type: `unset` is the empty text, then its constants, and any other text.
pub data TestRunPhase : Type 0 where
  unset starting running passed failed : TestRunPhase
  other : String → TestRunPhase

-- `TestRunPhase.IsFinal`
abbrev pub run_is_final : TestRunPhase → Bool
run_is_final TestRunPhase.passed = true
run_is_final TestRunPhase.failed = true
run_is_final _ = false

pub record TestRunSpec : Type 0 where
  pub retention_policy : RetainPolicy
  pub tests : List TestTemplate

pub record TestResult : Type 0 where
  pub description : String
  pub passed : Bool
  pub test : String

pub record TestRunStatus : Type 0 where
  pub conditions : List Condition
  pub phase : TestRunPhase
  pub message : String
  pub results : List TestResult

pub record TestRun : Type 0 where
  pub type : TypeMeta
  pub meta : ObjectMeta
  pub spec : TestRunSpec
  pub status : TestRunStatus
