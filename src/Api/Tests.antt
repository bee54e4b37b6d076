-- ===== src/Api/Tests.antt =====
-- api/v1alpha1/test_types.go.
use konfirm.Base.{String, Bool, true, false, List}
use konfirm.Api.Meta.{ObjectMeta, TypeMeta, Condition}
use konfirm.Api.Pods.{PodPhase, PodTemplateSpec}

-- A string type: its constants, and any other text. The CRD's default stands in for the empty text.
pub data RetainPolicy : Type 0 where
  always never on_failure : RetainPolicy
  other : String → RetainPolicy

pub record TestTemplate : Type 0 where
  pub description : String
  pub retention_policy : RetainPolicy
  pub template : PodTemplateSpec

pub record TestSpec : Type 0 where
  pub retention_policy : RetainPolicy
  pub template : PodTemplateSpec

-- A string type: `unset` is the empty text, then its constants, and any other text.
pub data TestPhase : Type 0 where
  unset pending starting running passed failed unknown : TestPhase
  other : String → TestPhase

unfoldable pub from_pod_phase : PodPhase → TestPhase
from_pod_phase PodPhase.pending = TestPhase.starting
from_pod_phase PodPhase.running = TestPhase.running
from_pod_phase PodPhase.succeeded = TestPhase.passed
from_pod_phase PodPhase.failed = TestPhase.failed
from_pod_phase _ = TestPhase.pending

-- `TestPhase.IsFinal`
abbrev pub is_final : TestPhase → Bool
is_final TestPhase.passed = true
is_final TestPhase.failed = true
is_final _ = false

-- `TestPhase.IsSuccess`
abbrev pub is_success : TestPhase → Bool
is_success TestPhase.passed = true
is_success _ = false

pub record TestStatus : Type 0 where
  pub conditions : List Condition
  pub phase : TestPhase
  pub messages : List (String × String)

pub record Test : Type 0 where
  pub type : TypeMeta
  pub meta : ObjectMeta
  pub spec : TestSpec
  pub status : TestStatus
