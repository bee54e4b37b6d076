-- ===== src/Api/Pods.antt =====
-- v1.Pod and v1.Secret of Kubernetes, as far as the controllers look into them.
use konfirm.Base.{String, Option, List}
use konfirm.Api.Meta.{ObjectMeta}

-- v1.PodPhase, a string type: its constants, and any other text.
pub data PodPhase : Type 0 where
  pending running succeeded failed unknown : PodPhase
  other : String → PodPhase

-- The container images stand for the parts of the spec that the code only copies.
pub record PodSpec : Type 0 where
  pub images : List String
  pub restart_policy : String

pub record PodTemplateSpec : Type 0 where
  pub meta : ObjectMeta
  pub spec : PodSpec

-- `terminated` is `State.Terminated`, of which only the message is read.
pub record ContainerStatus : Type 0 where
  pub name : String
  pub terminated : Option String

pub record PodStatus : Type 0 where
  pub phase : PodPhase
  pub container_statuses : List ContainerStatus

pub record Pod : Type 0 where
  pub meta : ObjectMeta
  pub spec : PodSpec
  pub status : PodStatus

pub record Secret : Type 0 where
  pub meta : ObjectMeta
  pub type : String
