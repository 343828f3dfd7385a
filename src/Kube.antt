-- ===== src/Kube.antt =====
-- The Kubernetes objects that the program handles, with the fields that it reads or writes, and
-- model/models.go. A nil map or slice of an object is the empty list.
pub mod Samples
pub mod Nodes
use virtual_kubelet.Common.{ℕ, Bool, true, false, Option, List, ℤ, Text, text, Map}

pub record EnvVar : Type 0 where
  pub name : Text
  pub value : Text

-- `other` stands for the fields that are only compared.
pub record Container : Type 0 where
  pub name : Text
  pub image : Text
  pub env : List EnvVar
  pub other : Text

pub record Waiting : Type 0 where
  pub reason : Text
  pub message : Text

pub record Terminated : Type 0 where
  pub exit_code : ℕ
  pub reason : Text
  pub message : Text
  pub started_at : ℤ
  pub finished_at : ℤ

-- `running` is the time at which the container started.
pub record ContainerState : Type 0 where
  pub waiting : Option Waiting
  pub running : Option ℤ
  pub terminated : Option Terminated

pub record ContainerStatus : Type 0 where
  pub name : Text
  pub container_id : Text
  pub state : ContainerState
  pub ready : Bool
  pub started : Option Bool
  pub image : Text
  pub image_id : Text

-- `no_phase` is the empty string.
pub data Phase : Type 0 where
  no_phase pending running succeeded failed unknown : Phase

pub record PodCondition : Type 0 where
  pub kind : Text
  pub holds : Bool
  pub last_probe_time : ℤ
  pub last_transition_time : ℤ

pub record PodStatus : Type 0 where
  pub phase : Phase
  pub reason : Text
  pub message : Text
  pub pod_ip : Text
  pub conditions : List PodCondition
  pub container_statuses : List ContainerStatus

pub data RestartPolicy : Type 0 where
  always on_failure never : RestartPolicy

pub record Pod : Type 0 where
  pub namespace : Text
  pub name : Text
  pub uid : Text
  pub resource_version : Text
  pub labels : Map Text
  pub annotations : Map Text
  pub finalizers : List Text
  pub creation_timestamp : ℤ
  pub deletion_timestamp : Option ℤ
  pub deletion_grace_period_seconds : Option ℤ
  pub node_name : Text
  pub containers : List Container
  pub init_containers : List Container
  pub active_deadline_seconds : Option ℤ
  pub tolerations : List Text
  pub restart_policy : RestartPolicy
  pub status : PodStatus

-- `BizStatusData` of model/models.go: what the tunnel says of a biz module.
pub record BizStatusData : Type 0 where
  pub key : Text
  pub name : Text
  pub pod_key : Text
  pub state : Text
  pub change_time : ℤ
  pub reason : Text
  pub message : Text
