-- ===== src/Kube/Nodes.antt =====
-- The Kubernetes node object, with the fields that the program uses, and what model/models.go says
-- of bases: `NodeInfo`, `NodeStatusData` and `BuildVNodeConfig`. A quantity is its text.
use virtual_kubelet.Common.{List, ℤ, Text, Map}

pub record Taint : Type 0 where
  pub key : Text
  pub value : Text
  pub effect : Text

pub record NodeCondition : Type 0 where
  pub kind : Text
  pub status : Text
  pub last_heartbeat_time : ℤ
  pub reason : Text
  pub message : Text

pub record NodeAddress : Type 0 where
  pub kind : Text
  pub address : Text

pub record NodeStatus : Type 0 where
  pub phase : Text
  pub addresses : List NodeAddress
  pub conditions : List NodeCondition
  pub capacity : Map Text
  pub allocatable : Map Text
  pub architecture : Text
  pub operating_system : Text

pub record KubeNode : Type 0 where
  pub namespace : Text
  pub name : Text
  pub uid : Text
  pub resource_version : Text
  pub labels : Map Text
  pub annotations : Map Text
  pub taints : List Taint
  pub status : NodeStatus

-- The fields of `Metadata` and `NetworkInfo` stand in the record itself.
pub record NodeInfo : Type 0 where
  pub name : Text
  pub base_name : Text
  pub version : Text
  pub cluster_name : Text
  pub node_ip : Text
  pub host_name : Text
  pub custom_taints : List Taint
  pub custom_labels : Map Text
  pub custom_annotations : Map Text
  pub state : Text

pub record NodeResource : Type 0 where
  pub capacity : Text
  pub allocatable : Text

pub record NodeStatusData : Type 0 where
  pub resources : Map NodeResource
  pub custom_conditions : List NodeCondition
  pub node_state : Text

-- The client and the cache are left out.
pub record BuildVNodeConfig : Type 0 where
  pub base_ip : Text
  pub base_host_name : Text
  pub node_ip : Text
  pub node_name : Text
  pub node_version : Text
  pub base_name : Text
  pub v_pod_type : Text
  pub cluster_name : Text
  pub env : Text
  pub custom_taints : List Taint
  pub custom_labels : Map Text
  pub custom_annotations : Map Text
  pub worker_num : ℤ
