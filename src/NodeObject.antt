-- ===== src/NodeObject.antt =====
-- Node objects: how they are built from what a base announces (`createVNode` of
-- vnode_controller/vnode_controller.go, `NewVNode` and `buildNode` of provider/vnode.go, `NewNode` of
-- virtual_kubelet/node/nodeutil/controller.go), read back when the program starts
-- (`ConvertNodeToNodeInfo` of common/utils/utils.go) and merged with what a base reports
-- (`MergeNodeFromProvider`).
pub mod Merge
pub mod Restart
pub mod Tests
use virtual_kubelet.Common.{
  ℕ, Option, none, some, List, [], ◌∷◌, ◌++◌, pos, Text, text, Map, lookup, insert, insert_each,
  map, Error, message, if◌then◌else◌, ℤ,
}
use virtual_kubelet.Biz.{same_text}
use virtual_kubelet.Kube.Nodes.{
  Taint, NodeCondition, NodeAddress, KubeNode, NodeInfo, NodeResource, NodeStatusData,
  BuildVNodeConfig,
}

-- `OrElse` at the type at which it is used.
unfoldable pub or_else : Text → Text → Text
or_else value default = if same_text value [] then default else value

-- The value of a key of a Go map of strings: the empty string if there is none.
abbrev pub value_of : Option Text → Text
value_of none = []
value_of (some v) = v

abbrev pub condition : Text → Text → NodeCondition
condition kind status = record {
  kind = kind;
  status = status;
  last_heartbeat_time = pos 0;
  reason = [];
  message = [];
}

abbrev key_base_name : Text
key_base_name = text "base.koupleless.io/name"

abbrev key_cluster_name : Text
key_cluster_name = text "base.koupleless.io/cluster-name"

abbrev key_base_version : Text
key_base_version = text "base.koupleless.io/version"

abbrev pub vnode_taint : Taint
vnode_taint = record {
  key = text "schedule.koupleless.io/virtual-node";
  value = text "True";
  effect = text "NoExecute";
}

abbrev pub env_taint : Text → Taint
env_taint env = record {
  key = text "schedule.koupleless.io/node-env";
  value = env;
  effect = text "NoExecute";
}

-- The labels of a virtual node before the custom ones.
unfoldable pub node_labels : BuildVNodeConfig → Map Text → Map Text
unfolding insert
node_labels config labels = insert (text "base.koupleless.io/host-name") config.base_host_name (
    insert (text "kubernetes.io/hostname") config.base_host_name (
      insert key_base_version config.node_version (
        insert (text "virtual-kubelet.koupleless.io/env") config.env (
          insert (text "virtual-kubelet.koupleless.io/component") (text "vnode") (
            insert key_cluster_name config.cluster_name
              (insert key_base_name config.base_name labels))))))

unfoldable pub build_node : BuildVNodeConfig → KubeNode → KubeNode
unfolding node_labels insert_each or_else
build_node config node = record node {
  labels = insert_each (λ v. v) config.custom_labels (node_labels config node.labels);
  annotations = insert_each (λ v. v) config.custom_annotations node.annotations;
  taints = vnode_taint ∷ env_taint config.env ∷ config.custom_taints;
  status = record {
    phase = text "Running";
    addresses =
        record { kind = text "InternalIP"; address = or_else config.node_ip config.base_ip }
        ∷ record { kind = text "Hostname"; address = config.base_host_name }
        ∷ [];
    conditions =
        condition (text "Ready") (text "True")
        ∷ condition (text "MemoryPressure") (text "False")
        ∷ condition (text "DiskPressure") (text "False")
        ∷ condition (text "PIDPressure") (text "False")
        ∷ condition (text "NetworkUnavailable") (text "False")
        ∷ [];
    capacity = (text "pods", text "65535") ∷ [];
    allocatable = (text "pods", text "65535") ∷ [];
    architecture = [];
    operating_system = [];
  };
}

-- The node that `NewNode` hands to its options.
unfoldable pub default_node : Text → KubeNode
default_node name = record {
  namespace = [];
  name = name;
  uid = [];
  resource_version = [];
  labels =
      (text "type", text "virtual-kubelet")
      ∷ (text "kubernetes.io/role", text "agent")
      ∷ (text "kubernetes.io/hostname", name)
      ∷ [];
  annotations = [];
  taints = [];
  status = record {
    phase = text "Pending";
    addresses = [];
    conditions =
        condition (text "Ready") []
        ∷ condition (text "DiskPressure") []
        ∷ condition (text "MemoryPressure") []
        ∷ condition (text "PIDPressure") []
        ∷ condition (text "NetworkUnavailable") []
        ∷ [];
    capacity = [];
    allocatable = [];
    architecture = [];
    operating_system = [];
  };
}

unfoldable pub set_architecture : Text → Text → KubeNode → KubeNode
set_architecture architecture operating_system node = record node {
  status = record node.status { architecture = architecture; operating_system = operating_system };
}

pub data NewResult : Type 0 where
  made : KubeNode → NewResult
  refused : Error → NewResult

-- `NewVNode` as far as the node object goes; the options run in this order.
unfoldable pub new_v_node : Text → Text → BuildVNodeConfig → NewResult
unfolding build_node set_architecture default_node
new_v_node architecture operating_system config =
    if same_text config.node_name []
    then refused (message (text "node name cannot be empty"))
    else made (
        build_node config
          (set_architecture architecture operating_system (default_node config.node_name)))

-- What the controller adds to the announcement of a base.
pub record Settings : Type 0 where
  pub pseudo_node_ip : Text
  pub v_pod_type : Text
  pub env : Text
  pub worker_num : ℤ

-- The configuration that `createVNode` builds.
unfoldable pub config_of : Settings → NodeInfo → BuildVNodeConfig
config_of settings info = record {
  base_ip = if same_text info.node_ip [] then text "127.0.0.1" else info.node_ip;
  base_host_name = info.host_name;
  node_ip = settings.pseudo_node_ip;
  node_name = info.name;
  node_version = info.version;
  base_name = info.base_name;
  v_pod_type = settings.v_pod_type;
  cluster_name = info.cluster_name;
  env = settings.env;
  custom_taints = info.custom_taints;
  custom_labels = info.custom_labels;
  custom_annotations = info.custom_annotations;
  worker_num = settings.worker_num;
}

-- The internal IP and the host name; the last address of a kind counts.
unfoldable pub scan_addresses : List NodeAddress → Text → Text → Text × Text
scan_addresses [] ip host = (ip, host)
scan_addresses (a ∷ rest) ip host =
    let with_ip = scan_addresses rest a.address host in
    let with_host = scan_addresses rest ip a.address in
    let other = scan_addresses rest ip host in
    if same_text a.kind (text "InternalIP")
    then with_ip
    else if same_text a.kind (text "Hostname")
    then with_host
    else other

unfoldable pub convert_node_to_node_info : KubeNode → NodeInfo
unfolding scan_addresses lookup
convert_node_to_node_info node =
    let (ip, host) = scan_addresses node.status.addresses (text "127.0.0.1") (text "unknown") in
    record {
      name = node.name;
      base_name = value_of (lookup key_base_name node.labels);
      version = value_of (lookup key_base_version node.labels);
      cluster_name = value_of (lookup key_cluster_name node.labels);
      node_ip = ip;
      host_name = host;
      custom_taints = node.taints;
      custom_labels = node.labels;
      custom_annotations = node.annotations;
      state = text "ACTIVATED";
    }

unfoldable pub standard_conditions : Map NodeCondition
standard_conditions =
    (text "Ready", condition (text "Ready") (text "True"))
    ∷ (text "MemoryPressure", condition (text "MemoryPressure") (text "False"))
    ∷ (text "DiskPressure", condition (text "DiskPressure") (text "False"))
    ∷ (text "PIDPressure", condition (text "PIDPressure") (text "False"))
    ∷ (text "NetworkUnavailable", condition (text "NetworkUnavailable") (text "False"))
    ∷ []

-- `conditionMap[c.Type] = c` for each of the conditions.
unfoldable pub add_conditions : List NodeCondition → Map NodeCondition → Map NodeCondition
unfolding insert
add_conditions [] m = m
add_conditions (c ∷ cs) m = add_conditions cs (insert c.kind c m)

unfoldable pub merge_node_from_provider : KubeNode → NodeStatusData → KubeNode
unfolding add_conditions standard_conditions insert_each
merge_node_from_provider node report = record node {
  status = record node.status {
    phase = text "Running";
    conditions = map (λ e. e.1) (add_conditions report.custom_conditions standard_conditions);
    capacity = insert_each (λ r. r.capacity) report.resources node.status.capacity;
    allocatable = insert_each (λ r. r.allocatable) report.resources node.status.allocatable;
  };
}
