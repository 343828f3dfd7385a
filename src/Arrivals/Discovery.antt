-- ===== src/Arrivals/Discovery.antt =====
-- How vnode_controller/vnode_controller.go starts: its configuration, the nodes and pods that it
-- discovers, and the delay by which a client waits with a lease according to its workload.
use virtual_kubelet.Common.{
  times_ℤ, pos, Bool, false, ◌&&◌, not, Option, none, some, List, [], ◌∷◌, ℤ, Text, text, Error,
  message, if◌then◌else◌,
}
use virtual_kubelet.Kube.{Pod}
use virtual_kubelet.Kube.Nodes.{KubeNode, NodeInfo}
use virtual_kubelet.Keys.{get_pod_key}
use virtual_kubelet.Biz.{same_text}
use virtual_kubelet.Pods.{World, sync_pods_from_kubernetes_enqueue}
use virtual_kubelet.Queue.Items.{is_zero}
use virtual_kubelet.Nodes.{Node, Nodes, workload_level}
use virtual_kubelet.Nodes.Handlers.{start_v_node}
use virtual_kubelet.NodeObject.{
  Settings, new_v_node, made, refused, config_of, convert_node_to_node_info,
}

module _ {S : Type 0} where
  -- The node that `createVNode` puts into the store: never heard of, and with no lease.
  abbrev pub new_node : World S → Node S
  new_node pods = record {
    lease = none;
    is_close = false;
    heart_beat = pos 0;
    ready = false;
    exit = false;
    done = false;
    pods = pods;
  }

  unfoldable pub create_v_node : Settings → NodeInfo → World S → Option (Node S)
  unfolding new_v_node config_of
  create_v_node settings info pods = elim (new_v_node [] [] (config_of settings info)) [
    | refused e ↦ none
    | made node ↦ some (new_node pods)
  ]

  -- `pods` is the pod controller that a new node gets.
  unfoldable pub discover_previous_nodes : Settings → World S → List KubeNode → Nodes S → Nodes S
  unfolding start_v_node create_v_node convert_node_to_node_info
  discover_previous_nodes settings pods [] nodes = nodes
  discover_previous_nodes settings pods (node ∷ rest) nodes =
      let info = convert_node_to_node_info node in
      discover_previous_nodes settings pods rest
        (start_v_node info.name (create_v_node settings info pods) nodes)

  -- `discoveryPreviousPods` and `discoverPreviousPods`.
  unfoldable pub discover_previous_pods : List Pod → World S → World S
  unfolding sync_pods_from_kubernetes_enqueue
  discover_previous_pods [] w = w
  discover_previous_pods (pod ∷ rest) w =
      discover_previous_pods rest
        (sync_pods_from_kubernetes_enqueue (get_pod_key pod.namespace pod.name) w)

-- `BuildVNodeControllerConfig`, and the controller that `NewVNodeController` makes of it.
pub record Config : Type 0 where
  pub client_id : Text
  pub env : Text
  pub v_pod_type : Text
  pub is_cluster : Bool
  pub workload_max_level : ℤ
  pub v_node_worker_num : ℤ
  pub pseudo_node_ip : Text

pub data NewController : Type 0 where
  controller : Config → NewController
  bad_config : Error → NewController

-- A nil configuration is `none`.
unfoldable pub new_v_node_controller : Option Config → NewController
new_v_node_controller none = bad_config (message (text "config must not be nil"))
new_v_node_controller (some config) =
    if same_text config.v_pod_type []
    then bad_config (message (text "config must set vpod identity"))
    else controller (record config {
      workload_max_level =
          if config.is_cluster && is_zero config.workload_max_level
          then pos 3
          else config.workload_max_level;
      v_node_worker_num =
          if is_zero config.v_node_worker_num then pos 1 else config.v_node_worker_num;
    })

-- In milliseconds; a timer for a negative time fires at once.
unfoldable pub delay_with_workload : {S : Type 0} → Config → ℤ → Nodes S → ℤ
unfolding workload_level
delay_with_workload config now nodes =
    if not config.is_cluster
    then pos 0
    else times_ℤ 100 (workload_level config.workload_max_level now nodes)
