-- ===== src/Arrivals.antt =====
-- What vnode_controller/vnode_controller.go does when bases and their biz modules report
-- (`onBaseStatusArrived`, `onAllBizStatusArrived`, `onSingleBizStatusArrived`), over the methods of
-- provider/vnode.go that sync them to Kubernetes and uninstall the modules without a pod. A run of a handler
-- reads the clock once.
pub mod Discovery
pub mod Uninstalls
pub mod Led
pub mod Starts
pub mod Tests
use virtual_kubelet.Common.{
  if◌then◌else◌, ℕ, Bool, true, false, Option, none, some, List, [], ◌∷◌, ℤ, pos, Text, text, Map,
  lookup, insert, message,
}
use virtual_kubelet.Kube.{Container, Pod, BizStatusData, no_phase, always}
use virtual_kubelet.Kube.Nodes.{KubeNode, NodeStatusData}
use virtual_kubelet.Keys.{get_biz_name_and_version_from_unique_key}
use virtual_kubelet.Biz.{same_text, fill_pod_key}
use virtual_kubelet.Lease.{is_leader}
use virtual_kubelet.Pods.{PodResult}
use virtual_kubelet.VPods.{Tunnel, Provider, delete_pod}
use virtual_kubelet.VPods.Sync.{sync_biz_status_to_kube, sync_all_biz_status_to_kube}
use virtual_kubelet.Nodes.{Nodes, update_node_state_on_provider_arrived}
use virtual_kubelet.NodeSync.{Answer}
use virtual_kubelet.NodeSync.Loop.{Notified, skipped, notify_panic, sent, notify}

-- The container of a module by its key, and a pod for it that stands for none in Kubernetes.
unfoldable pub module_container : Text → Container
unfolding get_biz_name_and_version_from_unique_key
module_container key =
    let (name, version) = get_biz_name_and_version_from_unique_key key in
    record {
      name = name;
      image = [];
      env = record { name = text "BIZ_VERSION"; value = version } ∷ [];
      other = [];
    }

unfoldable pub not_exist_pod : Text → Pod
unfolding module_container
not_exist_pod key = record {
  namespace = text "default";
  name = text "not-exist-pod";
  uid = [];
  resource_version = [];
  labels = [];
  annotations = [];
  finalizers = [];
  creation_timestamp = pos 0;
  deletion_timestamp = none;
  deletion_grace_period_seconds = none;
  node_name = [];
  containers = module_container key ∷ [];
  init_containers = [];
  active_deadline_seconds = none;
  tolerations = [];
  restart_policy = always;
  status = record {
    phase = no_phase;
    reason = [];
    message = [];
    pod_ip = [];
    conditions = [];
    container_statuses = [];
  };
}

module _ {T : Type 0} (tunnel : Tunnel T) (timers : ℕ) where
  -- `syncNotExistBizPodToProvider`.
  unfoldable pub sync_not_exist_biz_pod_to_provider : List BizStatusData → Provider T → Provider T
  unfolding delete_pod not_exist_pod
  sync_not_exist_biz_pod_to_provider [] p = p
  sync_not_exist_biz_pod_to_provider (d ∷ ds) p =
      sync_not_exist_biz_pod_to_provider ds (delete_pod tunnel timers (not_exist_pod d.key) p)

  abbrev pub then_uninstall : List BizStatusData → Option (Provider T) → Option (Provider T)
  then_uninstall ds none = none
  then_uninstall ds (some p) = some (sync_not_exist_biz_pod_to_provider ds p)

  module _ (cache_get : Text → Text → PodResult) (local_ip : Text) where
    unfoldable pub sync_batch_biz_status_to_kube :
        (List Pod → List Pod)
        → ℤ
        → List BizStatusData
        → List BizStatusData
        → Provider T
        → Option (Provider T)
    unfolding sync_all_biz_status_to_kube
    sync_batch_biz_status_to_kube by_age now to_update to_delete p =
        then_uninstall to_delete
          (sync_all_biz_status_to_kube cache_get local_ip by_age now to_update p)

    unfoldable pub sync_each_biz :
        ℤ → List BizStatusData → Option (Provider T) → Option (Provider T)
    unfolding sync_biz_status_to_kube
    sync_each_biz now ds none = none
    sync_each_biz now [] (some p) = some p
    sync_each_biz now (d ∷ ds) (some p) =
        sync_each_biz now ds (sync_biz_status_to_kube cache_get local_ip now d p)

    unfoldable pub sync_one_node_biz_status_to_kube :
        ℤ → List BizStatusData → List BizStatusData → Provider T → Option (Provider T)
    unfolding sync_each_biz
    sync_one_node_biz_status_to_kube now to_update to_delete p =
        then_uninstall to_delete (sync_each_biz now to_update (some p))

-- The nodes, and the pod provider of each.
pub record Fleet (S T : Type 0) : Type 0 where
  pub nodes : Nodes S
  pub providers : Map (Provider T)

module _ {S T : Type 0} where
  -- A node without a provider is left alone; `none` is a panic.
  unfoldable pub on_provider :
      Text → (Provider T → Option (Provider T)) → Fleet S T → Option (Fleet S T)
  on_provider name act fleet = elim (lookup name fleet.providers) [
    | none ↦ some fleet
    | some p ↦ elim (act p) [
      | none ↦ none
      | some p' ↦ some (record fleet { providers = insert name p' fleet.providers })
    ]
  ]

  unfoldable pub if_led : Option Bool → Option (Fleet S T) → Fleet S T → Option (Fleet S T)
  if_led none act fleet = none
  if_led (some false) act fleet = some fleet
  if_led (some true) act fleet = act

  unfoldable pub when_led :
      Text → ℤ → Text → (Provider T → Option (Provider T)) → Fleet S T → Option (Fleet S T)
  unfolding on_provider if_led is_leader
  when_led client_id now name act fleet = elim (lookup name fleet.nodes) [
    | none ↦ some fleet
    | some n ↦ if_led (is_leader client_id now n.lease) (on_provider name act fleet) fleet
  ]

  module _ (tunnel : Tunnel T) (timers : ℕ) (cache_get : Text → Text → PodResult)
      (local_ip : Text) where
    -- `pods` are those that Kubernetes lists for the node, or none if it cannot.
    unfoldable pub on_all_biz_status_arrived :
        (List Pod → List Pod)
        → Text
        → ℤ
        → Text
        → List Pod
        → List BizStatusData
        → Fleet S T
        → Option (Fleet S T)
    unfolding when_led sync_batch_biz_status_to_kube fill_pod_key
    on_all_biz_status_arrived by_age client_id now name pods ds fleet =
        let (with_pod, without) = fill_pod_key pods ds in
        when_led client_id now name
          (sync_batch_biz_status_to_kube tunnel timers cache_get local_ip by_age now with_pod
            without)
          fleet

    unfoldable pub on_single_biz_status_arrived :
        Text → ℤ → Text → List Pod → BizStatusData → Fleet S T → Option (Fleet S T)
    unfolding when_led sync_one_node_biz_status_to_kube fill_pod_key
    on_single_biz_status_arrived client_id now name pods d fleet =
        let (with_pod, without) = fill_pod_key pods (d ∷ []) in
        when_led client_id now name
          (sync_one_node_biz_status_to_kube tunnel timers cache_get local_ip now with_pod without)
          fleet

module _ {S : Type 0} where
  -- The state of the node that a base reports, if it reports one.
  abbrev pub with_state : ℤ → Text → NodeStatusData → Nodes S → Nodes S
  with_state now name report nodes =
      if same_text report.node_state []
      then nodes
      else update_node_state_on_provider_arrived now name report.node_state nodes

  unfoldable pub after_notify : Notified → Nodes S → Option (Option KubeNode × Nodes S)
  after_notify notify_panic nodes = none
  after_notify skipped nodes = some (none, nodes)
  after_notify (sent node) nodes = some (some node, nodes)

  unfoldable pub base_status_led :
      Option Bool → Notified → Nodes S → Nodes S → Option (Option KubeNode × Nodes S)
  unfolding after_notify
  base_status_led none notified nodes updated = none
  base_status_led (some false) notified nodes updated = some (none, nodes)
  base_status_led (some true) notified nodes updated = after_notify notified updated

  -- What goes to the node controller, and the nodes; `none` is a panic.
  unfoldable pub on_base_status_arrived :
      Text
      → ℤ
      → Text
      → NodeStatusData
      → Bool
      → Answer
      → Nodes S
      → Option (Option KubeNode × Nodes S)
  unfolding base_status_led is_leader notify update_node_state_on_provider_arrived
  on_base_status_arrived client_id now name report registered cached nodes =
      elim (lookup name nodes) [
        | none ↦ some (none, nodes)
        | some n ↦
            base_status_led (is_leader client_id now n.lease) (notify registered cached report)
              nodes (with_state now name report nodes)
      ]
