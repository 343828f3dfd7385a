-- ===== src/MockTunnel.antt =====
-- The tunnel of tunnel/mock_tunnel.go, which keeps bases and biz modules in memory, once it is started
-- and its callbacks are registered. A call of a callback is an event: the model is of callbacks that do
-- not call the tunnel, whose lock they run under. What happens if they do is in MockTunnel/Locked.
pub mod Starts
pub mod Stops
pub mod Locked
pub mod Tests
use virtual_kubelet.Common.{
  Bool, true, false, Option, none, some, is_some, List, [], ◌∷◌, map, ℤ, Text, text, Map, lookup,
  insert, delete, Error, if◌then◌else◌,
}
use virtual_kubelet.Kube.{Container, BizStatusData}
use virtual_kubelet.Kube.Nodes.{NodeInfo, NodeStatusData}
use virtual_kubelet.Biz.{get_biz_unique_key}
use virtual_kubelet.VPods.{Tunnel}

pub record BaseNode : Type 0 where
  pub info : NodeInfo
  pub status : NodeStatusData

pub data Event : Type 0 where
  base_discovered : NodeInfo → Event
  base_status : Text → NodeStatusData → Event
  single_biz_status : Text → BizStatusData → Event
  all_biz_status : Text → List BizStatusData → Event

-- `events` has the latest first.
pub record MockTunnel : Type 0 where
  pub biz_status_storage : Map (Map BizStatusData)
  pub node_storage : Map BaseNode
  pub events : List Event

-- A missing inner map reads as an empty one.
abbrev pub or_empty : Option (Map BizStatusData) → Map BizStatusData
or_empty none = []
or_empty (some m) = m

abbrev emit : Event → MockTunnel → MockTunnel
emit e m = record m { events = e ∷ m.events }

unfoldable pub biz_of : Text → MockTunnel → Map BizStatusData
unfolding lookup
biz_of node_name m = or_empty (lookup node_name m.biz_status_storage)

abbrev store_biz : Text → Map BizStatusData → MockTunnel → MockTunnel
store_biz node_name biz m = record m {
  biz_status_storage = insert node_name biz m.biz_status_storage;
}

unfoldable pub start : MockTunnel → MockTunnel
start m = record m { biz_status_storage = []; node_storage = [] }

unfoldable pub on_node_not_ready : Text → MockTunnel → MockTunnel
on_node_not_ready node_name m = record m { node_storage = delete node_name m.node_storage }

unfoldable pub put_node : Text → BaseNode → MockTunnel → MockTunnel
put_node node_name node m = emit (base_status node_name node.status) (
    emit (base_discovered node.info)
      (record m { node_storage = insert node_name node m.node_storage }))

unfoldable pub delete_node : Text → MockTunnel → MockTunnel
delete_node node_name m = record m { node_storage = delete node_name m.node_storage }

unfoldable pub update_biz_status : Text → Text → BizStatusData → MockTunnel → MockTunnel
unfolding biz_of
update_biz_status node_name container_key entry m =
    emit (single_biz_status node_name entry)
      (store_biz node_name (insert container_key entry (biz_of node_name m)) m)

unfoldable pub fetch_health_data : Text → MockTunnel → MockTunnel
fetch_health_data node_name m = elim (lookup node_name m.node_storage) [
  | none ↦ m
  | some node ↦ emit (base_status node_name node.status) m
]

unfoldable pub convert_container_map_2_container_list : Map BizStatusData → List BizStatusData
convert_container_map_2_container_list biz = map (λ e. e.1) biz

unfoldable pub query_all_biz_status_data : Text → MockTunnel → MockTunnel
unfolding biz_of convert_container_map_2_container_list
query_all_biz_status_data node_name m = elim (lookup node_name m.node_storage) [
  | none ↦ m
  | some node ↦
      emit (all_biz_status node_name (convert_container_map_2_container_list (biz_of node_name m)))
        m
]

-- What is kept of a biz module whose installation begins.
unfoldable pub installing : ℤ → Text → Container → BizStatusData
installing now pod_key c = record {
  key = get_biz_unique_key c;
  name = c.name;
  pod_key = pod_key;
  state = text "UNRESOLVED";
  change_time = now;
  reason = text "mock_resolved";
  message = text "mock resolved";
}

unfoldable pub start_biz : ℤ → Text → Text → Container → MockTunnel → Option Error × MockTunnel
unfolding biz_of installing
start_biz now node_name pod_key c m =
    let entry = installing now pod_key c in
    (
      none,
      emit (single_biz_status node_name entry)
          (store_biz node_name (insert (get_biz_unique_key c) entry (biz_of node_name m)) m),
    )

unfoldable pub stop_found :
    ℤ → Text → Text → Option BizStatusData → MockTunnel → Option Error × MockTunnel
unfolding biz_of
stop_found now node_name key none m = (none, m)
stop_found now node_name key (some entry) m = (
  none,
  emit (single_biz_status node_name (record entry { state = text "STOPPED"; change_time = now }))
      (store_biz node_name (delete key (biz_of node_name m)) m),
)

unfoldable pub stop_biz : ℤ → Text → Text → Container → MockTunnel → Option Error × MockTunnel
unfolding stop_found
stop_biz now node_name pod_key c m =
    let key = get_biz_unique_key c in
    stop_found now node_name key (lookup key (biz_of node_name m)) m

-- The tunnel that the pod provider of a node is given.
abbrev pub tunnel_of : ℤ → Text → Tunnel MockTunnel
tunnel_of now node_name = record {
  start_biz = start_biz now node_name;
  stop_biz = stop_biz now node_name;
}
