-- ===== src/MockTunnel/Tests.antt =====
-- The tunnel of tunnel/mock_tunnel.go with a pod of two containers.
use virtual_kubelet.Common.{◌≡◌, refl, [], pos, text, text_dec, lookup, insert, delete, All}
use virtual_kubelet.Kube.Samples.{biz_pod, biz_container}
use virtual_kubelet.Biz.{get_biz_unique_key}
use virtual_kubelet.VPods.{Provider, pod_key, create_pod, delete_pod}
use virtual_kubelet.NodeObject.Tests.{info}
use virtual_kubelet.MockTunnel.{
  BaseNode, MockTunnel, tunnel_of, start, on_node_not_ready, put_node, delete_node,
  update_biz_status, fetch_health_data, query_all_biz_status_data, installing, start_biz,
  stop_found, stop_biz, biz_of, convert_container_map_2_container_list,
}
use virtual_kubelet.MockTunnel.Starts.{Installing}
use virtual_kubelet.MockTunnel.Stops.{IsGone, create_delete_modules}

abbrev empty : MockTunnel
empty = record { biz_status_storage = []; node_storage = []; events = [] }

abbrev provider : Provider MockTunnel
provider = record { store = []; base = empty; pending = []; events = [] }

create_delete_modules_example :
    let tunnel = tunnel_of (pos 5) (text "n1") in
    All
      (Installing (pos 5) (text "n1") (pod_key biz_pod) (create_pod tunnel 3 biz_pod provider).base)
      biz_pod.containers
    × All
        (IsGone (pos 5) (text "n1") (delete_pod tunnel 3 biz_pod provider).base)
        biz_pod.containers
create_delete_modules_example = create_delete_modules (pos 5) (text "n1") 3 biz_pod provider

abbrev base : BaseNode
base = record {
  info = info;
  status = record { resources = []; custom_conditions = []; node_state = [] };
}

-- A module that was started is stopped, and a base that was put is deleted.
started_stopped :
    let m = delete_node (text "n1") (put_node (text "n1") base (start empty)) in
    let (e, m') = start_biz (pos 5) (text "n1") (text "ns/a") biz_container m in
    let (e', m'') = stop_biz (pos 6) (text "n1") (text "ns/a") biz_container m' in
    (m''.node_storage ≡ []) × (biz_of (text "n1") m'' ≡ [])
unfolding start put_node delete_node start_biz stop_biz stop_found biz_of lookup insert delete
    text_dec installing get_biz_unique_key
started_stopped = (refl, refl)

mock_tunnel_program : Unit {0}
unfolding start on_node_not_ready put_node delete_node update_biz_status fetch_health_data
    query_all_biz_status_data convert_container_map_2_container_list
mock_tunnel_program = tt
