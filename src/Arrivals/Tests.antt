-- ===== src/Arrivals/Tests.antt =====
-- Reports and the start of vnode_controller/vnode_controller.go with one node.
use virtual_kubelet.Common.{
  ℕ, ◌≡◌, refl, true, some, [], ◌∷◌, ℤ, pos, Text, text, text_dec, lookup, not_found, List,
}
use virtual_kubelet.Kube.Samples.{report}
use virtual_kubelet.Queue.Items.{is_zero}
use virtual_kubelet.Lease.{Lease}
use virtual_kubelet.Pods.{PodResult, failed, World}
use virtual_kubelet.VPods.{Provider}
use virtual_kubelet.Nodes.{Node}
use virtual_kubelet.MockTunnel.{MockTunnel, tunnel_of}
use virtual_kubelet.Arrivals.{
  module_container, not_exist_pod, sync_not_exist_biz_pod_to_provider,
  sync_batch_biz_status_to_kube, sync_each_biz, sync_one_node_biz_status_to_kube, Fleet,
  on_provider, if_led, when_led, on_all_biz_status_arrived, on_single_biz_status_arrived,
  after_notify, base_status_led, on_base_status_arrived,
}
use virtual_kubelet.Arrivals.Discovery.{
  new_node, create_v_node, discover_previous_nodes, discover_previous_pods, Config, controller,
  new_v_node_controller, delay_with_workload,
}
use virtual_kubelet.Arrivals.Uninstalls.{Request}
use virtual_kubelet.Arrivals.Led.{Allowed, reports-Allowed}

abbrev lease_of_a : Lease
lease_of_a = record {
  name = text "n1";
  env = text "test";
  holder = some (text "a");
  duration_seconds = 40;
  renew_time = some (pos 90_000_000_000);
}

abbrev world : World ℕ
world = record { known = []; outside = 0; calls = [] }

abbrev led : Node ℕ
led = record (new_node world) { lease = some lease_of_a }

-- The base runs a module of which Kubernetes knows nothing.
abbrev provider : Provider MockTunnel
provider = record {
  store = [];
  base = record {
    biz_status_storage = (text "n1", (text "biz1:1.0", report) ∷ []) ∷ [];
    node_storage = [];
    events = [];
  };
  pending = [];
  events = [];
}

abbrev fleet : Fleet ℕ MockTunnel
fleet = record { nodes = (text "n1", led) ∷ []; providers = (text "n1", provider) ∷ [] }

abbrev no_pod : Text → Text → PodResult
no_pod namespace name = failed not_found

abbrev now : ℤ
now = pos 100_000_000_000

has_provider : lookup (text "n1") fleet.providers ≡ some provider
unfolding lookup text_dec
has_provider = refl

-- The same base, and the requests to it.
abbrev traced_provider : Provider (MockTunnel × List Request)
traced_provider = record {
  store = provider.store;
  base = (provider.base, []);
  pending = [];
  events = [];
}

abbrev traced_fleet : Fleet ℕ (MockTunnel × List Request)
traced_fleet = record { nodes = fleet.nodes; providers = (text "n1", traced_provider) ∷ [] }

reports-Allowed_example :
    Allowed (text "n1") fleet (text "b") now (
      on_all_biz_status_arrived
        (tunnel_of now (text "n1"))
        3
        no_pod
        []
        (λ pods. pods)
        (text "b")
        now
        (text "n1")
        []
        (report ∷ [])
        fleet)
    × Allowed (text "n1") fleet (text "b") now (
        on_single_biz_status_arrived
          (tunnel_of now (text "n1"))
          3
          no_pod
          []
          (text "b")
          now
          (text "n1")
          []
          report
          fleet)
reports-Allowed_example =
    reports-Allowed (text "n1") fleet (tunnel_of now (text "n1")) 3 no_pod [] (λ pods. pods)
      (text "b") now [] (report ∷ []) report

abbrev given : Config
given = record {
  client_id = text "a";
  env = text "test";
  v_pod_type = text "pod";
  is_cluster = true;
  workload_max_level = pos 0;
  v_node_worker_num = pos 0;
  pseudo_node_ip = [];
}

abbrev completed : Config
completed = record given { workload_max_level = pos 3; v_node_worker_num = pos 1 }

is_made : new_v_node_controller (some given) ≡ controller completed
unfolding new_v_node_controller text_dec is_zero
is_made = refl

arrivals_program : Unit {0}
unfolding module_container not_exist_pod sync_not_exist_biz_pod_to_provider
    sync_batch_biz_status_to_kube sync_each_biz sync_one_node_biz_status_to_kube on_provider if_led
    when_led on_all_biz_status_arrived on_single_biz_status_arrived after_notify base_status_led
    on_base_status_arrived create_v_node discover_previous_nodes discover_previous_pods
    new_v_node_controller delay_with_workload
arrivals_program = tt
