-- ===== src/Constructors/Tests.antt =====
-- The constructors on small inputs.
use virtual_kubelet.Common.{
  ℕ, ◌≡◌, refl, true, false, some, [], ◌∷◌, pos, text, text_dec, message, wrapped,
}
use virtual_kubelet.NodeObject.{default_node, config_of, build_node, set_architecture}
use virtual_kubelet.NodeObject.Tests.{info}
use virtual_kubelet.Queue.Items.{is_zero}
use virtual_kubelet.Queue.{new_queue}
use virtual_kubelet.Queue.Worker.{start_running}
use virtual_kubelet.Arrivals.Discovery.{Config, controller, new_v_node_controller}
use virtual_kubelet.Constructors.{
  built, not_built, NewProviderFunc, NodeParts, QueueConfig, with_client, with_cache, new_node,
  new_node_controller, new_pod_controller, v_node_opts, new_v_node_parts,
  with_node_status_update_error_handler,
}
use virtual_kubelet.Constructors.Checks.{Explained, new_node-Explained}
use virtual_kubelet.Constructors.Workers.{settings_of, new_v_node_parts-start}

abbrev limits : ℕ
limits = 5

abbrev retries : ℕ
retries = 3

abbrev no_pods : NewProviderFunc
no_pods node = built (false, node)

new_node-Explained_example :
    Explained limits retries
      (pos 2)
      (text "n1")
      no_pods
      (with_client true ∷ [])
      (new_node limits retries (pos 2) (text "n1") no_pods (with_client true ∷ []))
new_node-Explained_example =
    new_node-Explained limits retries (pos 2) (text "n1") no_pods (with_client true ∷ [])

without_a_provider :
    new_node limits retries (pos 2) (text "n1") no_pods (with_client true ∷ [])
    ≡ not_built (wrapped (text "error creating pod controller") (message (text "missing provider")))
unfolding new_node new_node_controller new_pod_controller with_client
without_a_provider = refl

default_intervals :
    new_node_controller (default_node (text "n1")) (with_node_status_update_error_handler true ∷ [])
    ≡ built (record {
      node = default_node (text "n1");
      ping_interval = pos 10_000_000_000;
      status_interval = pos 60_000_000_000;
      has_error_handler = true;
    })
unfolding new_node_controller with_node_status_update_error_handler is_zero
default_intervals = refl

abbrev given : Config
given = record {
  client_id = text "a";
  env = text "test";
  v_pod_type = text "biz";
  is_cluster = false;
  workload_max_level = pos 0;
  v_node_worker_num = pos 0;
  pseudo_node_ip = [];
}

abbrev completed : Config
completed = record given { v_node_worker_num = pos 1 }

is_made : new_v_node_controller (some given) ≡ controller completed
unfolding new_v_node_controller text_dec is_zero
is_made = refl

abbrev parts : NodeParts ℕ ℕ
parts = record {
  node_controller = record {
    node =
        build_node (config_of (settings_of completed) info)
          (set_architecture (text "amd64") (text "linux") (default_node info.name));
    ping_interval = pos 10_000_000_000;
    status_interval = pos 60_000_000_000;
    has_error_handler = false;
  };
  pod_controller =
      let queue : QueueConfig ℕ ℕ = record { limiter = 5; retry = 3 } in
      record {
        node_name = info.name;
        sync_pods_from_kubernetes = queue;
        delete_pods_from_kubernetes = queue;
        sync_pod_status_from_provider = queue;
      };
  workers = pos 1;
}

are_built :
    new_v_node_parts limits retries
      (pos 2)
      (text "amd64")
      (text "linux")
      (config_of (settings_of completed) info)
      true
      true
    ≡ built parts
unfolding new_v_node_parts new_node v_node_opts new_node_controller new_pod_controller with_client
    with_cache text_dec config_of settings_of is_zero
are_built = refl

new_v_node_parts-start_example :
    start_running parts.workers (new_queue limits)
    ≡ some (record (new_queue limits) { running = true })
new_v_node_parts-start_example =
    new_v_node_parts-start limits retries (pos 2) (text "amd64") (text "linux") given completed info
      parts limits is_made are_built
