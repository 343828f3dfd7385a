-- ===== src/Constructors/Workers.antt =====
-- From the configuration of vnode_controller/vnode_controller.go to the workers of a node's queues
-- (virtual_kubelet/internal/queue/queue.go).
use virtual_kubelet.Common.{
  ◌≡◌, true, none, some, Text, ℤ, pos, ltb_ℤ, if◌then◌else◌, arith, zero, suc, negsuc, leb_ℤ, ap,
  ◌∙◌, refl,
}
use virtual_kubelet.Kube.Nodes.{NodeInfo, BuildVNodeConfig}
use virtual_kubelet.NodeObject.{Settings, NewResult, made, refused, config_of}
use virtual_kubelet.Queue.Items.{is_zero}
use virtual_kubelet.Queue.{new_queue}
use virtual_kubelet.Queue.Worker.{start_running}
use virtual_kubelet.Arrivals.Discovery.{Config, controller, new_v_node_controller}
use virtual_kubelet.Constructors.{Built, built, NodeParts, new_v_node_parts}
use virtual_kubelet.Constructors.Checks.{Agrees, new_v_node_parts-Agrees}

-- What `createVNode` reads of the controller that `NewVNodeController` makes.
unfoldable pub settings_of : Config → Settings
settings_of config = record {
  pseudo_node_ip = config.pseudo_node_ip;
  v_pod_type = config.v_pod_type;
  env = config.env;
  worker_num = config.v_node_worker_num;
}

worker_number :
    (given config : Config)
    → new_v_node_controller (some given) ≡ controller config
    → config.v_node_worker_num
      ≡ (if is_zero given.v_node_worker_num then pos 1 else given.v_node_worker_num)
unfolding new_v_node_controller
worker_number given config h = ground (arith, h)

no_workers : (n : ℤ) → leb_ℤ (if is_zero n then pos 1 else n) (pos 0) ≡ ltb_ℤ n (pos 0)
unfolding is_zero
no_workers (pos zero) = refl
no_workers (pos (suc n)) = ground arith
no_workers (negsuc n) = ground arith

start_running-new :
    {Q : Type 0} (workers : ℤ) (limits : Q)
    → start_running workers (new_queue limits) ≡ (
        if leb_ℤ workers (pos 0) then none else some (record (new_queue limits) { running = true }))
unfolding start_running new_queue
start_running-new workers limits = ground arith

module _ {L R : Type 0} (default_limiter : L) (default_retry : R) (num_cpu : ℤ)
    (architecture operating_system : Text) where
  Agrees-workers :
      (config : BuildVNodeConfig) (r : NewResult) (b : Built (NodeParts L R))
      (parts : NodeParts L R)
      → Agrees default_limiter default_retry num_cpu architecture operating_system config true true
          r b
      → b ≡ built parts
      → parts.workers ≡ config.worker_num
  Agrees-workers config (refused e) b parts h g = cc
  Agrees-workers config (made node) b parts (q, h, n, w) g = cc

  -- A node that is built for a base, with client and cache, under a configuration that the controller
  -- has accepted starts its queues without a panic, each from an empty state, if the configured number
  -- of workers was not negative, and panics when it starts them if it was.
  pub new_v_node_parts-start :
      {Q : Type 0} (given config : Config) (info : NodeInfo) (parts : NodeParts L R) (limits : Q)
      → new_v_node_controller (some given) ≡ controller config
      → new_v_node_parts default_limiter default_retry num_cpu architecture operating_system
          (config_of (settings_of config) info)
          true
          true
        ≡ built parts
      → start_running parts.workers (new_queue limits) ≡ (
          if ltb_ℤ given.v_node_worker_num (pos 0)
          then none
          else some (record (new_queue limits) { running = true }))
  unfolding settings_of config_of
  new_v_node_parts-start {Q} given config info parts limits e g =
      let workers =
        Agrees-workers (config_of (settings_of config) info) _ _ parts
          (new_v_node_parts-Agrees default_limiter default_retry num_cpu architecture
            operating_system (config_of (settings_of config) info) true true)
          g in
      let started = some (record (new_queue limits) { running = true }) in
      start_running-new parts.workers limits
      ∙ ap (λ w. if leb_ℤ w (pos 0) then none else started) (workers ∙ worker_number given config e)
      ∙ ap (λ b. if b then none else started) (no_workers given.v_node_worker_num)
