-- ===== src/Nodes/Handlers.antt =====
-- The event handlers of vnode_controller/vnode_controller.go: pods that are added, updated and
-- deleted, bases that are discovered, and which updates of a pod are of interest.
use virtual_kubelet.Common.{
  Bool, true, false, ◌&&◌, ◌||◌, not, Option, none, some, is_some, [], ℤ, pos, negsuc, Text, text,
  lookup, insert, if◌then◌else◌, ◌==◌,
}
use virtual_kubelet.Kube.{Pod}
use virtual_kubelet.Biz.{same_text}
use virtual_kubelet.Keys.{get_pod_key, deletion_key}
use virtual_kubelet.Lease.{is_leader}
use virtual_kubelet.Pods.{
  World, Cmp, pods_equal, add_known_pod, delete_known_pod, sync_pods_from_kubernetes_enqueue,
  delete_pods_from_kubernetes_forget,
}
use virtual_kubelet.Nodes.{
  Node, Nodes, is_dead, is_reachable, node_shutdown, add_v_node,
  update_node_state_on_provider_arrived,
}

abbrev pub same_int : ℤ → ℤ → Bool
same_int (pos a) (pos b) = a == b
same_int (negsuc a) (negsuc b) = a == b
same_int _ _ = false

abbrev pub same_option : Option ℤ → Option ℤ → Bool
same_option none none = true
same_option (some a) (some b) = same_int a b
same_option _ _ = false

unfoldable pub delete_grace_time_equal : Option ℤ → Option ℤ → Bool
delete_grace_time_equal old new = same_option old new

unfoldable pub pod_should_enqueue_for_delete : Pod → Pod → Bool
unfolding delete_grace_time_equal
pod_should_enqueue_for_delete old new =
    not
      (delete_grace_time_equal old.deletion_grace_period_seconds new.deletion_grace_period_seconds)
    || not (same_option old.deletion_timestamp new.deletion_timestamp)

unfoldable pub pod_should_enqueue_for_add : Pod → Pod → Bool
pod_should_enqueue_for_add old new = same_text old.node_name [] && not (same_text new.node_name [])

unfoldable pub pod_should_enqueue : Cmp → Pod → Pod → Bool
unfolding pods_equal pod_should_enqueue_for_delete pod_should_enqueue_for_add
pod_should_enqueue cmp old new =
    not (pods_equal cmp old new)
    || pod_should_enqueue_for_delete old new
    || pod_should_enqueue_for_add old new

abbrev pub pod_key : Pod → Text
pod_key pod = get_pod_key pod.namespace pod.name

module _ {S : Type 0} where
  unfoldable pub is_valid_status : ℤ → Text → Node S → Nodes S → Bool × Nodes S
  unfolding is_dead is_reachable node_shutdown
  is_valid_status now name n nodes =
      if not n.ready
      then (false, nodes)
      else if is_dead now n
      then (false, node_shutdown now name nodes)
      else (is_reachable now n, nodes)

  abbrev pub on_pods : (World S → World S) → Node S → Node S
  on_pods f n = record n { pods = f n.pods }

  -- What a handler does once the node is known to be led or not; `none` is a panic.
  unfoldable pub when_leader :
      Option Bool → ℤ → Text → (World S → World S) → Node S → Nodes S → Option (Nodes S)
  unfolding is_valid_status
  when_leader none now name act n nodes = none
  when_leader (some false) now name act n nodes = some nodes
  when_leader (some true) now name act n nodes =
      let (valid, nodes') = is_valid_status now name n nodes in
      if valid then some (insert name (on_pods act n) nodes') else some nodes'

  unfoldable pub know_pod : Pod → World S → World S
  unfolding add_known_pod
  know_pod pod w = if is_some (lookup (pod_key pod) w.known) then w else add_known_pod pod w

  -- The first part of the handlers for an added and an updated pod.
  unfoldable pub handle_known : Text → ℤ → Pod → (World S → World S) → Nodes S → Option (Nodes S)
  unfolding know_pod when_leader
  handle_known client_id now pod act nodes = elim (lookup pod.node_name nodes) [
    | none ↦ some nodes
    | some n ↦
        let n' = on_pods (know_pod pod) n in
        when_leader (is_leader client_id now n'.lease) now pod.node_name act n'
          (insert pod.node_name n' nodes)
  ]

  unfoldable pub pod_add_handler : Text → ℤ → Pod → Nodes S → Option (Nodes S)
  unfolding handle_known sync_pods_from_kubernetes_enqueue
  pod_add_handler client_id now pod nodes =
      handle_known client_id now pod (sync_pods_from_kubernetes_enqueue (pod_key pod)) nodes

  unfoldable pub enqueue_if_changed : Cmp → Pod → Pod → World S → World S
  unfolding pod_should_enqueue sync_pods_from_kubernetes_enqueue
  enqueue_if_changed cmp old new w =
      if pod_should_enqueue cmp old new
      then sync_pods_from_kubernetes_enqueue (pod_key new) w
      else w

  unfoldable pub pod_update_handler : Text → ℤ → Cmp → Pod → Pod → Nodes S → Option (Nodes S)
  unfolding handle_known enqueue_if_changed
  pod_update_handler client_id now cmp old new nodes =
      handle_known client_id now new (enqueue_if_changed cmp old new) nodes

  unfoldable pub drop_pod : Pod → World S → World S
  unfolding delete_known_pod sync_pods_from_kubernetes_enqueue delete_pods_from_kubernetes_forget
  drop_pod pod w =
      delete_pods_from_kubernetes_forget (deletion_key (pod_key pod) pod.uid)
        (sync_pods_from_kubernetes_enqueue (pod_key pod) (delete_known_pod (pod_key pod) w))

  unfoldable pub pod_delete_handler : Text → ℤ → Pod → Nodes S → Option (Nodes S)
  unfolding when_leader drop_pod
  pod_delete_handler client_id now pod nodes = elim (lookup pod.node_name nodes) [
    | none ↦ some nodes
    | some n ↦
        when_leader (is_leader client_id now n.lease) now pod.node_name (drop_pod pod) n nodes
  ]

  -- A node that is there is left as it is; `new` is what `NewVNode` makes, or its error.
  unfoldable pub start_v_node : Text → Option (Node S) → Nodes S → Nodes S
  unfolding add_v_node
  start_v_node name new nodes =
      if is_some (lookup name nodes)
      then nodes
      else elim new [ none ↦ nodes | some n ↦ (add_v_node name n nodes).1 ]

  unfoldable pub on_base_discovered : ℤ → Text → Text → Option (Node S) → Nodes S → Nodes S
  unfolding start_v_node update_node_state_on_provider_arrived
  on_base_discovered now name state new nodes =
      update_node_state_on_provider_arrived now name state
        (if same_text state (text "ACTIVATED") then start_v_node name new nodes else nodes)
