-- ===== src/Nodes/Events.antt =====
-- What the handlers of pod events put into the queues (vnode_controller/vnode_controller.go).
use virtual_kubelet.Common.{
  ◌≡◌, inl, inr, refl, subst, none, some, List, ◌∷◌, ℤ, Text, text_dec, Option-cases, lookup,
  insert, lookup-insert_self, lookup-insert_ne, if◌then◌else◌, arith,
}
use virtual_kubelet.Kube.{Pod}
use virtual_kubelet.Keys.{deletion_key}
use virtual_kubelet.Lease.{is_leader}
use virtual_kubelet.Pods.{
  World, Cmp, Call, delete_known_pod, sync_key, forget_key, sync_pods_from_kubernetes_enqueue,
  delete_pods_from_kubernetes_forget,
}
use virtual_kubelet.Nodes.{Nodes, is_reachable}
use virtual_kubelet.Nodes.Handlers.{
  pod_key, on_pods, know_pod, handle_known, pod_add_handler, enqueue_if_changed, pod_update_handler,
  drop_pod, pod_delete_handler, pod_should_enqueue,
}
use virtual_kubelet.Nodes.Guards.{AllQueued, when_leader-AllQueued, know_pod-calls}

module _ {S : Type 0} where
  -- There is no such node: nothing happens.
  absent-AllQueued :
      (client_id : Text) (now : ℤ) (name : Text) (act : List Call → List Call) (nodes : Nodes S)
      → lookup name nodes ≡ none
      → AllQueued client_id now name act nodes (some nodes)
  absent-AllQueued client_id now name act nodes e j n f = elim (text_dec name j) [
    | no differs ↦ (n, f, ground (arith, differs))
    | yes same ↦
        let at_name : lookup j nodes ≡ none = subst (λ x. lookup x nodes ≡ none) same e in
        let bad : ⊥ = cc in elim bad [ ]
  ]

  handle_known-AllQueued :
      (client_id : Text) (now : ℤ) (pod : Pod) (f : World S → World S) (act : List Call → List Call)
      (nodes : Nodes S)
      → ((w : World S) → (f w).calls ≡ act w.calls)
      → AllQueued client_id now pod.node_name act nodes (handle_known client_id now pod f nodes)
  unfolding handle_known is_reachable
  handle_known-AllQueued client_id now pod f act nodes acts =
      elim (Option-cases (lookup pod.node_name nodes)) [
        | inl e ↦ rw (handle_known, e) (absent-AllQueued client_id now pod.node_name act nodes e)
        | inr (n, e) ↦
            let n1 = on_pods (know_pod pod) n in
            rw (handle_known, e)
              (when_leader-AllQueued client_id now pod.node_name act
                (is_leader client_id now n1.lease) f n n1 nodes (insert pod.node_name n1 nodes) refl
                e
                (
                  lookup-insert_self pod.node_name n1 nodes,
                  λ j differs. lookup-insert_ne pod.node_name j n1 nodes differs,
                )
                (know_pod-calls client_id now pod.node_name act pod n.pods) refl (acts n1.pods))
      ]

  -- An added pod puts its own key, and nothing else, into the queue of its node if the client leads
  -- that node and the node is ready and reachable; every other queue stays as it is.
  pub pod_add_handler-AllQueued :
      (client_id : Text) (now : ℤ) (pod : Pod) (nodes : Nodes S)
      → AllQueued client_id now pod.node_name
          (λ calls. sync_key (pod_key pod) ∷ calls)
          nodes
          (pod_add_handler client_id now pod nodes)
  unfolding pod_add_handler sync_pods_from_kubernetes_enqueue
  pod_add_handler-AllQueued client_id now pod nodes =
      handle_known-AllQueued client_id now pod _ (λ calls. sync_key (pod_key pod) ∷ calls) nodes
        (λ w. refl)

  -- An updated pod does so if the update is of interest.
  pub pod_update_handler-AllQueued :
      (client_id : Text) (now : ℤ) (cmp : Cmp) (old new : Pod) (nodes : Nodes S)
      → AllQueued client_id now new.node_name
          (λ calls.
            if pod_should_enqueue cmp old new then sync_key (pod_key new) ∷ calls else calls)
          nodes
          (pod_update_handler client_id now cmp old new nodes)
  unfolding pod_update_handler sync_pods_from_kubernetes_enqueue enqueue_if_changed
  pod_update_handler-AllQueued client_id now cmp old new nodes =
      handle_known-AllQueued client_id now new (enqueue_if_changed cmp old new)
        (λ calls. if pod_should_enqueue cmp old new then sync_key (pod_key new) ∷ calls else calls)
        nodes (λ w. ground arith)

  -- A deleted pod is queued for the sync that deletes it in the provider, and its key for deletion in
  -- Kubernetes is forgotten, if the client leads its node and the node is ready and reachable; else
  -- nothing is queued, and every other queue stays as it is.
  pub pod_delete_handler-AllQueued :
      (client_id : Text) (now : ℤ) (pod : Pod) (nodes : Nodes S)
      → AllQueued client_id now pod.node_name
          (λ calls.
            forget_key (deletion_key (pod_key pod) pod.uid) ∷ sync_key (pod_key pod) ∷ calls)
          nodes
          (pod_delete_handler client_id now pod nodes)
  unfolding pod_delete_handler drop_pod delete_known_pod sync_pods_from_kubernetes_enqueue
      delete_pods_from_kubernetes_forget
  pod_delete_handler-AllQueued client_id now pod nodes =
      elim (Option-cases (lookup pod.node_name nodes)) [
        | inl e ↦
            rw (pod_delete_handler, e)
              (absent-AllQueued client_id now pod.node_name
                (λ calls.
                  forget_key (deletion_key (pod_key pod) pod.uid) ∷ sync_key (pod_key pod) ∷ calls)
                nodes e)
        | inr (n, e) ↦
            rw (pod_delete_handler, e)
              (when_leader-AllQueued client_id now pod.node_name
                (λ calls.
                  forget_key (deletion_key (pod_key pod) pod.uid) ∷ sync_key (pod_key pod) ∷ calls)
                (is_leader client_id now n.lease) (drop_pod pod) n n nodes nodes refl e
                (e, λ j differs. refl) refl refl refl)
      ]
