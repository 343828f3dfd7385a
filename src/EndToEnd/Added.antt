-- ===== src/EndToEnd/Added.antt =====
-- What follows when a pod is added: the handler of vnode_controller/vnode_controller.go queues its
-- key for the pod controller of the node (virtual_kubelet/node/podcontroller.go), whose run for that
-- key reaches provider/vpod_provider.go.
use virtual_kubelet.Common.{
  ℕ, ◌≡◌, refl, sym, ◌∙◌, subst, ap, Bool, true, false, Option, none, some, is_some, List, ◌∷◌, ℤ,
  Text, Bool-cases, inl, inr, Lacks, lookup, insert, lookup-insert_self, arith,
}
use virtual_kubelet.Kube.{Container, Pod}
use virtual_kubelet.Keys.RoundTrip.{get_pod_key-parts}
use virtual_kubelet.Lease.{is_leader}
use virtual_kubelet.Pods.{
  sync_key, KnownPod, got, Cmp, World, is_final, add_known_pod, sync_pods_from_kubernetes_enqueue,
}
use virtual_kubelet.Pods.Provider.{is_used, sync_pods_from_kubernetes_handler}
use virtual_kubelet.Nodes.{Node, Nodes, is_dead, is_reachable}
use virtual_kubelet.Nodes.Handlers.{
  pod_key, is_valid_status, on_pods, when_leader, know_pod, handle_known, pod_add_handler,
}
use virtual_kubelet.Nodes.Alive.{heart_beat_window}
use virtual_kubelet.VPods.{Tunnel}
use virtual_kubelet.VPods.Store.{Keyed}
use virtual_kubelet.EndToEnd.{Cluster, Joint}
use virtual_kubelet.EndToEnd.Spec.{wanted, desired_version, desired, IsFor, Becomes}
use virtual_kubelet.EndToEnd.Stores.{joint, store_of}
use virtual_kubelet.EndToEnd.Refine.{is_new, handler-refines}

module _ {S : Type 0} where
  -- What the handler leaves of the pods of a node that did not know the pod.
  abbrev pub told : Pod → World S → World S
  told pod w = record {
    known =
        insert (pod_key pod)
          (record { from_provider = pod; last_used = none; update_skipped = false }) w.known;
    outside = w.outside;
    calls = sync_key (pod_key pod) ∷ w.calls;
  }

  -- The client leads the node, which is ready and reachable.
  abbrev pub Serving : Text → ℤ → Node S → Type 0
  Serving client_id now n =
      (is_leader client_id now n.lease ≡ some true) × (n.ready ≡ true) × (is_reachable now n ≡ true)

  reachable-alive : (now : ℤ) (n : Node S) → is_reachable now n ≡ true → is_dead now n ≡ false
  reachable-alive now n h = elim (Bool-cases (is_dead now n)) [
    | inl dead ↦ absurd (let lost = (heart_beat_window n now now).4 dead in ground (arith, h, lost))
    | inr alive ↦ alive
  ]

  is_valid_status-Serving :
      (client_id : Text) (now : ℤ) (name : Text) (n : Node S) (nodes : Nodes S)
      → Serving client_id now n
      → is_valid_status now name n nodes ≡ (true, nodes)
  unfolding is_valid_status
  is_valid_status-Serving client_id now name n nodes (leads, ready, near) =
      rw (ready, reachable-alive now n near, near) refl

  when_leader-Serving :
      (client_id : Text) (now : ℤ) (name : Text) (act : World S → World S) (n : Node S)
      (nodes : Nodes S)
      → Serving client_id now n
      → when_leader (is_leader client_id now n.lease) now name act n nodes
        ≡ some (insert name (on_pods act n) nodes)
  unfolding when_leader
  when_leader-Serving client_id now name act n nodes serving =
      rw (serving.0, is_valid_status-Serving client_id now name n nodes serving) refl

  handle_known-Serving :
      (client_id : Text) (now : ℤ) (pod : Pod) (act : World S → World S) (n : Node S)
      (nodes : Nodes S)
      → lookup pod.node_name nodes ≡ some n
      → Serving client_id now n
      → handle_known client_id now pod act nodes
        ≡ some (
            insert pod.node_name
              (on_pods act (on_pods (know_pod pod) n))
              (insert pod.node_name (on_pods (know_pod pod) n) nodes))
  unfolding handle_known
  handle_known-Serving client_id now pod act n nodes there serving =
      let n' = on_pods (know_pod pod) n in
      rw (there, handle_known)
        (when_leader-Serving client_id now pod.node_name act n' (insert pod.node_name n' nodes)
          serving)

  know_pod-new :
      (pod : Pod) (w : World S)
      → lookup (pod_key pod) w.known ≡ none
      → sync_pods_from_kubernetes_enqueue (pod_key pod) (know_pod pod w) ≡ told pod w
  unfolding know_pod add_known_pod sync_pods_from_kubernetes_enqueue
  know_pod-new pod w h = rw h refl

  -- The node as the handler for an added pod leaves it.
  add_handler-told :
      (client_id : Text) (now : ℤ) (pod : Pod) (n : Node S) (nodes : Nodes S)
      → lookup pod.node_name nodes ≡ some n
      → Serving client_id now n
      → lookup (pod_key pod) n.pods.known ≡ none
      → (nodes' : Nodes S) × (pod_add_handler client_id now pod nodes ≡ some nodes')
        × (lookup pod.node_name nodes' ≡ some (on_pods (told pod) n))
  unfolding pod_add_handler
  add_handler-told client_id now pod n nodes there serving unknown =
      let enqueue = sync_pods_from_kubernetes_enqueue (pod_key pod) in
      (
        _,
        handle_known-Serving client_id now pod enqueue n nodes there serving,
        lookup-insert_self pod.node_name _ _
            ∙ ap (λ w. some (on_pods (λ v. w) n)) (know_pod-new pod n.pods unknown),
      )

module _ {S K : Type 0} (cluster : Cluster K) (tunnel : Tunnel S) (timers : ℕ)
    (same : Container → Container → Bool) (cmp : Cmp) where
  told-desired :
      (pod : Pod) (known : List (Text × KnownPod)) (there : Option Pod)
      → is_some pod.deletion_timestamp ≡ false
      → is_final pod.status.phase ≡ false
      → let new : KnownPod = record {
        from_provider = pod;
        last_used = none;
        update_skipped = false;
      } in
        desired cmp
          (is_new cluster tunnel timers same cmp
            (lookup (pod_key pod) (insert (pod_key pod) new known)))
          (got pod)
          there
        ≡ wanted cmp pod there
  unfolding desired desired_version is_used
  told-desired pod known there unmarked going =
      let new : KnownPod = record {
        from_provider = pod;
        last_used = none;
        update_skipped = false;
      } in
      ap (λ k. desired cmp (is_new cluster tunnel timers same cmp k) (got pod) there)
        (lookup-insert_self (pod_key pod) new known)
      ∙ rw (unmarked, going, desired_version) refl

  -- If the client leads the node of a pod that is added, the node is ready and reachable and does not
  -- know the pod yet, then the handler does not panic and queues the pod's key there, and the run for
  -- this key brings the provider of the node to have the pod under it, or the pod it had already if
  -- that is equal, and to have the same as before under every other key; if by then the cache still has
  -- this version, the pod is neither marked for deletion nor ended, its names hold no slash, and the
  -- provider has every pod under its own key.
  pub pod_add_handler-reaches :
      (client_id : Text) (now : ℤ) (pod : Pod) (n : Node (Joint S K)) (nodes : Nodes (Joint S K))
      → lookup pod.node_name nodes ≡ some n
      → Serving client_id now n
      → lookup (pod_key pod) n.pods.known ≡ none
      → cluster.cache_get pod.namespace pod.name n.pods.outside.cluster ≡ got pod
      → is_some pod.deletion_timestamp ≡ false
      → is_final pod.status.phase ≡ false
      → Lacks b'/' pod.namespace
      → Lacks b'/' pod.name
      → Keyed (store_of n.pods)
      → (nodes' : Nodes (Joint S K)) × (n' : Node (Joint S K)) × (pod_add_handler client_id now pod
            nodes
          ≡ some nodes')
        × (lookup pod.node_name nodes' ≡ some n')
        × (n'.pods.calls ≡ sync_key (pod_key pod) ∷ n.pods.calls)
        × (let o = joint cluster tunnel timers same cmp in
            let (r, w) = sync_pods_from_kubernetes_handler o cmp (pod_key pod) n'.pods in
            Becomes
              (pod_key pod)
              (wanted cmp pod (lookup (pod_key pod) (store_of n.pods)))
              (store_of n.pods)
              (store_of w))
  pod_add_handler-reaches client_id now pod n nodes there serving unknown cached unmarked going l l'
        keyed =
      let (nodes', handled, found) =
        add_handler-told client_id now pod n nodes there serving unknown in
      let key = pod_key pod in
      let w = told pod n.pods in
      let o = joint cluster tunnel timers same cmp in
      let m = store_of n.pods in
      let new = is_new cluster tunnel timers same cmp (lookup key w.known) in
      let run =
        handler-refines cluster tunnel timers same cmp key pod.namespace pod.name w keyed
          (get_pod_key-parts pod.namespace pod.name l l').1 refl
          (subst (IsFor key) (sym cached) refl) in
      (
        nodes',
        on_pods (told pod) n,
        handled,
        found,
        refl,
        subst (λ d. Becomes key d m (store_of (sync_pods_from_kubernetes_handler o cmp key w).1))
            (ap (λ a. desired cmp new a (lookup key m)) cached
              ∙ told-desired pod n.pods.known (lookup key m) unmarked going)
            run.0,
      )
