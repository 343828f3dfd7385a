-- ===== src/Nodes/Guards.antt =====
-- Which events of pods reach the queues of a virtual node (vnode_controller/vnode_controller.go).
use virtual_kubelet.Common.{
  ◌≡◌, ◌≢◌, refl, sym, subst, ap, ◌∙◌, Bool, true, false, not, Option, none, some, is_some, ◌&&◌,
  decided, List, ℤ, Text, text_dec, lookup, insert, lookup-insert_self, lookup-insert_ne,
  if◌then◌else◌, if-holds, arith,
}
use virtual_kubelet.Kube.{Pod}
use virtual_kubelet.Lease.{is_leader}
use virtual_kubelet.Pods.{World, Call, add_known_pod}
use virtual_kubelet.Nodes.{Node, Nodes, is_dead, is_reachable, node_shutdown, shutdown, close}
use virtual_kubelet.Nodes.Alive.{heart_beat_window}
use virtual_kubelet.Nodes.Handlers.{pod_key, is_valid_status, on_pods, when_leader, know_pod}

abbrev pub leads : Option Bool → Bool
leads (some true) = true
leads _ = false

module _ {S : Type 0} where
  -- The client leads the node, which is ready and reachable.
  abbrev pub is_eligible : Text → ℤ → Node S → Bool
  is_eligible client_id now n =
      leads (is_leader client_id now n.lease) && n.ready && is_reachable now n

  -- What the event does to the queues of a node: `act` if the node is the named one and eligible,
  -- else nothing.
  abbrev pub Queued : Text → ℤ → Text → (List Call → List Call) → Text → Node S → Node S → Type 0
  Queued client_id now name act j n n' = n'.pods.calls ≡ (
      if decided (text_dec name j) && is_eligible client_id now n
      then act n.pods.calls
      else n.pods.calls)

  -- The same for every node of the store, where the handler does not panic.
  abbrev pub AllQueued :
      Text → ℤ → Text → (List Call → List Call) → Nodes S → Option (Nodes S) → Type 0
  AllQueued client_id now name act nodes none = Unit {0}
  AllQueued client_id now name act nodes (some nodes') =
      (j : Text) (n : Node S)
      → lookup j nodes ≡ some n
      → (n' : Node S) × (lookup j nodes' ≡ some n') × Queued client_id now name act j n n'

  -- Only the node under the name differs.
  abbrev pub Changes : Text → Node S → Nodes S → Nodes S → Type 0
  Changes name n' nodes nodes' =
      (lookup name nodes' ≡ some n') × ((j : Text) → name ≢ j → lookup j nodes' ≡ lookup j nodes)

  insert-Changes :
      (name : Text) (n n' : Node S) (nodes nodes' : Nodes S)
      → Changes name n nodes nodes'
      → Changes name n' nodes (insert name n' nodes')
  insert-Changes name n n' nodes nodes' h = (
    lookup-insert_self name n' nodes',
    λ j differs. lookup-insert_ne name j n' nodes' differs ∙ h.1 j differs,
  )

  module _ (client_id : Text) (now : ℤ) (name : Text) (act : List Call → List Call) where
    -- What the event does to the queues of the named node.
    abbrev At : Node S → Node S → Type 0
    At n n' =
        n'.pods.calls ≡ (if is_eligible client_id now n then act n.pods.calls else n.pods.calls)

    Changes-AllQueued :
        (n n' : Node S) (nodes nodes' : Nodes S)
        → lookup name nodes ≡ some n
        → Changes name n' nodes nodes'
        → At n n'
        → AllQueued client_id now name act nodes (some nodes')
    Changes-AllQueued n n' nodes nodes' e h q j m f = elim (text_dec name j) [
      | no differs ↦ (m, h.1 j differs ∙ f, ground (arith, differs))
      | yes same ↦
          let at_name : lookup name nodes ≡ some m =
            subst (λ x. lookup x nodes ≡ some m) (sym same) f in
          let eq : n ≡ m = cc in
          let q' : At m n' = subst (λ x. At x n') eq q in
          (n', subst (λ x. lookup x nodes' ≡ some n') same h.0, ground (arith, same, q'))
    ]

    node_shutdown_at :
        (n : Node S) (nodes : Nodes S)
        → lookup name nodes ≡ some n
        → node_shutdown now name nodes ≡ insert name (shutdown (close now n)) nodes
    unfolding node_shutdown
    node_shutdown_at n nodes e = rw (node_shutdown, e)

    shutdown-calls : (n : Node S) → (shutdown (close now n)).pods.calls ≡ n.pods.calls
    unfolding shutdown close
    shutdown-calls n =
        if-holds (λ (x : Node S). x.pods.calls ≡ n.pods.calls) n.exit (λ h. refl) (λ h. refl)

    idle :
        (n n1 n' : Node S)
        → n1.pods.calls ≡ n.pods.calls
        → is_eligible client_id now n1 ≡ is_eligible client_id now n
        → is_eligible client_id now n1 ≡ false
        → n'.pods.calls ≡ n1.pods.calls
        → At n n'
    idle n n1 n' same eligible no_one h = rw (sym eligible, no_one) (h ∙ same)

    busy :
        (n n1 n' : Node S)
        → n1.pods.calls ≡ n.pods.calls
        → is_eligible client_id now n1 ≡ is_eligible client_id now n
        → is_eligible client_id now n1 ≡ true
        → n'.pods.calls ≡ act n1.pods.calls
        → At n n'
    busy n n1 n' same eligible one h = rw (sym eligible, one) (h ∙ ap act same)

    not_led :
        (n : Node S)
        → is_leader client_id now n.lease ≡ some false
        → is_eligible client_id now n ≡ false
    not_led n l = rw l

    not_ready : (n : Node S) → not n.ready ≡ true → is_eligible client_id now n ≡ false
    not_ready n h = ground (arith, h)

    not_reachable : (n : Node S) → is_reachable now n ≡ false → is_eligible client_id now n ≡ false
    not_reachable n h = ground (arith, h)

    all_good :
        (n : Node S)
        → is_leader client_id now n.lease ≡ some true
        → not n.ready ≡ false
        → is_reachable now n ≡ true
        → is_eligible client_id now n ≡ true
    all_good n l up reachable = rw l (ground (arith, up, reachable))

    -- From a store in which the node `n` has become `n1`, with the same calls and as eligible as `n`.
    pub when_leader-AllQueued :
        (leader : Option Bool) (f : World S → World S) (n n1 : Node S) (nodes nodes1 : Nodes S)
        → is_leader client_id now n1.lease ≡ leader
        → lookup name nodes ≡ some n
        → Changes name n1 nodes nodes1
        → n1.pods.calls ≡ n.pods.calls
        → is_eligible client_id now n1 ≡ is_eligible client_id now n
        → (f n1.pods).calls ≡ act n1.pods.calls
        → AllQueued client_id now name act nodes (when_leader leader now name f n1 nodes1)
    unfolding when_leader is_valid_status
    when_leader-AllQueued none f n n1 nodes nodes1 l e h same eligible acts = tt
    when_leader-AllQueued (some false) f n n1 nodes nodes1 l e h same eligible acts =
        Changes-AllQueued n n1 nodes nodes1 e h (idle n n1 n1 same eligible (not_led n1 l) refl)
    when_leader-AllQueued (some true) f n n1 nodes nodes1 l e h same eligible acts =
        let down = shutdown (close now n1) in
        let after = on_pods f n1 in
        if-holds
          (λ (x : Bool × Nodes S).
            AllQueued client_id now name act nodes
              (if x.0 then some (insert name (on_pods f n1) x.1) else some x.1))
          (not n1.ready)
          (λ i.
            Changes-AllQueued n n1 nodes nodes1 e h
              (idle n n1 n1 same eligible (not_ready n1 i) refl))
          (λ up.
            if-holds
              (λ (x : Bool × Nodes S).
                AllQueued client_id now name act nodes
                  (if x.0 then some (insert name (on_pods f n1) x.1) else some x.1))
              (is_dead now n1)
              (λ dead.
                let lost = (heart_beat_window n1 now now).4 dead in
                subst (λ x. AllQueued client_id now name act nodes (some x))
                  (sym (node_shutdown_at n1 nodes1 h.0))
                  (Changes-AllQueued n down nodes (insert name down nodes1) e
                    (insert-Changes name n1 down nodes nodes1 h)
                    (idle n n1 down same eligible (not_reachable n1 lost) (shutdown-calls n1))))
              (λ alive.
                if-holds (AllQueued client_id now name act nodes) (is_reachable now n1)
                  (λ reachable.
                    Changes-AllQueued n after nodes (insert name after nodes1) e
                      (insert-Changes name n1 after nodes nodes1 h)
                      (busy n n1 after same eligible (all_good n1 l up reachable) acts))
                  (λ lost.
                    Changes-AllQueued n n1 nodes nodes1 e h
                      (idle n n1 n1 same eligible (not_reachable n1 lost) refl))))

    pub know_pod-calls : (pod : Pod) (w : World S) → (know_pod pod w).calls ≡ w.calls
    unfolding know_pod add_known_pod
    know_pod-calls pod w =
        if-holds (λ (x : World S). x.calls ≡ w.calls) (is_some (lookup (pod_key pod) w.known))
          (λ h. refl) (λ h. refl)
