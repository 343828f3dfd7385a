-- ===== src/MockTunnel/Starts.antt =====
-- The pod provider (provider/vpod_provider.go) over the tunnel of tunnel/mock_tunnel.go: what becomes
-- of the biz modules of a pod.
use virtual_kubelet.Common.{
  ℕ, ◌≡◌, refl, sym, ◌∙◌, subst, ap, some, List, [], ◌∷◌, ℤ, Text, text, text_dec, lookup, insert,
  lookup-insert, lookup-insert_self, arith, All,
}
use virtual_kubelet.Kube.{Container, Pod, BizStatusData}
use virtual_kubelet.Biz.{get_biz_unique_key}
use virtual_kubelet.VPods.{
  Provider, pod_key, retried, call_with_retry, handle_biz_batch_start, put_pod, notify, create_pod,
}
use virtual_kubelet.VPods.Retry.{call_with_retry-settled}
use virtual_kubelet.MockTunnel.{MockTunnel, or_empty, biz_of, installing, start_biz, tunnel_of}

module _ (now : ℤ) (node_name : Text) where
  -- The module of the container is being installed for the pod.
  abbrev pub Installing : Text → MockTunnel → Container → Type 0
  Installing key m c =
      (entry : BizStatusData) × (lookup (get_biz_unique_key c) (biz_of node_name m) ≡ some entry)
      × (entry.pod_key ≡ key)
      × (entry.state ≡ text "UNRESOLVED")

  pub biz-start :
      (key : Text) (c : Container) (m : MockTunnel)
      → biz_of node_name (start_biz now node_name key c m).1
        ≡ insert (get_biz_unique_key c) (installing now key c) (biz_of node_name m)
  unfolding biz_of start_biz
  biz-start key c m = ap or_empty (lookup-insert_self node_name _ m.biz_status_storage)

  start-Installing :
      (key : Text) (c : Container) (m : MockTunnel)
      → Installing key (start_biz now node_name key c m).1 c
  unfolding installing
  start-Installing key c m = (
    installing now key c,
    ap (lookup (get_biz_unique_key c)) (biz-start key c m)
        ∙ lookup-insert_self (get_biz_unique_key c) (installing now key c) (biz_of node_name m),
    refl,
    refl,
  )

  start-keeps :
      (key : Text) (c d : Container) (m : MockTunnel)
      → Installing key m d
      → Installing key (start_biz now node_name key c m).1 d
  unfolding installing
  start-keeps key c d m h =
      let (entry, found, pod, state) = h in
      let read =
        ap (lookup (get_biz_unique_key d)) (biz-start key c m)
        ∙ lookup-insert (get_biz_unique_key c) (get_biz_unique_key d) (installing now key c)
            (biz_of node_name m) in
      elim (text_dec (get_biz_unique_key c) (get_biz_unique_key d)) [
        | yes same ↦ (installing now key c, ground (arith, read), refl, refl)
        | no other ↦ (entry, ground (arith, read), pod, state)
      ]

  module _ (timers : ℕ) where
    abbrev started_base : Text → Container → Provider MockTunnel → MockTunnel
    started_base key c p = (start_biz now node_name key c p.base).1

    -- The mock never fails, so that one call is enough.
    start_once :
        (key : Text) (c : Container) (m : MockTunnel)
        → (call_with_retry timers (λ n s. retried (start_biz now node_name key c s)) 0 m).1
          ≡ (start_biz now node_name key c m).1
    unfolding start_biz
    start_once key c m =
        ap (λ x. x.1)
          (call_with_retry-settled (λ n s. retried (start_biz now node_name key c s)) timers 0 m
            refl)

    batch-keeps :
        (key : Text) (d : Container) (cs : List Container) (p : Provider MockTunnel)
        → Installing key p.base d
        → Installing key (handle_biz_batch_start (tunnel_of now node_name) timers key cs p).base d
    unfolding handle_biz_batch_start
    batch-keeps key d [] p h = h
    batch-keeps key d (c ∷ cs) p h = batch-keeps key d cs _ (
        subst (λ m. Installing key m d) (sym (start_once key c p.base))
          (start-keeps key c d p.base h))

    batch-Installing :
        (key : Text) (cs : List Container) (p : Provider MockTunnel)
        → All
            (Installing key (handle_biz_batch_start (tunnel_of now node_name) timers key cs p).base)
            cs
    unfolding handle_biz_batch_start
    batch-Installing key [] p = tt
    batch-Installing key (c ∷ cs) p = (
      batch-keeps key c cs _ (
          subst (λ m. Installing key m c) (sym (start_once key c p.base))
            (start-Installing key c p.base)),
      batch-Installing key cs _,
    )

    -- Creating a pod in the provider leaves each of its modules in the tunnel's storage, marked as
    -- being installed for that pod.
    pub create_pod-Installing :
        (pod : Pod) (p : Provider MockTunnel)
        → All
            (Installing (pod_key pod) (create_pod (tunnel_of now node_name) timers pod p).base)
            pod.containers
    unfolding create_pod notify put_pod
    create_pod-Installing pod p = batch-Installing (pod_key pod) pod.containers _
