-- ===== src/MockTunnel/Stops.antt =====
-- The pod provider (provider/vpod_provider.go) over the tunnel of tunnel/mock_tunnel.go: stopping the
-- biz modules of a pod, and the whole life of them.
use virtual_kubelet.Common.{
  ℕ, ◌≡◌, refl, sym, ◌∙◌, subst, ap, Option, none, some, List, [], ◌∷◌, ℤ, Text, text_dec, lookup,
  delete, lookup-insert_self, lookup-delete, arith, All, ◌⊎◌, inl, inr, is_some, ite,
}
use virtual_kubelet.Kube.{Container, Pod, BizStatusData}
use virtual_kubelet.Biz.{get_biz_unique_key}
use virtual_kubelet.VPods.{
  Provider, pod_key, key_to_stop, retried, call_with_retry, handle_biz_batch_stop, remove_pod,
  notify, create_pod, delete_pod,
}
use virtual_kubelet.VPods.Retry.{call_with_retry-settled}
use virtual_kubelet.MockTunnel.{MockTunnel, or_empty, biz_of, stop_found, stop_biz, tunnel_of}
use virtual_kubelet.MockTunnel.Starts.{Installing, create_pod-Installing}

module _ (now : ℤ) (node_name : Text) where
  abbrev pub IsGone : MockTunnel → Container → Type 0
  IsGone m c = lookup (get_biz_unique_key c) (biz_of node_name m) ≡ none

  found-absent :
      (key j : Text) (found : Option BizStatusData) (m : MockTunnel)
      → lookup key (biz_of node_name m) ≡ found
      → (lookup j (biz_of node_name m) ≡ none) ⊎ (key ≡ j)
      → lookup j (biz_of node_name (stop_found now node_name key found m).1) ≡ none
  unfolding stop_found biz_of
  found-absent key j none m e (inl absent) = absent
  found-absent key j none m e (inr same) = subst (λ x. lookup x (biz_of node_name m) ≡ none) same e
  found-absent key j (some entry) m e h =
      let biz = biz_of node_name m in
      let read =
        ap (lookup j)
          (ap or_empty (lookup-insert_self node_name (delete key biz) m.biz_status_storage))
        ∙ lookup-delete key j biz in
      read ∙ absent-either key j (lookup j biz) h
    where
      absent-either :
          (key j : Text) (found : Option BizStatusData)
          → (found ≡ none) ⊎ (key ≡ j)
          → ite (text_dec key j) none found ≡ none
      absent-either key j found h = ground arith

  stop_found-fine :
      (key : Text) (found : Option BizStatusData) (m : MockTunnel)
      → (stop_found now node_name key found m).0 ≡ none
  unfolding stop_found
  stop_found-fine key none m = refl
  stop_found-fine key (some entry) m = refl

  module _ (timers : ℕ) where
    stop_once :
        (stop : Text) (c : Container) (m : MockTunnel)
        → (call_with_retry timers (λ n s. retried (stop_biz now node_name stop c s)) 0 m).1
          ≡ (stop_biz now node_name stop c m).1
    unfolding stop_biz
    stop_once stop c m =
        let key = get_biz_unique_key c in
        ap (λ x. x.1)
          (call_with_retry-settled (λ n s. retried (stop_biz now node_name stop c s)) timers 0 m
            (ap is_some (stop_found-fine key (lookup key (biz_of node_name m)) m)))

    stop-absent :
        (stop : Text) (c d : Container) (m : MockTunnel)
        → IsGone m d ⊎ (get_biz_unique_key c ≡ get_biz_unique_key d)
        → IsGone (call_with_retry timers (λ n s. retried (stop_biz now node_name stop c s)) 0 m).1 d
    unfolding stop_biz
    stop-absent stop c d m h =
        subst (λ x. IsGone x d) (sym (stop_once stop c m))
          (found-absent (get_biz_unique_key c) (get_biz_unique_key d) _ m refl h)

    batch-absent :
        (key : Text) (d : Container) (cs : List Container) (p : Provider MockTunnel)
        → IsGone p.base d
        → IsGone (handle_biz_batch_stop (tunnel_of now node_name) timers key cs p).base d
    unfolding handle_biz_batch_stop
    batch-absent key d [] p h = h
    batch-absent key d (c ∷ cs) p h =
        batch-absent key d cs _ (stop-absent (key_to_stop key) c d p.base (inl h))

    batch-IsGone :
        (key : Text) (cs : List Container) (p : Provider MockTunnel)
        → All (IsGone (handle_biz_batch_stop (tunnel_of now node_name) timers key cs p).base) cs
    unfolding handle_biz_batch_stop
    batch-IsGone key [] p = tt
    batch-IsGone key (c ∷ cs) p = (
      batch-absent key c cs _ (stop-absent (key_to_stop key) c c p.base (inr refl)),
      batch-IsGone key cs _,
    )

    delete-absent :
        (pod : Pod) (d : Container) (p : Provider MockTunnel)
        → IsGone p.base d
        → IsGone (delete_pod (tunnel_of now node_name) timers pod p).base d
    unfolding delete_pod notify remove_pod
    delete-absent pod d p h = batch-absent (pod_key pod) d pod.containers _ h

    delete-IsGone :
        (pod : Pod) (p : Provider MockTunnel)
        → All (IsGone (delete_pod (tunnel_of now node_name) timers pod p).base) pod.containers
    unfolding delete_pod notify remove_pod
    delete-IsGone pod p = batch-IsGone (pod_key pod) pod.containers _

    -- Creating a pod in the provider leaves each of its modules in the tunnel's storage, as being
    -- installed for that pod; deleting a pod leaves none of its modules there.
    pub create_delete_modules :
        (pod : Pod) (p : Provider MockTunnel)
        → let tunnel = tunnel_of now node_name in
          All
            (Installing now node_name (pod_key pod) (create_pod tunnel timers pod p).base)
            pod.containers
          × All (IsGone (delete_pod tunnel timers pod p).base) pod.containers
    create_delete_modules pod p =
        (create_pod-Installing now node_name timers pod p, delete-IsGone pod p)
