-- ===== src/VPods/Steps.antt =====
-- The operations of provider/vpod_provider.go in any order, and what they keep of the stored pods.
use virtual_kubelet.Common.{
  ℕ, ◌≡◌, refl, sym, subst, Bool, Option, none, some, is_some, [], ◌++◌, ℤ, Text, map, lookup,
  Error, is_not_found, if-holds,
}
use virtual_kubelet.Kube.{Container, Pod, BizStatusData}
use virtual_kubelet.Pods.{PodResult, got, failed}
use virtual_kubelet.VPods.{
  Tunnel, Provider, Pending, pod_key, create_pod, delete_pod, by_name, changed, added,
  update_stored, update_pod, check_pending, all_stopped,
}
use virtual_kubelet.VPods.Sync.{sync_biz_status_to_kube}
use virtual_kubelet.VPods.Store.{
  start-store, create-store, delete-store, replace-store, Keyed, Keyed-insert, Keyed-delete,
  sync_biz-Fine,
}

module _ {S : Type 0} (tunnel : Tunnel S) (timers : ℕ) (same : Container → Container → Bool)
    (cache_get : Text → Text → PodResult) (local_ip : Text) where
  update_stored-Keyed :
      (pod : Pod) (old : Option Pod) (p : Provider S)
      → Keyed p.store
      → Keyed (update_stored tunnel timers same pod old p).1.store
  unfolding update_stored
  update_stored-Keyed pod none p h = h
  update_stored-Keyed pod (some old) p h =
      let olds = by_name old.containers [] in
      let news = by_name pod.containers [] in
      let pairs = changed same news olds in
      subst Keyed
        (sym (
          replace-store tunnel timers same (pod_key old) pod (map (λ x. x.0) pairs)
            (map (λ x. x.1) pairs ++ added olds news) p))
        (Keyed-insert pod p.store h)

  check_pending-store :
      (w : Pending) (r : PodResult) (p : Provider S)
      → (check_pending tunnel timers w r p).1.store ≡ p.store
  unfolding check_pending
  check_pending-store w (failed e) p =
      if-holds (λ (x : Bool × Provider S). x.1.store ≡ p.store) (is_not_found e) (λ h. refl)
        (λ h. refl)
  check_pending-store w (got pod) p =
      if-holds (λ (x : Bool × Provider S). x.1.store ≡ p.store)
        (all_stopped w.to_stop pod.status.container_statuses)
        (λ h. start-store tunnel timers (pod_key w.pod) w.to_start p) (λ h. refl)

  -- The operations of the provider, in any order.
  pub data Step : Provider S → Provider S → Type 0 where
    creates : (pod : Pod) (p : Provider S) → Step p (create_pod tunnel timers pod p)
    updates : (pod : Pod) (p : Provider S) → Step p (update_pod tunnel timers same pod p).1
    deletes : (pod : Pod) (p : Provider S) → Step p (delete_pod tunnel timers pod p)
    waits :
        (w : Pending) (r : PodResult) (p : Provider S)
        → Step p (check_pending tunnel timers w r p).1
    reports :
        (now : ℤ) (d : BizStatusData) (p p' : Provider S)
        → sync_biz_status_to_kube cache_get local_ip now d p ≡ some p'
        → Step p p'

  pub data Reach : Provider S → Provider S → Type 0 where
    here : (p : Provider S) → Reach p p
    next : {p q r : Provider S} → Reach p q → Step q r → Reach p r

  Step-Keyed : {p q : Provider S} → Step p q → Keyed p.store → Keyed q.store
  unfolding update_pod
  Step-Keyed (creates pod p) h =
      subst Keyed (sym (create-store tunnel timers pod p)) (Keyed-insert pod p.store h)
  Step-Keyed (updates pod p) h =
      if-holds (λ (x : Option Error × Provider S). Keyed x.1.store) (is_some pod.deletion_timestamp)
        (λ g. h) (λ g. update_stored-Keyed pod (lookup (pod_key pod) p.store) p h)
  Step-Keyed (deletes pod p) h =
      subst Keyed (sym (delete-store tunnel timers pod p)) (Keyed-delete (pod_key pod) p.store h)
  Step-Keyed (waits w r p) h = subst Keyed (sym (check_pending-store w r p)) h
  Step-Keyed (reports now d p p' e) h =
      let (q, e', g, _) = sync_biz-Fine cache_get local_ip now d p h in
      let eq : q ≡ p' = cc in subst (λ (x : Provider S). Keyed x.store) eq g

  -- In every interleaving of creations, updates, deletions, reports and checks of waiting containers,
  -- from an empty store, every pod stands under its own key.
  pub Reach-Keyed : {p q : Provider S} → Reach p q → p.store ≡ [] → Keyed q.store
  unfolding lookup
  Reach-Keyed (here p) e = subst Keyed (sym e) (λ k pod f. cc)
  Reach-Keyed (next r s) e = Step-Keyed s (Reach-Keyed r e)
