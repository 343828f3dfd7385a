-- ===== src/EndToEnd/Frame.antt =====
-- What the synchronisation of virtual_kubelet/node/podcontroller.go for one key leaves alone: the known
-- pods of other keys, and the cache of Kubernetes, if calls of the API server do not change that.
use virtual_kubelet.Common.{
  ℕ, ◌≡◌, ◌≢◌, refl, ◌∙◌, ap, Bool, Option, none, some, is_some, ◌&&◌, not, Text, lookup, insert,
  lookup-insert_ne, lookup-delete_ne, Error, is_not_found, if-holds, arith,
}
use virtual_kubelet.Kube.{Container, Pod}
use virtual_kubelet.Keys.{parts, bad_key, get_pod_key, split_meta_namespace_key}
use virtual_kubelet.Pods.{
  KnownPod, PodResult, got, failed, Outside, Cmp, World, Outcome, ok, panic, error, pods_equal,
  running, is_final, delete_known_pod, calling, update_call,
}
use virtual_kubelet.Pods.Provider.{
  after_provider, handle_provider_error, bring, create_or_update_pod, delete_pod, queue_deletion,
  after_delete, after_sync, converge, mark_used, is_used, sync_known, sync_pod_in_provider,
  delete_fetched, sync_found, sync_named, sync_pods_from_kubernetes_handler,
}
use virtual_kubelet.VPods.{Tunnel, pod_key, get_pod}
use virtual_kubelet.EndToEnd.{Cluster, Joint, outside}
use virtual_kubelet.EndToEnd.Stores.{joint, store_of}

-- A call that writes the status of a pod leaves the cache as it is.
abbrev pub IsStable : {K : Type 0} → Cluster K → Type 0
IsStable {K} cluster =
    (pod : Pod) (k : K) (namespace name : Text)
    → cluster.cache_get namespace name (cluster.update_status pod k).1
      ≡ cluster.cache_get namespace name k

module _ {S K : Type 0} (cluster : Cluster K) (key : Text) where
  -- The known pods of other keys and the cache stay.
  abbrev pub Frame : World (Joint S K) → World (Joint S K) → Type 0
  Frame w w' =
      ((j : Text) → key ≢ j → lookup j w'.known ≡ lookup j w.known)
      × ((namespace name : Text)
          → cluster.cache_get namespace name w'.outside.cluster
            ≡ cluster.cache_get namespace name w.outside.cluster)

  Frame-refl : (w : World (Joint S K)) → Frame w w
  Frame-refl w = (λ j n. refl, λ namespace name. refl)

  Frame-trans : (u v w : World (Joint S K)) → Frame u v → Frame v w → Frame u w
  Frame-trans u v w f g =
      (λ j n. g.0 j n ∙ f.0 j n, λ namespace name. g.1 namespace name ∙ f.1 namespace name)

  Frame-eq :
      (w w' : World (Joint S K))
      → w'.known ≡ w.known
      → w'.outside.cluster ≡ w.outside.cluster
      → Frame w w'
  Frame-eq w w' e e' =
      (λ j n. ap (lookup j) e, λ namespace name. ap (cluster.cache_get namespace name) e')

module _ {S K : Type 0} (cluster : Cluster K) (stable : IsStable cluster) (tunnel : Tunnel S)
    (timers : ℕ) (same : Container → Container → Bool) (cmp : Cmp) (key : Text) where
  abbrev o : Outside (Joint S K)
  o = joint cluster tunnel timers same cmp

  abbrev Keeps : World (Joint S K) → World (Joint S K) → Type 0
  Keeps = Frame cluster key

  provider-Keeps :
      (pod : Pod) (e : Option Error) (w : World (Joint S K)) → Keeps w (after_provider o pod e w).1
  unfolding after_provider handle_provider_error outside
  provider-Keeps pod none w = Frame-refl cluster key w
  provider-Keeps pod (some e) w =
      (λ j n. refl, λ namespace name. stable _ w.outside.cluster namespace name)

  bring-Keeps :
      (pod : Pod) (there : Option Pod) (w : World (Joint S K)) → Keeps w (bring o cmp pod there w).1
  unfolding bring outside after_provider
  bring-Keeps pod none w = Frame-eq cluster key w (bring o cmp pod none w).1 refl refl
  bring-Keeps pod (some there) w =
      let (e, w') = calling (update_call pod) (o.update_pod pod) w in
      if-holds (λ (r : Option Error × World (Joint S K)). Keeps w r.1) (pods_equal cmp there pod)
        (λ equal. Frame-refl cluster key w) (λ differs. provider-Keeps pod e w')

  queue-Keeps : (pod : Pod) (w : World (Joint S K)) → Keeps w (queue_deletion o pod key w).1
  unfolding queue_deletion
  queue-Keeps pod w =
      Frame-eq cluster key w (queue_deletion o pod key w).1 (ground arith) (ground arith)

  after_delete-Keeps :
      (pod : Pod) (e : Option Error) (w : World (Joint S K))
      → Keeps w (after_delete o pod key e w).1
  unfolding after_delete
  after_delete-Keeps pod none w = queue-Keeps pod w
  after_delete-Keeps pod (some e) w =
      if-holds (λ (r : Outcome × World (Joint S K)). Keeps w r.1) (is_not_found e)
        (λ gone. queue-Keeps pod w) (λ other. Frame-refl cluster key w)

  after_sync-Keeps : (e : Option Error) (w : World (Joint S K)) → Keeps w (after_sync o e w).1
  after_sync-Keeps none w = Frame-refl cluster key w
  after_sync-Keeps (some e) w = Frame-refl cluster key w

  converge-Keeps : (pod : Pod) (w : World (Joint S K)) → Keeps w (converge o cmp pod key w).1
  unfolding converge delete_pod create_or_update_pod outside get_pod
  converge-Keeps pod w =
      let P : Outcome × World (Joint S K) → Type 0 = λ r. Keeps w r.1 in
      if-holds P (is_some pod.deletion_timestamp)
        (λ marked. let (e, w') = delete_pod o pod w in after_delete-Keeps pod e w')
        (λ unmarked.
          if-holds P (is_final pod.status.phase) (λ final. Frame-refl cluster key w)
            (λ going.
              let there = lookup (pod_key pod) (store_of w) in
              let (e, w') = bring o cmp pod there w in
              Frame-trans cluster key w w' (after_sync o e w').1 (bring-Keeps pod there w)
                (after_sync-Keeps e w')))

  mark_used-Keeps :
      (pod : Pod) (r : Outcome) (w : World (Joint S K)) → Keeps w (mark_used o key pod r w)
  unfolding mark_used
  mark_used-Keeps pod ok w =
      let used : KnownPod → World (Joint S K) =
        λ k. record w { known = insert key (record k { last_used = some pod }) w.known } in
      elim (lookup key w.known)
        as (λ x. Keeps w (elim x as (λ y. World (Joint S K)) [ none ↦ w | some k ↦ used k ])) [
          | none ↦ Frame-refl cluster key w
          | some k ↦ (
            λ j n. lookup-insert_ne key j (record k { last_used = some pod }) w.known n,
            λ namespace name. refl,
          )
        ]
  mark_used-Keeps pod panic w = Frame-refl cluster key w
  mark_used-Keeps pod (error e) w = Frame-refl cluster key w

  known-Keeps :
      (pod : Pod) (known : Option KnownPod) (w : World (Joint S K))
      → Keeps w (sync_known o cmp pod key known w).1
  unfolding sync_known
  known-Keeps pod none w = Frame-refl cluster key w
  known-Keeps pod (some k) w =
      let (r, w') = converge o cmp pod key w in
      if-holds (λ (x : Outcome × World (Joint S K)). Keeps w x.1) (is_used o cmp pod k.last_used)
        (λ used. Frame-refl cluster key w)
        (λ new.
          Frame-trans cluster key w w' (mark_used o key pod r w') (converge-Keeps pod w)
            (mark_used-Keeps pod r w'))

  pod-Keeps : (pod : Pod) (w : World (Joint S K)) → Keeps w (sync_pod_in_provider o cmp pod key w).1
  unfolding sync_pod_in_provider
  pod-Keeps pod w =
      if-holds (λ (x : Outcome × World (Joint S K)). Keeps w x.1)
        (is_some pod.deletion_timestamp && not (running pod.status.container_statuses))
        (λ down. Frame-refl cluster key w) (λ up. known-Keeps pod (lookup key w.known) w)

  fetched-Keeps :
      (there : Option Pod) (w : World (Joint S K)) → Keeps w (delete_fetched o key none there w).1
  unfolding delete_fetched outside delete_known_pod
  fetched-Keeps none w = Frame-refl cluster key w
  fetched-Keeps (some pod) w = (λ j n. lookup-delete_ne key j w.known n, λ namespace name. refl)

  found-Keeps :
      (namespace name : Text) (answer : PodResult) (w : World (Joint S K))
      → Keeps w (sync_found o cmp key namespace name answer w).1
  unfolding sync_found outside get_pod
  found-Keeps namespace name (got pod) w = pod-Keeps pod w
  found-Keeps namespace name (failed x) w =
      if-holds (λ (r : Outcome × World (Joint S K)). Keeps w r.1) (is_not_found x)
        (λ gone. fetched-Keeps (lookup (get_pod_key namespace name) (store_of w)) w)
        (λ other. Frame-refl cluster key w)

  pub handler-Keeps :
      (w : World (Joint S K)) → Keeps w (sync_pods_from_kubernetes_handler o cmp key w).1
  unfolding sync_pods_from_kubernetes_handler sync_named outside
  handler-Keeps w =
      elim (split_meta_namespace_key key) as (λ x. Keeps w (sync_named o cmp key x w).1) [
        | bad_key e ↦ Frame-refl cluster key w
        | parts namespace name ↦
            found-Keeps namespace name (cluster.cache_get namespace name w.outside.cluster) w
      ]
