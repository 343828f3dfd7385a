-- ===== src/EndToEnd/Refine.antt =====
-- The synchronisation of virtual_kubelet/node/podcontroller.go over provider/vpod_provider.go refines
-- its abstract promise, key by key.
use virtual_kubelet.Common.{
  ℕ, ◌≡◌, refl, sym, ◌∙◌, subst, ap, Bool, true, false, Bool-cases, inl, inr, ◌&&◌, not, Option,
  none, some, is_some, Text, Map, lookup, delete, is_not_found, if◌then◌else◌, if-holds,
  if-holds_both, arith,
}
use virtual_kubelet.Kube.{Container, Pod}
use virtual_kubelet.Keys.{get_pod_key, parts, split_meta_namespace_key}
use virtual_kubelet.Pods.{
  KnownPod, PodResult, got, failed, Outside, Cmp, World, Outcome, running, is_final,
  delete_known_pod,
}
use virtual_kubelet.Pods.Provider.{
  bring, create_or_update_pod, delete_pod, after_delete, converge, is_used, sync_known,
  sync_pod_in_provider, delete_fetched, sync_found, sync_named, sync_pods_from_kubernetes_handler,
}
use virtual_kubelet.VPods.{Tunnel, pod_key, get_pod}
use virtual_kubelet.VPods.Store.{delete-store, Keyed}
use virtual_kubelet.EndToEnd.{Cluster, Joint, outside}
use virtual_kubelet.EndToEnd.Spec.{
  wanted, desired_version, desired, IsFor, Becomes, Becomes-by, Becomes-same, Becomes-delete,
}
use virtual_kubelet.EndToEnd.Stores.{
  joint, store_of, bring-Becomes, after_sync-store, after_delete-store, mark_used-store,
}

module _ {S K : Type 0} (cluster : Cluster K) (tunnel : Tunnel S) (timers : ℕ)
    (same : Container → Container → Bool) (cmp : Cmp) where
  abbrev o : Outside (Joint S K)
  o = joint cluster tunnel timers same cmp

  abbrev is_down : Pod → Bool
  is_down pod = is_some pod.deletion_timestamp && not (running pod.status.container_statuses)

  up-running :
      (pod : Pod)
      → is_down pod ≡ false
      → is_some pod.deletion_timestamp ≡ true
      → running pod.status.container_statuses ≡ true
  up-running pod up marked = ground arith

  converge-Becomes :
      (pod : Pod) (key : Text) (w : World (Joint S K))
      → is_down pod ≡ false
      → Becomes
          (pod_key pod)
          (desired_version cmp pod (lookup (pod_key pod) (store_of w)))
          (store_of w)
          (store_of (converge o cmp pod key w).1)
  unfolding converge delete_pod create_or_update_pod outside get_pod desired_version
  converge-Becomes pod key w up =
      let k = pod_key pod in
      let m = store_of w in
      let there = lookup k m in
      let P : Option Pod → Outcome × World (Joint S K) → Type 0 =
        λ d r. Becomes k d m (store_of r.1) in
      if-holds_both P (is_some pod.deletion_timestamp)
        (λ marked.
          subst
            (λ (b : Bool).
              P (if b then none else there)
                (let (e, w') = delete_pod o pod w in after_delete o pod key e w'))
            (sym (up-running pod up marked))
            (let (e, w') = delete_pod o pod w in
              Becomes-by k none m _ _
                (after_delete-store cluster tunnel timers same cmp pod key e w'
                  ∙ delete-store tunnel timers pod w.outside.provider)
                (Becomes-delete k m)))
        (λ unmarked.
          if-holds_both P (is_final pod.status.phase) (λ final. Becomes-same k m)
            (λ going.
              let (e, w') = bring o cmp pod there w in
              Becomes-by k (wanted cmp pod there) m _ _
                (after_sync-store cluster tunnel timers same cmp e w')
                (bring-Becomes cluster tunnel timers same cmp pod there w unmarked refl)))

  -- Whether the controller knows the pod, and has not brought this version of it to the provider.
  abbrev pub is_new : Option KnownPod → Pod → Bool
  is_new none pod = false
  is_new (some k) pod = if is_used o cmp pod k.last_used then false else true

  known-Becomes :
      (pod : Pod) (key : Text) (known : Option KnownPod) (w : World (Joint S K))
      → is_down pod ≡ false
      → Becomes
          (pod_key pod)
          (desired cmp (is_new known) (got pod) (lookup (pod_key pod) (store_of w)))
          (store_of w)
          (store_of (sync_known o cmp pod key known w).1)
  unfolding sync_known desired
  known-Becomes pod key none w up = Becomes-same (pod_key pod) (store_of w)
  known-Becomes pod key (some k) w up = elim (Bool-cases (is_used o cmp pod k.last_used)) [
    | inl used ↦ rw (used) (Becomes-same (pod_key pod) (store_of w))
    | inr new ↦
        let c = converge o cmp pod key w in
        rw (new) (
          Becomes-by (pod_key pod) _ (store_of w) _ _
            (mark_used-store cluster tunnel timers same cmp key pod c.0 c.1)
            (converge-Becomes pod key w up))
  ]

  down-desired :
      (pod : Pod) (new : Pod → Bool) (there : Option Pod)
      → is_down pod ≡ true
      → desired cmp new (got pod) there ≡ there
  unfolding desired desired_version
  down-desired pod new there down = ground arith

  pod-Becomes :
      (pod : Pod) (key : Text) (w : World (Joint S K))
      → Becomes
          (pod_key pod)
          (desired cmp (is_new (lookup key w.known)) (got pod) (lookup (pod_key pod) (store_of w)))
          (store_of w)
          (store_of (sync_pod_in_provider o cmp pod key w).1)
  unfolding sync_pod_in_provider
  pod-Becomes pod key w =
      let k = pod_key pod in
      let m = store_of w in
      let new = is_new (lookup key w.known) in
      if-holds
        (λ (r : Outcome × World (Joint S K)).
          Becomes k (desired cmp new (got pod) (lookup k m)) m (store_of r.1))
        (is_down pod)
        (λ down.
          subst (λ d. Becomes k d m m) (sym (down-desired pod new (lookup k m) down))
            (Becomes-same k m))
        (λ up. known-Becomes pod key (lookup key w.known) w up)

  -- A stored pod without the one in Kubernetes.
  fetched-Becomes :
      (key : Text) (there : Option Pod) (w : World (Joint S K))
      → Keyed (store_of w)
      → lookup key (store_of w) ≡ there
      → Becomes key none (store_of w) (store_of (delete_fetched o key none there w).1)
  unfolding delete_fetched outside delete_known_pod
  fetched-Becomes key none w keyed e =
      subst (λ d. Becomes key d (store_of w) (store_of w)) e (Becomes-same key (store_of w))
  fetched-Becomes key (some pod) w keyed e =
      Becomes-by key none (store_of w) _ _
        (delete-store tunnel timers pod w.outside.provider
          ∙ ap (λ k. delete k (store_of w)) (keyed key pod e))
        (Becomes-delete key (store_of w))

  found-Becomes :
      (key namespace name : Text) (answer : PodResult) (w : World (Joint S K))
      → Keyed (store_of w)
      → get_pod_key namespace name ≡ key
      → IsFor key answer
      → Becomes key
          (desired cmp (is_new (lookup key w.known)) answer (lookup key (store_of w)))
          (store_of w)
          (store_of (sync_found o cmp key namespace name answer w).1)
  unfolding sync_found desired outside get_pod
  found-Becomes key namespace name (got pod) w keyed e h =
      subst
        (λ k.
          Becomes k (desired cmp (is_new (lookup key w.known)) (got pod) (lookup k (store_of w)))
            (store_of w) (store_of (sync_pod_in_provider o cmp pod key w).1))
        h (pod-Becomes pod key w)
  found-Becomes key namespace name (failed x) w keyed e h =
      let m = store_of w in
      if-holds_both
        (λ (d : Option Pod) (r : Outcome × World (Joint S K)). Becomes key d m (store_of r.1))
        (is_not_found x)
        (λ gone.
          fetched-Becomes key (lookup (get_pod_key namespace name) m) w keyed
            (ap (λ k. lookup k m) (sym e)))
        (λ other. Becomes-same key m)

  -- The pod that is desired under a key has that key.
  desired-key :
      (key : Text) (new : Pod → Bool) (answer : PodResult) (there : Option Pod) (pod : Pod)
      → IsFor key answer
      → ((q : Pod) → there ≡ some q → pod_key q ≡ key)
      → desired cmp new answer there ≡ some pod
      → pod_key pod ≡ key
  unfolding desired desired_version wanted
  desired-key key new (got p) none pod h g e = ground arith
  desired-key key new (got p) (some q) pod h g e = let k = g q refl in ground arith
  desired-key key new (failed x) none pod h g e = ground arith
  desired-key key new (failed x) (some q) pod h g e = let k = g q refl in ground arith

  Becomes-Keyed :
      (key : Text) (entry : Option Pod) (m m' : Map Pod)
      → Keyed m
      → ((pod : Pod) → entry ≡ some pod → pod_key pod ≡ key)
      → Becomes key entry m m'
      → Keyed m'
  Becomes-Keyed key entry m m' keyed h b j pod e = ground (arith, b j, h pod, keyed j pod)

  -- One run of the handler for a key brings the provider's pod of that key, and of no other, to what
  -- is desired of the pod that Kubernetes has, and keeps every pod under its own key, if the cache
  -- answers with the pod that it is asked for.
  pub handler-refines :
      (key namespace name : Text) (w : World (Joint S K))
      → Keyed (store_of w)
      → split_meta_namespace_key key ≡ parts namespace name
      → get_pod_key namespace name ≡ key
      → IsFor key (cluster.cache_get namespace name w.outside.cluster)
      → let answer = cluster.cache_get namespace name w.outside.cluster in
        let (r, w') = sync_pods_from_kubernetes_handler o cmp key w in
        Becomes key
          (desired cmp (is_new (lookup key w.known)) answer (lookup key (store_of w)))
          (store_of w)
          (store_of w')
        × Keyed (store_of w')
  unfolding sync_pods_from_kubernetes_handler sync_named outside
  handler-refines key namespace name w keyed split e h =
      let answer = cluster.cache_get namespace name w.outside.cluster in
      let new = is_new (lookup key w.known) in
      let b = found-Becomes key namespace name answer w keyed e h in
      let keyed' =
        Becomes-Keyed key (desired cmp new answer (lookup key (store_of w))) (store_of w) _ keyed
          (λ pod. desired-key key new answer (lookup key (store_of w)) pod h (keyed key)) b in
      rw split (b, keyed')
