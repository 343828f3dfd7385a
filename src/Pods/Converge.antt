-- ===== src/Pods/Converge.antt =====
-- What `syncPodsFromKubernetesHandler` and `syncPodInProvider` of
-- virtual_kubelet/node/podcontroller.go do to the provider, and when they do nothing.
use virtual_kubelet.Common.{
  ◌≡◌, ◌⊎◌, inl, inr, refl, sym, subst, ap, Bool, true, false, ◌&&◌, not, Option, none, some,
  is_some, List, [], ◌∷◌, Text, All, Map, lookup, Error, is_not_found, if-holds, arith,
}
use virtual_kubelet.Kube.{Pod}
use virtual_kubelet.Keys.{parts, deletion_key, split_meta_namespace_key}
use virtual_kubelet.Pods.{
  KnownPod, PodResult, got, failed, Outside, Cmp, Call, create_call, update_call, delete_call,
  api_status, deletion_queued, api_delete, api_patch, sync_key, status_key, forget_key, World,
  Outcome, ok, panic, error, queueing, running, is_final, pods_equal, delete_known_pod,
}
use virtual_kubelet.Pods.Provider.{
  is_missing, failed_pod, handle_provider_error, after_provider, create_or_update_pod, delete_pod,
  queue_deletion, after_delete, after_sync, converge, mark_used, is_used, sync_known,
  sync_pod_in_provider, bring, delete_fetched, sync_found, sync_named,
  sync_pods_from_kubernetes_handler,
}

and_left : (a b : Bool) → (a && b) ≡ true → a ≡ true
and_left a b h = ground (arith, h)

module _ {S : Type 0} (o : Outside S) (cmp : Cmp) (key namespace name : Text) where
  -- Why a call may be made, by what the cache said and the provider had at the start: a pod is
  -- created if Kubernetes wants it and the provider has none, updated if the provider's differs,
  -- deleted if it is the one of the key that Kubernetes marks for deletion, or the one that the
  -- provider has under the key and Kubernetes has no more, and queued for deletion in Kubernetes if it
  -- is marked; a failed status is written only for a pod that is not marked.
  abbrev pub Justified : PodResult → S → Call → Type 0
  Justified found s (create_call q) =
      (found ≡ got q)
      × (is_some q.deletion_timestamp ≡ false)
      × (is_final q.status.phase ≡ false)
      × ((o.get_pod q.namespace q.name s).0 ≡ none)
  Justified found s (update_call q) =
      (found ≡ got q)
      × (is_some q.deletion_timestamp ≡ false)
      × (is_final q.status.phase ≡ false)
      × (there : Pod) × ((o.get_pod q.namespace q.name s).0 ≡ some there)
      × (pods_equal cmp there q ≡ false)
  Justified found s (delete_call q) =
      ((found ≡ got q) × (is_some q.deletion_timestamp ≡ true))
      ⊎ ((e : Error) × (found ≡ failed e)
          × (is_not_found e ≡ true)
          × (o.get_pod namespace name s ≡ (some q, none)))
  Justified found s (deletion_queued k delay) =
      (pod : Pod) × (found ≡ got pod)
      × (is_some pod.deletion_timestamp ≡ true)
      × (k ≡ deletion_key key pod.uid)
  Justified found s (api_status q) =
      (pod : Pod) × (e : Error) × (found ≡ got pod)
      × (is_some pod.deletion_timestamp ≡ false)
      × (q ≡ failed_pod o e pod)
  Justified found s (api_delete q grace uid) = ⊥
  Justified found s (api_patch new base) = ⊥
  Justified found s (sync_key k) = ⊥
  Justified found s (status_key k) = ⊥
  Justified found s (forget_key k) = ⊥

  module _ (found : PodResult) (s : S) where
    abbrev Good : List Call → Type 0
    Good calls = All (Justified found s) calls

    after_provider-Good :
        (pod : Pod) (e : Option Error) (w : World S)
        → found ≡ got pod
        → is_some pod.deletion_timestamp ≡ false
        → Good w.calls
        → Good (after_provider o pod e w).1.calls
    unfolding after_provider handle_provider_error
    after_provider-Good pod none w h g j = j
    after_provider-Good pod (some e) w h g j = ((pod, e, h, g, refl), j)

    queue_deletion-Good :
        (pod : Pod) (w : World S)
        → found ≡ got pod
        → is_some pod.deletion_timestamp ≡ true
        → Good w.calls
        → Good (queue_deletion o pod key w).1.calls
    unfolding queue_deletion
    queue_deletion-Good pod w h g j =
        elim pod.deletion_grace_period_seconds
          as (λ x.
            Good
              (elim x as (λ y. Outcome × World S) [
                | none ↦ (panic, w)
                | some seconds ↦
                    (ok, queueing (deletion_queued (deletion_key key pod.uid) (some seconds)) w)
              ]).1.calls) [ none ↦ j | some seconds ↦ ((pod, h, g, refl), j) ]

    after_delete-Good :
        (pod : Pod) (e : Option Error) (w : World S)
        → found ≡ got pod
        → is_some pod.deletion_timestamp ≡ true
        → Good w.calls
        → Good (after_delete o pod key e w).1.calls
    unfolding after_delete
    after_delete-Good pod none w h g j = queue_deletion-Good pod w h g j
    after_delete-Good pod (some e) w h g j =
        if-holds (λ (r : Outcome × World S). Good r.1.calls) (is_not_found e)
          (λ i. queue_deletion-Good pod w h g j) (λ i. j)

    after_sync-calls : (e : Option Error) (w : World S) → (after_sync o e w).1 ≡ w
    after_sync-calls none w = refl
    after_sync-calls (some e) w = refl

    mark_used-calls :
        (pod : Pod) (r : Outcome) (w : World S) → (mark_used o key pod r w).calls ≡ w.calls
    unfolding mark_used
    mark_used-calls pod ok w = ground arith
    mark_used-calls pod panic w = refl
    mark_used-calls pod (error e) w = refl

    bring-Good :
        (pod : Pod) (there : Option Pod) (w : World S)
        → found ≡ got pod
        → is_some pod.deletion_timestamp ≡ false
        → is_final pod.status.phase ≡ false
        → (o.get_pod pod.namespace pod.name s).0 ≡ there
        → Good w.calls
        → Good (bring o cmp pod there w).1.calls
    unfolding bring
    bring-Good pod none w h g i e j =
        let r = o.create_pod pod w.outside in
        after_provider-Good pod r.0
          (record { known = w.known; outside = r.1; calls = create_call pod ∷ w.calls }) h g
          ((h, g, i, e), j)
    bring-Good pod (some there) w h g i e j =
        let r = o.update_pod pod w.outside in
        if-holds (λ (x : Option Error × World S). Good x.1.calls) (pods_equal cmp there pod)
          (λ same. j)
          (λ differs.
            after_provider-Good pod r.0
              (record { known = w.known; outside = r.1; calls = update_call pod ∷ w.calls }) h g
              ((h, g, i, there, e, differs), j))

    converge-Good :
        (pod : Pod) (w : World S)
        → found ≡ got pod
        → w.outside ≡ s
        → Good w.calls
        → Good (converge o cmp pod key w).1.calls
    unfolding converge delete_pod create_or_update_pod
    converge-Good pod w h same j =
        let r = o.delete_pod pod w.outside in
        let there = (o.get_pod pod.namespace pod.name w.outside).0 in
        if-holds (λ (x : Outcome × World S). Good x.1.calls) (is_some pod.deletion_timestamp)
          (λ marked.
            after_delete-Good pod r.0
              (record { known = w.known; outside = r.1; calls = delete_call pod ∷ w.calls }) h
              marked (inl (h, marked), j))
          (λ wanted.
            if-holds (λ (x : Outcome × World S). Good x.1.calls) (is_final pod.status.phase)
              (λ final. j)
              (λ going.
                let b = bring o cmp pod there w in
                subst (λ (x : World S). Good x.calls) (sym (after_sync-calls b.0 b.1))
                  (bring-Good pod there w h wanted going
                    (ap (λ x. (o.get_pod pod.namespace pod.name x).0) (sym same)) j)))

    sync_known-Good :
        (pod : Pod) (k : Option KnownPod) (w : World S)
        → found ≡ got pod
        → w.outside ≡ s
        → Good w.calls
        → Good (sync_known o cmp pod key k w).1.calls
    unfolding sync_known
    sync_known-Good pod none w h same j = j
    sync_known-Good pod (some k) w h same j =
        let r = converge o cmp pod key w in
        if-holds (λ (x : Outcome × World S). Good x.1.calls) (is_used o cmp pod k.last_used)
          (λ used. j)
          (λ new. subst Good (sym (mark_used-calls pod r.0 r.1)) (converge-Good pod w h same j))

    sync_pod-Good :
        (pod : Pod) (w : World S)
        → found ≡ got pod
        → w.outside ≡ s
        → Good w.calls
        → Good (sync_pod_in_provider o cmp pod key w).1.calls
    unfolding sync_pod_in_provider
    sync_pod-Good pod w h same j =
        let down = not (running pod.status.container_statuses) in
        if-holds (λ (x : Outcome × World S). Good x.1.calls)
          (is_some pod.deletion_timestamp && down)
          (λ gone. ((pod, h, and_left (is_some pod.deletion_timestamp) down gone, refl), j))
          (λ up. sync_known-Good pod (lookup key w.known) w h same j)

    delete_fetched-Good :
        (e : Error) (e' : Option Error) (there : Option Pod) (w : World S)
        → found ≡ failed e
        → is_not_found e ≡ true
        → o.get_pod namespace name s ≡ (there, e')
        → Good w.calls
        → Good (delete_fetched o key e' there w).1.calls
    unfolding delete_fetched delete_known_pod
    delete_fetched-Good e (some e') there w h g has j =
        if-holds (λ (x : Outcome × World S). Good x.1.calls) (is_not_found e') (λ i. j) (λ i. j)
    delete_fetched-Good e none none w h g has j = j
    delete_fetched-Good e none (some pod) w h g has j =
        if-holds (λ (x : Outcome × World S). Good x.1.calls)
          (is_missing (o.delete_pod pod w.outside).0) (λ i. (inr (e, h, g, has), j))
          (λ i. (inr (e, h, g, has), j))

    sync_found-Good :
        (r : PodResult) (w : World S)
        → found ≡ r
        → w.outside ≡ s
        → Good w.calls
        → Good (sync_found o cmp key namespace name r w).1.calls
    unfolding sync_found
    sync_found-Good (got pod) w h same j = sync_pod-Good pod w h same j
    sync_found-Good (failed e) w h same j =
        let r = o.get_pod namespace name w.outside in
        if-holds (λ (x : Outcome × World S). Good x.1.calls) (is_not_found e)
          (λ absent.
            delete_fetched-Good e r.1 r.0 w h absent
              (ap (λ x. o.get_pod namespace name x) (sym same)) j)
          (λ other. j)

  -- For the key of a pod, every call that the handler makes is justified by what the cache says of the
  -- pod and the provider has of it: a pod is deleted only if it is the one that Kubernetes has and
  -- marks for deletion, or the one that the provider has under the key while Kubernetes has none, and
  -- none that Kubernetes does not have, or has in a final phase, is created or updated.
  pub sync_handler-Justified :
      (known : Map KnownPod) (s : S)
      → split_meta_namespace_key key ≡ parts namespace name
      → All
          (Justified (o.cache_get namespace name s) s)
          (sync_pods_from_kubernetes_handler o cmp key
            (record { known = known; outside = s; calls = [] })).1.calls
  unfolding sync_pods_from_kubernetes_handler
  sync_handler-Justified known s e =
      let found = o.cache_get namespace name s in
      rw (e, sync_named)
        (sync_found-Good found s found (record { known = known; outside = s; calls = [] }) refl refl
          tt)
