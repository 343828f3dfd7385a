-- ===== src/Pods/Status.antt =====
-- How the pod controller reports the provider's statuses to Kubernetes: `updatePodStatus`,
-- `enqueuePodStatusUpdate` and `syncPodStatusFromProviderHandler` of virtual_kubelet/node/pod.go,
-- `CheckAndUpdatePodStatus` of podcontroller.go.
use virtual_kubelet.Common.{
  ℕ, zero, suc, Bool, true, false, ◌&&◌, ◌||◌, not, Option, none, some, is_some, ℤ, pos, Text, text,
  Map, lookup, insert, Error, wrapped, is_not_found, if◌then◌else◌, ltb_ℤ,
}
use virtual_kubelet.Kube.{Pod}
use virtual_kubelet.Keys.{parts, bad_key}
use virtual_kubelet.Pods.{
  KnownPod, got, failed, Outside, Cmp, api_delete, api_patch, status_key, World, Outcome, ok, error,
  calling, queueing, should_skip_pod_status_update,
}

module _ {S : Type 0} (o : Outside S) where
  abbrev pub fails : Option Error → Bool
  fails none = false
  fails (some e) = not (is_not_found e)

  abbrev pub report_error : Text → Option Error → Outcome
  report_error m none = ok
  report_error m (some e) = if is_not_found e then ok else error (wrapped m e)

  -- No grace period is left once the provider's deletion time has passed.
  unfoldable pub grace_period : ℤ → ℤ → Pod → Option ℤ
  grace_period now deleted theirs =
      if ltb_ℤ deleted now then some (pos 0) else theirs.deletion_grace_period_seconds

  unfoldable pub patch_status : Pod → Pod → World S → Outcome × World S
  patch_status ours theirs w =
      let new = record ours { status = theirs.status } in
      let (e, w') = calling (api_patch new ours) (o.patch_status new ours) w in
      (report_error (text "error while updating pod status in kubernetes") e, w')

  -- The pod of the provider is marked for deletion, that of Kubernetes is not.
  unfoldable pub delete_then_patch : Cmp → ℤ → ℤ → Pod → Pod → World S → Outcome × World S
  unfolding grace_period patch_status
  delete_then_patch cmp now deleted ours theirs w =
      let grace = grace_period now deleted theirs in
      let (e, w') = calling (api_delete ours grace none) (o.client_delete ours grace none) w in
      if cmp.statuses ours.status theirs.status
      then if fails e
        then (report_error (text "error while delete pod in kubernetes") e, w')
        else patch_status ours theirs w'
      else patch_status ours theirs w

  -- By the deletion time of the provider's pod.
  unfoldable pub report : Cmp → ℤ → Pod → Pod → Option ℤ → World S → Outcome × World S
  unfolding delete_then_patch
  report cmp now ours theirs none w = patch_status ours theirs w
  report cmp now ours theirs (some deleted) w =
      if is_some ours.deletion_timestamp
      then patch_status ours theirs w
      else delete_then_patch cmp now deleted ours theirs w

  unfoldable pub update_known : Cmp → ℤ → Pod → Option KnownPod → World S → Outcome × World S
  unfolding report
  update_known cmp now ours none w = (ok, w)
  update_known cmp now ours (some k) w =
      report cmp now ours k.from_provider k.from_provider.deletion_timestamp w

  unfoldable pub update_pod_status : Cmp → ℤ → Pod → Text → World S → Outcome × World S
  unfolding update_known should_skip_pod_status_update
  update_pod_status cmp now ours key w =
      if should_skip_pod_status_update ours
      then (ok, w)
      else update_known cmp now ours (lookup key w.known) w

  unfoldable pub sync_pod_status_from_provider_handler :
      Cmp → ℤ → Text → World S → Outcome × World S
  unfolding update_pod_status
  sync_pod_status_from_provider_handler cmp now key w = elim (o.split_key key) [
    | bad_key e ↦ (error (wrapped (text "error splitting cache key") e), w)
    | parts namespace name ↦ elim (o.client_get namespace name w.outside) [
      | got pod ↦ update_pod_status cmp now pod key w
      | failed e ↦
          if is_not_found e then (ok, w) else (error (wrapped (text "error looking up pod") e), w)
    ]
  ]

  -- The last part of `enqueuePodStatusUpdate`.
  unfoldable pub receive_status : Cmp → Text → KnownPod → Pod → World S → World S
  receive_status cmp key k pod w =
      if cmp.pods k.from_provider pod
      then record w { known = insert key (record k { update_skipped = true }) w.known }
      else queueing (status_key key) (record w {
        known = insert key (record k { from_provider = pod; update_skipped = false }) w.known;
      })

  -- `polls` is how many times the known pods are looked up before the context ends; before each
  -- further one, other goroutines change them by `others`. A poll that does not find the key reads
  -- the pod of the cache into the very variable that holds the provider's.
  unfoldable pub enqueue_pod_status_update :
      ℕ → (ℕ → Map KnownPod → Map KnownPod) → Cmp → Text → Pod → World S → World S
  unfolding receive_status
  enqueue_pod_status_update zero others cmp key pod w = w
  enqueue_pod_status_update (suc polls) others cmp key pod w = elim (lookup key w.known) [
    | some k ↦ receive_status cmp key k pod w
    | none ↦ elim (o.cache_get pod.namespace pod.name w.outside) [
      | failed e ↦ w
      | got cached ↦
          enqueue_pod_status_update polls others cmp key cached
            (record w { known = others polls w.known })
    ]
  ]

  -- `none` is the panic on an unknown pod.
  unfoldable pub check_and_update_pod_status : Cmp → Text → Pod → World S → Option (World S)
  check_and_update_pod_status cmp key new w = elim (lookup key w.known) [
    | none ↦ none
    | some k ↦
        let differs =
          not (cmp.statuses new.status k.from_provider.status)
          || not (cmp.maps new.annotations k.from_provider.annotations)
          || not (cmp.maps new.labels k.from_provider.labels)
          || not (cmp.texts new.finalizers k.from_provider.finalizers) in
        if k.update_skipped && differs
        then some (
            queueing (status_key key)
              (record w { known = insert key (record k { update_skipped = false }) w.known }))
        else some w
  ]
