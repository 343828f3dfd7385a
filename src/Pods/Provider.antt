-- ===== src/Pods/Provider.antt =====
-- How the pod controller brings the provider in line with Kubernetes: `createOrUpdatePod`,
-- `handleProviderError` and `deletePod` of virtual_kubelet/node/pod.go, `syncPodInProvider`,
-- `syncPodsFromKubernetesHandler` and `deleteDanglingPods` of podcontroller.go.
use virtual_kubelet.Common.{
  Bool, false, ◌&&◌, not, Option, none, some, is_some, [], Text, text, lookup, insert, Error,
  wrapped, is_not_found, if◌then◌else◌,
}
use virtual_kubelet.Kube.{pending, failed as phase_failed, never, RestartPolicy, Phase, Pod}
use virtual_kubelet.Keys.{KeyResult, parts, bad_key, deletion_key, split_meta_namespace_key}
use virtual_kubelet.Pods.{
  KnownPod, PodResult, got, failed, Outside, Cmp, create_call, update_call, delete_call, api_status,
  deletion_queued, World, Outcome, ok, panic, error, calling, queueing, running, is_final,
  pods_equal, pods_effectively_equal, delete_known_pod,
}

abbrev pub failure_phase : RestartPolicy → Phase
failure_phase never = phase_failed
failure_phase _ = pending

abbrev pub is_missing : Option Error → Bool
is_missing none = false
is_missing (some e) = is_not_found e

module _ {S : Type 0} (o : Outside S) where
  unfoldable pub failed_pod : Error → Pod → Pod
  failed_pod e pod = record pod {
    resource_version = [];
    status = record pod.status {
      phase = failure_phase pod.restart_policy;
      reason = text "ProviderFailed";
      message = o.error_text e;
    };
  }

  -- The error of the status update is only logged.
  unfoldable pub handle_provider_error : Error → Pod → World S → World S
  unfolding failed_pod
  handle_provider_error e pod w =
      (calling (api_status (failed_pod e pod)) (o.update_status (failed_pod e pod)) w).1

  unfoldable pub after_provider : Pod → Option Error → World S → Option Error × World S
  unfolding handle_provider_error
  after_provider pod none w = (none, w)
  after_provider pod (some e) w = (some e, handle_provider_error e pod w)

  unfoldable pub bring : Cmp → Pod → Option Pod → World S → Option Error × World S
  unfolding after_provider pods_equal
  bring cmp pod none w =
      let (e, w') = calling (create_call pod) (o.create_pod pod) w in after_provider pod e w'
  bring cmp pod (some there) w =
      let (e, w') = calling (update_call pod) (o.update_pod pod) w in
      if pods_equal cmp there pod then (none, w) else after_provider pod e w'

  -- The error of `GetPod` is ignored.
  unfoldable pub create_or_update_pod : Cmp → Pod → World S → Option Error × World S
  unfolding bring
  create_or_update_pod cmp pod w = bring cmp pod (o.get_pod pod.namespace pod.name w.outside).0 w

  unfoldable pub delete_pod : Pod → World S → Option Error × World S
  delete_pod pod w = calling (delete_call pod) (o.delete_pod pod) w

  -- The grace period is read without a nil check.
  unfoldable pub queue_deletion : Pod → Text → World S → Outcome × World S
  unfolding deletion_key
  queue_deletion pod key w = elim pod.deletion_grace_period_seconds [
    | none ↦ (panic, w)
    | some seconds ↦ (ok, queueing (deletion_queued (deletion_key key pod.uid) (some seconds)) w)
  ]

  unfoldable pub after_delete : Pod → Text → Option Error → World S → Outcome × World S
  unfolding queue_deletion
  after_delete pod key none w = queue_deletion pod key w
  after_delete pod key (some e) w =
      if is_not_found e
      then queue_deletion pod key w
      else (error (wrapped (text "failed to delete pod in the provider") e), w)

  abbrev pub after_sync : Option Error → World S → Outcome × World S
  after_sync none w = (ok, w)
  after_sync (some e) w = (error (wrapped (text "failed to sync pod in the provider") e), w)

  -- What is done for a pod that has changed since it was last used.
  unfoldable pub converge : Cmp → Pod → Text → World S → Outcome × World S
  unfolding delete_pod after_delete create_or_update_pod
  converge cmp pod key w =
      if is_some pod.deletion_timestamp
      then (let (e, w') = delete_pod pod w in after_delete pod key e w')
      else if is_final pod.status.phase
      then (ok, w)
      else let (e, w') = create_or_update_pod cmp pod w in after_sync e w'

  -- The deferred assignment of `lastPodUsed`.
  unfoldable pub mark_used : Text → Pod → Outcome → World S → World S
  mark_used key pod ok w = elim (lookup key w.known) [
    | none ↦ w
    | some k ↦ record w { known = insert key (record k { last_used = some pod }) w.known }
  ]
  mark_used key pod _ w = w

  unfoldable pub is_used : Cmp → Pod → Option Pod → Bool
  unfolding pods_effectively_equal
  is_used cmp pod none = false
  is_used cmp pod (some used) = pods_effectively_equal cmp used pod

  unfoldable pub sync_known : Cmp → Pod → Text → Option KnownPod → World S → Outcome × World S
  unfolding converge mark_used is_used
  sync_known cmp pod key none w = (ok, w)
  sync_known cmp pod key (some k) w =
      let (r, w') = converge cmp pod key w in
      if is_used cmp pod k.last_used then (ok, w) else (r, mark_used key pod r w')

  unfoldable pub sync_pod_in_provider : Cmp → Pod → Text → World S → Outcome × World S
  unfolding sync_known running deletion_key
  sync_pod_in_provider cmp pod key w =
      if is_some pod.deletion_timestamp && not (running pod.status.container_statuses)
      then (ok, queueing (deletion_queued (deletion_key key pod.uid) none) w)
      else sync_known cmp pod key (lookup key w.known) w

  abbrev pub outcome_of_delete : Option Error → Outcome
  outcome_of_delete none = ok
  outcome_of_delete (some e) = error (wrapped (text "failed to delete pod in the provider") e)

  unfoldable pub delete_fetched : Text → Option Error → Option Pod → World S → Outcome × World S
  unfolding delete_known_pod
  delete_fetched key (some e) there w =
      if is_not_found e
      then (ok, w)
      else (error (wrapped (text "failed to fetch pod from provider") e), w)
  delete_fetched key none none w = (ok, w)
  delete_fetched key none (some pod) w =
      let (e, w') = calling (delete_call pod) (o.delete_pod pod) w in
      if is_missing e then (ok, w') else (outcome_of_delete e, delete_known_pod key w')

  -- A pod that Kubernetes does not have any more is deleted in the provider.
  unfoldable pub sync_found : Cmp → Text → Text → Text → PodResult → World S → Outcome × World S
  unfolding delete_fetched sync_pod_in_provider
  sync_found cmp key namespace name (got pod) w = sync_pod_in_provider cmp pod key w
  sync_found cmp key namespace name (failed e) w =
      let (there, e') = o.get_pod namespace name w.outside in
      if is_not_found e
      then delete_fetched key e' there w
      else (error (wrapped (text "failed to fetch pod from lister") e), w)

  unfoldable pub sync_named : Cmp → Text → KeyResult → World S → Outcome × World S
  unfolding sync_found
  sync_named cmp key (bad_key e) w = (ok, w)
  sync_named cmp key (parts namespace name) w =
      sync_found cmp key namespace name (o.cache_get namespace name w.outside) w

  unfoldable pub sync_pods_from_kubernetes_handler : Cmp → Text → World S → Outcome × World S
  unfolding split_meta_namespace_key sync_named
  sync_pods_from_kubernetes_handler cmp key w = sync_named cmp key (split_meta_namespace_key key) w
