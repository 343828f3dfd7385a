-- ===== src/Pods/Acts.antt =====
-- Which calls `syncPodInProvider` of virtual_kubelet/node/podcontroller.go makes for a version of a
-- pod that it has not synced yet.
use virtual_kubelet.Common.{
  ◌≡◌, refl, ap, ◌∙◌, false, Option, none, some, is_some, List, ◌∷◌, ℤ, Bool-cases, inl, inr, Text,
  lookup, Error, is_not_found, if◌then◌else◌, arith,
}
use virtual_kubelet.Kube.{Pod}
use virtual_kubelet.Keys.{deletion_key}
use virtual_kubelet.Pods.{
  KnownPod, Outside, Cmp, Call, create_call, update_call, delete_call, api_status, deletion_queued,
  World, Outcome, ok, panic, error, is_final, pods_equal, queueing,
}
use virtual_kubelet.Pods.Provider.{
  failed_pod, handle_provider_error, after_provider, create_or_update_pod, delete_pod,
  queue_deletion, after_delete, after_sync, converge, mark_used, is_used, sync_known,
  sync_pod_in_provider, bring,
}
use virtual_kubelet.Pods.Settled.{is_down}

module _ {S : Type 0} (o : Outside S) (cmp : Cmp) (pod : Pod) (key : Text) (w : World S) where
  -- A call to the provider, and the report of its failure.
  abbrev pub with_report : Call → Option Error → List Call
  with_report c none = c ∷ w.calls
  with_report c (some e) = api_status (failed_pod o e pod) ∷ c ∷ w.calls

  -- A pod that is wanted: created if the provider has none, updated if it has another.
  abbrev pub wanted_calls : Option Pod → List Call
  wanted_calls none = with_report (create_call pod) (o.create_pod pod w.outside).0
  wanted_calls (some there) =
      if pods_equal cmp there pod
      then w.calls
      else with_report (update_call pod) (o.update_pod pod w.outside).0

  abbrev pub with_deletion : Option ℤ → List Call
  with_deletion none = delete_call pod ∷ w.calls
  with_deletion (some grace) =
      deletion_queued (deletion_key key pod.uid) (some grace) ∷ delete_call pod ∷ w.calls

  -- A pod marked for deletion: deleted in the provider, and then, unless that fails otherwise than by
  -- not finding it, queued for its deletion in Kubernetes after the grace period.
  abbrev pub marked_calls : Option Error → List Call
  marked_calls none = with_deletion pod.deletion_grace_period_seconds
  marked_calls (some e) =
      if is_not_found e
      then with_deletion pod.deletion_grace_period_seconds
      else delete_call pod ∷ w.calls

  abbrev pub expected_calls : List Call
  expected_calls =
      if is_some pod.deletion_timestamp
      then marked_calls (o.delete_pod pod w.outside).0
      else if is_final pod.status.phase
      then w.calls
      else wanted_calls (o.get_pod pod.namespace pod.name w.outside).0

  after_provider-calls :
      (c : Call) (e : Option Error) (w' : World S)
      → w'.calls ≡ c ∷ w.calls
      → (after_provider o pod e w').1.calls ≡ with_report c e
  unfolding after_provider handle_provider_error
  after_provider-calls c none w' h = h
  after_provider-calls c (some e) w' h = ap (λ calls. api_status (failed_pod o e pod) ∷ calls) h

  bring-calls : (there : Option Pod) → (bring o cmp pod there w).1.calls ≡ wanted_calls there
  unfolding bring
  bring-calls none = after_provider-calls (create_call pod) _ _ refl
  bring-calls (some there) = elim (Bool-cases (pods_equal cmp there pod)) [
    | inl same ↦ rw (bring, same) refl
    | inr differs ↦ rw (bring, differs) (after_provider-calls (update_call pod) _ _ refl)
  ]

  after_sync-calls : (e : Option Error) (w' : World S) → (after_sync o e w').1.calls ≡ w'.calls
  after_sync-calls none w' = refl
  after_sync-calls (some e) w' = refl

  queue_deletion-calls :
      (w' : World S)
      → w'.calls ≡ delete_call pod ∷ w.calls
      → (queue_deletion o pod key w').1.calls ≡ with_deletion pod.deletion_grace_period_seconds
  unfolding queue_deletion
  queue_deletion-calls w' h =
      elim pod.deletion_grace_period_seconds
        as (λ x.
          (elim x as (λ y. Outcome × World S) [
            | none ↦ (panic, w')
            | some seconds ↦
                (ok, queueing (deletion_queued (deletion_key key pod.uid) (some seconds)) w')
          ]).1.calls
          ≡ with_deletion x) [
            | none ↦ h
            | some grace ↦
                ap (λ calls. deletion_queued (deletion_key key pod.uid) (some grace) ∷ calls) h
          ]

  after_delete-calls :
      (e : Option Error) (w' : World S)
      → w'.calls ≡ delete_call pod ∷ w.calls
      → (after_delete o pod key e w').1.calls ≡ marked_calls e
  unfolding after_delete
  after_delete-calls none w' h = queue_deletion-calls w' h
  after_delete-calls (some e) w' h = elim (Bool-cases (is_not_found e)) [
    | inl gone ↦ rw (after_delete, gone) (queue_deletion-calls w' h)
    | inr other ↦ rw (after_delete, other) h
  ]

  converge-calls : (converge o cmp pod key w).1.calls ≡ expected_calls
  unfolding converge delete_pod create_or_update_pod
  converge-calls = elim (Bool-cases (is_some pod.deletion_timestamp)) [
    | inl marked ↦ rw (converge, marked) (after_delete-calls _ _ refl)
    | inr wanted ↦ elim (Bool-cases (is_final pod.status.phase)) [
      | inl final ↦ rw (converge, wanted, final) refl
      | inr going ↦
          let there = (o.get_pod pod.namespace pod.name w.outside).0 in
          rw (converge, wanted, going) (after_sync-calls _ _ ∙ bring-calls there)
    ]
  ]

  mark_used-calls : (r : Outcome) (w' : World S) → (mark_used o key pod r w').calls ≡ w'.calls
  unfolding mark_used
  mark_used-calls ok w' = ground arith
  mark_used-calls panic w' = refl
  mark_used-calls (error e) w' = refl

  -- For a known pod in a version that was not synced yet, and that is not both marked for deletion and
  -- down, the calls are exactly the expected ones.
  pub sync_pod_in_provider-acts :
      (k : KnownPod)
      → lookup key w.known ≡ some k
      → is_used o cmp pod k.last_used ≡ false
      → is_down o cmp pod ≡ false
      → (sync_pod_in_provider o cmp pod key w).1.calls ≡ expected_calls
  unfolding sync_pod_in_provider sync_known
  sync_pod_in_provider-acts k e new up =
      let c = converge o cmp pod key w in
      rw (sync_pod_in_provider, up, e, sync_known, new) (mark_used-calls c.0 c.1 ∙ converge-calls)
