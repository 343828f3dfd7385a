-- ===== src/Pods/Settled.antt =====
-- When `syncPodInProvider` of virtual_kubelet/node/podcontroller.go is done with a version of a pod,
-- and when it tries again.
use virtual_kubelet.Common.{
  ◌≡◌, ◌≢◌, inl, inr, refl, sym, subst, ap, ◌∙◌, Bool, true, false, ◌&&◌, not, Option, none, some,
  is_some, [], Text, Bool-cases, lookup, lookup-insert_self, Error, is_not_found, if-holds, arith,
}
use virtual_kubelet.Kube.{Pod}
use virtual_kubelet.Pods.{
  KnownPod, Outside, Cmp, World, Outcome, ok, panic, error, running, is_final, pods_equal,
  pods_effectively_equal,
}
use virtual_kubelet.Pods.Provider.{
  handle_provider_error, after_provider, create_or_update_pod, delete_pod, queue_deletion,
  after_delete, after_sync, converge, mark_used, is_used, sync_known, sync_pod_in_provider, bring,
}

module _ {S : Type 0} (o : Outside S) (cmp : Cmp) where
  after_provider-known :
      (pod : Pod) (e : Option Error) (w : World S) → (after_provider o pod e w).1.known ≡ w.known
  unfolding after_provider handle_provider_error
  after_provider-known pod none w = refl
  after_provider-known pod (some e) w = refl

  bring-known :
      (pod : Pod) (there : Option Pod) (w : World S) → (bring o cmp pod there w).1.known ≡ w.known
  unfolding bring
  bring-known pod none w = after_provider-known pod _ _
  bring-known pod (some there) w =
      if-holds (λ (x : Option Error × World S). x.1.known ≡ w.known) (pods_equal cmp there pod)
        (λ i. refl) (λ i. after_provider-known pod _ _)

  queue_deletion-known :
      (pod : Pod) (key : Text) (w : World S) → (queue_deletion o pod key w).1.known ≡ w.known
  unfolding queue_deletion
  queue_deletion-known pod key w = ground arith

  after_delete-known :
      (pod : Pod) (key : Text) (e : Option Error) (w : World S)
      → (after_delete o pod key e w).1.known ≡ w.known
  unfolding after_delete
  after_delete-known pod key none w = queue_deletion-known pod key w
  after_delete-known pod key (some e) w =
      if-holds (λ (x : Outcome × World S). x.1.known ≡ w.known) (is_not_found e)
        (λ i. queue_deletion-known pod key w) (λ i. refl)

  after_sync-known : (e : Option Error) (w : World S) → (after_sync o e w).1.known ≡ w.known
  after_sync-known none w = refl
  after_sync-known (some e) w = refl

  converge-known :
      (pod : Pod) (key : Text) (w : World S) → (converge o cmp pod key w).1.known ≡ w.known
  unfolding converge delete_pod create_or_update_pod
  converge-known pod key w =
      let there = (o.get_pod pod.namespace pod.name w.outside).0 in
      let b = bring o cmp pod there w in
      if-holds (λ (x : Outcome × World S). x.1.known ≡ w.known) (is_some pod.deletion_timestamp)
        (λ i. after_delete-known pod key _ _)
        (λ i.
          if-holds (λ (x : Outcome × World S). x.1.known ≡ w.known) (is_final pod.status.phase)
            (λ j. refl) (λ j. after_sync-known b.0 b.1 ∙ bring-known pod there w))

  mark_used-lookup :
      (key : Text) (pod : Pod) (k : KnownPod) (w : World S)
      → lookup key w.known ≡ some k
      → lookup key (mark_used o key pod ok w).known ≡ some (record k { last_used = some pod })
  unfolding mark_used
  mark_used-lookup key pod k w e =
      rw (mark_used, e) (lookup-insert_self key (record k { last_used = some pod }) w.known)

  sync_known-used :
      (pod : Pod) (key : Text) (k : KnownPod) (w : World S)
      → is_used o cmp pod k.last_used ≡ true
      → sync_known o cmp pod key (some k) w ≡ (ok, w)
  unfolding sync_known
  sync_known-used pod key k w h = rw h

  -- What is done with a pod that is known, and new since the last successful sync.
  sync_known-new :
      (pod : Pod) (key : Text) (k : KnownPod) (w : World S)
      → is_used o cmp pod k.last_used ≡ false
      → let (r, w1) = converge o cmp pod key w in
        sync_known o cmp pod key (some k) w ≡ (r, mark_used o key pod r w1)
  unfolding sync_known
  sync_known-new pod key k w h = rw h

  -- After a result that is fine, the next sync of the same version does nothing.
  abbrev Done : Pod → Text → Outcome × World S → Type 0
  Done pod key x = x.0 ≡ ok → sync_known o cmp pod key (lookup key x.1.known) x.1 ≡ (ok, x.1)

  sync_known-at :
      (pod : Pod) (key : Text) (k : KnownPod) (w : World S)
      → lookup key w.known ≡ some k
      → is_used o cmp pod k.last_used ≡ true
      → sync_known o cmp pod key (lookup key w.known) w ≡ (ok, w)
  sync_known-at pod key k w e h =
      subst (λ x. sync_known o cmp pod key x w ≡ (ok, w)) (sym e) (sync_known-used pod key k w h)

  mark_used-Done :
      ((p : Pod) → cmp.pods p p ≡ true)
      → (pod : Pod) (key : Text) (k : KnownPod) (r : Outcome) (w : World S)
      → lookup key w.known ≡ some k
      → Done pod key (r, mark_used o key pod r w)
  unfolding is_used pods_effectively_equal
  mark_used-Done reflexive pod key k ok w e h =
      sync_known-at pod key (record k { last_used = some pod }) (mark_used o key pod ok w)
        (mark_used-lookup key pod k w e) (reflexive (record pod { resource_version = [] }))
  mark_used-Done reflexive pod key k panic w e h = cc
  mark_used-Done reflexive pod key k (error err) w e h = cc

  sync_known-Done :
      ((p : Pod) → cmp.pods p p ≡ true)
      → (pod : Pod) (key : Text) (k : Option KnownPod) (w : World S) → lookup key w.known ≡ k
      → Done pod key (sync_known o cmp pod key k w)
  unfolding sync_known
  sync_known-Done reflexive pod key none w e =
      λ h. subst (λ x. sync_known o cmp pod key x w ≡ (ok, w)) (sym e) refl
  sync_known-Done reflexive pod key (some k) w e =
      elim (Bool-cases (is_used o cmp pod k.last_used)) [
        | inl used ↦
            subst (Done pod key) (sym (sync_known-used pod key k w used))
              (λ h. sync_known-at pod key k w e used)
        | inr new ↦
            let c = converge o cmp pod key w in
            subst (Done pod key) (sym (sync_known-new pod key k w new)) (
              mark_used-Done reflexive pod key k c.0 c.1
                (ap (lookup key) (converge-known pod key w) ∙ e))
      ]

  abbrev pub is_down : Pod → Bool
  is_down pod = is_some pod.deletion_timestamp && not (running pod.status.container_statuses)

  sync_pod-up :
      (pod : Pod) (key : Text) (w : World S)
      → is_down pod ≡ false
      → sync_pod_in_provider o cmp pod key w ≡ sync_known o cmp pod key (lookup key w.known) w
  unfolding sync_pod_in_provider
  sync_pod-up pod key w h = rw h

  -- Once a pod that is not both marked for deletion and down has been synced without an error, syncing
  -- the same version of it again calls nothing and changes nothing, if `cmp.Equal` is reflexive.
  pub sync_pod_in_provider-settles :
      ((p : Pod) → cmp.pods p p ≡ true)
      → (pod : Pod) (key : Text) (w : World S) → is_down pod ≡ false
      → let (r, w') = sync_pod_in_provider o cmp pod key w in
        r ≡ ok → sync_pod_in_provider o cmp pod key w' ≡ (ok, w')
  sync_pod_in_provider-settles reflexive pod key w up h =
      let s = sync_pod_in_provider o cmp pod key w in
      sync_pod-up pod key s.1 up
      ∙ subst (Done pod key) (sym (sync_pod-up pod key w up))
          (sync_known-Done reflexive pod key (lookup key w.known) w refl) h

  mark_used-failed :
      (key : Text) (pod : Pod) (r : Outcome) (w : World S) → r ≢ ok → mark_used o key pod r w ≡ w
  unfolding mark_used
  mark_used-failed key pod ok w h = elim (h refl) [ ]
  mark_used-failed key pod panic w h = refl
  mark_used-failed key pod (error e) w h = refl

  sync_known-failed :
      (pod : Pod) (key : Text) (k : Option KnownPod) (w : World S)
      → let (r, w') = sync_known o cmp pod key k w in r ≢ ok → w'.known ≡ w.known
  unfolding sync_known
  sync_known-failed pod key none w = λ h. refl
  sync_known-failed pod key (some k) w =
      let c = converge o cmp pod key w in
      if-holds (λ (x : Outcome × World S). x.0 ≢ ok → x.1.known ≡ w.known)
        (is_used o cmp pod k.last_used) (λ used h. refl)
        (λ new h. ap (λ x. x.known) (mark_used-failed key pod c.0 c.1 h) ∙ converge-known pod key w)

  -- A sync that fails leaves the known pods as they are, so that the next one of the same version
  -- goes to the provider again.
  pub sync_pod_in_provider-retries :
      (pod : Pod) (key : Text) (w : World S)
      → let (r, w') = sync_pod_in_provider o cmp pod key w in r ≢ ok → w'.known ≡ w.known
  unfolding sync_pod_in_provider
  sync_pod_in_provider-retries pod key w =
      if-holds (λ (x : Outcome × World S). x.0 ≢ ok → x.1.known ≡ w.known) (is_down pod)
        (λ down h. refl) (λ up. sync_known-failed pod key (lookup key w.known) w)
