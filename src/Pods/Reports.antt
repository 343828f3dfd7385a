-- ===== src/Pods/Reports.antt =====
-- What reaches Kubernetes of the statuses that the provider reports (virtual_kubelet/node/pod.go).
use virtual_kubelet.Common.{
  ℕ, suc, ◌≡◌, inl, inr, refl, sym, subst, ap, ◌∙◌, true, false, Option, none, some, is_some, [],
  ◌∷◌, ℤ, Text, All, Bool-cases, Map, lookup, lookup-insert_self, if◌then◌else◌, if-holds,
}
use virtual_kubelet.Kube.{Pod}
use virtual_kubelet.Pods.{
  KnownPod, got, Outside, Cmp, Call, api_delete, api_patch, status_key, World, Outcome, is_final,
  should_skip_pod_status_update,
}
use virtual_kubelet.Pods.Status.{
  fails, grace_period, patch_status, delete_then_patch, report, update_known, update_pod_status,
  receive_status, enqueue_pod_status_update,
}

module _ {S : Type 0} (o : Outside S) (cmp : Cmp) where
  -- Only these calls are made for a pod: a patch that gives it, unfinished, the provider's status and
  -- changes nothing else, and a deletion if the provider's pod is marked for it, the pod itself is
  -- not, and the two have the same status.
  abbrev pub Reported : Pod → Option Pod → Call → Type 0
  Reported ours theirs (api_patch new base) =
      (base ≡ ours)
      × (is_final ours.status.phase ≡ false)
      × (known : Pod) × (theirs ≡ some known)
      × (new ≡ record ours { status = known.status })
  Reported ours theirs (api_delete q grace uid) =
      (q ≡ ours)
      × (is_final ours.status.phase ≡ false)
      × (is_some ours.deletion_timestamp ≡ false)
      × (known : Pod) × (theirs ≡ some known)
      × (is_some known.deletion_timestamp ≡ true)
      × (cmp.statuses ours.status known.status ≡ true)
  Reported ours theirs _ = ⊥

  abbrev Good : Pod → Option Pod → Outcome × World S → Type 0
  Good ours theirs x = All (Reported ours theirs) x.1.calls

  delete_then_patch-Good :
      (now deleted : ℤ) (ours known : Pod) (w : World S)
      → is_final ours.status.phase ≡ false
      → is_some ours.deletion_timestamp ≡ false
      → is_some known.deletion_timestamp ≡ true
      → All (Reported ours (some known)) w.calls
      → Good ours (some known) (delete_then_patch o cmp now deleted ours known w)
  unfolding delete_then_patch patch_status
  delete_then_patch-Good now deleted ours known w h g i j =
      if-holds (Good ours (some known)) (cmp.statuses ours.status known.status)
        (λ same.
          if-holds (Good ours (some known))
            (fails o (o.client_delete ours (grace_period o now deleted known) none w.outside).0)
            (λ f. ((refl, h, g, known, refl, i, same), j))
            (λ f. ((refl, h, known, refl, refl), ((refl, h, g, known, refl, i, same), j))))
        (λ differs. ((refl, h, known, refl, refl), j))

  report-Good :
      (now : ℤ) (ours known : Pod) (deleted : Option ℤ) (w : World S)
      → known.deletion_timestamp ≡ deleted
      → is_final ours.status.phase ≡ false
      → All (Reported ours (some known)) w.calls
      → Good ours (some known) (report o cmp now ours known deleted w)
  unfolding report patch_status
  report-Good now ours known none w e h j = ((refl, h, known, refl, refl), j)
  report-Good now ours known (some deleted) w e h j =
      if-holds (Good ours (some known)) (is_some ours.deletion_timestamp)
        (λ marked. ((refl, h, known, refl, refl), j))
        (λ free. delete_then_patch-Good now deleted ours known w h free (ap is_some e) j)

  abbrev pub known_pod : Option KnownPod → Option Pod
  known_pod none = none
  known_pod (some k) = some k.from_provider

  update_known-Good :
      (now : ℤ) (ours : Pod) (k : Option KnownPod) (w : World S)
      → is_final ours.status.phase ≡ false
      → All (Reported ours (known_pod k)) w.calls
      → Good ours (known_pod k) (update_known o cmp now ours k w)
  unfolding update_known
  update_known-Good now ours none w h j = j
  update_known-Good now ours (some k) w h j =
      report-Good now ours k.from_provider k.from_provider.deletion_timestamp w refl h j

  -- In every run of `updatePodStatus`, each call is one that `Reported` allows, by the provider's pod
  -- that is known under the key.
  pub update_pod_status-Reported :
      (now : ℤ) (ours : Pod) (key : Text) (known : Map KnownPod) (s : S)
      → All
          (Reported ours (known_pod (lookup key known)))
          (update_pod_status o cmp now ours key
            (record { known = known; outside = s; calls = [] })).1.calls
  unfolding update_pod_status should_skip_pod_status_update
  update_pod_status-Reported now ours key known s =
      let w : World S = record { known = known; outside = s; calls = [] } in
      if-holds (Good ours (known_pod (lookup key known))) (is_final ours.status.phase) (λ final. tt)
        (λ going. update_known-Good now ours (lookup key known) w going tt)

  -- The provider's pod under the key.
  abbrev pub Keeps : Text → Pod → Map KnownPod → Type 0
  Keeps key pod m = (k : KnownPod) × (lookup key m ≡ some k) × (k.from_provider ≡ pod)

  -- Under a sound `cmp.Equal` the pod is kept, and its key is queued unless it was the same before.
  abbrev pub Stored : Text → KnownPod → Pod → World S → World S → Type 0
  Stored key k pod w w' =
      Keeps key pod w'.known
      × (w'.calls ≡ (if cmp.pods k.from_provider pod then w.calls else status_key key ∷ w.calls))

  receive_status-Stored :
      ((p q : Pod) → cmp.pods p q ≡ true → p ≡ q)
      → (key : Text) (k : KnownPod) (pod : Pod) (w : World S)
      → Stored key k pod w (receive_status o cmp key k pod w)
  unfolding receive_status
  receive_status-Stored sound key k pod w = elim (Bool-cases (cmp.pods k.from_provider pod)) [
    | inl same ↦
        let k' = record k { update_skipped = true } in
        rw same ((k', lookup-insert_self key k' w.known, sound k.from_provider pod same), refl)
    | inr differs ↦
        let k' = record k { from_provider = pod; update_skipped = false } in
        rw differs ((k', lookup-insert_self key k' w.known, refl), refl)
  ]

  enqueue_known :
      (polls : ℕ) (others : ℕ → Map KnownPod → Map KnownPod) (key : Text) (pod : Pod) (w : World S)
      (k : KnownPod)
      → lookup key w.known ≡ some k
      → enqueue_pod_status_update o (suc polls) others cmp key pod w
        ≡ receive_status o cmp key k pod w
  unfolding enqueue_pod_status_update
  enqueue_known polls others key pod w k e = rw (enqueue_pod_status_update, e)

  enqueue_unknown :
      (polls : ℕ) (others : ℕ → Map KnownPod → Map KnownPod) (key : Text) (pod cached : Pod)
      (w : World S)
      → lookup key w.known ≡ none
      → o.cache_get pod.namespace pod.name w.outside ≡ got cached
      → enqueue_pod_status_update o (suc polls) others cmp key pod w
        ≡ enqueue_pod_status_update o polls others cmp key cached
            (record w { known = others polls w.known })
  unfolding enqueue_pod_status_update
  enqueue_unknown polls others key pod cached w e f = rw (enqueue_pod_status_update, e, f)

  -- A status that arrives for a known pod is the one that is kept, and its key is queued unless the
  -- pod is the same as before, if `cmp.Equal` tells different pods apart.
  pub enqueue_pod_status_update-stores :
      ((p q : Pod) → cmp.pods p q ≡ true → p ≡ q)
      → (polls : ℕ) (others : ℕ → Map KnownPod → Map KnownPod) (key : Text) (pod : Pod)
        (w : World S) (k : KnownPod)
      → lookup key w.known ≡ some k
      → Stored key k pod w (enqueue_pod_status_update o (suc polls) others cmp key pod w)
  enqueue_pod_status_update-stores sound polls others key pod w k e =
      subst (Stored key k pod w) (sym (enqueue_known polls others key pod w k e))
        (receive_status-Stored sound key k pod w)

  -- A status that arrives before its pod is known is lost: the pod that the cache has in the meantime
  -- is kept in its place, once the pod is known at the second poll.
  pub enqueue_pod_status_update-loses :
      ((p q : Pod) → cmp.pods p q ≡ true → p ≡ q)
      → (polls : ℕ) (others : ℕ → Map KnownPod → Map KnownPod) (key : Text) (pod cached : Pod)
        (w : World S) (k : KnownPod)
      → lookup key w.known ≡ none
      → o.cache_get pod.namespace pod.name w.outside ≡ got cached
      → lookup key (others (suc polls) w.known) ≡ some k
      → Keeps key cached (enqueue_pod_status_update o (suc (suc polls)) others cmp key pod w).known
  enqueue_pod_status_update-loses sound polls others key pod cached w k e f g =
      let w1 : World S = record w { known = others (suc polls) w.known } in
      subst (λ x. Keeps key cached x.known)
        (sym (
          enqueue_unknown (suc polls) others key pod cached w e f
          ∙ enqueue_known polls others key cached w1 k g))
        (receive_status-Stored sound key k cached w1).0
