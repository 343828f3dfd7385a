-- ===== src/EndToEnd/Stores.antt =====
-- What the operations of virtual_kubelet/node/pod.go over provider/vpod_provider.go do to the pods in
-- the provider's store.
use virtual_kubelet.Common.{
  ℕ, ◌≡◌, refl, ◌∙◌, subst, ap, Bool, false, Option, none, some, is_some, [], ◌++◌, map, Text, Map,
  lookup, insert, Error, is_not_found, if-holds, if-holds_both, arith,
}
use virtual_kubelet.Kube.{Container, Pod}
use virtual_kubelet.Pods.{Outside, Cmp, World, Outcome, ok, panic, error, pods_equal}
use virtual_kubelet.Pods.Provider.{
  after_provider, bring, queue_deletion, after_delete, after_sync, mark_used, handle_provider_error,
}
use virtual_kubelet.VPods.{
  Tunnel, Provider, pod_key, update_stored, update_pod, by_name, changed, added,
}
use virtual_kubelet.VPods.Store.{create-store, replace-store}
use virtual_kubelet.EndToEnd.{Cluster, Joint, outside}
use virtual_kubelet.EndToEnd.Spec.{wanted, Becomes, Becomes-by, Becomes-same, Becomes-insert}

module _ {S K : Type 0} where
  abbrev pub store_of : World (Joint S K) → Map Pod
  store_of w = w.outside.provider.store

module _ {S K : Type 0} (cluster : Cluster K) (tunnel : Tunnel S) (timers : ℕ)
    (same : Container → Container → Bool) (cmp : Cmp) where
  abbrev pub joint : Outside (Joint S K)
  joint = outside cluster tunnel timers same

  update-unmarked :
      (pod : Pod) (p : Provider S)
      → is_some pod.deletion_timestamp ≡ false
      → update_pod tunnel timers same pod p
        ≡ update_stored tunnel timers same pod (lookup (pod_key pod) p.store) p
  unfolding update_pod
  update-unmarked pod p h = rw h

  stored-store :
      (pod old : Pod) (p : Provider S)
      → (update_stored tunnel timers same pod (some old) p).1.store
        ≡ insert (pod_key pod) pod p.store
  unfolding update_stored
  stored-store pod old p =
      let olds = by_name old.containers [] in
      let news = by_name pod.containers [] in
      let pairs = changed same news olds in
      replace-store tunnel timers same (pod_key old) pod (map (λ x. x.0) pairs)
        (map (λ x. x.1) pairs ++ added olds news) p

  update-store :
      (pod old : Pod) (p : Provider S)
      → is_some pod.deletion_timestamp ≡ false
      → lookup (pod_key pod) p.store ≡ some old
      → (update_pod tunnel timers same pod p).1.store ≡ insert (pod_key pod) pod p.store
  update-store pod old p unmarked there =
      ap (λ x. x.1.store) (update-unmarked pod p unmarked)
      ∙ ap (λ found. (update_stored tunnel timers same pod found p).1.store) there
      ∙ stored-store pod old p

  after_provider-store :
      (pod : Pod) (e : Option Error) (w : World (Joint S K))
      → store_of (after_provider joint pod e w).1 ≡ store_of w
  unfolding after_provider handle_provider_error outside
  after_provider-store pod none w = refl
  after_provider-store pod (some e) w = refl

  pub bring-Becomes :
      (pod : Pod) (there : Option Pod) (w : World (Joint S K))
      → is_some pod.deletion_timestamp ≡ false
      → lookup (pod_key pod) (store_of w) ≡ there
      → Becomes
          (pod_key pod)
          (wanted cmp pod there)
          (store_of w)
          (store_of (bring joint cmp pod there w).1)
  unfolding bring outside after_provider wanted
  bring-Becomes pod none w unmarked e =
      Becomes-by (pod_key pod) (some pod) (store_of w) _ _
        (create-store tunnel timers pod w.outside.provider)
        (Becomes-insert (pod_key pod) pod (store_of w))
  bring-Becomes pod (some there) w unmarked e =
      if-holds_both
        (λ (d : Option Pod) (r : Option Error × World (Joint S K)).
          Becomes (pod_key pod) d (store_of w) (store_of r.1))
        (pods_equal cmp there pod)
        (λ equal.
          subst (λ x. Becomes (pod_key pod) x (store_of w) (store_of w)) e
            (Becomes-same (pod_key pod) (store_of w)))
        (λ differs.
          Becomes-by (pod_key pod) (some pod) (store_of w) _ _
            (after_provider-store pod _ _ ∙ update-store pod there w.outside.provider unmarked e)
            (Becomes-insert (pod_key pod) pod (store_of w)))

  pub after_sync-store :
      (e : Option Error) (w : World (Joint S K)) → store_of (after_sync joint e w).1 ≡ store_of w
  after_sync-store none w = refl
  after_sync-store (some e) w = refl

  pub queue-store :
      (pod : Pod) (key : Text) (w : World (Joint S K))
      → store_of (queue_deletion joint pod key w).1 ≡ store_of w
  unfolding queue_deletion
  queue-store pod key w = ground arith

  pub after_delete-store :
      (pod : Pod) (key : Text) (e : Option Error) (w : World (Joint S K))
      → store_of (after_delete joint pod key e w).1 ≡ store_of w
  unfolding after_delete
  after_delete-store pod key none w = queue-store pod key w
  after_delete-store pod key (some e) w =
      if-holds (λ (r : Outcome × World (Joint S K)). store_of r.1 ≡ store_of w) (is_not_found e)
        (λ h. queue-store pod key w) (λ h. refl)

  pub mark_used-store :
      (key : Text) (pod : Pod) (r : Outcome) (w : World (Joint S K))
      → store_of (mark_used joint key pod r w) ≡ store_of w
  unfolding mark_used
  mark_used-store key pod ok w = ground arith
  mark_used-store key pod panic w = refl
  mark_used-store key pod (error e) w = refl
