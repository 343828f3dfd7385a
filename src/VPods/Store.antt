-- ===== src/VPods/Store.antt =====
-- The pods that the provider keeps (provider/vpod_store.go, provider/vpod_provider.go), in every
-- interleaving of its operations.
use virtual_kubelet.Common.{
  ℕ, ◌≡◌, refl, sym, subst, ap, ◌∙◌, Bool, Option, none, some, List, [], ◌∷◌, ℤ, Text, text_dec,
  Map, lookup, insert, delete, lookup-insert, lookup-delete, lookup-insert_self, if-holds, arith,
  ite,
}
use virtual_kubelet.Kube.{Container, Pod, PodStatus, BizStatusData}
use virtual_kubelet.PodStatus.{get_pod_status}
use virtual_kubelet.PodStatus.Phases.{get_pod_status_total}
use virtual_kubelet.Pods.{PodResult}
use virtual_kubelet.VPods.{
  Tunnel, notified, Provider, key_of, pod_key, put_pod, remove_pod, notify, get_pod,
  handle_biz_batch_start, handle_biz_batch_stop, create_pod, delete_pod, stop_some, replace,
}
use virtual_kubelet.VPods.Sync.{
  store_status, sync_stored, sync_status, sync_biz_status_to_kube, sync_each,
  sync_all_biz_status_to_kube, cached, needs_sync,
}

module _ {S : Type 0} (tunnel : Tunnel S) (timers : ℕ) where
  pub start-store :
      (key : Text) (cs : List Container) (p : Provider S)
      → (handle_biz_batch_start tunnel timers key cs p).store ≡ p.store
  unfolding handle_biz_batch_start
  start-store key [] p = refl
  start-store key (c ∷ cs) p = start-store key cs _

  stop-store :
      (key : Text) (cs : List Container) (p : Provider S)
      → (handle_biz_batch_stop tunnel timers key cs p).store ≡ p.store
  unfolding handle_biz_batch_stop
  stop-store key [] p = refl
  stop-store key (c ∷ cs) p = stop-store key cs _

  pub create-store :
      (pod : Pod) (p : Provider S)
      → (create_pod tunnel timers pod p).store ≡ insert (pod_key pod) pod p.store
  unfolding create_pod notify put_pod
  create-store pod p = start-store (pod_key pod) pod.containers _

  pub delete-store :
      (pod : Pod) (p : Provider S)
      → (delete_pod tunnel timers pod p).store ≡ delete (pod_key pod) p.store
  unfolding delete_pod notify remove_pod
  delete-store pod p = stop-store (pod_key pod) pod.containers _

  -- A pod that is created is found under its namespace and name, one that is deleted is not, and both
  -- leave every other pod as it was.
  pub create_delete_lookup :
      (pod : Pod) (p : Provider S) (namespace name : Text)
      → (get_pod namespace name (create_pod tunnel timers pod p)
          ≡ ite
              (text_dec (pod_key pod) (key_of namespace name))
              (some pod)
              (get_pod namespace name p))
        × (get_pod namespace name (delete_pod tunnel timers pod p)
            ≡ ite (text_dec (pod_key pod) (key_of namespace name)) none (get_pod namespace name p))
  unfolding get_pod
  create_delete_lookup pod p namespace name =
      let key = key_of namespace name in
      (
        ap (lookup key) (create-store pod p) ∙ lookup-insert (pod_key pod) key pod p.store,
        ap (lookup key) (delete-store pod p) ∙ lookup-delete (pod_key pod) key p.store,
      )

  stop_some-store :
      (same : Container → Container → Bool) (key : Text) (cs : List Container) (p : Provider S)
      → (stop_some tunnel timers same key cs p).store ≡ p.store
  stop_some-store same key [] p = refl
  stop_some-store same key (c ∷ cs) p = stop-store key (c ∷ cs) p

  pub replace-store :
      (same : Container → Container → Bool) (old_key : Text) (pod : Pod)
      (stops starts : List Container) (p : Provider S)
      → (replace tunnel timers same old_key pod stops starts p).store
        ≡ insert (pod_key pod) pod p.store
  unfolding replace notify put_pod
  replace-store same old_key pod stops [] p =
      ap (insert (pod_key pod) pod) (stop_some-store same old_key stops p)
  replace-store same old_key pod stops (c ∷ cs) p =
      ap (insert (pod_key pod) pod) (stop_some-store same old_key stops p)

-- Every pod stands under its own key.
abbrev pub Keyed : Map Pod → Type 0
Keyed m = (k : Text) (pod : Pod) → lookup k m ≡ some pod → pod_key pod ≡ k

pub Keyed-insert : (pod : Pod) (m : Map Pod) → Keyed m → Keyed (insert (pod_key pod) pod m)
Keyed-insert pod m h k q e = ground (arith, lookup-insert (pod_key pod) k pod m, h k q)

pub Keyed-delete : (key : Text) (m : Map Pod) → Keyed m → Keyed (delete key m)
Keyed-delete key m h k q e = ground (arith, lookup-delete key k m, h k q)

module _ {S : Type 0} (cache_get : Text → Text → PodResult) (local_ip : Text) where
  -- A report for a stored pod never panics: the pod gets the status that `GetPodStatus` gives, and is
  -- handed to the pod controller with it.
  pub sync_status-stores :
      (now : ℤ) (d : BizStatusData) (pod : Pod) (p : Provider S)
      → lookup d.pod_key p.store ≡ some pod
      → (s : PodStatus) × (get_pod_status local_ip now pod d ≡ some s)
        × (p' : Provider S) × (sync_status cache_get local_ip now d p ≡ some p')
        × (lookup (pod_key pod) p'.store ≡ some (record pod { status = s }))
        × (p'.events ≡ notified (record pod { status = s }) ∷ p.events)
  unfolding sync_status sync_stored store_status notify put_pod
  sync_status-stores now d pod p e =
      let (s, given, names, phase, ready) = get_pod_status_total local_ip now pod d in
      let pod' = record pod { status = s } in
      (
        s,
        given,
        notify pod' (put_pod pod' p),
        rw (sync_status, e, given),
        lookup-insert_self (pod_key pod) pod' p.store,
        refl,
      )

  sync_status-absent :
      (now : ℤ) (d : BizStatusData) (p : Provider S)
      → lookup d.pod_key p.store ≡ none
      → sync_status cache_get local_ip now d p ≡ some p
  unfolding sync_status sync_stored
  sync_status-absent now d p e = rw (sync_status, e)

  -- A result that is no panic, with pods under their own keys, and this base.
  abbrev pub Fine : S → Option (Provider S) → Type 0
  Fine base r = (p' : Provider S) × (r ≡ some p') × Keyed p'.store × (p'.base ≡ base)

  sync_stored-Fine :
      (now : ℤ) (d : BizStatusData) (found : Option Pod) (p : Provider S)
      → Keyed p.store
      → Fine p.base (sync_stored cache_get local_ip now d found p)
  unfolding sync_stored store_status notify put_pod
  sync_stored-Fine now d none p h = (p, refl, h, refl)
  sync_stored-Fine now d (some pod) p h =
      let (s, given, names, phase, ready) = get_pod_status_total local_ip now pod d in
      let pod' = record pod { status = s } in
      (notify pod' (put_pod pod' p), rw (given, store_status), Keyed-insert pod' p.store h, refl)

  pub sync_biz-Fine :
      (now : ℤ) (d : BizStatusData) (p : Provider S)
      → Keyed p.store
      → Fine p.base (sync_biz_status_to_kube cache_get local_ip now d p)
  unfolding sync_biz_status_to_kube sync_status
  sync_biz-Fine now d p h =
      if-holds (Fine p.base) (needs_sync (cached cache_get d) d)
        (λ g. sync_stored-Fine now d (lookup d.pod_key p.store) p h) (λ g. (p, refl, h, refl))

  sync_each-Fine :
      (now : ℤ) (ds : List BizStatusData) (p : Provider S)
      → Keyed p.store
      → Fine p.base (sync_each cache_get local_ip now ds (some p))
  unfolding sync_each sync_status
  sync_each-Fine now [] p h = (p, refl, h, refl)
  sync_each-Fine now (d ∷ ds) p h =
      let (p', e, h', b) = sync_stored-Fine now d (lookup d.pod_key p.store) p h in
      subst (λ x. Fine p.base (sync_each cache_get local_ip now ds x)) (sym e)
        (subst (λ b. Fine b (sync_each cache_get local_ip now ds (some p'))) b
          (sync_each-Fine now ds p' h'))

  -- However many biz reports arrive, and in whichever order the pods are sorted, syncing them does not
  -- panic, asks nothing of the base, and keeps every pod under its own key.
  pub sync_all-Fine :
      (by_age : List Pod → List Pod) (now : ℤ) (ds : List BizStatusData) (p : Provider S)
      → Keyed p.store
      → Fine p.base (sync_all_biz_status_to_kube cache_get local_ip by_age now ds p)
  unfolding sync_all_biz_status_to_kube
  sync_all-Fine by_age now ds p h = sync_each-Fine now _ p h
