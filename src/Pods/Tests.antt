-- ===== src/Pods/Tests.antt =====
-- The pod controller (virtual_kubelet/node/podcontroller.go, pod.go) on small inputs.
use virtual_kubelet.Common.{
  ℕ, suc, ◌≡◌, ◌≢◌, refl, arith, true, false, Option, none, some, [], ◌∷◌, pos, text, text_dec,
  not_found, conflict, canceled, deadline_exceeded, message, wrapped, Error, All, lookup, Map,
  split, is_not_found,
}
use virtual_kubelet.Kube.{Pod}
use virtual_kubelet.Kube.Samples.{biz_pod}
use virtual_kubelet.Keys.{parts, get_pod_key, deletion_key, split_meta_namespace_key, name_parts}
use virtual_kubelet.Pods.{KnownPod, PodResult, got, failed, Outside, World, ok}
use virtual_kubelet.Pods.Deep.{deep, deep_reflexive}
use virtual_kubelet.Pods.Provider.{
  after_provider, bring, create_or_update_pod, converge, is_used, sync_known, sync_pod_in_provider,
  sync_pods_from_kubernetes_handler,
}
use virtual_kubelet.Pods.Status.{update_pod_status}
use virtual_kubelet.Pods.Deletion.{
  delete_pods_from_kubernetes_handler, Guarded, delete_handler-Guarded,
}
use virtual_kubelet.Pods.Converge.{Justified, sync_handler-Justified}
use virtual_kubelet.Pods.Settled.{sync_pod_in_provider-settles}
use virtual_kubelet.Pods.Acts.{expected_calls, sync_pod_in_provider-acts}
use virtual_kubelet.Pods.Reports.{Reported, known_pod, update_pod_status-Reported}

-- A world that counts the calls: Kubernetes answers with `found`, the provider has `there`, and
-- creating a pod gives `created`.
abbrev outside : PodResult → Option Pod → Option Error → Outside ℕ
outside found there created = record {
  cache_get = λ namespace name s. found;
  client_get = λ namespace name s. found;
  client_delete = λ p grace uid s. (none, suc s);
  update_status = λ p s. (none, suc s);
  patch_status = λ new base s. (none, suc s);
  get_pod = λ namespace name s. (there, none);
  get_pods = λ s. (none, biz_pod ∷ []);
  error_text = λ e. text "failed";
  split_key = split_meta_namespace_key;
  create_pod = λ p s. (created, suc s);
  update_pod = λ p s. (none, suc s);
  delete_pod = λ p s. (none, suc s);
}

abbrev known_pods : Map KnownPod
known_pods =
    (text "ns/a", record { from_provider = biz_pod; last_used = none; update_skipped = false }) ∷ []

abbrev start : World ℕ
start = record { known = known_pods; outside = 0; calls = [] }

key_splits : split_meta_namespace_key (text "ns/a") ≡ parts (text "ns") (text "a")
unfolding split_meta_namespace_key split name_parts
key_splits = refl

sync_handler-Justified_example :
    let o = outside (got biz_pod) none none in
    All
      (Justified o deep (text "ns/a") (text "ns") (text "a") (got biz_pod) 0)
      (sync_pods_from_kubernetes_handler o deep (text "ns/a") start).1.calls
sync_handler-Justified_example =
    sync_handler-Justified (outside (got biz_pod) none none) deep (text "ns/a") (text "ns")
      (text "a") known_pods 0 key_splits

is_synced :
    (sync_pod_in_provider (outside (got biz_pod) none none) deep biz_pod (text "ns/a") start).0 ≡ ok
unfolding sync_pod_in_provider sync_known lookup text_dec converge create_or_update_pod bring
    after_provider is_used
is_synced = refl

sync_pod_in_provider-settles_example :
    let o = outside (got biz_pod) none none in
    let w' = (sync_pod_in_provider o deep biz_pod (text "ns/a") start).1 in
    sync_pod_in_provider o deep biz_pod (text "ns/a") w' ≡ (ok, w')
sync_pod_in_provider-settles_example =
    sync_pod_in_provider-settles (outside (got biz_pod) none none) deep deep_reflexive biz_pod
      (text "ns/a") start refl is_synced

abbrev entry : KnownPod
entry = record { from_provider = biz_pod; last_used = none; update_skipped = false }

is_known : lookup (text "ns/a") known_pods ≡ some entry
unfolding lookup text_dec
is_known = refl

is_new : is_used (outside (got biz_pod) none none) deep biz_pod none ≡ false
unfolding is_used
is_new = refl

sync_pod_in_provider-acts_example :
    let o = outside (got biz_pod) none none in
    (sync_pod_in_provider o deep biz_pod (text "ns/a") start).1.calls
    ≡ expected_calls o deep biz_pod (text "ns/a") start
sync_pod_in_provider-acts_example =
    sync_pod_in_provider-acts (outside (got biz_pod) none none) deep biz_pod (text "ns/a") start
      entry is_known is_new refl

is_refused :
    (sync_pod_in_provider
      (outside (got biz_pod) none (some not_found))
      deep
      biz_pod
      (text "ns/a")
      start).0
    ≢ ok
unfolding sync_pod_in_provider sync_known lookup text_dec converge create_or_update_pod bring
    after_provider is_used
is_refused = λ e. cc

delete_handler-Guarded_example :
    let o = outside (got biz_pod) none none in
    Guarded o
      (text "u1")
      (got biz_pod)
      start
      (delete_pods_from_kubernetes_handler o
        (deletion_key (get_pod_key (text "ns") (text "a")) (text "u1"))
        start).1
delete_handler-Guarded_example =
    delete_handler-Guarded (outside (got biz_pod) none none) (λ key. refl) (text "ns") (text "a")
      (text "u1") start (omega arith) (omega arith) (omega arith)

absent : (e : Error) → failed not_found ≡ failed e → is_not_found e ≡ true
unfolding is_not_found
absent not_found h = refl
absent conflict h = cc
absent canceled h = cc
absent deadline_exceeded h = cc
absent (message m) h = cc
absent (wrapped m e) h = cc

update_pod_status-Reported_example :
    let o = outside (got biz_pod) none none in
    All
      (Reported o deep biz_pod (known_pod o deep (lookup (text "ns/a") known_pods)))
      (update_pod_status o deep (pos 5) biz_pod (text "ns/a") start).1.calls
update_pod_status-Reported_example =
    update_pod_status-Reported (outside (got biz_pod) none none) deep (pos 5) biz_pod (text "ns/a")
      known_pods 0

abbrev unknown_start : World ℕ
unknown_start = record { known = []; outside = 0; calls = [] }

abbrev no_entry : Option KnownPod
no_entry = none

is_unknown : lookup (text "ns/a") [] ≡ no_entry
unfolding lookup
is_unknown = refl
