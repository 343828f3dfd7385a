-- ===== src/EndToEnd/Tests.antt =====
-- The pod controller over the pod provider and the tunnel of tunnel/mock_tunnel.go: a new pod reaches
-- the base.
use virtual_kubelet.Common.{
  ◌≡◌, refl, Bool, false, Option, none, some, List, arith, [], ◌∷◌, Map, not_found, is_not_found,
  All, DistinctKeys, true, text_dec, pos, text, lookup, split, decided, ◌+ℤ◌, ◌-ℤ◌, Lacks,
}
use virtual_kubelet.Kube.{Container, Pod}
use virtual_kubelet.Kube.Samples.{biz_pod}
use virtual_kubelet.Keys.{parts, get_pod_key, split_meta_namespace_key, name_parts}
use virtual_kubelet.Pods.{PodResult, got, failed, World, sync_key}
use virtual_kubelet.Pods.Deep.{deep, Containers-discrete}
use virtual_kubelet.Pods.Provider.{sync_pods_from_kubernetes_handler}
use virtual_kubelet.VPods.{Tunnel}
use virtual_kubelet.VPods.Store.{Keyed}
use virtual_kubelet.MockTunnel.{MockTunnel, tunnel_of}
use virtual_kubelet.EndToEnd.{Cluster, Joint, outside}
use virtual_kubelet.EndToEnd.Spec.{desired, Becomes, wanted}
use virtual_kubelet.EndToEnd.Stores.{store_of, joint}
use virtual_kubelet.EndToEnd.Refine.{is_new, handler-refines}
use virtual_kubelet.EndToEnd.Frame.{IsStable}
use virtual_kubelet.EndToEnd.Added.{Serving, pod_add_handler-reaches}
use virtual_kubelet.Lease.{is_leader, has_expired}
use virtual_kubelet.Nodes.{Node, Nodes, is_reachable}
use virtual_kubelet.Nodes.Handlers.{pod_key, pod_add_handler}
use virtual_kubelet.EndToEnd.Drain.{Named, Distinct, Ready, sync_keys}
use virtual_kubelet.Pods.Deletion.{start_pods, is_absent, Answers}
use virtual_kubelet.EndToEnd.Start.{sifted, start_pods-sifted}
use virtual_kubelet.EndToEnd.View.{pods_of, put_each, sync_keys-view, sync_keys-Perm}
use mathlib.Core.List.Perm

-- Kubernetes, as the answer to every question for a pod.
abbrev cluster : Cluster PodResult
cluster = record {
  cache_get = λ namespace name k. k;
  client_get = λ namespace name k. k;
  client_delete = λ pod grace uid k. (none, k);
  update_status = λ pod k. (none, k);
  patch_status = λ new base k. (none, k);
  error_text = λ e. text "failed";
  split_key = split_meta_namespace_key;
}

abbrev tunnel : Tunnel MockTunnel
tunnel = tunnel_of (pos 5) (text "n1")

abbrev same : Container → Container → Bool
same a b = decided (Containers-discrete (a ∷ []) (b ∷ []))

abbrev start : World (Joint MockTunnel PodResult)
start = record {
  known =
      (text "ns/a", record { from_provider = biz_pod; last_used = none; update_skipped = false })
      ∷ [];
  outside = record {
    provider = record {
      store = [];
      base = record { biz_status_storage = []; node_storage = []; events = [] };
      pending = [];
      events = [];
    };
    cluster = got biz_pod;
  };
  calls = [];
}

start-Keyed : Keyed (store_of start)
unfolding lookup
start-Keyed k pod e = cc

key_splits : split_meta_namespace_key (text "ns/a") ≡ parts (text "ns") (text "a")
unfolding split_meta_namespace_key split name_parts
key_splits = refl

handler-refines_example :
    let answer = got biz_pod in
    let o = joint cluster tunnel 3 same deep in
    let (r, w') = sync_pods_from_kubernetes_handler o deep (text "ns/a") start in
    Becomes
      (text "ns/a")
      (desired deep
        (is_new cluster tunnel 3 same deep (lookup (text "ns/a") start.known))
        answer
        (lookup (text "ns/a") (store_of start)))
      (store_of start)
      (store_of w')
    × Keyed (store_of w')
unfolding get_pod_key
handler-refines_example =
    handler-refines cluster tunnel 3 same deep (text "ns/a") (text "ns") (text "a") start
      start-Keyed key_splits refl refl

-- Kubernetes with some pods. The provider has one that Kubernetes has lost, and lacks the other.
abbrev found : Option Pod → PodResult
found none = failed not_found
found (some pod) = got pod

abbrev pods_cluster : Cluster (Map Pod)
pods_cluster = record {
  cache_get = λ namespace name m. found (lookup (get_pod_key namespace name) m);
  client_get = λ namespace name m. found (lookup (get_pod_key namespace name) m);
  client_delete = λ pod grace uid m. (none, m);
  update_status = λ pod m. (none, m);
  patch_status = λ new base m. (none, m);
  error_text = λ e. text "failed";
  split_key = split_meta_namespace_key;
}

pods_cluster-IsStable : IsStable pods_cluster
pods_cluster-IsStable pod m namespace name = refl

abbrev lost_pod : Pod
lost_pod = record biz_pod { name = text "b" }

abbrev two_pods : World (Joint MockTunnel (Map Pod))
two_pods = record {
  known = start.known;
  outside = record {
    provider = record start.outside.provider { store = (text "ns/b", lost_pod) ∷ [] };
    cluster = (text "ns/a", biz_pod) ∷ [];
  };
  calls = [];
}

two_pods-Keyed : Keyed (store_of two_pods)
unfolding lookup get_pod_key
two_pods-Keyed k pod e = ground (arith, e)

abbrev both : List Named
both = (text "ns", text "a") ∷ (text "ns", text "b") ∷ []

abbrev turned : List Named
turned = (text "ns", text "b") ∷ (text "ns", text "a") ∷ []

both-Distinct : Distinct both
unfolding get_pod_key
both-Distinct = ground arith

both-Ready : All (Ready pods_cluster two_pods.outside.cluster) both
unfolding get_pod_key lookup
both-Ready = ground arith

sync_keys-view_example :
    pods_of (sync_keys pods_cluster tunnel 3 same deep both two_pods)
    ≡ put_each pods_cluster tunnel 3 same deep two_pods both (pods_of two_pods)
sync_keys-view_example =
    sync_keys-view pods_cluster tunnel 3 same deep pods_cluster-IsStable both two_pods
      two_pods-Keyed both-Distinct both-Ready

sync_keys-Perm_example :
    pods_of (sync_keys pods_cluster tunnel 3 same deep both two_pods)
    ≡ pods_of (sync_keys pods_cluster tunnel 3 same deep turned two_pods)
sync_keys-Perm_example =
    sync_keys-Perm pods_cluster tunnel 3 same deep pods_cluster-IsStable both turned two_pods
      two_pods-Keyed both-Distinct both-Ready (Perm.swap _ _ _)

two_pods-DistinctKeys : DistinctKeys (store_of two_pods)
unfolding lookup
two_pods-DistinctKeys = (refl, tt)

lost-Answers :
    All (Answers (joint pods_cluster tunnel 3 same deep) two_pods.outside) (lost_pod ∷ [])
unfolding outside lookup text_dec get_pod_key is_not_found
lost-Answers = (λ e h. ground (arith, h), tt)

start_pods-sifted_example :
    let o = joint pods_cluster tunnel 3 same deep in
    (w' : World (Joint MockTunnel (Map Pod))) × (start_pods o true two_pods ≡ some w')
    × (lookup (text "ns/b") (store_of w')
        ≡ sifted (is_absent o two_pods.outside) (lookup (text "ns/b") (store_of two_pods)))
start_pods-sifted_example =
    start_pods-sifted pods_cluster tunnel 3 same deep two_pods (text "ns/b") two_pods-DistinctKeys
      two_pods-Keyed lost-Answers

-- A node that client `a` leads and that does not know the pod.
abbrev led : Node (Joint MockTunnel PodResult)
led = record {
  lease = some (record {
    name = text "n1";
    env = text "test";
    holder = some (text "a");
    duration_seconds = 40;
    renew_time = some (pos 90_000_000_000);
  });
  is_close = false;
  heart_beat = pos 95_000_000_000;
  ready = true;
  exit = false;
  done = false;
  pods = record start { known = [] };
}

abbrev led_nodes : Nodes (Joint MockTunnel PodResult)
led_nodes = (text "n1", led) ∷ []

led-Serving : Serving (text "a") (pos 100_000_000_000) led
unfolding is_leader has_expired is_reachable text_dec ◌+ℤ◌ ◌-ℤ◌
led-Serving = (refl, refl, refl)

biz_pod-added :
    (lookup (text "n1") led_nodes ≡ some led)
    × (lookup (pod_key biz_pod) led.pods.known ≡ none)
    × (Lacks b'/' biz_pod.namespace × Lacks b'/' biz_pod.name)
unfolding lookup text_dec
biz_pod-added = (refl, refl, ground arith)

pod_add_handler-reaches_example :
    (nodes' : Nodes (Joint MockTunnel PodResult)) × (n' : Node (Joint MockTunnel PodResult))
    × (pod_add_handler (text "a") (pos 100_000_000_000) biz_pod led_nodes ≡ some nodes')
    × (lookup (text "n1") nodes' ≡ some n')
    × (n'.pods.calls ≡ sync_key (pod_key biz_pod) ∷ led.pods.calls)
    × (let o = joint cluster tunnel 3 same deep in
        let (r, w) = sync_pods_from_kubernetes_handler o deep (pod_key biz_pod) n'.pods in
        Becomes
          (pod_key biz_pod)
          (wanted deep biz_pod (lookup (pod_key biz_pod) (store_of led.pods)))
          (store_of led.pods)
          (store_of w))
pod_add_handler-reaches_example =
    pod_add_handler-reaches cluster tunnel 3 same deep (text "a") (pos 100_000_000_000) biz_pod led
      led_nodes biz_pod-added.0 led-Serving biz_pod-added.1 refl refl refl biz_pod-added.2.0
      biz_pod-added.2.1 start-Keyed
