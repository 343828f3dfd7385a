-- ===== src/EndToEnd.antt =====
-- The pod controller (virtual_kubelet/node/podcontroller.go, pod.go) over the pod provider
-- (provider/vpod_provider.go): the interface `Outside` of the controller, filled with the provider's
-- operations, and the cache and API server of Kubernetes as a parameter.
pub mod Spec
pub mod Stores
pub mod Refine
pub mod Frame
pub mod Drain
pub mod Order
pub mod Added
pub mod View
pub mod Start
pub mod Tests
use virtual_kubelet.Common.{ℕ, Bool, Option, none, some, List, ℤ, Text, map, Error}
use virtual_kubelet.Kube.{Container, Pod}
use virtual_kubelet.Keys.{KeyResult}
use virtual_kubelet.Pods.{PodResult, Outside}
use virtual_kubelet.VPods.{Tunnel, Provider, get_pod, create_pod, update_pod, delete_pod}

-- What the controller asks of Kubernetes, and the two functions of the libraries.
pub record Cluster (K : Type 0) : Type 0 where
  pub cache_get : Text → Text → K → PodResult
  pub client_get : Text → Text → K → PodResult
  pub client_delete : Pod → Option ℤ → Option Text → K → Option Error × K
  pub update_status : Pod → K → Option Error × K
  pub patch_status : Pod → Pod → K → Option Error × K
  pub error_text : Error → Text
  pub split_key : Text → KeyResult

-- The provider over its base, and Kubernetes.
pub record Joint (S K : Type 0) : Type 0 where
  pub provider : Provider S
  pub cluster : K

module _ {S K : Type 0} where
  abbrev in_cluster : Joint S K → Option Error × K → Option Error × Joint S K
  in_cluster s (e, k) = (e, record s { cluster = k })

  abbrev in_provider : Joint S K → Option Error × Provider S → Option Error × Joint S K
  in_provider s (e, p) = (e, record s { provider = p })

module _ {S K : Type 0} (cluster : Cluster K) (tunnel : Tunnel S) (timers : ℕ)
    (same : Container → Container → Bool) where
  -- `CreatePod`, `DeletePod`, `GetPod` and `GetPods` of the provider never return an error.
  unfoldable pub outside : Outside (Joint S K)
  unfolding get_pod create_pod update_pod delete_pod
  outside = record {
    cache_get = λ namespace name s. cluster.cache_get namespace name s.cluster;
    client_get = λ namespace name s. cluster.client_get namespace name s.cluster;
    client_delete = λ pod grace uid s. in_cluster s (cluster.client_delete pod grace uid s.cluster);
    update_status = λ pod s. in_cluster s (cluster.update_status pod s.cluster);
    patch_status = λ new base s. in_cluster s (cluster.patch_status new base s.cluster);
    get_pod = λ namespace name s. (get_pod namespace name s.provider, none);
    get_pods = λ s. (none, map (λ e. e.1) s.provider.store);
    error_text = cluster.error_text;
    split_key = cluster.split_key;
    create_pod = λ pod s. (none, record s { provider = create_pod tunnel timers pod s.provider });
    update_pod = λ pod s. in_provider s (update_pod tunnel timers same pod s.provider);
    delete_pod = λ pod s. (none, record s { provider = delete_pod tunnel timers pod s.provider });
  }
