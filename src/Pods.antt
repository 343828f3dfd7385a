-- ===== src/Pods.antt =====
-- The pod controller of virtual_kubelet/node/podcontroller.go and pod.go: its known pods, and what
-- it reads from and asks of the world outside it. The provider, the Kubernetes client and cache, and
-- go-cmp are parameters; the three work queues appear by the keys that are put into them.
pub mod Provider
pub mod Status
pub mod Deletion
pub mod Converge
pub mod Settled
pub mod Acts
pub mod Reports
pub mod Deep
pub mod Tests
use virtual_kubelet.Common.{
  ℕ, ◌≡◌, Bool, true, false, ◌&&◌, ◌||◌, not, Option, none, some, is_some, List, [], ◌∷◌, ℤ, Text,
  Map, lookup, insert, delete, Error, is_not_found,
}
use virtual_kubelet.Kube.{
  Container, ContainerStatus, Phase, no_phase, pending, running as phase_running, succeeded,
  failed as phase_failed, unknown, PodStatus, Pod,
}
use virtual_kubelet.Keys.{get_pod_key, KeyResult}

-- `lastPodStatusReceivedFromProvider`, `lastPodUsed` and `lastPodStatusUpdateSkipped`.
pub record KnownPod : Type 0 where
  pub from_provider : Pod
  pub last_used : Option Pod
  pub update_skipped : Bool

pub data PodResult : Type 0 where
  got : Pod → PodResult
  failed : Error → PodResult

-- The cache and the API server, and the provider, each with the methods that the controller calls.
-- `error_text` is the `Error` method, `split_key` is `SplitMetaNamespaceKey` of client-go. `client_delete` takes the grace period and the uid of the precondition.
pub record Outside (S : Type 0) : Type 0 where
  pub cache_get : Text → Text → S → PodResult
  pub client_get : Text → Text → S → PodResult
  pub client_delete : Pod → Option ℤ → Option Text → S → Option Error × S
  pub update_status : Pod → S → Option Error × S
  pub patch_status : Pod → Pod → S → Option Error × S
  pub get_pod : Text → Text → S → Option Pod × Option Error
  pub get_pods : S → Option Error × List Pod
  pub error_text : Error → Text
  pub split_key : Text → KeyResult
  pub create_pod : Pod → S → Option Error × S
  pub update_pod : Pod → S → Option Error × S
  pub delete_pod : Pod → S → Option Error × S

-- `cmp.Equal` at the types at which it is used.
pub record Cmp : Type 0 where
  pub containers : List Container → List Container → Bool
  pub deadlines : Option ℤ → Option ℤ → Bool
  pub texts : List Text → List Text → Bool
  pub maps : Map Text → Map Text → Bool
  pub statuses : PodStatus → PodStatus → Bool
  pub pods : Pod → Pod → Bool

-- A key put into one of the queues, or a call that changes the world outside. `api_patch` is the new
-- pod and the one it starts from; a key for deletion comes with its delay, if any.
pub data Call : Type 0 where
  create_call update_call delete_call api_status : Pod → Call
  api_delete : Pod → Option ℤ → Option Text → Call
  api_patch : Pod → Pod → Call
  sync_key status_key forget_key : Text → Call
  deletion_queued : Text → Option ℤ → Call

-- `calls` has the latest first.
pub record World (S : Type 0) : Type 0 where
  pub known : Map KnownPod
  pub outside : S
  pub calls : List Call

pub data Outcome : Type 0 where
  ok panic : Outcome
  error : Error → Outcome

-- A call that changes the world outside, and its trace.
abbrev pub calling : {S : Type 0} → Call → (S → Option Error × S) → World S → Option Error × World S
calling c f w =
    let (e, s) = f w.outside in (e, record { known = w.known; outside = s; calls = c ∷ w.calls })

abbrev pub queueing : {S : Type 0} → Call → World S → World S
queueing c w = record w { calls = c ∷ w.calls }

-- `running`: a container neither terminated nor waiting.
unfoldable pub running : List ContainerStatus → Bool
running [] = false
running (s ∷ ss) = (not (is_some s.state.terminated) && not (is_some s.state.waiting)) || running ss

abbrev pub is_final : Phase → Bool
is_final succeeded = true
is_final phase_failed = true
is_final _ = false

unfoldable pub should_skip_pod_status_update : Pod → Bool
should_skip_pod_status_update pod = is_final pod.status.phase

unfoldable pub pods_equal : Cmp → Pod → Pod → Bool
pods_equal cmp p q =
    cmp.containers p.containers q.containers
    && cmp.containers p.init_containers q.init_containers
    && cmp.deadlines p.active_deadline_seconds q.active_deadline_seconds
    && cmp.texts p.tolerations q.tolerations
    && cmp.maps p.labels q.labels
    && cmp.maps p.annotations q.annotations
    && cmp.texts p.finalizers q.finalizers

-- The filter leaves out the resource version. Its other path, `State`, names no field of a pod.
unfoldable pub pods_effectively_equal : Cmp → Pod → Pod → Bool
pods_effectively_equal cmp p q =
    cmp.pods (record p { resource_version = [] }) (record q { resource_version = [] })

module _ {S : Type 0} where
  unfoldable pub add_known_pod : Pod → World S → World S
  add_known_pod pod w = record w {
    known =
        insert (get_pod_key pod.namespace pod.name)
          (record { from_provider = pod; last_used = none; update_skipped = false }) w.known;
  }

  unfoldable pub delete_known_pod : Text → World S → World S
  delete_known_pod key w = record w { known = delete key w.known }

  unfoldable pub sync_pods_from_kubernetes_enqueue : Text → World S → World S
  sync_pods_from_kubernetes_enqueue key w = queueing (sync_key key) w

  unfoldable pub delete_pods_from_kubernetes_forget : Text → World S → World S
  delete_pods_from_kubernetes_forget key w = queueing (forget_key key) w
