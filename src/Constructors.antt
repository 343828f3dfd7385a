-- ===== src/Constructors.antt =====
-- The constructors of virtual_kubelet/node (`NewNodeController`, `NewPodController`) and
-- virtual_kubelet/node/nodeutil/controller.go (`NewNode` with its options), and the call of `NewNode`
-- in provider/vnode.go. A client, cache, recorder or provider is the Boolean that says that it is not
-- nil; a rate limiter and a retry function are values of types that are parameters.
pub mod Checks
pub mod Workers
pub mod Tests
use virtual_kubelet.Common.{
  ℕ, Bool, true, false, Option, none, some, List, [], ◌∷◌, ℤ, pos, Text, text, Error, message,
  wrapped, if◌then◌else◌,
}
use virtual_kubelet.Kube.Nodes.{KubeNode, BuildVNodeConfig}
use virtual_kubelet.Biz.{same_text}
use virtual_kubelet.Queue.Items.{is_zero}
use virtual_kubelet.NodeObject.{build_node, set_architecture, default_node}

pub data Built (A : Type 0) : Type 0 where
  built : A → Built A
  not_built : Error → Built A

-- The error of a step, under a heading.
abbrev pub under : {A : Type 0} → Text → Built A → Built A
under m (built a) = built a
under m (not_built e) = not_built (wrapped m e)

infixl 5 ◌>>=◌
abbrev pub ◌>>=◌ : {A B : Type 0} → Built A → (A → Built B) → Built B
built a >>= f = f a
not_built e >>= f = not_built e

infixl 5 ◌>>◌
abbrev pub ◌>>◌ : {B : Type 0} → Built (Unit {0}) → Built B → Built B
m >> k = m >>= λ _. k

abbrev pub given_or : Bool → Text → Built (Unit {0})
given_or true m = built tt
given_or false m = not_built (message m)

-- `NodeController` as `NewNodeController` leaves it; durations are in nanoseconds.
pub record NodeController : Type 0 where
  pub node : KubeNode
  pub ping_interval : ℤ
  pub status_interval : ℤ
  pub has_error_handler : Bool

abbrev pub NodeControllerOpt : Type 0
NodeControllerOpt = NodeController → Built NodeController

unfoldable pub with_node_status_update_error_handler : Bool → NodeControllerOpt
with_node_status_update_error_handler h n = built (record n { has_error_handler = h })

abbrev pub apply_controller_opts : List NodeControllerOpt → NodeController → Built NodeController
apply_controller_opts [] n = built n
apply_controller_opts (o ∷ os) n =
    under (text "error applying node option") (o n) >>= apply_controller_opts os

abbrev pub interval_or : ℤ → ℤ → ℤ
interval_or default given = if is_zero given then default else given

unfoldable pub new_node_controller : KubeNode → List NodeControllerOpt → Built NodeController
new_node_controller node opts =
    let n : NodeController = record {
      node = node;
      ping_interval = pos 0;
      status_interval = pos 0;
      has_error_handler = false;
    } in
    do
      n' ← apply_controller_opts opts n
      built (record n' {
        ping_interval = interval_or (pos 10_000_000_000) n'.ping_interval;
        status_interval = interval_or (pos 60_000_000_000) n'.status_interval;
      })

-- One queue of the pod controller: its rate limiter and what it does about errors.
pub record QueueConfig (L R : Type 0) : Type 0 where
  pub limiter : L
  pub retry : R

pub record PodControllerConfig (L R : Type 0) : Type 0 where
  pub node_name : Text
  pub client : Bool
  pub cache : Bool
  pub event_recorder : Bool
  pub provider : Bool
  pub sync_pods_from_kubernetes : QueueConfig (Option L) (Option R)
  pub delete_pods_from_kubernetes : QueueConfig (Option L) (Option R)
  pub sync_pod_status_from_provider : QueueConfig (Option L) (Option R)

pub record PodController (L R : Type 0) : Type 0 where
  pub node_name : Text
  pub sync_pods_from_kubernetes : QueueConfig L R
  pub delete_pods_from_kubernetes : QueueConfig L R
  pub sync_pod_status_from_provider : QueueConfig L R

-- `default_limiter` is `DefaultControllerRateLimiter` of client-go, `default_retry` is
-- `DefaultRetryFunc` of the queue.
module _ {L R : Type 0} (default_limiter : L) (default_retry : R) where
  abbrev pub given : {A : Type 0} → A → Option A → A
  given default none = default
  given default (some a) = a

  -- `New` of the queue, as far as its parameters go.
  unfoldable pub new_queue_config : QueueConfig (Option L) (Option R) → QueueConfig L R
  new_queue_config q = record {
    limiter = given default_limiter q.limiter;
    retry = given default_retry q.retry;
  }

  unfoldable pub new_pod_controller : PodControllerConfig L R → Built (PodController L R)
  unfolding new_queue_config
  new_pod_controller cfg = do
    given_or cfg.event_recorder (text "missing event recorder")
    given_or cfg.provider (text "missing provider")
    given_or cfg.client (text "missing client")
    given_or cfg.cache (text "missing cache")
    built (record {
      node_name = cfg.node_name;
      sync_pods_from_kubernetes = new_queue_config cfg.sync_pods_from_kubernetes;
      delete_pods_from_kubernetes = new_queue_config cfg.delete_pods_from_kubernetes;
      sync_pod_status_from_provider = new_queue_config cfg.sync_pod_status_from_provider;
    })

pub record NodeConfig : Type 0 where
  pub client : Bool
  pub cache : Bool
  pub node : KubeNode
  pub event_recorder : Bool
  pub num_workers : ℤ

abbrev pub NodeOpt : Type 0
NodeOpt = NodeConfig → Built NodeConfig

unfoldable pub with_client : Bool → NodeOpt
with_client c cfg = built (record cfg { client = c })

unfoldable pub with_cache : Bool → NodeOpt
with_cache c cfg = built (record cfg { cache = c })

abbrev pub apply_opts : List NodeOpt → NodeConfig → Built NodeConfig
apply_opts [] cfg = built cfg
apply_opts (o ∷ os) cfg = o cfg >>= apply_opts os

-- `NewProviderFunc`: it may write to the node, and says whether there is a pod provider.
abbrev pub NewProviderFunc : Type 0
NewProviderFunc = KubeNode → Built (Bool × KubeNode)

-- `Node` of nodeutil.
pub record NodeParts (L R : Type 0) : Type 0 where
  pub node_controller : NodeController
  pub pod_controller : PodController L R
  pub workers : ℤ

abbrev pub unset : {L R : Type 0} → QueueConfig (Option L) (Option R)
unset = record { limiter = none; retry = none }

-- The options that `NewVNode` gives, and its providers, which are always there.
unfoldable pub v_node_opts : Text → Text → BuildVNodeConfig → Bool → Bool → List NodeOpt
unfolding build_node set_architecture with_client with_cache
v_node_opts architecture operating_system config client cache =
    (λ (cfg : NodeConfig). built (record cfg {
      node = set_architecture architecture operating_system cfg.node;
      num_workers = config.worker_num;
    }))
    ∷ (λ (cfg : NodeConfig). built (record cfg { node = build_node config cfg.node }))
    ∷ with_client client
    ∷ with_cache cache
    ∷ []

module _ {L R : Type 0} (default_limiter : L) (default_retry : R) (num_cpu : ℤ) where
  -- A recorder that is not given is made.
  unfoldable pub new_node : Text → NewProviderFunc → List NodeOpt → Built (NodeParts L R)
  unfolding new_node_controller new_pod_controller default_node
  new_node name new_provider opts = do
    cfg ← apply_opts opts (record {
      client = false;
      cache = false;
      node = default_node name;
      event_recorder = false;
      num_workers = num_cpu;
    })
    given_or cfg.client (text "no client provided")
    p ← under (text "error creating provider") (new_provider cfg.node)
    nc ← under (text "error creating node controller") (new_node_controller p.1 [])
    pc ← under (text "error creating pod controller") (
        new_pod_controller default_limiter default_retry (record {
          node_name = name;
          client = cfg.client;
          cache = cfg.cache;
          event_recorder = true;
          provider = p.0;
          sync_pods_from_kubernetes = unset;
          delete_pods_from_kubernetes = unset;
          sync_pod_status_from_provider = unset;
        }))
    built (record { node_controller = nc; pod_controller = pc; workers = cfg.num_workers })

  unfoldable pub new_v_node_parts :
      Text → Text → BuildVNodeConfig → Bool → Bool → Built (NodeParts L R)
  unfolding new_node v_node_opts
  new_v_node_parts architecture operating_system config client cache =
      if same_text config.node_name []
      then not_built (message (text "node name cannot be empty"))
      else new_node config.node_name (λ node. built (true, node))
          (v_node_opts architecture operating_system config client cache)
