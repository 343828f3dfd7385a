-- ===== src/Startup.antt =====
-- How vnode_controller/vnode_controller.go is set up (`SetupWithManager`), and the predicates of
-- vnode_controller/predicates that the events of its watch pass. A label selector of apimachinery is
-- a parameter, as its test on labels.
pub mod Events
pub mod Tests
use virtual_kubelet.Common.{
  ◌≡◌, Bool, true, false, ◌&&◌, not, Option, none, some, List, [], ◌∷◌, ◌++◌, ℤ, Text, Map, Error,
  if◌then◌else◌,
}
use virtual_kubelet.Kube.{Pod}
use virtual_kubelet.Kube.Nodes.{KubeNode}
use virtual_kubelet.Biz.{same_text}
use virtual_kubelet.Pods.{Cmp, World}
use virtual_kubelet.Nodes.{Node, Nodes, delete_v_node}
use virtual_kubelet.Nodes.Handlers.{
  pod_add_handler, pod_update_handler, pod_delete_handler, on_base_discovered,
}
use virtual_kubelet.NodeObject.{Settings}
use virtual_kubelet.Arrivals.Discovery.{discover_previous_nodes}

pub data Event (O : Type 0) : Type 0 where
  created deleted generic : O → Event O
  updated : O → O → Event O

-- An update is judged by the new object alone.
abbrev pub object_of : {O : Type 0} → Event O → O
object_of (created x) = x
object_of (deleted x) = x
object_of (generic x) = x
object_of (updated old new) = new

abbrev pub Selector : Type 0
Selector = Map Text → Bool

unfoldable pub pod_predicate : Selector → Event Pod → Bool
pod_predicate matches e = matches (object_of e).labels && not (same_text (object_of e).node_name [])

unfoldable pub node_predicate : Selector → Event KubeNode → Bool
node_predicate matches e = matches (object_of e).labels

-- Of a lease only the labels are read.
unfoldable pub node_lease_predicate : Selector → Event (Map Text) → Bool
node_lease_predicate matches e = matches (object_of e)

-- The steps that can fail before the watch is on: the index, the controller, and the watch.
unfoldable pub setup_with_manager : Option Error → Option Error → Option Error → Option Error
setup_with_manager (some e) made watched = some e
setup_with_manager none (some e) watched = some e
setup_with_manager none none watched = watched

-- Where the goroutine that `SetupWithManager` starts stands: it waits for the tunnel, for the cache,
-- for the list of nodes; or it has closed `ready`, or returned without that.
pub data Progress : Type 0 where
  polling syncing listing finished gave_up : Progress

-- `waiting` are the events that the watch has not handed over yet; `arrived` and `handled` are all
-- that came and all that were handled. The oldest comes first.
pub record Startup (S : Type 0) : Type 0 where
  pub progress : Progress
  pub nodes : Nodes S
  pub waiting : List (Event Pod)
  pub arrived : List (Event Pod)
  pub handled : List (Event Pod)
  pub crashed : Bool

module _ {S : Type 0} where
  abbrev pub start : Nodes S → Startup S
  start nodes = record {
    progress = polling;
    nodes = nodes;
    waiting = [];
    arrived = [];
    handled = [];
    crashed = false;
  }

  abbrev pub moved : Progress → Startup S → Startup S
  moved p s = record s { progress = p }

  abbrev pub dropped : List (Event Pod) → Startup S → Startup S
  dropped rest s = record s { waiting = rest }

  -- What the handler has left; `none` is a panic.
  unfoldable pub after_event :
      Event Pod → List (Event Pod) → Option (Nodes S) → Startup S → Startup S
  after_event e rest none s = record s { waiting = rest; crashed = true }
  after_event e rest (some nodes) s = record s {
    nodes = nodes;
    waiting = rest;
    handled = s.handled ++ e ∷ [];
  }

module _ {S : Type 0} (client_id : Text) (cmp : Cmp) where
  -- The functions of `podHandler`; there is none for generic events.
  unfoldable pub handle_event : ℤ → Event Pod → Nodes S → Option (Nodes S)
  unfolding pod_add_handler pod_update_handler pod_delete_handler
  handle_event now (created pod) nodes = pod_add_handler client_id now pod nodes
  handle_event now (updated old new) nodes = pod_update_handler client_id now cmp old new nodes
  handle_event now (deleted pod) nodes = pod_delete_handler client_id now pod nodes
  handle_event now (generic pod) nodes = some nodes

module _ {S : Type 0} (client_id : Text) (cmp : Cmp) (settings : Settings) (pods : World S)
    (matches : Selector) where
  -- The result of the poll for the tunnel is not looked at. Bases are discovered, and nodes deleted,
  -- at any time.
  pub data Step (s : Startup S) : Startup S → Type 0 where
    polled : s.progress ≡ polling → Step s (moved syncing s)
    synced : s.progress ≡ syncing → Step s (moved listing s)
    not_synced : s.progress ≡ syncing → Step s (moved gave_up s)
    listed :
        (found : List KubeNode)
        → s.progress ≡ listing
        → Step s (record s {
          progress = finished;
          nodes = discover_previous_nodes settings pods found s.nodes;
        })
    not_listed : s.progress ≡ listing → Step s (moved gave_up s)
    discovered :
        (now : ℤ) (name state : Text) (new : Option (Node S))
        → Step s (record s { nodes = on_base_discovered now name state new s.nodes })
    node_deleted : (name : Text) → Step s (record s { nodes = delete_v_node name s.nodes })
    arrives :
        (e : Event Pod)
        → Step s (record s { waiting = s.waiting ++ e ∷ []; arrived = s.arrived ++ e ∷ [] })
    drops :
        (e : Event Pod) (rest : List (Event Pod))
        → s.waiting ≡ e ∷ rest
        → pod_predicate matches e ≡ false
        → Step s (dropped rest s)
    handles :
        (now : ℤ) (e : Event Pod) (rest : List (Event Pod))
        → s.waiting ≡ e ∷ rest
        → pod_predicate matches e ≡ true
        → s.progress ≡ finished
        → Step s (after_event e rest (handle_event client_id cmp now e s.nodes) s)

  -- Nothing happens after a crash.
  pub data Steps : Startup S → Startup S → Type 0 where
    none_yet : {s : Startup S} → Steps s s
    and_then : {s t u : Startup S} → Steps s t → t.crashed ≡ false → Step t u → Steps s u
