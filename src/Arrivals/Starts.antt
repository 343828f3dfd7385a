-- ===== src/Arrivals/Starts.antt =====
-- The start of vnode_controller/vnode_controller.go: its configuration, and the nodes that it finds in
-- Kubernetes.
use virtual_kubelet.Common.{
  ◌≡◌, ◌≢◌, refl, sym, subst, ap, ◌⊎◌, inl, inr, true, Option, none, some, is_some, List, [], ◌∷◌,
  Text, text_dec, lookup, lookup-insert, lookup-insert_self, All, arith,
}
use virtual_kubelet.Kube.Nodes.{KubeNode, NodeInfo}
use virtual_kubelet.Pods.{World}
use virtual_kubelet.Nodes.{Node, Nodes, add_v_node}
use virtual_kubelet.Nodes.Handlers.{start_v_node}
use virtual_kubelet.NodeObject.{Settings, new_v_node, config_of, convert_node_to_node_info}
use virtual_kubelet.Arrivals.Discovery.{new_node, create_v_node, discover_previous_nodes}

module _ {S : Type 0} (settings : Settings) (pods : World S) where
  created-Made :
      (info : NodeInfo) → info.name ≢ [] → create_v_node settings info pods ≡ some (new_node pods)
  unfolding create_v_node new_v_node config_of
  created-Made info h = ground arith

  start-keeps :
      (name j : Text) (new : Option (Node S)) (n : Node S) (nodes : Nodes S)
      → lookup j nodes ≡ some n
      → lookup j (start_v_node name new nodes) ≡ some n
  unfolding start_v_node add_v_node
  start-keeps name j none n nodes h = ground arith
  start-keeps name j (some new) n nodes h = ground (arith, lookup-insert name j new nodes)

  start-there :
      (name : Text) (new : Node S) (nodes : Nodes S)
      → is_some (lookup name (start_v_node name (some new) nodes)) ≡ true
  unfolding start_v_node add_v_node
  start-there name new nodes = ground (arith, lookup-insert_self name new nodes)

  discover-keeps :
      (found : List KubeNode) (j : Text) (n : Node S) (nodes : Nodes S)
      → lookup j nodes ≡ some n
      → lookup j (discover_previous_nodes settings pods found nodes) ≡ some n
  unfolding discover_previous_nodes
  discover-keeps [] j n nodes h = h
  discover-keeps (node ∷ rest) j n nodes h = discover-keeps rest j n _ (start-keeps _ j _ n nodes h)

  start-named :
      (name : Text) (new : Option (Node S)) (nodes : Nodes S)
      → new ≡ some (new_node pods)
      → is_some (lookup name (start_v_node name new nodes)) ≡ true
  start-named name new nodes e =
      subst (λ x. is_some (lookup name (start_v_node name x nodes)) ≡ true) (sym e)
        (start-there name (new_node pods) nodes)

  keeps-there :
      (found : List KubeNode) (j : Text) (o : Option (Node S)) (nodes : Nodes S)
      → lookup j nodes ≡ o
      → is_some o ≡ true
      → is_some (lookup j (discover_previous_nodes settings pods found nodes)) ≡ true
  keeps-there found j none nodes e h = let bad : ⊥ = cc in elim bad [ ]
  keeps-there found j (some n) nodes e h = ap is_some (discover-keeps found j n nodes e)

  abbrev pub IsThere : List KubeNode → Nodes S → KubeNode → Type 0
  IsThere found nodes node =
      (node.name ≡ [])
      ⊎ (is_some (lookup node.name (discover_previous_nodes settings pods found nodes)) ≡ true)

  found-IsThere : (found : List KubeNode) (nodes : Nodes S) → All (IsThere found nodes) found
  unfolding discover_previous_nodes convert_node_to_node_info
  found-IsThere [] nodes = tt
  found-IsThere (node ∷ rest) nodes =
      let info = convert_node_to_node_info node in
      let new = create_v_node settings info pods in
      let nodes' = start_v_node node.name new nodes in
      (
        elim (text_dec node.name []) [
          | yes empty ↦ inl empty
          | no named ↦ inr (
              keeps-there rest node.name (lookup node.name nodes') nodes' refl
                (start-named node.name new nodes (created-Made info named)))
        ],
        found-IsThere rest nodes',
      )

  -- At the start every node with a name that Kubernetes lists gets into the store, and a node that is
  -- there already stays as it is.
  pub discover_previous_nodes-IsThere :
      (found : List KubeNode) (nodes : Nodes S) (j : Text) (n : Node S)
      → lookup j nodes ≡ some n
      → All (IsThere found nodes) found
        × (lookup j (discover_previous_nodes settings pods found nodes) ≡ some n)
  discover_previous_nodes-IsThere found nodes j n h =
      (found-IsThere found nodes, discover-keeps found j n nodes h)
