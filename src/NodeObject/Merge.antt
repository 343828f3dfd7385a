-- ===== src/NodeObject/Merge.antt =====
-- What `MergeNodeFromProvider` (common/utils/utils.go) takes from the base's report, and what it
-- keeps of the node.
use virtual_kubelet.Common.{
  ◌≡◌, refl, ◌∙◌, subst, ap, Option, none, some, List, [], ◌∷◌, Text, text_dec, Map, lookup, insert,
  lookup-insert, overlaid, lookup-insert_each, DistinctKeys, All, map, arith, ite,
}
use virtual_kubelet.Kube.Nodes.{NodeCondition, KubeNode, NodeStatusData}
use virtual_kubelet.NodeObject.{add_conditions, standard_conditions, merge_node_from_provider}

-- The first condition of a kind in a node's list.
unfoldable pub find_condition : Text → List NodeCondition → Option NodeCondition
find_condition kind [] = none
find_condition kind (c ∷ cs) = ite (text_dec c.kind kind) (some c) (find_condition kind cs)

-- The last condition of a kind that a base reports, or else the one given.
unfoldable pub last_condition :
    Text → List NodeCondition → Option NodeCondition → Option NodeCondition
last_condition kind [] old = old
last_condition kind (c ∷ cs) old = last_condition kind cs (ite (text_dec c.kind kind) (some c) old)

-- Every condition stands under its kind.
abbrev Kinds : Map NodeCondition → Type 0
Kinds = All (λ (e : Text × NodeCondition). e.1.kind ≡ e.0)

Kinds-insert : (c : NodeCondition) (m : Map NodeCondition) → Kinds m → Kinds (insert c.kind c m)
unfolding insert
Kinds-insert c [] h = (refl, tt)
Kinds-insert c ((k, v) ∷ m) h = ground (arith, Kinds-insert c m h.1)

Kinds-add :
    (cs : List NodeCondition) (m : Map NodeCondition) → Kinds m → Kinds (add_conditions cs m)
unfolding add_conditions
Kinds-add [] m h = h
Kinds-add (c ∷ cs) m h = Kinds-add cs (insert c.kind c m) (Kinds-insert c m h)

Kinds-standard : Kinds standard_conditions
unfolding standard_conditions
Kinds-standard = (refl, (refl, (refl, (refl, (refl, tt)))))

find-values :
    (kind : Text) (m : Map NodeCondition)
    → Kinds m
    → find_condition kind (map (λ e. e.1) m) ≡ lookup kind m
unfolding find_condition lookup
find-values kind [] h = refl
find-values kind ((k, v) ∷ m) h =
    subst
      (λ x.
        ite (text_dec v.kind kind) (some v) (find_condition kind (map (λ e. e.1) m))
        ≡ ite (text_dec x kind) (some v) (lookup kind m))
      h.0 (ap (ite (text_dec v.kind kind) (some v)) (find-values kind m h.1))

lookup-add :
    (kind : Text) (cs : List NodeCondition) (m : Map NodeCondition)
    → lookup kind (add_conditions cs m) ≡ last_condition kind cs (lookup kind m)
unfolding add_conditions last_condition
lookup-add kind [] m = refl
lookup-add kind (c ∷ cs) m =
    lookup-add kind cs (insert c.kind c m)
    ∙ ap (last_condition kind cs) (lookup-insert c.kind kind c m)

-- The merged node has of each kind the last condition that the base reports, and else the standard
-- one, if there is one for the kind.
pub merge_node-conditions :
    (node : KubeNode) (report : NodeStatusData) (kind : Text)
    → find_condition kind (merge_node_from_provider node report).status.conditions
      ≡ last_condition kind report.custom_conditions (lookup kind standard_conditions)
unfolding merge_node_from_provider
merge_node-conditions node report kind =
    let m = add_conditions report.custom_conditions standard_conditions in
    find-values kind m (Kinds-add report.custom_conditions standard_conditions Kinds-standard)
    ∙ lookup-add kind report.custom_conditions standard_conditions

-- A resource that the base reports has its capacity and allocatable amount in the merged node, every
-- other resource those it had; the labels, annotations, taints and addresses stay, if no resource is
-- reported twice.
pub merge_node-resources :
    (node : KubeNode) (report : NodeStatusData) (resource : Text)
    → DistinctKeys report.resources
    → let merged = merge_node_from_provider node report in
      (lookup resource merged.status.capacity
        ≡ overlaid
            (λ r. r.capacity)
            (lookup resource report.resources)
            (lookup resource node.status.capacity))
      × (lookup resource merged.status.allocatable
          ≡ overlaid
              (λ r. r.allocatable)
              (lookup resource report.resources)
              (lookup resource node.status.allocatable))
      × (merged ≡ record node { status = merged.status })
      × (merged.status.addresses ≡ node.status.addresses)
unfolding merge_node_from_provider
merge_node-resources node report resource d = (
  lookup-insert_each (λ r. r.capacity) resource report.resources node.status.capacity d,
  lookup-insert_each (λ r. r.allocatable) resource report.resources node.status.allocatable d,
  refl,
  refl,
)
