-- ===== src/NodeObject/Restart.antt =====
-- What is left of a virtual node after the program starts again and reads it back from Kubernetes:
-- `discoverPreviousNodes` and `createVNode` of vnode_controller/vnode_controller.go over
-- `ConvertNodeToNodeInfo` of common/utils/utils.go.
use virtual_kubelet.Common.{
  ◌≡◌, refl, ◌∙◌, ap, Option, none, [], ◌∷◌, Text, text_dec, text, Map, lookup, insert, insert_each,
  overlaid, lookup-insert_each, DistinctKeys, DistinctKeys-insert, DistinctKeys-insert_each,
}
use virtual_kubelet.Kube.Nodes.{KubeNode, NodeInfo, NodeStatus, BuildVNodeConfig}
use virtual_kubelet.NodeObject.{
  or_else, node_labels, build_node, default_node, set_architecture, Settings, config_of,
  scan_addresses, convert_node_to_node_info, value_of,
}

-- The node object for what a base announces.
abbrev pub node_for : Settings → NodeInfo → KubeNode
node_for settings info =
    build_node (config_of settings info) (set_architecture [] [] (default_node info.name))

DistinctKeys-labels :
    (config : BuildVNodeConfig) (m : Map Text)
    → DistinctKeys m
    → DistinctKeys (node_labels config m)
unfolding node_labels
DistinctKeys-labels config m d = DistinctKeys-insert _ _ _ (
    DistinctKeys-insert _ _ _ (
      DistinctKeys-insert _ _ _ (
        DistinctKeys-insert _ _ _
          (DistinctKeys-insert _ _ _ (DistinctKeys-insert _ _ _ (DistinctKeys-insert _ _ _ d))))))

DistinctKeys-default : (name : Text) → DistinctKeys (default_node name).labels
unfolding default_node lookup text_dec
DistinctKeys-default name = (refl, (refl, (refl, tt)))

pub node_for-DistinctKeys :
    (settings : Settings) (info : NodeInfo) → DistinctKeys (node_for settings info).labels
unfolding build_node set_architecture config_of
node_for-DistinctKeys settings info =
    DistinctKeys-insert_each (λ v. v) info.custom_labels _
      (DistinctKeys-labels (config_of settings info) _ (DistinctKeys-default info.name))

labels-read :
    (settings : Settings) (info : NodeInfo) (key : Text) (old : Map Text)
    → DistinctKeys info.custom_labels
    → lookup key (insert_each (λ v. v) info.custom_labels old)
      ≡ overlaid (λ v. v) (lookup key info.custom_labels) (lookup key old)
labels-read settings info key old d = lookup-insert_each (λ v. v) key info.custom_labels old d

overlaid-none :
    (found : Option Text) (old : Option Text)
    → found ≡ none
    → overlaid (λ (v : Text). v) found old ≡ old
overlaid-none found old h = rw h

-- What is announced is read back from the node object: the name, the base's name, version and
-- cluster, the host name, and the address, which is the pseudo address if there is one; if the custom
-- labels have no key twice and none of those three.
pub convert-build_node :
    (settings : Settings) (info : NodeInfo)
    → DistinctKeys info.custom_labels
    → lookup (text "base.koupleless.io/name") info.custom_labels ≡ none
    → lookup (text "base.koupleless.io/version") info.custom_labels ≡ none
    → lookup (text "base.koupleless.io/cluster-name") info.custom_labels ≡ none
    → let node = node_for settings info in
      let back = convert_node_to_node_info node in
      (back.name ≡ info.name)
      × (back.base_name ≡ info.base_name)
      × (back.version ≡ info.version)
      × (back.cluster_name ≡ info.cluster_name)
      × (back.host_name ≡ info.host_name)
      × (back.node_ip ≡ or_else settings.pseudo_node_ip (or_else info.node_ip (text "127.0.0.1")))
unfolding convert_node_to_node_info build_node set_architecture default_node config_of
    scan_addresses or_else node_labels lookup insert text_dec
convert-build_node settings info d base version cluster = (
  refl,
  ap value_of (labels-read settings info _ _ d ∙ overlaid-none _ _ base),
  ap value_of (labels-read settings info _ _ d ∙ overlaid-none _ _ version),
  ap value_of (labels-read settings info _ _ d ∙ overlaid-none _ _ cluster),
  refl,
  refl,
)

abbrev with_ip : Text → NodeStatus → Text → NodeStatus
with_ip host status ip = record status {
  addresses =
      record { kind = text "InternalIP"; address = ip }
      ∷ record { kind = text "Hostname"; address = host }
      ∷ [];
}
