-- ===== src/NodeObject/Tests.antt =====
-- Node objects (provider/vnode.go, common/utils/utils.go) at concrete values.
use virtual_kubelet.Common.{
  ◌≡◌, refl, none, [], ◌∷◌, text, text_dec, lookup, insert, insert_each, pos,
}
use virtual_kubelet.Kube.Nodes.{NodeInfo, NodeStatusData}
use virtual_kubelet.NodeObject.{
  Settings, or_else, condition, build_node, node_labels, default_node, set_architecture, config_of,
  new_v_node, made, convert_node_to_node_info, scan_addresses, merge_node_from_provider,
  add_conditions, standard_conditions,
}
use virtual_kubelet.NodeObject.Restart.{node_for, convert-build_node}

abbrev pub settings : Settings
settings = record {
  pseudo_node_ip = text "10.0.0.1";
  v_pod_type = text "pod";
  env = text "test";
  worker_num = pos 1;
}

abbrev pub info : NodeInfo
info = record {
  name = text "vnode.a.test";
  base_name = text "shop";
  version = text "1.0";
  cluster_name = text "east";
  node_ip = [];
  host_name = text "host-a";
  custom_taints = [];
  custom_labels = (text "zone", text "z1") ∷ [];
  custom_annotations = [];
  state = text "ACTIVATED";
}

abbrev report : NodeStatusData
report = record {
  resources = (text "memory", record { capacity = text "64Ki"; allocatable = text "32Ki" }) ∷ [];
  custom_conditions = condition (text "Ready") (text "False") ∷ [];
  node_state = [];
}

no_memory : lookup (text "memory") (node_for settings info).status.capacity ≡ none
unfolding lookup build_node text_dec
no_memory = refl

-- The architecture that `NewVNode` sets is gone from the node that is made.
architecture_lost :
    new_v_node (text "amd64") (text "linux") (config_of settings info)
    ≡ made (node_for settings info)
unfolding new_v_node build_node set_architecture config_of text_dec
architecture_lost = refl

convert-build_node_example :
    let back = convert_node_to_node_info (node_for settings info) in
    (back.name ≡ info.name)
    × (back.base_name ≡ info.base_name)
    × (back.version ≡ info.version)
    × (back.cluster_name ≡ info.cluster_name)
    × (back.host_name ≡ info.host_name)
    × (back.node_ip ≡ or_else settings.pseudo_node_ip (or_else info.node_ip (text "127.0.0.1")))
unfolding lookup text_dec
convert-build_node_example = convert-build_node settings info (refl, tt) refl refl refl

abbrev noted : NodeInfo
noted = record info { custom_annotations = (text "note", text "n") ∷ [] }

node_object_program : Unit {0}
unfolding text_dec lookup insert insert_each or_else node_labels build_node default_node
    set_architecture new_v_node config_of scan_addresses convert_node_to_node_info
    standard_conditions add_conditions merge_node_from_provider
node_object_program = tt
