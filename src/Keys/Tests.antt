-- ===== src/Keys/Tests.antt =====
-- Keys of common/utils/utils.go on small inputs.
use virtual_kubelet.Common.{◌≡◌, refl, text, message, split, join, drop_last, cut_last}
use virtual_kubelet.Keys.{
  get_pod_key, two_parts, get_namespace_and_name_from_pod_key, first_two, after_two,
  get_pod_key_from_container_key, get_container_name_from_container_key, get_container_key,
  format_node_name, middle_parts, extract_node_id_from_node_name, name_parts, bad_key,
  split_meta_namespace_key, get_biz_identity, get_biz_name_and_version_from_unique_key,
  deletion_key, get_uid_and_meta_namespace_key,
}
use virtual_kubelet.Keys.Names.{PodKey, pod_key_of, pod_key_of-IsContr}
use mathlib.Core.Equiv.{IsContr, Fiber}

keys_program : Unit {0}
unfolding split join drop_last cut_last get_pod_key two_parts get_namespace_and_name_from_pod_key
    first_two after_two get_pod_key_from_container_key get_container_name_from_container_key
    get_container_key format_node_name middle_parts extract_node_id_from_node_name name_parts
    split_meta_namespace_key get_biz_identity get_biz_name_and_version_from_unique_key deletion_key
    get_uid_and_meta_namespace_key
keys_program = tt

-- A key with two slashes is none of a pod, and a node name with two dots has no environment to cut.
bad_key_test :
    split_meta_namespace_key (text "a/b/c") ≡ bad_key (message (text "unexpected key format"))
unfolding split split_meta_namespace_key name_parts
bad_key_test = refl

one_key : PodKey
unfolding split
one_key = (text "ns/a", refl)

pod_key_of-IsContr_example : IsContr (Fiber pod_key_of one_key)
pod_key_of-IsContr_example = pod_key_of-IsContr one_key
