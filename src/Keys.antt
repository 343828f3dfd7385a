-- ===== src/Keys.antt =====
-- The keys of common/utils/utils.go and virtual_kubelet/node/pod.go: how pods, containers, nodes
-- and biz modules are named, and how the names are taken apart again.
pub mod RoundTrip
pub mod Names
pub mod Tests
use virtual_kubelet.Common.{
  ℕ, ◌≡◌, Option, none, some, List, [], ◌∷◌, ◌++◌, Text, text, split, join, drop_last, cut_last,
  Error, message,
}

-- `GetPodKey` of a pod that is there; it is "" for a nil pod.
unfoldable pub get_pod_key : Text → Text → Text
get_pod_key namespace name = namespace ++ b'/' ∷ name

unfoldable pub two_parts : List Text → Text × Text
two_parts (a ∷ b ∷ []) = (a, b)
two_parts _ = ([], [])

unfoldable pub get_namespace_and_name_from_pod_key : Text → Text × Text
unfolding two_parts
get_namespace_and_name_from_pod_key pod_key = two_parts (split pod_key b'/')

-- `strings.Join(parts[:2], "/")`; the slice panics on fewer parts.
unfoldable pub first_two : List Text → Option Text
first_two (a ∷ b ∷ rest) = some (join (a ∷ b ∷ []) b'/')
first_two _ = none

unfoldable pub after_two : List Text → Option Text
after_two (a ∷ b ∷ rest) = some (join rest b'/')
after_two _ = none

unfoldable pub get_pod_key_from_container_key : Text → Option Text
unfolding first_two
get_pod_key_from_container_key key = first_two (split key b'/')

unfoldable pub get_container_name_from_container_key : Text → Option Text
unfolding after_two
get_container_name_from_container_key key = after_two (split key b'/')

unfoldable pub get_container_key : Text → Text → Text
get_container_key pod_key container_name = pod_key ++ b'/' ∷ container_name

abbrev pub vnode_prefix : Text
vnode_prefix = text "vnode"

unfoldable pub format_node_name : Text → Text → Text
format_node_name node_id env = vnode_prefix ++ b'.' ∷ (node_id ++ b'.' ∷ env)

unfoldable pub middle_parts : List Text → Text
middle_parts [] = []
middle_parts (p ∷ []) = []
middle_parts (p ∷ q ∷ rest) = join (drop_last (q ∷ rest)) b'.'

unfoldable pub extract_node_id_from_node_name : Text → Text
unfolding middle_parts
extract_node_id_from_node_name node_name = middle_parts (split node_name b'.')

pub data KeyResult : Type 0 where
  parts : Text → Text → KeyResult
  bad_key : Error → KeyResult

unfoldable pub name_parts : List Text → KeyResult
name_parts (name ∷ []) = parts [] name
name_parts (namespace ∷ name ∷ []) = parts namespace name
name_parts _ = bad_key (message (text "unexpected key format"))

unfoldable pub split_meta_namespace_key : Text → KeyResult
unfolding name_parts
split_meta_namespace_key key = name_parts (split key b'/')

unfoldable pub get_biz_identity : Text → Text → Text
get_biz_identity biz_name biz_version = biz_name ++ b':' ∷ biz_version

unfoldable pub get_biz_name_and_version_from_unique_key : Text → Text × Text
unfolding two_parts
get_biz_name_and_version_from_unique_key key = two_parts (split key b':')

-- `fmt.Sprintf("%v/%v", key, pod.UID)`, the keys of the deletion queue.
unfoldable pub deletion_key : Text → Text → Text
deletion_key key uid = key ++ b'/' ∷ uid

-- The uid and the pod key; slicing at `LastIndex` -1 panics.
unfoldable pub get_uid_and_meta_namespace_key : Text → Option (Text × Text)
get_uid_and_meta_namespace_key key = elim (cut_last key b'/') [
  | none ↦ none
  | some (meta_key, uid) ↦ some (uid, meta_key)
]
