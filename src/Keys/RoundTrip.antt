-- ===== src/Keys/RoundTrip.antt =====
-- The keys of common/utils/utils.go and virtual_kubelet/node/pod.go can be taken apart again.
use virtual_kubelet.Common.{
  ◌≡◌, some, ◌∷◌, ◌++◌, Text, split, join, arith, Lacks, split-Lacks, split-append,
  split-append_last, join-split, split-cons, drop_last-append, cut_last-append, append_assoc,
}
use virtual_kubelet.Keys.{
  get_pod_key, get_namespace_and_name_from_pod_key, get_pod_key_from_container_key,
  get_container_name_from_container_key, get_container_key, vnode_prefix, format_node_name,
  extract_node_id_from_node_name, parts, split_meta_namespace_key, get_biz_identity,
  get_biz_name_and_version_from_unique_key, deletion_key, get_uid_and_meta_namespace_key,
}

-- A pod key gives back the namespace and the name it is made of, by both functions that take it
-- apart, if neither holds a slash.
pub get_pod_key-parts :
    (namespace name : Text)
    → Lacks b'/' namespace
    → Lacks b'/' name
    → (get_namespace_and_name_from_pod_key (get_pod_key namespace name) ≡ (namespace, name))
      × (split_meta_namespace_key (get_pod_key namespace name) ≡ parts namespace name)
unfolding get_pod_key get_namespace_and_name_from_pod_key split_meta_namespace_key
get_pod_key-parts namespace name h g =
    ground (arith, split-append namespace name b'/' h, split-Lacks name b'/' g)

-- A container key gives back its pod key and its container, whatever the container's name holds, if
-- namespace and pod name hold no slash.
pub get_container_key_parts :
    (namespace name container : Text)
    → Lacks b'/' namespace
    → Lacks b'/' name
    → let key = get_container_key (get_pod_key namespace name) container in
      (get_pod_key_from_container_key key ≡ some (get_pod_key namespace name))
      × (get_container_name_from_container_key key ≡ some container)
unfolding get_pod_key get_container_key get_pod_key_from_container_key
    get_container_name_from_container_key join
get_container_key_parts namespace name container h g = ground (
  arith,
  append_assoc namespace (b'/' ∷ name) (b'/' ∷ container),
  split-append namespace (name ++ b'/' ∷ container) b'/' h,
  split-append name container b'/' g,
  join-split container b'/',
)

-- "vnode" holds no dot.
prefix_Lacks : Lacks b'.' vnode_prefix
prefix_Lacks = omega arith

-- A node name gives back the node id, dots included, if the environment holds no dot.
pub extract-format :
    (node_id env : Text)
    → Lacks b'.' env
    → extract_node_id_from_node_name (format_node_name node_id env) ≡ node_id
unfolding extract_node_id_from_node_name format_node_name
extract-format node_id env h =
    let (p, ps, e) = split-cons node_id b'.' in
    ground (
      arith,
      e,
      split-append vnode_prefix (node_id ++ b'.' ∷ env) b'.' prefix_Lacks,
      split-append_last node_id env b'.' h,
      drop_last-append (split node_id b'.') env,
      join-split node_id b'.',
    )

-- A biz identity gives back name and version, if neither holds a colon.
pub get_biz_identity_parts :
    (name version : Text)
    → Lacks b':' name
    → Lacks b':' version
    → get_biz_name_and_version_from_unique_key (get_biz_identity name version) ≡ (name, version)
unfolding get_biz_identity get_biz_name_and_version_from_unique_key
get_biz_identity_parts name version h g =
    ground (arith, split-append name version b':' h, split-Lacks version b':' g)

-- The key of a pod to delete gives back the uid and the pod key, if the uid holds no slash.
pub deletion_key_parts :
    (key uid : Text)
    → Lacks b'/' uid
    → get_uid_and_meta_namespace_key (deletion_key key uid) ≡ some (uid, key)
unfolding get_uid_and_meta_namespace_key deletion_key
deletion_key_parts key uid h = ground (arith, cut_last-append key uid b'/' h)
