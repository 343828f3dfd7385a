-- ===== src/Nodes/Updates.antt =====
-- Which updates of a pod are handed to the pod controller (vnode_controller/vnode_controller.go), and
-- which virtual nodes there are after bases have been discovered.
use virtual_kubelet.Common.{
  ◌≡◌, refl, ap, ite, Bool, true, false, ◌&&◌, ◌||◌, not, Option, none, some, is_some, List, [], ℤ,
  pos, negsuc, Text, arith, Map, lookup, lookup-insert, if◌then◌else◌, text_dec,
}
use virtual_kubelet.Kube.{Container, Pod}
use virtual_kubelet.Pods.{Cmp, pods_equal}
use virtual_kubelet.Nodes.{Node, Nodes, add_v_node}
use virtual_kubelet.Nodes.Handlers.{
  same_int, same_option, delete_grace_time_equal, pod_should_enqueue_for_delete,
  pod_should_enqueue_for_add, pod_should_enqueue, start_v_node,
}

same_int_lem : (a b : ℤ) → same_int a b ≡ true → a ≡ b
same_int_lem (pos a) (pos b) h = ground (arith, h)
same_int_lem (pos a) (negsuc b) h = cc
same_int_lem (negsuc a) (pos b) h = cc
same_int_lem (negsuc a) (negsuc b) h = ground (arith, h)

same_option_lem : (a b : Option ℤ) → same_option a b ≡ true → a ≡ b
same_option_lem none none h = refl
same_option_lem none (some b) h = cc
same_option_lem (some a) none h = cc
same_option_lem (some a) (some b) h = ap some (same_int_lem a b h)

-- The fields of which a change matters.
abbrev pub SameSpec : Pod → Pod → Type 0
SameSpec p q =
    (p.containers ≡ q.containers)
    × (p.init_containers ≡ q.init_containers)
    × (p.active_deadline_seconds ≡ q.active_deadline_seconds)
    × (p.tolerations ≡ q.tolerations)
    × (p.labels ≡ q.labels)
    × (p.annotations ≡ q.annotations)
    × (p.finalizers ≡ q.finalizers)

-- `cmp.Equal` tells different values apart.
abbrev pub Sound : Cmp → Type 0
Sound cmp =
    ((a b : List Container) → cmp.containers a b ≡ true → a ≡ b)
    × ((a b : Option ℤ) → cmp.deadlines a b ≡ true → a ≡ b)
    × ((a b : List Text) → cmp.texts a b ≡ true → a ≡ b)
    × ((a b : Map Text) → cmp.maps a b ≡ true → a ≡ b)

seven :
    (a b c d e f g : Bool)
    → (a && b && c && d && e && f && g) ≡ true
    → (a ≡ true) × (b ≡ true) × (c ≡ true) × (d ≡ true) × (e ≡ true) × (f ≡ true) × (g ≡ true)
seven a b c d e f g h = ground (arith, h)

four :
    (a b c d e : Bool)
    → (not a || (not b || not c) || (d && not e)) ≡ false
    → (a ≡ true) × (b ≡ true) × (c ≡ true) × (d ≡ true → e ≡ true)
four a b c d e h = ground (arith, h)

pods_equal-SameSpec : (cmp : Cmp) (p q : Pod) → Sound cmp → pods_equal cmp p q ≡ true → SameSpec p q
unfolding pods_equal
pods_equal-SameSpec cmp p q (c, d, t, m) h =
    let (h1, h2, h3, h4, h5, h6, h7) = seven _ _ _ _ _ _ _ h in
    (c _ _ h1, c _ _ h2, d _ _ h3, t _ _ h4, m _ _ h5, m _ _ h6, t _ _ h7)

-- An update that is dropped has left alone all that matters: the specification that may be updated,
-- the deletion time and grace period, and whether the pod has a node.
pub pod_should_enqueue_complete :
    (cmp : Cmp) (old new : Pod)
    → Sound cmp
    → pod_should_enqueue cmp old new ≡ false
    → SameSpec old new
      × (old.deletion_grace_period_seconds ≡ new.deletion_grace_period_seconds)
      × (old.deletion_timestamp ≡ new.deletion_timestamp)
      × (old.node_name ≡ [] → new.node_name ≡ [])
unfolding pod_should_enqueue pod_should_enqueue_for_delete pod_should_enqueue_for_add
    delete_grace_time_equal
pod_should_enqueue_complete cmp old new sound h =
    let (same, grace, time, node) = four _ _ _ _ _ h in
    (
      pods_equal-SameSpec cmp old new sound same,
      same_option_lem _ _ grace,
      same_option_lem _ _ time,
      λ e. ground (arith, node, e),
    )

module _ {S : Type 0} where
  -- A node that is there is not replaced: starting it again, also with another value, changes nothing;
  -- a new one is there afterwards, and all others stay.
  pub start_v_node-keeps :
      (name j : Text) (new : Node S) (nodes : Nodes S)
      → lookup j (start_v_node name (some new) nodes)
        ≡ ite
            (text_dec name j)
            (if is_some (lookup j nodes) then lookup j nodes else some new)
            (lookup j nodes)
  unfolding start_v_node add_v_node
  start_v_node-keeps name j new nodes = ground (arith, lookup-insert name j new nodes)
