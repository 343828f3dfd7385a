-- ===== src/Nodes/Alive.antt =====
-- When a virtual node counts as reachable, and when as dead (provider/liveness.go,
-- provider/vnode_store.go), and the workload that follows (vnode_controller/vnode_controller.go).
use virtual_kubelet.Common.{
  ℕ, ◌+◌, ◌*◌, ◌/◌, ◌≤◌, ◌<◌, ◌≡◌, refl, Bool, true, false, not, [], ◌∷◌, ℤ, pos, negsuc, ◌<ℤ◌,
  ◌+ℤ◌, leb_ℤ, length, ◌==◌, dec_lt, +ℤ_parts, -ℤ_parts, arith, if-holds, Option, none, some, List,
  Text, suc,
}
use native.Mathlib.Nat.{div-add-mod', mul-le-mul_right}
use virtual_kubelet.Nodes.{
  Node, Nodes, update_heart_beat_time, is_dead, close, is_reachable, names_where, all_node_num,
  running_node_num, get_dead_v_nodes, workload_level, add_outdated, get_lease_outdated_v_node_names,
  get_lease_occupied_v_nodes,
}
use virtual_kubelet.Lease.{is_leader}
use mathlib.Core.Option

module _ {S : Type 0} where
  -- After a heart beat at time `t` a node is reachable up to 25 seconds later and dead from 60
  -- seconds later on; a closed one is dead and unreachable whatever the time; none is both.
  pub heart_beat_window :
      (n : Node S) (t now : ℤ)
      → (is_reachable now (update_heart_beat_time t n) ≡ leb_ℤ now (t +ℤ pos 25_000_000_000))
        × (is_dead now (update_heart_beat_time t n) ≡ leb_ℤ (t +ℤ pos 60_000_000_000) now)
        × (is_dead now (close t n) ≡ true)
        × (is_reachable now (close t n) ≡ false)
        × (is_dead now n ≡ true → is_reachable now n ≡ false)
  unfolding is_reachable is_dead update_heart_beat_time close
  heart_beat_window n t now =
      let a = -ℤ_parts now t in
      let b = +ℤ_parts t (pos 25_000_000_000) in
      let c = +ℤ_parts t (pos 60_000_000_000) in
      let d = -ℤ_parts now n.heart_beat in
      (ground arith, ground arith, refl, refl, λ h. ground arith)

  -- Every node of the map is counted as running or listed as dead, and no other.
  pub running-dead_total :
      (now : ℤ) (nodes : Nodes S)
      → running_node_num now nodes + length (get_dead_v_nodes now nodes) ≡ all_node_num nodes
  unfolding running_node_num get_dead_v_nodes all_node_num names_where
  running-dead_total now [] = refl
  running-dead_total now ((name, n) ∷ nodes) = ground (arith, running-dead_total now nodes)

  names_where-le :
      (p : Node S → Bool) (nodes : Nodes S) → length (names_where p nodes) ≤ length nodes
  unfolding names_where
  names_where-le p [] = omega arith
  names_where-le p ((name, n) ∷ nodes) = ground (arith, names_where-le p nodes)

share-lt : (r m a : ℕ) → r ≤ a → 0 < m → r * m / (a + 1) < m
share-lt r m a h g = elim (dec_lt (r * m / (a + 1)) m) [
  | yes less ↦ less
  | no more ↦
      let whole = div-add-mod' (r * m) (a + 1) in
      let upper = mul-le-mul_right m h in
      let lower : m * (a + 1) ≤ r * m / (a + 1) * (a + 1) =
        mul-le-mul_right (a + 1) (omega (arith, more)) in
      omega (arith, whole, upper, lower, g)
]

module _ {S : Type 0} where
  -- The workload level stays below its maximum, whatever nodes there are.
  pub workload_level-lt :
      (workload_max_level now : ℤ) (nodes : Nodes S)
      → pos 0 <ℤ workload_max_level
      → workload_level workload_max_level now nodes <ℤ workload_max_level
  unfolding workload_level running_node_num all_node_num
  workload_level-lt (negsuc m) now nodes h = absurd (omega (arith, h))
  workload_level-lt (pos m) now nodes h =
      if-holds (λ x. x <ℤ pos m) (all_node_num nodes == 0) (λ none. h)
        (λ some_there.
          let below =
            share-lt (running_node_num now nodes) m (length nodes)
              (names_where-le (λ n. not (is_dead now n)) nodes) (omega (arith, h)) in
          omega (arith, below))

-- Both fail, or the lists have so many names in all.
abbrev Counted : ℕ → Option (List Text) → Option (List Text) → Type 0
Counted k none none = Unit {0}
Counted k (some a) (some b) = length a + length b ≡ k
Counted k none (some b) = ⊥
Counted k (some a) none = ⊥

add_outdated-Counted :
    (k : ℕ) (name : Text) (leader : Option Bool) (a b : Option (List Text))
    → Counted k a b
    → Counted (suc k) (add_outdated name leader a) (add_outdated name (Option.map not leader) b)
unfolding add_outdated
add_outdated-Counted k name none a b h = tt
add_outdated-Counted k name (some leader) none none h = tt
add_outdated-Counted k name (some leader) none (some b) h = absurd h
add_outdated-Counted k name (some leader) (some a) none h = absurd h
add_outdated-Counted k name (some true) (some a) (some b) h = omega (arith, h)
add_outdated-Counted k name (some false) (some a) (some b) h = omega (arith, h)

module _ {S : Type 0} where
  -- Every node of the map counts as led by the client or as outdated, and no other, unless a lease
  -- without a holder or a renew time makes both functions panic.
  pub occupied-outdated_total :
      (client_id : Text) (now : ℤ) (nodes : Nodes S)
      → Counted
          (all_node_num nodes)
          (get_lease_outdated_v_node_names client_id now nodes)
          (get_lease_occupied_v_nodes client_id now nodes)
  unfolding all_node_num get_lease_outdated_v_node_names get_lease_occupied_v_nodes
  occupied-outdated_total client_id now [] = refl
  occupied-outdated_total client_id now ((name, n) ∷ nodes) =
      add_outdated-Counted (length nodes) name (is_leader client_id now n.lease) _ _
        (occupied-outdated_total client_id now nodes)
