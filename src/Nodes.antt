-- ===== src/Nodes.antt =====
-- The virtual nodes of a client and the events that reach them: provider/liveness.go,
-- provider/vnode_store.go, the channels of provider/vnode.go, and the handlers of
-- vnode_controller/vnode_controller.go. A run of a handler reads the clock once.
pub mod Handlers
pub mod Watch
pub mod Alive
pub mod Silence
pub mod Guards
pub mod Events
pub mod Updates
pub mod Tests
use virtual_kubelet.Common.{
  ℕ, zero, suc, ◌+◌, ◌*◌, ◌/◌, ◌≡◌, Bool, true, false, ◌&&◌, ◌||◌, not, Option, none, some, is_some,
  List, [], ◌∷◌, ℤ, pos, ◌-ℤ◌, times_ℤ, over_ℤ, ltb_ℤ, leb_ℤ, Text, text, equal_fold, length, Map,
  lookup, insert, delete, Error, message, if◌then◌else◌, ◌==◌,
}
use mathlib.Core.Option
use virtual_kubelet.Lease.{Lease, is_leader}
use virtual_kubelet.Pods.{World}

-- `is_close` and `heart_beat` are its `Liveness`; the Booleans say which channels are closed.
pub record Node (S : Type 0) : Type 0 where
  pub lease : Option Lease
  pub is_close : Bool
  pub heart_beat : ℤ
  pub ready : Bool
  pub exit : Bool
  pub done : Bool
  pub pods : World S

module _ (S : Type 0) where
  abbrev pub Nodes : Type 0
  Nodes = Map (Node S)

unfoldable pub add_outdated : Text → Option Bool → Option (List Text) → Option (List Text)
add_outdated name (some false) (some names) = some (name ∷ names)
add_outdated name (some true) (some names) = some names
add_outdated name (some leader) none = none
add_outdated name none rest = none

module _ {S : Type 0} where
  unfoldable pub update_heart_beat_time : ℤ → Node S → Node S
  update_heart_beat_time now n = record n { is_close = false; heart_beat = now }

  -- Closed, or silent for 60 seconds.
  unfoldable pub is_dead : ℤ → Node S → Bool
  is_dead now n = n.is_close || leb_ℤ (pos 60_000_000_000) (now -ℤ n.heart_beat)

  unfoldable pub close : ℤ → Node S → Node S
  close now n = record n { is_close = true; heart_beat = now }

  -- Not closed, and heard of in the last 25 seconds.
  unfoldable pub is_reachable : ℤ → Node S → Bool
  is_reachable now n = not n.is_close && leb_ℤ (now -ℤ n.heart_beat) (pos 25_000_000_000)

  -- A channel that is closed already stays so.
  unfoldable pub shutdown : Node S → Node S
  shutdown n = if n.exit then n else record n { exit = true }

  unfoldable pub to_done : Node S → Node S
  to_done n = if n.done then n else record n { done = true }

  -- Closing a closed channel panics.
  unfoldable pub activate : Node S → Option (Node S)
  activate n = if n.ready then none else some (record n { ready = true })

  unfoldable pub reset_activation_status : Node S → Node S
  reset_activation_status n = record n { ready = false }

  unfoldable pub update_node_state_on_provider_arrived : ℤ → Text → Text → Nodes S → Nodes S
  unfolding update_heart_beat_time close equal_fold
  update_node_state_on_provider_arrived now name state nodes = elim (lookup name nodes) [
    | none ↦ nodes
    | some n ↦
        insert name
          (if equal_fold state (text "ACTIVATED")
            then update_heart_beat_time now n
            else close now n)
          nodes
  ]

  unfoldable pub node_shutdown : ℤ → Text → Nodes S → Nodes S
  unfolding close shutdown
  node_shutdown now name nodes = elim (lookup name nodes) [
    | none ↦ nodes
    | some n ↦ insert name (shutdown (close now n)) nodes
  ]

  unfoldable pub all_node_num : Nodes S → ℕ
  all_node_num nodes = length nodes

  unfoldable pub add_v_node : Text → Node S → Nodes S → Option Error × Nodes S
  add_v_node name n nodes =
      if is_some (lookup name nodes)
      then (some (message (text "node already exists")), nodes)
      else (none, insert name n nodes)

  unfoldable pub delete_v_node : Text → Nodes S → Nodes S
  delete_v_node name nodes = delete name nodes

  -- The names of the nodes with a property, in the map's order.
  unfoldable pub names_where : (Node S → Bool) → Nodes S → List Text
  names_where p [] = []
  names_where p ((name, n) ∷ nodes) =
      let rest = names_where p nodes in if p n then name ∷ rest else rest

  unfoldable pub running_node_num : ℤ → Nodes S → ℕ
  unfolding names_where is_dead
  running_node_num now nodes = length (names_where (λ n. not (is_dead now n)) nodes)

  unfoldable pub get_un_reachable_v_nodes : ℤ → Nodes S → List Text
  unfolding names_where is_reachable
  get_un_reachable_v_nodes now nodes = names_where (λ n. not (is_reachable now n)) nodes

  unfoldable pub get_dead_v_nodes : ℤ → Nodes S → List Text
  unfolding names_where is_dead
  get_dead_v_nodes now nodes = names_where (is_dead now) nodes

  -- `none` is the panic of `IsLeader` on a lease without a holder.
  unfoldable pub get_lease_outdated_v_node_names : Text → ℤ → Nodes S → Option (List Text)
  unfolding add_outdated is_leader
  get_lease_outdated_v_node_names client_id now [] = some []
  get_lease_outdated_v_node_names client_id now ((name, n) ∷ nodes) =
      add_outdated name (is_leader client_id now n.lease)
        (get_lease_outdated_v_node_names client_id now nodes)

  unfoldable pub get_lease_occupied_v_nodes : Text → ℤ → Nodes S → Option (List Text)
  unfolding add_outdated is_leader
  get_lease_occupied_v_nodes client_id now [] = some []
  get_lease_occupied_v_nodes client_id now ((name, n) ∷ nodes) =
      add_outdated name (Option.map not (is_leader client_id now n.lease))
        (get_lease_occupied_v_nodes client_id now nodes)

  unfoldable pub workload_level : ℤ → ℤ → Nodes S → ℤ
  unfolding all_node_num running_node_num
  workload_level workload_max_level now nodes =
      if all_node_num nodes == 0
      then pos 0
      else over_ℤ (times_ℤ (running_node_num now nodes) workload_max_level) (all_node_num nodes + 1)
