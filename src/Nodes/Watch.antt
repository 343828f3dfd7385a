-- ===== src/Nodes/Watch.antt =====
-- The tasks that `connectWithInterval` of vnode_controller/vnode_controller.go runs while a node is
-- taken over: every 10 seconds it asks the base for its health, every 15 seconds for all its modules,
-- and every 3 seconds it looks whether the node is dead. Errors of the tunnel are only logged.
use virtual_kubelet.Common.{none, some, List, [], ◌∷◌, ℤ, Text, lookup, if◌then◌else◌}
use virtual_kubelet.Nodes.{Nodes, is_dead, node_shutdown}

-- What is asked of the tunnel.
pub data Ask : Type 0 where
  fetch_health_data query_all_biz_status_data : Text → Ask

-- A task that fires; the last one reads the clock.
pub data Tick : Type 0 where
  health modules : Tick
  check : ℤ → Tick

pub record Watched (S : Type 0) : Type 0 where
  pub nodes : Nodes S
  pub asked : List Ask

module _ {S : Type 0} (name : Text) where
  -- The node that is taken over is the one that the store has.
  unfoldable pub check_dead : ℤ → Nodes S → Nodes S
  unfolding is_dead node_shutdown
  check_dead now nodes = elim (lookup name nodes) [
    | none ↦ nodes
    | some n ↦ if is_dead now n then node_shutdown now name nodes else nodes
  ]

  unfoldable pub on_tick : Tick → Watched S → Watched S
  unfolding check_dead
  on_tick health w = record w { asked = fetch_health_data name ∷ w.asked }
  on_tick modules w = record w { asked = query_all_biz_status_data name ∷ w.asked }
  on_tick (check now) w = record w { nodes = check_dead now w.nodes }

  unfoldable pub connect_with_interval : List Tick → Watched S → Watched S
  unfolding on_tick
  connect_with_interval [] w = w
  connect_with_interval (t ∷ ts) w = connect_with_interval ts (on_tick t w)
