-- ===== src/MockTunnel/Locked.antt =====
-- The lock of tunnel/mock_tunnel.go: `StopBiz` holds it while the callback runs, and it cannot be taken
-- twice.
use virtual_kubelet.Common.{◌≡◌, Bool, true, false, Option, none, some, ℤ, Text, text, lookup}
use virtual_kubelet.Kube.{Container, BizStatusData}
use virtual_kubelet.Biz.{get_biz_unique_key}
use virtual_kubelet.MockTunnel.{MockTunnel, biz_of, stop_found}

-- `none` blocks for ever.
unfoldable with_lock : Bool → Option MockTunnel → Option MockTunnel
with_lock true run = none
with_lock false run = run

module _ (now : ℤ) (node_name : Text)
    (callback : BizStatusData → MockTunnel → Option MockTunnel) where
  unfoldable stop_found_calling : Text → Option BizStatusData → MockTunnel → Option MockTunnel
  unfolding stop_found
  stop_found_calling key none m = some m
  stop_found_calling key (some entry) m =
      callback (record entry { state = text "STOPPED"; change_time = now })
        (stop_found now node_name key (some entry) m).1

  -- `held` is whether the lock is held already.
  unfoldable stop_biz_calling : Bool → Container → MockTunnel → Option MockTunnel
  unfolding with_lock stop_found_calling
  stop_biz_calling held c m =
      let key = get_biz_unique_key c in
      with_lock held (stop_found_calling key (lookup key (biz_of node_name m)) m)

-- Stopping a module that is there never returns if the callback stops any module, as that of the
-- controller does for a module that no pod has.
stop_biz-blocks :
    (now : ℤ) (node_name : Text) (callback inner : BizStatusData → MockTunnel → Option MockTunnel)
    (stopped : BizStatusData → Container) (c : Container) (entry : BizStatusData) (m : MockTunnel)
    → ((d : BizStatusData) (m : MockTunnel)
        → callback d m ≡ stop_biz_calling now node_name inner true (stopped d) m)
    → lookup (get_biz_unique_key c) (biz_of node_name m) ≡ some entry
    → stop_biz_calling now node_name callback false c m ≡ none
unfolding stop_biz_calling with_lock stop_found_calling
stop_biz-blocks now node_name callback inner stopped c entry m again e =
    rw (e, stop_found_calling) (again _ _)
