-- ===== src/TakeOver/Sound.antt =====
-- What holds of a virtual node (provider/vnode.go, vnode_controller/vnode_controller.go) in every
-- interleaving.
use virtual_kubelet.Common.{◌≤◌, ◌≡◌, ◌≢◌, ◌⊎◌, Bool, true, false, arith}
use virtual_kubelet.TakeOver.{
  Main, waiting, starting, activating, checking, holding, stopped, Life, begin_take_over, activate,
  clean_up, release, Step, signalled, taken, ended, failed, registers, activates, found_ready,
  not_ready, lost, shut_down, exits, cancelled_watch, stale_exits, stale_cleans, deletes, Reach,
  at_start, next,
}

abbrev pub is_taken : Main → Bool
is_taken waiting = false
is_taken stopped = false
is_taken _ = true

abbrev is_watched : Main → Bool
is_watched activating = true
is_watched checking = true
is_watched holding = true
is_watched _ = false

abbrev pub is_active : Main → Bool
is_active checking = true
is_active holding = true
is_active _ = false

abbrev Inv : Life → Type 0
Inv s =
    (s.crashed ≡ false)
    × (s.take_overed ≡ is_taken s.main)
    × ((s.watching ≡ false) ⊎ (is_watched s.main ≡ true))
    × ((is_watched s.main ≡ false) ⊎ ((s.watching ≡ true) ⊎ (s.done ≡ true)))
    × ((s.ready ≡ false)
        ⊎ ((s.watching ≡ true) × (is_active s.main ≡ true))
        ⊎ ((s.done ≡ true) ⊎ (1 ≤ s.stale)))
    × ((s.ready ≡ false) ⊎ ((s.main ≢ activating) × (s.main ≢ starting)))
    × ((s.registered ≡ false) ⊎ ((s.watching ≡ true) ⊎ (1 ≤ s.stale)))
    × ((s.done ≡ false) ⊎ (s.exit ≡ true))
    × ((s.stored ≡ true) ⊎ (s.done ≡ true))
    × ((s.cancelled ≡ false) ⊎ (s.stored ≡ false))

Inv-step : (s t : Life) → Step s t → Inv s → Inv t
unfolding begin_take_over activate clean_up release
Inv-step s t (signalled e) h = ground arith
Inv-step s t (taken e f) h = ground arith
Inv-step s t (ended e f) h = ground arith
Inv-step s t (failed e) h = ground arith
Inv-step s t (registers e) h = ground arith
Inv-step s t (activates e) h = ground arith
Inv-step s t (found_ready e f) h = ground arith
Inv-step s t (not_ready e f) h = ground arith
Inv-step s t (lost e) h = ground arith
Inv-step s t shut_down h = ground arith
Inv-step s t (exits e f) h = ground arith
Inv-step s t (cancelled_watch e f) h = ground arith
Inv-step s t (stale_exits n e f) h = ground arith
Inv-step s t (stale_cleans n e) h = ground arith
Inv-step s t (deletes e f) h = ground arith

Reach-Inv : {s : Life} → Reach s → Inv s
Reach-Inv at_start = ground arith
Reach-Inv (next {s} {t} r up st) = Inv-step s t st (Reach-Inv r)

-- In every interleaving the node's channel is never closed twice, and it is marked as taken over
-- exactly while it is; a registration in the tunnel always has a goroutine left that takes it back, and
-- so has a closed channel `ready` outside a take-over, unless the node is done; the node is done only
-- after it was shut down, and is taken out of the store only once it is done.
pub Reach-Sound :
    {s : Life}
    → Reach s
    → (s.crashed ≡ false)
      × (s.take_overed ≡ is_taken s.main)
      × ((s.registered ≡ false) ⊎ ((s.watching ≡ true) ⊎ (1 ≤ s.stale)))
      × ((s.ready ≡ false)
          ⊎ ((s.watching ≡ true) × (is_active s.main ≡ true))
          ⊎ ((s.done ≡ true) ⊎ (1 ≤ s.stale)))
      × ((s.done ≡ false) ⊎ (s.exit ≡ true))
      × ((s.stored ≡ true) ⊎ (s.done ≡ true))
Reach-Sound {s} r = let h = Reach-Inv r in ground arith
