-- ===== src/NodeRun/Tests.antt =====
-- Calls of `Run` (virtual_kubelet/node/nodeutil/controller.go): one that is ready, and a second one
-- that comes while the first still runs.
use virtual_kubelet.Common.{◌≡◌, ◌≤◌, ◌⊎◌, refl, true, false, [], All, length, arith}
use virtual_kubelet.NodeRun.{
  off, Run, new_call, call_run, close_pods_ready, close_node_ready, close_ready, pods_clean,
  workers_start, run_queues, pods_start, node_start, sees_pods, sees_node, cancels, called, acts,
  none_yet, and_then, Reach,
}
use virtual_kubelet.NodeRun.Invariant.{Reach-first}
use virtual_kubelet.NodeRun.Again.{all_past, all_back, CanCrash, Reach-again}

-- The node is ready.
served :
    (r : Run) × Reach r × (length r.calls ≡ 1) × (r.channels.ready ≡ true) × (r.crashed ≡ false)
unfolding new_call call_run run_queues close_pods_ready close_node_ready close_ready
served =
    let r1 = and_then none_yet refl called in
    let r2 = and_then r1 refl (acts [] [] _ _ refl (pods_clean refl)) in
    let r2' = and_then r2 refl (acts [] [] _ _ refl (workers_start refl)) in
    let r3 = and_then r2' refl (acts [] [] _ _ refl (pods_start refl)) in
    let r4 = and_then r3 refl (acts [] [] _ _ refl (sees_pods refl refl)) in
    let r5 = and_then r4 refl (acts [] [] _ _ refl (node_start refl)) in
    let r6 = and_then r5 refl (acts [] [] _ _ refl (sees_node refl refl)) in
    (_, r6, refl, refl, refl)

abbrev in_service : Run
in_service = served.0

Reach-first_example :
    (in_service.crashed ≡ false)
    × ((in_service.channels.ready ≡ false)
        ⊎ ((in_service.channels.pods_ready ≡ true) × (in_service.channels.node_ready ≡ true)))
    × ((in_service.channels.done ≡ false)
        ⊎ All (λ c. (c.pods ≡ off) × (c.node ≡ off)) in_service.calls)
unfolding served
Reach-first_example = Reach-first served.1 (omega arith)

-- The context of the first call ends, and `Run` is called again before that one has returned.
again : (r : Run) × Reach r × (length r.calls ≡ 2)
unfolding served new_call call_run close_pods_ready close_node_ready close_ready
again =
    let r1 = and_then served.1 refl (acts [] [] _ _ refl cancels) in
    let r2 = and_then r1 refl called in (_, r2, refl)

abbrev second_run : Run
second_run = again.0

Reach-again_example :
    (all_past second_run.calls ≤ 1)
    × (all_back second_run.calls ≤ 1)
    × ((length second_run.calls ≤ 1) ⊎ CanCrash second_run)
Reach-again_example = Reach-again again.1
