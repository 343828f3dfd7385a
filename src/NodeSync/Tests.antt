-- ===== src/NodeSync/Tests.antt =====
-- The node controller (virtual_kubelet/node/node.go) against a server with at most one node.
use virtual_kubelet.Common.{
  ℕ, zero, suc, ◌≡◌, ◌<◌, refl, true, Bool-cases, inl, inr, Option, none, some, [], ◌∷◌, pos, text,
  lookup, not_found, Error, is_not_found, is_conflict, arith, if◌then◌else◌,
}
use virtual_kubelet.Kube.Nodes.{KubeNode, NodeStatusData}
use virtual_kubelet.NodeObject.{condition, merge_node_from_provider}
use virtual_kubelet.NodeObject.Restart.{node_for}
use virtual_kubelet.NodeObject.Tests.{settings, info}
use virtual_kubelet.Pods.{ok}
use virtual_kubelet.NodeSync.{
  answered, failed, Api, rerun, is_conflicting, Conflicts, RetryOnConflict, Controller,
  update_node_status_heartbeat, after_patch, after_get, update_once, result_of, update_node_status,
  store_updated, after_handler, handle_error, settle, update_status, after_create, register,
  register_missing, ensure_node,
}
use virtual_kubelet.NodeSync.Loop.{take_over, go_on, control_loop, loop_if_ok, run, notify, sent}
use virtual_kubelet.NodeSync.Answers.{IsPatched}
use virtual_kubelet.NodeSync.Trace.{Registered, Safe, ensure_node-Registered, run-Safe}
use virtual_kubelet.NodeSync.Follow.{under, control_loop-forgets}
use virtual_kubelet.NodeSync.Reports.{Shows, report-IsPatched}

-- `RetryOnConflict` as a loop on the number of runs left.
again_if_conflict : {T : Type 0} → (T → Option Error × T) → ℕ → T → Option Error × T
again_if_conflict f zero s = f s
again_if_conflict f (suc n) s =
    let rest = again_if_conflict f n (f s).1 in if is_conflicting f (f s).0 then rest else f s

again_if_conflict-law :
    {T : Type 0} (f : T → Option Error × T) (n : ℕ) (s : T)
    → (k : ℕ) × (k < suc n) × Conflicts f k s × (again_if_conflict f n s ≡ rerun f k s)
unfolding again_if_conflict
again_if_conflict-law f zero s = (0, omega arith, tt, refl)
again_if_conflict-law f (suc n) s = elim (Bool-cases (is_conflicting f (f s).0)) [
  | inl h ↦
      let (k, few, conflicts, e) = again_if_conflict-law f n (f s).1 in
      (suc k, omega arith, (h, conflicts), rw (h, e))
  | inr h ↦ (0, omega arith, tt, rw h)
]

abbrev retrying : {T : Type 0} → RetryOnConflict T
retrying = record { run = λ f. again_if_conflict f 4; law = λ f. again_if_conflict-law f 4 }

abbrev server : Api (Option KubeNode)
server = record {
  get = λ namespace name s. (elim s [ none ↦ failed not_found | some n ↦ answered n ], s);
  patch_status = λ new base s. (answered new, some new);
  create = λ new s. (answered (record new { uid = text "u1" }), some new);
}

abbrev node : KubeNode
node = node_for settings info

abbrev start : Option KubeNode → Controller (Option KubeNode)
start s = record { provider_node = node; server_node = node; server = s; calls = [] }

ensure_node-Registered_example :
    Registered server retrying (ensure_node server retrying (pos 7) (start none))
ensure_node-Registered_example = ensure_node-Registered server retrying (pos 7) (start none) tt

-- The node is read, found missing, and created.
registered : (ensure_node server retrying (pos 7) (start none)).0 ≡ ok
unfolding again_if_conflict ensure_node update_status update_node_status_heartbeat
    update_node_status update_once after_get result_of settle handle_error register_missing register
    after_create is_not_found is_conflict
registered = refl

run-Safe_example :
    Safe server retrying
      (run server retrying none (pos 7) ((node, pos 8) ∷ (node, pos 9) ∷ []) (start none))
run-Safe_example =
    run-Safe server retrying none (pos 7) ((node, pos 8) ∷ (node, pos 9) ∷ []) (start none) refl

abbrev relabelled : KubeNode
relabelled = record node { labels = [] }

control_loop-forgets_example :
    let (r, c') =
      control_loop server retrying none ((node, pos 8) ∷ (relabelled, pos 9) ∷ []) (start none) in
    (r ≡ ok) × (c'.provider_node ≡ under node relabelled (pos 9))
control_loop-forgets_example =
    control_loop-forgets server retrying none ((node, pos 8) ∷ []) relabelled (pos 9) (start none)
      tt

abbrev report : NodeStatusData
report = record {
  resources = (text "memory", record { capacity = text "64Ki"; allocatable = text "32Ki" }) ∷ [];
  custom_conditions = condition (text "Ready") (text "False") ∷ [];
  node_state = [];
}

report_taken :
    (update_status server retrying
      (pos 8)
      none
      (take_over server retrying (merge_node_from_provider node report) (start (some node)))).0
    ≡ ok
unfolding again_if_conflict update_status update_node_status_heartbeat update_node_status
    update_once after_get after_patch result_of settle store_updated take_over
report_taken = refl

report_sent : notify true (answered node) report ≡ sent (merge_node_from_provider node report)
unfolding notify
report_sent = refl

report-IsPatched_example :
    let r =
      update_status server retrying
        (pos 8)
        none
        (take_over server retrying (merge_node_from_provider node report) (start (some node))) in
    (new answer : KubeNode) × IsPatched new answer r.1.calls × Shows report (pos 8) node new
unfolding lookup
report-IsPatched_example =
    report-IsPatched server retrying none (pos 8) true node (merge_node_from_provider node report)
      report (start (some node)) tt (refl, tt) report_sent report_taken

node_sync_program : Unit {0}
unfolding update_node_status_heartbeat after_patch after_get update_once result_of
    update_node_status store_updated after_handler handle_error settle update_status after_create
    register register_missing ensure_node take_over go_on control_loop loop_if_ok run notify
node_sync_program = tt
