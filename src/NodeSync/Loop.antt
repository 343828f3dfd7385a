-- ===== src/NodeSync/Loop.antt =====
-- The control loop of virtual_kubelet/node/node.go, `Run`, and the notifications that feed the loop
-- (provider/vnode_provider.go).
use virtual_kubelet.Common.{Bool, Option, List, [], ◌∷◌, ℤ, if◌then◌else◌}
use virtual_kubelet.Kube.Nodes.{KubeNode, NodeStatusData}
use virtual_kubelet.NodeObject.{merge_node_from_provider}
use virtual_kubelet.Pods.{Outcome, ok, panic, error}
use virtual_kubelet.NodeSync.{
  Answer, failed, answered, Api, Attempt, RetryOnConflict, Controller, Handler, update_status,
  ensure_node,
}

module _ {S : Type 0} (api : Api S) (retry : RetryOnConflict (Attempt S)) where
  -- What the loop takes over from a node that the provider sends.
  unfoldable pub take_over : KubeNode → Controller S → Controller S
  take_over sent c = record c {
    provider_node = record c.provider_node {
      taints = sent.taints;
      status = sent.status;
      annotations = sent.annotations;
      labels = sent.labels;
    };
  }

  -- An error of the update is only logged.
  unfoldable pub go_on : Outcome × Controller S → Outcome × Controller S → Outcome × Controller S
  go_on (panic, c) rest = (panic, c)
  go_on (_, c) rest = rest

  -- The nodes that arrive, each with the time, until the context ends.
  unfoldable pub control_loop :
      Option (Handler api retry) → List (KubeNode × ℤ) → Controller S → Outcome × Controller S
  unfolding take_over update_status go_on
  control_loop handler [] c = (ok, c)
  control_loop handler ((sent, now) ∷ rest) c =
      let r = update_status api retry now handler (take_over sent c) in
      go_on r (control_loop handler rest r.1)

  unfoldable pub loop_if_ok :
      Option (Handler api retry)
      → List (KubeNode × ℤ)
      → Outcome × Controller S
      → Outcome × Controller S
  unfolding control_loop
  loop_if_ok handler sent (ok, c) = control_loop handler sent c
  loop_if_ok handler sent (panic, c) = (panic, c)
  loop_if_ok handler sent (error e, c) = (error e, c)

  -- `Run`: the provider's node starts as a copy of the server's.
  unfoldable pub run :
      Option (Handler api retry) → ℤ → List (KubeNode × ℤ) → Controller S → Outcome × Controller S
  unfolding ensure_node loop_if_ok
  run handler now sent c =
      loop_if_ok handler sent
        (ensure_node api retry now (record c { provider_node = c.server_node }))

-- What `Notify` does with the answer of the cache: `registered` is whether the controller has set
-- the callback, without which the call panics.
pub data Notified : Type 0 where
  skipped notify_panic : Notified
  sent : KubeNode → Notified

unfoldable pub notify : Bool → Answer → NodeStatusData → Notified
unfolding merge_node_from_provider
notify registered (failed e) report = skipped
notify registered (answered node) report =
    if registered then sent (merge_node_from_provider node report) else notify_panic
