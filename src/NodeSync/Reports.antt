-- ===== src/NodeSync/Reports.antt =====
-- From a base's report to Kubernetes: `Notify` of provider/vnode_provider.go, and the update in the
-- control loop of virtual_kubelet/node/node.go.
use virtual_kubelet.Common.{
  ◌≡◌, refl, sym, ◌∙◌, subst, ap, Bool, true, false, Option, List, [], ◌∷◌, ℤ, Text, map, lookup,
  DistinctKeys, overlaid, arith,
}
use mathlib.Core.Option
use virtual_kubelet.Kube.Nodes.{KubeNode, NodeCondition, NodeStatusData}
use virtual_kubelet.NodeObject.{merge_node_from_provider, standard_conditions}
use virtual_kubelet.NodeObject.Merge.{
  find_condition, last_condition, merge_node-conditions, merge_node-resources,
}
use virtual_kubelet.Pods.{Outcome, ok, panic, error}
use virtual_kubelet.NodeSync.{
  answered, Api, Attempt, RetryOnConflict, Controller, beat, update_node_status_heartbeat, Handler,
  update_status,
}
use virtual_kubelet.NodeSync.Loop.{take_over, notify, sent, skipped, notify_panic}
use virtual_kubelet.NodeSync.Answers.{Chained, IsPatched, Fine, update_status-Fine}
use virtual_kubelet.NodeSync.Follow.{under, update-provider}

find-beat :
    (now : ℤ) (kind : Text) (cs : List NodeCondition)
    → find_condition kind (map (beat now) cs) ≡ Option.map (beat now) (find_condition kind cs)
unfolding find_condition
find-beat now kind [] = refl
find-beat now kind (c ∷ cs) = ground (arith, find-beat now kind cs)

-- The node shows the conditions and resources of a report, with every condition stamped.
abbrev pub Shows : NodeStatusData → ℤ → KubeNode → KubeNode → Type 0
Shows report now cached node =
    ((kind : Text)
      → find_condition kind node.status.conditions
        ≡ Option.map (beat now)
            (last_condition kind report.custom_conditions (lookup kind standard_conditions)))
    × ((resource : Text)
        → lookup resource node.status.capacity
          ≡ overlaid (λ r. r.capacity) (lookup resource report.resources)
              (lookup resource cached.status.capacity))
    × ((resource : Text)
        → lookup resource node.status.allocatable
          ≡ overlaid (λ r. r.allocatable) (lookup resource report.resources)
              (lookup resource cached.status.allocatable))
    × (node.labels ≡ cached.labels)

under-Shows :
    (report : NodeStatusData) (now : ℤ) (cached own : KubeNode)
    → DistinctKeys report.resources
    → Shows report now cached (under own (merge_node_from_provider cached report) now)
unfolding update_node_status_heartbeat
under-Shows report now cached own d =
    let merged = merge_node_from_provider cached report in
    (
      λ kind.
          find-beat now kind merged.status.conditions
          ∙ ap (Option.map (beat now)) (merge_node-conditions cached report kind),
      λ resource. (merge_node-resources cached report resource d).0,
      λ resource. (merge_node-resources cached report resource d).1,
      ap (λ (n : KubeNode). n.labels) (merge_node-resources cached report [] d).2,
    )

module _ {S : Type 0} (api : Api S) (retry : RetryOnConflict (Attempt S)) where
  IsPatched-Shows :
      (report : NodeStatusData) (now : ℤ) (cached : KubeNode) (r : Outcome × Controller S)
      → r.0 ≡ ok
      → Fine api retry r
      → Shows report now cached r.1.provider_node
      → (node answer : KubeNode) × IsPatched node answer r.1.calls × Shows report now cached node
  IsPatched-Shows report now cached (ok, c) e h s = (c.provider_node, c.server_node, h.1, s)
  IsPatched-Shows report now cached (error x, c) e h s = let bad : ⊥ = cc in elim bad [ ]
  IsPatched-Shows report now cached (panic, c) e h s = let bad : ⊥ = cc in elim bad [ ]

  notify-sent :
      (registered : Bool) (cached node : KubeNode) (report : NodeStatusData)
      → notify registered (answered cached) report ≡ sent node
      → merge_node_from_provider cached report ≡ node
  unfolding notify
  notify-sent true cached node report h =
      ap (λ x. elim x [ sent n ↦ n | skipped ↦ cached | notify_panic ↦ cached ]) h
  notify-sent false cached node report h = cc

  -- If a report for a node that the cache has leads to a node that is sent to the controller, and the
  -- update that this node leads to succeeds, then the latest call is a patch that Kubernetes took, of a
  -- node with the labels of the cached one, with the reported conditions, or else the standard ones,
  -- each stamped with the time, and with the reported capacities and allocatable amounts, every other
  -- resource having those of the cached one; if no resource is reported twice and the calls so far
  -- patched only what was read just before.
  pub report-IsPatched :
      (handler : Option (Handler api retry)) (now : ℤ) (registered : Bool) (cached node : KubeNode)
      (report : NodeStatusData) (c : Controller S)
      → Chained c.calls
      → DistinctKeys report.resources
      → notify registered (answered cached) report ≡ sent node
      → (update_status api retry now handler (take_over api retry node c)).0 ≡ ok
      → let r = update_status api retry now handler (take_over api retry node c) in
        (patched answer : KubeNode) × IsPatched patched answer r.1.calls
        × Shows report now cached patched
  unfolding take_over
  report-IsPatched handler now registered cached node report c h d g e =
      let merged = notify-sent registered cached node report g in
      let u = take_over api retry node c in
      IsPatched-Shows report now cached (update_status api retry now handler u) e
        (update_status-Fine api retry now handler u h)
        (subst (Shows report now cached) (sym (update-provider api retry now handler node c)) (
          subst (λ n. Shows report now cached (under c.provider_node n now)) merged
            (under-Shows report now cached c.provider_node d)))
