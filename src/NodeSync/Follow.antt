-- ===== src/NodeSync/Follow.antt =====
-- The control loop of virtual_kubelet/node/node.go as a follower: its node is the latest that the
-- provider has sent, whatever fails on the way.
use virtual_kubelet.Common.{
  ◌≡◌, refl, sym, ◌∙◌, subst, ap, Option, none, some, List, [], ◌∷◌, ◌++◌, ℤ, Error,
}
use virtual_kubelet.Kube.Nodes.{KubeNode}
use virtual_kubelet.Pods.{Outcome, ok, panic, error}
use virtual_kubelet.NodeSync.{
  Api, Attempt, RetryOnConflict, Controller, update_node_status_heartbeat, Updated, updated_to,
  update_failed, update_panic, store_updated, Handler, after_handler, handle_error, settle,
  update_status,
}
use virtual_kubelet.NodeSync.Loop.{take_over, go_on, control_loop}
use virtual_kubelet.NodeSync.Answers.{Chained, Fine, update_status-Fine}

-- The node that the provider sent at that time, under the identity of another.
abbrev pub under : KubeNode → KubeNode → ℤ → KubeNode
under own sent now = update_node_status_heartbeat now (record own {
  taints = sent.taints;
  status = sent.status;
  annotations = sent.annotations;
  labels = sent.labels;
})

-- The node that the loop has after these were sent.
unfoldable pub followed : List (KubeNode × ℤ) → KubeNode → KubeNode
followed [] own = own
followed ((sent, now) ∷ rest) own = followed rest (under own sent now)

module _ {S : Type 0} (api : Api S) (retry : RetryOnConflict (Attempt S)) where
  store-provider :
      (r : Updated) (c : Controller S)
      → (store_updated api retry r c).1.provider_node ≡ c.provider_node
  unfolding store_updated
  store-provider (updated_to n) c = refl
  store-provider (update_failed e) c = refl
  store-provider update_panic c = refl

  handler-provider :
      (e : Option Error) (c : Controller S)
      → (after_handler api retry e c).1.provider_node ≡ c.provider_node
  unfolding after_handler
  handler-provider (some e) c = refl
  handler-provider none c = store-provider _ _

  settle-provider :
      (handler : Option (Handler api retry)) (r : Updated) (c : Controller S)
      → (settle api retry handler r c).1.provider_node ≡ c.provider_node
  unfolding settle handle_error
  settle-provider none (update_failed e) c = refl
  settle-provider (some f) (update_failed e) c =
      handler-provider (f e c.server).0 (record c { server = (f e c.server).1 })
  settle-provider handler (updated_to n) c = store-provider (updated_to n) c
  settle-provider handler update_panic c = store-provider update_panic c

  pub update-provider :
      (now : ℤ) (handler : Option (Handler api retry)) (sent : KubeNode) (c : Controller S)
      → (update_status api retry now handler (take_over api retry sent c)).1.provider_node
        ≡ under c.provider_node sent now
  unfolding update_status take_over
  update-provider now handler sent c = settle-provider handler _ _

  go_on-no_panic :
      (r rest : Outcome × Controller S) → Fine api retry r → go_on api retry r rest ≡ rest
  unfolding go_on
  go_on-no_panic (ok, c) rest h = refl
  go_on-no_panic (error e, c) rest h = refl
  go_on-no_panic (panic, c) rest h = elim h [ ]

  Fine-Chained : (r : Outcome × Controller S) → Fine api retry r → Chained r.1.calls
  Fine-Chained (ok, c) h = h.0
  Fine-Chained (error e, c) h = h
  Fine-Chained (panic, c) h = elim h [ ]

  -- The loop ends without an error, and its node is the latest sent one under the loop's own identity,
  -- with every condition stamped with the time of its arrival, whatever calls fail on the way.
  pub control_loop-follows :
      (handler : Option (Handler api retry)) (sent : List (KubeNode × ℤ)) (c : Controller S)
      → Chained c.calls
      → let (r, c') = control_loop api retry handler sent c in
        (r ≡ ok) × (c'.provider_node ≡ followed sent c.provider_node)
  unfolding control_loop followed
  control_loop-follows handler [] c h = (refl, refl)
  control_loop-follows handler ((node, now) ∷ rest) c h =
      let u = take_over api retry node c in
      let r = update_status api retry now handler u in
      let fine = update_status-Fine api retry now handler u h in
      let next = control_loop-follows handler rest r.1 (Fine-Chained r fine) in
      subst
        (λ (x : Outcome × Controller S).
          (x.0 ≡ ok) × (x.1.provider_node ≡ followed rest (under c.provider_node node now)))
        (sym (go_on-no_panic r (control_loop api retry handler rest r.1) fine))
        (next.0, next.1 ∙ ap (followed rest) (update-provider now handler node c))

  last-followed :
      (before : List (KubeNode × ℤ)) (sent : KubeNode) (now : ℤ) (own : KubeNode)
      → followed (before ++ (sent, now) ∷ []) own ≡ under own sent now
  unfolding followed update_node_status_heartbeat
  last-followed [] sent now own = refl
  last-followed ((n, t) ∷ before) sent now own = last-followed before sent now (under own n t)

  -- The nodes that were sent before the latest leave no trace in the loop's node.
  pub control_loop-forgets :
      (handler : Option (Handler api retry)) (before : List (KubeNode × ℤ)) (sent : KubeNode)
      (now : ℤ) (c : Controller S)
      → Chained c.calls
      → let (r, c') = control_loop api retry handler (before ++ (sent, now) ∷ []) c in
        (r ≡ ok) × (c'.provider_node ≡ under c.provider_node sent now)
  control_loop-forgets handler before sent now c h =
      let (fine, e) = control_loop-follows handler (before ++ (sent, now) ∷ []) c h in
      (fine, e ∙ last-followed before sent now c.provider_node)
