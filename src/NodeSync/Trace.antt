-- ===== src/NodeSync/Trace.antt =====
-- What the node controller (virtual_kubelet/node/node.go) asks of Kubernetes, in which order, and how
-- its results rest on the answers.
use virtual_kubelet.Common.{
  ◌≡◌, refl, sym, subst, ◌⊎◌, inl, inr, false, Option, some, List, [], ◌∷◌, ℤ, Error, is_not_found,
  wrapped, text, if-holds,
}
use virtual_kubelet.Kube.Nodes.{KubeNode}
use virtual_kubelet.Pods.{Outcome, ok, panic, error}
use virtual_kubelet.NodeSync.{
  Answer, answered, failed, Api, Call, created, Attempt, RetryOnConflict, Controller,
  update_node_status_heartbeat, Handler, update_status, after_create, register, register_missing,
  ensure_node,
}
use virtual_kubelet.NodeSync.Loop.{take_over, go_on, control_loop, loop_if_ok, run}
use virtual_kubelet.NodeSync.Answers.{
  last_answer, IsMissing, Chained, IsPatched, update-Good, Fine, update_status-Fine, Exact,
  settle-Exact,
}

module _ {S : Type 0} (api : Api S) (retry : RetryOnConflict (Attempt S)) where
  -- A success is a patch that Kubernetes took, or a node that it created under the identity that the
  -- provider's node has from then on; an error is that of the latest call.
  abbrev pub Registered : Outcome × Controller S → Type 0
  Registered (ok, c) =
      Chained c.calls
      × (IsPatched c.provider_node c.server_node c.calls
          ⊎ ((new : KubeNode) × (u : List Call) × (c.calls
                ≡ created new (answered c.server_node) ∷ u)
              × (c.provider_node.name ≡ c.server_node.name)
              × (c.provider_node.uid ≡ c.server_node.uid)))
  Registered (error e, c) =
      Chained c.calls
      × (((last_answer c.calls ≡ some (failed e)) × (is_not_found e ≡ false))
          ⊎ ((e' : Error) × (last_answer c.calls ≡ some (failed e'))
              × (e ≡ wrapped (text "error registering node with kubernetes") e')))
  Registered (panic, c) = ⊥

  create-Registered :
      (new : KubeNode) (answer : Answer) (c : Controller S) (server : S)
      → Chained c.calls
      → IsMissing c.calls
      → Registered (
          after_create api retry answer
            (record c { server = server; calls = created new answer ∷ c.calls }))
  unfolding after_create
  create-Registered new (answered n) c server h g = ((g, h), inr (new, c.calls, refl, refl, refl))
  create-Registered new (failed e) c server h g = ((g, h), inr (e, refl, refl))

  missing-Registered :
      (r : Outcome) (c : Controller S)
      → Exact api retry (r, c)
      → Registered (register_missing api retry r c)
  unfolding register_missing register
  missing-Registered ok c h = (h.0, inl h.1)
  missing-Registered panic c h = h
  missing-Registered (error e) c h =
      if-holds Registered (is_not_found e)
        (λ g.
          create-Registered c.server_node (api.create c.server_node c.server).0 c
            (api.create c.server_node c.server).1 h.0 (e, h.1, g))
        (λ g. (h.0, inl (h.1, g)))

  -- Registering a node never panics. It succeeds with a patch that Kubernetes took for the provider's
  -- node, or with a node that Kubernetes created, whose name and uid the provider's node has then, and
  -- fails only with an error that Kubernetes gave; every patch starts from the node read just before
  -- it, and a node is created only after Kubernetes said that there is none.
  pub ensure_node-Registered :
      (now : ℤ) (c : Controller S) → Chained c.calls → Registered (ensure_node api retry now c)
  unfolding ensure_node update_status
  ensure_node-Registered now c h =
      let node = update_node_status_heartbeat now c.provider_node in
      let g = update-Good node api retry c.server c.calls h in
      missing-Registered _ _ (settle-Exact api retry _ _ g.0 g.1)

  -- No panic, and a chained trace.
  abbrev pub Safe : Outcome × Controller S → Type 0
  Safe (ok, c) = Chained c.calls
  Safe (error e, c) = Chained c.calls
  Safe (panic, c) = ⊥

  go_on-Safe :
      (r rest : Outcome × Controller S)
      → Fine api retry r
      → (Chained r.1.calls → Safe rest)
      → Safe (go_on api retry r rest)
  unfolding go_on
  go_on-Safe (ok, c) rest h f = f h.0
  go_on-Safe (error e, c) rest h f = f h
  go_on-Safe (panic, c) rest h f = h

  loop-Safe :
      (handler : Option (Handler api retry)) (sent : List (KubeNode × ℤ)) (c : Controller S)
      → Chained c.calls
      → Safe (control_loop api retry handler sent c)
  unfolding control_loop take_over
  loop-Safe handler [] c h = h
  loop-Safe handler ((node, now) ∷ rest) c h =
      let r = update_status api retry now handler (take_over api retry node c) in
      go_on-Safe r (control_loop api retry handler rest r.1)
        (update_status-Fine api retry now handler (take_over api retry node c) h)
        (λ g. loop-Safe handler rest r.1 g)

  loop_if_ok-Safe :
      (handler : Option (Handler api retry)) (sent : List (KubeNode × ℤ))
      (r : Outcome × Controller S)
      → Registered r
      → Safe (loop_if_ok api retry handler sent r)
  unfolding loop_if_ok
  loop_if_ok-Safe handler sent (ok, c) h = loop-Safe handler sent c h.0
  loop_if_ok-Safe handler sent (panic, c) h = h
  loop_if_ok-Safe handler sent (error e, c) h = h.0

  -- However the server answers and whichever nodes the provider sends, a whole run neither panics nor
  -- patches a node from anything but what was read just before, and it creates a node only after
  -- Kubernetes said that there is none.
  pub run-Safe :
      (handler : Option (Handler api retry)) (now : ℤ) (sent : List (KubeNode × ℤ))
      (c : Controller S)
      → c.calls ≡ []
      → Safe (run api retry handler now sent c)
  unfolding run
  run-Safe handler now sent c e =
      let start : Controller S = record c { provider_node = c.server_node } in
      loop_if_ok-Safe handler sent (ensure_node api retry now start)
        (ensure_node-Registered now start (subst Chained (sym e) tt))
