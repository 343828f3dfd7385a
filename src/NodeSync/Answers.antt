-- ===== src/NodeSync/Answers.antt =====
-- An update of the status of a node (virtual_kubelet/node/node.go): what it asks of Kubernetes, and
-- how its result rests on the answers.
use virtual_kubelet.Common.{
  ℕ, zero, suc, ◌≡◌, refl, sym, subst, true, Option, none, some, List, [], ◌∷◌, ℤ, Error,
  is_not_found,
}
use virtual_kubelet.Kube.Nodes.{KubeNode}
use virtual_kubelet.Pods.{Outcome, ok, panic, error}
use virtual_kubelet.NodeSync.{
  Answer, answered, failed, Api, Call, got, patched, created, Attempt, rerun, RetryOnConflict,
  Controller, update_node_status_heartbeat, Updated, updated_to, update_failed, update_panic,
  after_patch, after_get, update_once, result_of, update_node_status, store_updated, Handler,
  after_handler, handle_error, settle, update_status,
}

-- The answer to the latest call.
abbrev pub last_answer : List Call → Option Answer
last_answer [] = none
last_answer (got a ∷ t) = some a
last_answer (patched new base a ∷ t) = some a
last_answer (created new a ∷ t) = some a

-- The latest call has failed for want of the node.
abbrev pub IsMissing : List Call → Type 0
IsMissing t = (e : Error) × (last_answer t ≡ some (failed e)) × (is_not_found e ≡ true)

-- A patch starts from the node that was read just before it, and a node is created only after it was
-- found missing.
abbrev pub Chained : List Call → Type 0
Chained [] = Unit {0}
Chained (got a ∷ t) = Chained t
Chained (patched new base a ∷ t) = ((u : List Call) × (t ≡ got (answered base) ∷ u)) × Chained t
Chained (created new a ∷ t) = IsMissing t × Chained t

-- Kubernetes took this status and answered with that node.
abbrev pub IsPatched : KubeNode → KubeNode → List Call → Type 0
IsPatched node answer t =
    (base : KubeNode) × (u : List Call) × (t ≡ patched node base (answered answer) ∷ u)

abbrev pub EndsAs : KubeNode → Updated → List Call → Type 0
EndsAs node (updated_to answer) t = IsPatched node answer t
EndsAs node (update_failed e) t = last_answer t ≡ some (failed e)
EndsAs node update_panic t = ⊥

module _ {S : Type 0} (node : KubeNode) where
  abbrev Ends : Option Error → Attempt S → Type 0
  Ends none a = (answer : KubeNode) × (a.updated ≡ some answer) × IsPatched node answer a.calls
  Ends (some e) a = last_answer a.calls ≡ some (failed e)

  abbrev Good : Option Error × Attempt S → Type 0
  Good (e, a) = Chained a.calls × Ends e a

  module _ (api : Api S) where
    patch-Good :
        (base : KubeNode) (answer : Answer) (server : S) (u : List Call)
        → Chained u
        → Good (
            after_patch api
              (record {
                server = server;
                calls = patched node base answer ∷ got (answered base) ∷ u;
                updated = some node;
              })
              answer)
    unfolding after_patch
    patch-Good base (answered n) server u h =
        (((u, refl), h), (n, refl, (base, got (answered base) ∷ u, refl)))
    patch-Good base (failed e) server u h = (((u, refl), h), refl)

    get-Good :
        (answer : Answer) (server : S) (u : List Call) (updated : Option KubeNode)
        → Chained u
        → Good (
            after_get api node answer
              (record { server = server; calls = got answer ∷ u; updated = updated }))
    unfolding after_get
    get-Good (failed e) server u updated h = (h, refl)
    get-Good (answered base) server u updated h =
        patch-Good base (api.patch_status node base server).0 (api.patch_status node base server).1
          u h

    once-Good : (a : Attempt S) → Chained a.calls → Good (update_once api node a)
    unfolding update_once
    once-Good a h =
        get-Good (api.get node.namespace node.name a.server).0
          (api.get node.namespace node.name a.server).1 a.calls a.updated h

    rerun-Good : (k : ℕ) (a : Attempt S) → Chained a.calls → Good (rerun (update_once api node) k a)
    rerun-Good zero a h = once-Good a h
    rerun-Good (suc k) a h = rerun-Good k (update_once api node a).1 (once-Good a h).0

    result-EndsAs :
        (retry : RetryOnConflict (Attempt S)) (r : Option Error × Attempt S)
        → Good r
        → EndsAs node (result_of api retry r.0 r.1.updated) r.1.calls
    unfolding result_of
    result-EndsAs retry (none, a) h =
        let (c, (answer, e, p)) = h in
        subst (λ x. EndsAs node (result_of api retry none x) a.calls) (sym e) p
    result-EndsAs retry (some e, a) h = h.1

    -- The retried update ends with an accepted patch or with the error of its latest call.
    pub update-Good :
        (retry : RetryOnConflict (Attempt S)) (server : S) (calls : List Call)
        → Chained calls
        → let (r, server', calls') = update_node_status api retry node server calls in
          Chained calls' × EndsAs node r calls'
    unfolding update_node_status
    update-Good retry server calls h =
        let a : Attempt S = record { server = server; calls = calls; updated = none } in
        let (k, few, conflicts, e) = retry.law (update_once api node) a in
        let g = subst Good (sym e) (rerun-Good k a h) in (g.0, result-EndsAs retry _ g)

module _ {S : Type 0} (api : Api S) (retry : RetryOnConflict (Attempt S)) where
  -- A result that is no panic; after a success the node kept is what Kubernetes answered to the
  -- provider's node.
  abbrev pub Fine : Outcome × Controller S → Type 0
  Fine (ok, c) = Chained c.calls × IsPatched c.provider_node c.server_node c.calls
  Fine (error e, c) = Chained c.calls
  Fine (panic, c) = ⊥

  store-Fine :
      (r : Updated) (c : Controller S)
      → Chained c.calls
      → EndsAs c.provider_node r c.calls
      → Fine (store_updated api retry r c)
  unfolding store_updated
  store-Fine (updated_to n) c h g = (h, g)
  store-Fine (update_failed e) c h g = h
  store-Fine update_panic c h g = g

  handler-Fine :
      (e : Option Error) (c : Controller S) → Chained c.calls → Fine (after_handler api retry e c)
  unfolding after_handler
  handler-Fine (some e) c h = h
  handler-Fine none c h =
      let g = update-Good c.provider_node api retry c.server c.calls h in store-Fine _ _ g.0 g.1

  settle-Fine :
      (handler : Option (Handler api retry)) (r : Updated) (c : Controller S)
      → Chained c.calls
      → EndsAs c.provider_node r c.calls
      → Fine (settle api retry handler r c)
  unfolding settle handle_error
  settle-Fine none (update_failed e) c h g = h
  settle-Fine (some f) (update_failed e) c h g =
      handler-Fine (f e c.server).0 (record c { server = (f e c.server).1 }) h
  settle-Fine handler (updated_to n) c h g = store-Fine (updated_to n) c h g
  settle-Fine handler update_panic c h g = store-Fine update_panic c h g

  pub update_status-Fine :
      (now : ℤ) (handler : Option (Handler api retry)) (c : Controller S)
      → Chained c.calls
      → Fine (update_status api retry now handler c)
  unfolding update_status
  update_status-Fine now handler c h =
      let node = update_node_status_heartbeat now c.provider_node in
      let g = update-Good node api retry c.server c.calls h in settle-Fine handler _ _ g.0 g.1

  -- Without a handler, the error is that of the latest call.
  abbrev pub Exact : Outcome × Controller S → Type 0
  Exact (ok, c) = Chained c.calls × IsPatched c.provider_node c.server_node c.calls
  Exact (error e, c) = Chained c.calls × (last_answer c.calls ≡ some (failed e))
  Exact (panic, c) = ⊥

  pub settle-Exact :
      (r : Updated) (c : Controller S)
      → Chained c.calls
      → EndsAs c.provider_node r c.calls
      → Exact (settle api retry none r c)
  unfolding settle handle_error store_updated
  settle-Exact (update_failed e) c h g = (h, g)
  settle-Exact (updated_to n) c h g = (h, g)
  settle-Exact update_panic c h g = g
