-- ===== src/NodeSync.antt =====
-- The node controller of virtual_kubelet/node/node.go, which registers a node with Kubernetes and
-- keeps its status there in line with the provider. The Kubernetes client, `RetryOnConflict` of
-- client-go and the handler of update errors are parameters.
pub mod Loop
pub mod Answers
pub mod Trace
pub mod Follow
pub mod Reports
pub mod Tests
use virtual_kubelet.Common.{
  ℕ, zero, suc, ◌<◌, ◌≡◌, Bool, true, false, Option, none, some, List, [], ◌∷◌, ℤ, Text, text, map,
  Error, is_not_found, is_conflict, wrapped, if◌then◌else◌,
}
use virtual_kubelet.Kube.Nodes.{NodeCondition, KubeNode, NodeStatusData}
use virtual_kubelet.NodeObject.{merge_node_from_provider}
use virtual_kubelet.Pods.{Outcome, ok, panic, error}

-- What Kubernetes answers: the node, or an error.
pub data Answer : Type 0 where
  answered : KubeNode → Answer
  failed : Error → Answer

-- The node part of the API server, with a state `S` that other clients may change too. A patch is of
-- the status, with the new node and the one it starts from.
pub record Api (S : Type 0) : Type 0 where
  pub get : Text → Text → S → Answer × S
  pub patch_status : KubeNode → KubeNode → S → Answer × S
  pub create : KubeNode → S → Answer × S

-- A call, with its answer.
pub data Call : Type 0 where
  got : Answer → Call
  patched : KubeNode → KubeNode → Answer → Call
  created : KubeNode → Answer → Call

-- What the closure that is retried changes; `updated` is its variable `updatedNode`, `calls` has the
-- latest call first.
pub record Attempt (S : Type 0) : Type 0 where
  pub server : S
  pub calls : List Call
  pub updated : Option KubeNode

module _ {T : Type 0} (f : T → Option Error × T) where
  -- What is returned if the function is run again that many times.
  abbrev pub rerun : ℕ → T → Option Error × T
  rerun zero s = f s
  rerun (suc k) s = rerun k (f s).1

  abbrev pub is_conflicting : Option Error → Bool
  is_conflicting none = false
  is_conflicting (some e) = is_conflict e

  -- That many runs end in a conflict.
  abbrev pub Conflicts : ℕ → T → Type 0
  Conflicts zero s = Unit {0}
  Conflicts (suc k) s = (is_conflicting (f s).0 ≡ true) × Conflicts k (f s).1

-- `RetryOnConflict` with `DefaultRetry`: the function is run again only after a conflict, at most
-- five times in all, and the result is that of the last run.
pub record RetryOnConflict (T : Type 0) : Type 0 where
  pub run : (T → Option Error × T) → T → Option Error × T
  pub law :
      (f : T → Option Error × T) (s : T)
      → (k : ℕ) × (k < 5) × Conflicts f k s × (run f s ≡ rerun f k s)

-- `providerNode` of `Run`, the field `serverNode`, the server, and the calls so far, latest first.
pub record Controller (S : Type 0) : Type 0 where
  pub provider_node : KubeNode
  pub server_node : KubeNode
  pub server : S
  pub calls : List Call

abbrev pub beat : ℤ → NodeCondition → NodeCondition
beat now c = record c { last_heartbeat_time = now }

unfoldable pub update_node_status_heartbeat : ℤ → KubeNode → KubeNode
update_node_status_heartbeat now node = record node {
  status = record node.status { conditions = map (beat now) node.status.conditions };
}

-- A panic is on a nil `updatedNode`.
pub data Updated : Type 0 where
  updated_to : KubeNode → Updated
  update_failed : Error → Updated
  update_panic : Updated

module _ {S : Type 0} (api : Api S) where
  unfoldable pub after_patch : Attempt S → Answer → Option Error × Attempt S
  after_patch a (answered node) = (none, record a { updated = some node })
  after_patch a (failed e) = (some e, a)

  unfoldable pub after_get : KubeNode → Answer → Attempt S → Option Error × Attempt S
  unfolding after_patch
  after_get node (failed e) a = (some e, a)
  after_get node (answered base) a =
      let (answer, server) = api.patch_status node base a.server in
      after_patch
        (record {
          server = server;
          calls = patched node base answer ∷ a.calls;
          updated = some node;
        })
        answer

  -- The closure that `updateNodeStatus` retries.
  unfoldable pub update_once : KubeNode → Attempt S → Option Error × Attempt S
  unfolding after_get
  update_once node a =
      let (answer, server) = api.get node.namespace node.name a.server in
      after_get node answer
        (record { server = server; calls = got answer ∷ a.calls; updated = a.updated })

  module _ (retry : RetryOnConflict (Attempt S)) where
    unfoldable pub result_of : Option Error → Option KubeNode → Updated
    result_of (some e) updated = update_failed e
    result_of none (some node) = updated_to node
    result_of none none = update_panic

    unfoldable pub update_node_status : KubeNode → S → List Call → Updated × S × List Call
    unfolding update_once result_of
    update_node_status node server calls =
        let (e, a) =
          retry.run (update_once node)
            (record { server = server; calls = calls; updated = none }) in
        (result_of e a.updated, a.server, a.calls)

    abbrev updating : Controller S → Updated × Controller S
    updating c =
        let (r, server, calls) = update_node_status c.provider_node c.server c.calls in
        (r, record c { server = server; calls = calls })

    unfoldable pub store_updated : Updated → Controller S → Outcome × Controller S
    store_updated (updated_to node) c = (ok, record c { server_node = node })
    store_updated (update_failed e) c = (error e, c)
    store_updated update_panic c = (panic, c)

    -- `nodeStatusUpdateErrorHandler`, which may ask Kubernetes itself.
    abbrev pub Handler : Type 0
    Handler = Error → S → Option Error × S

    unfoldable pub after_handler : Option Error → Controller S → Outcome × Controller S
    unfolding update_node_status store_updated
    after_handler (some e) c = (error e, c)
    after_handler none c = let (r, c') = updating c in store_updated r c'

    unfoldable pub handle_error : Option Handler → Error → Controller S → Outcome × Controller S
    unfolding after_handler
    handle_error none e c = (error e, c)
    handle_error (some handler) e c =
        let (e', server) = handler e c.server in after_handler e' (record c { server = server })

    unfoldable pub settle : Option Handler → Updated → Controller S → Outcome × Controller S
    unfolding handle_error store_updated
    settle handler (update_failed e) c = handle_error handler e c
    settle handler (updated_to node) c = store_updated (updated_to node) c
    settle handler update_panic c = store_updated update_panic c

    -- `skipErrorCb` is the handler `none`.
    unfoldable pub update_status : ℤ → Option Handler → Controller S → Outcome × Controller S
    unfolding update_node_status_heartbeat update_node_status settle
    update_status now handler c =
        let beaten = update_node_status_heartbeat now c.provider_node in
        let (r, c') = updating (record c { provider_node = beaten }) in settle handler r c'

    unfoldable pub after_create : Answer → Controller S → Outcome × Controller S
    after_create (failed e) c =
        (error (wrapped (text "error registering node with kubernetes") e), c)
    after_create (answered node) c = (
      ok,
      record c {
        server_node = node;
        provider_node = record c.provider_node {
          name = node.name;
          namespace = node.namespace;
          uid = node.uid;
        };
      },
    )

    unfoldable pub register : Controller S → Outcome × Controller S
    unfolding after_create
    register c =
        let (answer, server) = api.create c.server_node c.server in
        after_create answer
          (record c { server = server; calls = created c.server_node answer ∷ c.calls })

    unfoldable pub register_missing : Outcome → Controller S → Outcome × Controller S
    unfolding register
    register_missing ok c = (ok, c)
    register_missing panic c = (panic, c)
    register_missing (error e) c = if is_not_found e then register c else (error e, c)

    unfoldable pub ensure_node : ℤ → Controller S → Outcome × Controller S
    unfolding update_status register_missing
    ensure_node now c = let (r, c') = update_status now none c in register_missing r c'
