-- ===== src/NodeRun.antt =====
-- `Run` and `WaitReady` of virtual_kubelet/node/nodeutil/controller.go, with what the two controllers
-- that it starts do with their channels (`Run` of virtual_kubelet/node/podcontroller.go, `Run` and
-- `controlLoop` of virtual_kubelet/node/node.go): three goroutines for each call, whose steps are
-- interleaved in every order, with the workers that the pod controller begins (`Run` of
-- virtual_kubelet/internal/queue/queue.go). A call may come while others still run, as provider/vnode.go does not
-- wait for them, and all calls share the channels. Closing a channel that is closed already panics,
-- and so does running a queue that runs already, which ends the program.
pub mod Invariant
pub mod Again
pub mod Tests
use virtual_kubelet.Common.{
  ◌≡◌, ◌⊎◌, Bool, true, false, Option, none, some, List, [], ◌∷◌, ◌++◌, if◌then◌else◌,
}

-- Where `Run` stands: at its three selects, in its deferred calls, which wait for the node controller
-- and then for the pod controller, or returned.
pub data Main : Type 0 where
  awaiting_pods awaiting_node serving leaving_node leaving_pods returned : Main

-- Where `Run` of a controller stands: not called or returned; at the beginning; for the pod controller,
-- with the dangling pods deleted and the workers begun; and after it has closed `ready`.
pub data Proc : Type 0 where
  off starting staffed working : Proc

-- One call of `Run`; `cancelled` is its context, and `workers` the goroutines that run the queues of the
-- pod controller, the three of them as one.
pub record Call : Type 0 where
  pub main : Main
  pub pods : Proc
  pub workers : Proc
  pub node : Proc
  pub cancelled : Bool

-- Which channels are closed, and whether the queues of the pod controller run.
pub record Channels : Type 0 where
  pub pods_ready : Bool
  pub pods_done : Bool
  pub node_ready : Bool
  pub node_done : Bool
  pub ready : Bool
  pub done : Bool
  pub queues_running : Bool

pub record Run : Type 0 where
  pub channels : Channels
  pub calls : List Call
  pub crashed : Bool

abbrev pub fresh : Run
fresh = record {
  channels = record {
    pods_ready = false;
    pods_done = false;
    node_ready = false;
    node_done = false;
    ready = false;
    done = false;
    queues_running = false;
  };
  calls = [];
  crashed = false;
}

unfoldable pub new_call : Call
new_call = record {
  main = awaiting_pods;
  pods = starting;
  workers = off;
  node = off;
  cancelled = false;
}

unfoldable pub call_run : Run → Run
unfolding new_call
call_run r = record r { calls = new_call ∷ r.calls }

-- What a goroutine leaves of the channels and of its call; `none` is a panic.
abbrev pub Result : Type 0
Result = Option (Channels × Call)

-- `Run` of a queue panics if the queue runs already.
unfoldable pub run_queues : Channels → Call → Result
run_queues s c =
    if s.queues_running
    then none
    else some (record s { queues_running = true }, record c { workers = working })

unfoldable pub close_pods_ready : Channels → Call → Result
close_pods_ready s c =
    if s.pods_ready
    then none
    else some (record s { pods_ready = true }, record c { pods = working })

unfoldable pub close_pods_done : Channels → Call → Result
close_pods_done s c =
    if s.pods_done then none else some (record s { pods_done = true }, record c { pods = off })

unfoldable pub close_node_ready : Channels → Call → Result
close_node_ready s c =
    if s.node_ready
    then none
    else some (record s { node_ready = true }, record c { node = working })

unfoldable pub close_node_done : Channels → Call → Result
close_node_done s c =
    if s.node_done then none else some (record s { node_done = true }, record c { node = off })

unfoldable pub close_ready : Channels → Call → Result
close_ready s c =
    if s.ready then none else some (record s { ready = true }, record c { main = serving })

unfoldable pub close_done : Channels → Call → Result
close_done s c =
    if s.done then none else some (record s { done = true }, record c { main = returned })

-- A step of one of the goroutines of a call. `refused` is an error of `ensureNode`; `cancels` is the
-- caller's.
pub data Act (s : Channels) (c : Call) : Result → Type 0 where
  pods_clean :
      c.pods ≡ starting → Act s c (some (s, record c { pods = staffed; workers = starting }))
  workers_start : c.workers ≡ starting → Act s c (run_queues s c)
  workers_stop :
      c.workers ≡ working
      → c.cancelled ≡ true
      → Act s c (some (record s { queues_running = false }, record c { workers = off }))
  pods_start : c.pods ≡ staffed → Act s c (close_pods_ready s c)
  pods_stop :
      c.pods ≡ working → c.cancelled ≡ true → c.workers ≡ off → Act s c (close_pods_done s c)
  node_start : c.node ≡ starting → Act s c (close_node_ready s c)
  refused : c.node ≡ starting → Act s c (close_node_done s c)
  node_stop : c.node ≡ working → c.cancelled ≡ true → Act s c (close_node_done s c)
  sees_pods :
      c.main ≡ awaiting_pods
      → s.pods_ready ≡ true
      → Act s c (some (s, record c { main = awaiting_node; node = starting }))
  gives_up_pods :
      c.main ≡ awaiting_pods
      → (c.cancelled ≡ true) ⊎ (s.pods_done ≡ true)
      → Act s c (some (s, record c { main = leaving_pods; cancelled = true }))
  sees_node : c.main ≡ awaiting_node → s.node_ready ≡ true → Act s c (close_ready s c)
  gives_up_node :
      c.main ≡ awaiting_node
      → (c.cancelled ≡ true) ⊎ (s.node_done ≡ true)
      → Act s c (some (s, record c { main = leaving_node; cancelled = true }))
  stops :
      c.main ≡ serving
      → (s.node_done ≡ true) ⊎ (s.pods_done ≡ true)
      → Act s c (some (s, record c { main = leaving_node; cancelled = true }))
  left_node :
      c.main ≡ leaving_node
      → s.node_done ≡ true
      → Act s c (some (s, record c { main = leaving_pods }))
  left_pods : c.main ≡ leaving_pods → s.pods_done ≡ true → Act s c (close_done s c)
  cancels : Act s c (some (s, record c { cancelled = true }))

abbrev pub result : List Call → List Call → Result → Run → Run
result before after none r = record r { crashed = true }
result before after (some (s, c)) r = record r { channels = s; calls = before ++ c ∷ after }

pub data Step (r : Run) : Run → Type 0 where
  called : Step r (call_run r)
  acts :
      (before after : List Call) (c : Call) (x : Result)
      → r.calls ≡ before ++ c ∷ after
      → Act r.channels c x
      → Step r (result before after x r)

-- Nothing happens after a crash.
pub data Steps (r : Run) : Run → Type 0 where
  none_yet : Steps r r
  and_then : {s t : Run} → Steps r s → s.crashed ≡ false → Step s t → Steps r t

abbrev pub Reach : Run → Type 0
Reach r = Steps fresh r
