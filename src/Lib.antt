-- ===== src/Lib.antt =====
-- The virtual kubelet of koupleless: Kubernetes nodes and pods that stand for bases and the biz
-- modules that run in them. This library models the program's own logic and proves it correct.
--
-- The parts and how they interact
--
-- A base announces itself and reports through a tunnel. The node controller
-- (vnode_controller/vnode_controller.go) keeps a virtual node for each base, competes for its lease,
-- and passes the events of its pods on if it leads the node and the node is ready and reachable. The
-- pod controller of a node (virtual_kubelet/node) puts the keys of pods into work queues, whose
-- handlers bring the pod provider (provider/vpod_provider.go) in line with Kubernetes, and Kubernetes
-- with the provider. The provider starts and stops biz modules through the tunnel, and turns their
-- reports into pod statuses, which it hands back to the pod controller.
--
-- Which file models what
--
--   Common      conditionals, native lengths, signed integers, texts as lists of bytes, association
--               lists for Go maps, string functions, errors by the kinds the program tells apart
--   Kube        the Kubernetes objects, with the fields that the program uses, and model/models.go;
--               Kube/Nodes has the node object and what is said of bases
--   Queue       virtual_kubelet/internal/queue/queue.go: Enqueue and its variants (enqueue,
--               enqueue_without_rate_limit), insert and Forget, in Queue/Worker getNextItem and
--               handleQueueItemObject; the interleavings of clients and workers are the steps of
--               Queue/System, and Queue/Pool has the workers of Run
--   Keys        the key functions of common/utils/utils.go and virtual_kubelet/node/pod.go; in
--               Keys/Names the keys of pods are the pairs of a namespace and a name
--   Biz         ConvertBizStatusToContainerStatus and FillPodKey of common/utils/utils.go
--   PodStatus   GetPodStatus of provider/vpod_provider.go, CheckContainerStatusNeedSync of
--               provider/vpod_store.go
--   Lease       createOrRetryUpdateLease of vnode_controller/vnode_controller.go, and the lease part of
--               provider/vnode.go
--   Pods        virtual_kubelet/node/podcontroller.go and pod.go: Pods/Provider has the sync handler,
--               Pods/Status the reports of statuses, Pods/Deletion the deletion handler and the
--               clean-up at start
--   Nodes       provider/vnode_store.go, provider/liveness.go and the channels of provider/vnode.go;
--               Nodes/Handlers has the event handlers of vnode_controller/vnode_controller.go, and
--               Nodes/Watch the tasks of its connectWithInterval
--   VPods       CallWithRetry of common/utils/utils.go, provider/vpod_store.go and the operations of
--               provider/vpod_provider.go; VPods/Sync has the intake of biz reports
--
--   NodeObject  buildNode and NewVNode of provider/vnode.go, createVNode's configuration, and
--               MergeNodeFromProvider and ConvertNodeToNodeInfo of common/utils/utils.go
--   NodeSync    virtual_kubelet/node/node.go; NodeSync/Loop has its control loop and Run, and Notify of
--               provider/vnode_provider.go
--   NodeRun     Run of virtual_kubelet/node/nodeutil/controller.go, with the channels of the two
--               controllers that it starts and the workers of the queues, as steps of goroutines; the calls
--               may overlap and share the channels; NodeRun/Again is about more than one call
--   TakeOver    Run, WaitReady, cleanUp and Remove of provider/vnode.go, and takeOverVNode, runVNode,
--               createAndRunVNode and deleteVNode of vnode_controller/vnode_controller.go, as steps
--   Arrivals    the handlers of node and biz reports, the configuration and the start of
--               vnode_controller/vnode_controller.go, with the methods of provider/vnode.go that they
--               call
--   Startup     SetupWithManager of vnode_controller/vnode_controller.go, as steps of its goroutine and
--               of the watch, and the predicates of vnode_controller/predicates
--   Constructors  NewNodeController and NewPodController of virtual_kubelet/node, NewNode and its options
--               of virtual_kubelet/node/nodeutil/controller.go, and the call of NewNode in NewVNode of
--               provider/vnode.go
--   Polling     CheckAndFinallyCall of common/utils/utils.go
--   Tracker     common/tracker/default_tracker.go; Tracker/Setup has its Init, common/tracker/tracker.go
--               and GetEnv of common/utils/utils.go
--   MockTunnel  tunnel/mock_tunnel.go, as the base under the pod provider; MockTunnel/Locked has
--               StopBiz with a callback that runs under its lock
--   EndToEnd    the pod controller over the pod provider: the interface of Pods, filled with the
--               operations of VPods, in EndToEnd/Spec the abstract promise that it refines, and in
--               EndToEnd/Drain and EndToEnd/Order a series of runs of its handler, one key after the
--               other; EndToEnd/View looks at the pods as a Go map, a quotient of association lists
--               that forgets their order (Common/GoMaps), EndToEnd/Start is about the start,
--               and EndToEnd/Added follows a pod from the watch to the provider
--
-- The other children of a component hold its proofs, named for what they prove, and its tests.
--
-- How state and operations correspond to the code
--
-- A method with a receiver is a function from the state to a result and the next state, named as in
-- the code. An item of a queue stands for the pointer to it and is named by its key. A lock makes a
-- method one step. A nil pointer is `none`; a panic is `none` or an outcome of its own. Logs, spans,
-- events and metrics are left out. Calls that leave the program are recorded in order in a trace, the
-- latest first, so that theorems can say which calls are made.
--
-- Parameters: the Kubernetes client and cache, the tunnel, the rate limiter, the clock, go-cmp and the
-- key splitting of client-go are arguments, over a state that other processes may change as well.
-- Theorems that need go-cmp to be reflexive, or to tell different values apart, say so.
--
-- `RetryOnConflict` of client-go is an interface, whose law is its documented behaviour: it runs the
-- function again only after a conflict, at most five times in all.
--
-- Goroutines that share channels are a state and a step relation; a theorem on reachable states holds
-- in every interleaving. Closing a channel that is closed already is a crash, after which nothing
-- happens.
--
-- Bounds and fuel: the retries of the lease are the loop's own bound of 5. CallWithRetry runs on the
-- number of timers that fire, and CheckAndFinallyCall on the number of ticks, before the context ends,
-- and their theorems say how many are enough; the poll of enqueuePodStatusUpdate runs on the number
-- of polls before its context ends. The control loop of the node controller runs on the nodes that
-- arrive until its context ends. Times are nanoseconds without a bound; the Go zero time is 0.
--
-- Not modelled: NewVPodProvider and NewVNodeProvider, which copy their arguments into fields; the
-- accessors and the waits that only read a channel (Ready, Done, Err, WaitReady); the task that logs
-- the outdated leases; the formats and the HTTP calls of common/tracker;
-- ConvertByteNumToResourceQuantity of common/utils/utils.go, which is a call of a library; the
-- interface of tunnel/tunnel.go, which is a parameter.
pub mod Arrivals
pub mod Biz
pub mod Common
pub mod Constructors
pub mod EndToEnd
pub mod Keys
pub mod Kube
pub mod Lease
pub mod MockTunnel
pub mod NodeObject
pub mod NodeRun
pub mod NodeSync
pub mod Nodes
pub mod PodStatus
pub mod Pods
pub mod Polling
pub mod Queue
pub mod Startup
pub mod TakeOver
pub mod Tracker
pub mod VPods
