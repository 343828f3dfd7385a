-- ===== src/Startup/Tests.antt =====
-- The watch of vnode_controller/vnode_controller.go on events.
use virtual_kubelet.Common.{◌≡◌, refl, false, is_some, [], ◌∷◌, ℤ, pos, text, lookup}
use virtual_kubelet.Kube.{Pod}
use virtual_kubelet.Kube.Samples.{biz_pod}
use virtual_kubelet.Pods.{World}
use virtual_kubelet.Pods.Deep.{deep}
use virtual_kubelet.Nodes.{Nodes}
use virtual_kubelet.NodeObject.Tests.{settings}
use virtual_kubelet.Startup.{
  created, updated, Selector, pod_predicate, Startup, start, finished, gave_up, polled, synced,
  not_listed, arrives, Steps, none_yet, and_then,
}
use virtual_kubelet.Startup.Events.{passing, gave_up-deaf}

abbrev component : Selector
component labels = is_some (lookup (text "virtual-kubelet.koupleless.io/component") labels)

abbrev ours : Pod
ours = record biz_pod {
  node_name = text "n1";
  labels = (text "virtual-kubelet.koupleless.io/component", text "biz") ∷ [];
}

abbrev other : Pod
other = record ours { labels = [] }

abbrev pods : World ℤ
pods = record { known = []; outside = pos 0; calls = [] }

abbrev no_nodes : Nodes ℤ
no_nodes = []

-- The first event is of another component, and is dropped before the controller is ready.
abbrev events : Startup ℤ
events = record {
  progress = finished;
  nodes = [];
  waiting = [];
  arrived = created other ∷ created ours ∷ [];
  handled = created ours ∷ [];
  crashed = false;
}

an_update_without_the_label : pod_predicate component (updated ours other) ≡ false
unfolding pod_predicate lookup
an_update_without_the_label = refl

-- Kubernetes does not list the nodes.
abbrev lost : Startup ℤ
lost = record (start no_nodes) { progress = gave_up }

to_lost : Steps (text "a") deep settings pods component (start no_nodes) lost
to_lost =
    and_then (and_then (and_then none_yet refl (polled refl)) refl (synced refl)) refl
      (not_listed refl)

abbrev deaf : Startup ℤ
deaf = record lost { waiting = created ours ∷ []; arrived = created ours ∷ [] }

to_deaf : Steps (text "a") deep settings pods component lost deaf
to_deaf = and_then none_yet refl (arrives (created ours))

gave_up-deaf_example :
    (deaf.handled ≡ []) × (passing component deaf.waiting ≡ passing component deaf.arrived)
gave_up-deaf_example =
    gave_up-deaf component (text "a") deep settings pods {nodes = no_nodes} {s = lost} {t = deaf}
      to_lost refl to_deaf refl
