-- ===== src/Nodes/Tests.antt =====
-- Virtual nodes and their handlers (provider/vnode_store.go, vnode_controller/vnode_controller.go) on
-- small inputs.
use virtual_kubelet.Common.{
  ℕ, ◌≡◌, refl, true, false, some, List, [], ◌∷◌, ℤ, pos, ◌+ℤ◌, ◌-ℤ◌, ◌<ℤ◌, text, text_dec, lookup,
  arith, ℕ_discrete,
}
use virtual_kubelet.Kube.{Pod}
use virtual_kubelet.Kube.Samples.{biz_pod}
use virtual_kubelet.Lease.{Lease}
use virtual_kubelet.Pods.Deep.{deep, deep_sound_parts}
use virtual_kubelet.Pods.{sync_key, pods_equal}
use virtual_kubelet.Nodes.{Node, Nodes}
use virtual_kubelet.Nodes.Handlers.{
  pod_key, pod_add_handler, pod_should_enqueue, delete_grace_time_equal,
  pod_should_enqueue_for_delete, pod_should_enqueue_for_add,
}
use virtual_kubelet.Nodes.Guards.{AllQueued}
use virtual_kubelet.Nodes.Events.{pod_add_handler-AllQueued}
use virtual_kubelet.Nodes.Updates.{Sound}
use virtual_kubelet.Nodes.Watch.{Tick, health, modules, check, Watched, connect_with_interval}
use virtual_kubelet.Nodes.Silence.{dead_after, first_dead, Spaced, Timely, silence-Timely}

abbrev lease_of_a : Lease
lease_of_a = record {
  name = text "n1";
  env = text "test";
  holder = some (text "a");
  duration_seconds = 40;
  renew_time = some (pos 90_000_000_000);
}

-- A node that client `a` leads, heard of at second 95.
abbrev led : Node ℕ
led = record {
  lease = some lease_of_a;
  is_close = false;
  heart_beat = pos 95_000_000_000;
  ready = true;
  exit = false;
  done = false;
  pods = record { known = []; outside = 0; calls = [] };
}

abbrev nodes : Nodes ℕ
nodes = (text "n1", led) ∷ (text "n2", record led { is_close = true }) ∷ []

abbrev at_100 : ℤ
at_100 = pos 100_000_000_000

abbrev here : Pod
here = biz_pod

pod_add_handler-AllQueued_example :
    AllQueued
      (text "a")
      at_100
      (text "n1")
      (λ calls. sync_key (pod_key here) ∷ calls)
      nodes
      (pod_add_handler (text "a") at_100 here nodes)
pod_add_handler-AllQueued_example = pod_add_handler-AllQueued (text "a") at_100 here nodes

deep-Sound : Sound deep
deep-Sound = deep_sound_parts

-- The same pod in another version.
abbrev touched : Pod
touched = record biz_pod { resource_version = text "8" }

is_dropped : pod_should_enqueue deep here touched ≡ false
unfolding pod_should_enqueue pods_equal pod_should_enqueue_for_delete pod_should_enqueue_for_add
    delete_grace_time_equal text_dec ℕ_discrete
is_dropped = ground arith

abbrev ticks : List Tick
ticks = health ∷ check (pos 154_000_000_000) ∷ modules ∷ check (pos 156_000_000_000) ∷ []

abbrev watched : Watched ℕ
watched = record { nodes = nodes; asked = [] }

ticks-Spaced : Spaced (pos 153_000_000_000) ticks
unfolding ◌+ℤ◌
ticks-Spaced = ground arith

led_is_there : lookup (text "n1") nodes ≡ some led
unfolding lookup text_dec
led_is_there = refl

young : pos 153_000_000_000 -ℤ led.heart_beat <ℤ dead_after
unfolding ◌-ℤ◌
young = omega arith

silence-Timely_example :
    Timely
      (text "n1")
      led.heart_beat
      nodes
      (first_dead led.heart_beat ticks)
      (connect_with_interval (text "n1") ticks watched).nodes
silence-Timely_example =
    silence-Timely (text "n1") ticks (pos 153_000_000_000) led watched led_is_there refl young
      ticks-Spaced
