-- ===== src/Lease/Tests.antt =====
-- Leader election (vnode_controller/vnode_controller.go) against a server with one lease.
use virtual_kubelet.Common.{
  ℕ, ◌≡◌, ◌≤◌, ◌∷◌, [], refl, true, false, Option, none, some, pos, ◌+ℤ◌, ◌<ℤ◌, text, text_dec,
  not_found, All, length, arith, is_not_found,
}
use virtual_kubelet.Lease.{
  Lease, VNode, got, failed, Api, get_call, Times, is_leader, has_expired, new_lease, set_lease,
  leader_acquired_by_others, leader_acquired_by_me, after_patch, renew, take_over, check_leader,
  hold, after_create, after_get, attempt, or_return, attempts, create_or_retry_update_lease,
}
use virtual_kubelet.Lease.Calls.{Allowed, create_or_retry_update_lease-Allowed}
use virtual_kubelet.Lease.Outcome.{at_start, expired_lease-stays}

abbrev server_api : Api (Option Lease)
server_api = record {
  get = λ s. (elim s [ none ↦ failed not_found | some lease ↦ got lease ], s);
  create = λ lease s. (none, some lease);
  patch = λ new base s. (none, some new);
}

abbrev clock : ℕ → Times
clock n = record {
  create_time = pos 100_000_000_000;
  time_before = pos 100_000_000_001;
  time_after = pos 100_000_000_002;
  renewal_time = pos 100_000_000_003;
}

abbrev node : VNode
node = record {
  name = text "vnode.1.test";
  env = text "test";
  lease = none;
  take_overed = false;
  others_listening = false;
  told_others = false;
  told_me = false;
}

abbrev lease_of_a : Lease
lease_of_a = record {
  name = text "vnode.1.test";
  env = text "test";
  holder = some (text "a");
  duration_seconds = 40;
  renew_time = some (pos 90_000_000_000);
}

create_or_retry_update_lease-Allowed_example :
    let (verdict, w') =
      create_or_retry_update_lease server_api
        (text "a")
        clock
        (record { vnode = node; server = none; calls = [] }) in
    All (Allowed (text "a") clock 5) w'.calls × (length w'.calls ≤ 10)
create_or_retry_update_lease-Allowed_example =
    create_or_retry_update_lease-Allowed server_api (text "a") clock node none

no_leader : is_leader (text "b") (pos 100_000_000_001) none ≡ some false
unfolding is_leader
no_leader = refl

b_not_leader : is_leader (text "b") (pos 100_000_000_002) (some lease_of_a) ≡ some false
unfolding is_leader text_dec
b_not_leader = refl

a_no_leader : is_leader (text "a") (pos 100_000_000_001) none ≡ some false
unfolding is_leader
a_no_leader = refl

abbrev old_lease : Lease
old_lease = record lease_of_a { renew_time = some (pos 7) }

old_lease-expired : pos 7 +ℤ pos 40_000_000_000 <ℤ pos 100_000_000_002
unfolding ◌+ℤ◌
old_lease-expired = omega arith

expired_lease-stays_example :
    let (verdict, w') =
      create_or_retry_update_lease server_api (text "a") clock (at_start node (some old_lease)) in
    (w'.calls ≡ get_call ∷ []) × (w'.server ≡ some old_lease)
expired_lease-stays_example =
    expired_lease-stays server_api (text "a") (text "a") clock node (some old_lease) old_lease
      (pos 7) false refl a_no_leader refl refl old_lease-expired

a_leader : is_leader (text "a") (pos 100_000_000_002) (some lease_of_a) ≡ some true
unfolding is_leader text_dec has_expired ◌+ℤ◌
a_leader = refl

election_program : Unit {0}
unfolding text_dec ◌+ℤ◌ is_not_found is_leader has_expired new_lease set_lease
    leader_acquired_by_others leader_acquired_by_me after_patch renew take_over check_leader hold
    after_create after_get attempt or_return attempts create_or_retry_update_lease
election_program = tt
