-- ===== src/Lease/Outcome.antt =====
-- How `createOrRetryUpdateLease` of vnode_controller/vnode_controller.go ends, by the lease that it
-- finds on the server.
use virtual_kubelet.Common.{
  ℕ, ◌≡◌, ap, ◌||◌, Bool, true, false, not, none, some, [], ◌∷◌, ℤ, ◌+ℤ◌, ◌<ℤ◌, Text, arith,
  if◌then◌else◌,
}
use virtual_kubelet.Lease.{
  Lease, VNode, is_leader, has_expired, lease_duration, set_lease, leader_acquired_by_others,
  leader_acquired_by_me, got, Api, get_call, patch_call, Times, World, finished, after_patch, renew,
  take_over, check_leader, hold, after_get, attempt, attempts, or_return,
  create_or_retry_update_lease, renewed_lease,
}

-- A run that starts with no calls made.
abbrev pub at_start : {S : Type 0} → VNode → S → World S
at_start vnode server = record { vnode = vnode; server = server; calls = [] }

-- The client is not, or no longer, the leader by the lease it finds: it takes the lease over into
-- the node, tells the goroutine that runs the node if it was the leader before, and returns without
-- writing to the server.
pub foreign_lease-stops :
    {S : Type 0} (api : Api S) (client_id : Text) (times : ℕ → Times) (vnode : VNode) (server : S)
    (lease : Lease) (before : Bool)
    → (api.get server).0 ≡ got lease
    → is_leader client_id (times 4).time_before vnode.lease ≡ some before
    → is_leader client_id (times 4).time_after (some lease) ≡ some false
    → create_or_retry_update_lease api client_id times (at_start vnode server) ≡ (
      finished,
      record {
        vnode =
            if before
            then leader_acquired_by_others (set_lease lease vnode)
            else set_lease lease vnode;
        server = (api.get server).1;
        calls = get_call ∷ [];
      },
    )
unfolding create_or_retry_update_lease attempts attempt or_return after_get hold check_leader
    take_over set_lease leader_acquired_by_others
foreign_lease-stops api client_id times vnode server lease true e f g = rw (e, f, g)
foreign_lease-stops api client_id times vnode server lease false e f g = rw (e, f, g)

expired-not_leader :
    (client_id holder : Text) (now renewed : ℤ) (lease : Lease)
    → lease.holder ≡ some holder
    → lease.renew_time ≡ some renewed
    → renewed +ℤ lease_duration <ℤ now
    → is_leader client_id now (some lease) ≡ some false
unfolding is_leader has_expired
expired-not_leader client_id holder now renewed lease e f h = ground arith

-- An expired lease on the server stays as it is, whoever holds it, the client itself included: the
-- run makes no call but the get.
pub expired_lease-stays :
    {S : Type 0} (api : Api S) (client_id holder : Text) (times : ℕ → Times) (vnode : VNode)
    (server : S) (lease : Lease) (renewed : ℤ) (before : Bool)
    → (api.get server).0 ≡ got lease
    → is_leader client_id (times 4).time_before vnode.lease ≡ some before
    → lease.holder ≡ some holder
    → lease.renew_time ≡ some renewed
    → renewed +ℤ lease_duration <ℤ (times 4).time_after
    → let (verdict, w') =
        create_or_retry_update_lease api client_id times (at_start vnode server) in
      (w'.calls ≡ get_call ∷ []) × (w'.server ≡ (api.get server).1)
expired_lease-stays api client_id holder times vnode server lease renewed before e f g h k =
    let stop =
      foreign_lease-stops api client_id times vnode server lease before e f
        (expired-not_leader client_id holder (times 4).time_after renewed lease g h k) in
    (ap (λ r. r.1.calls) stop, ap (λ r. r.1.server) stop)

-- A leader with a patch that succeeds: the server gets the lease with the new renew time, the
-- goroutine that waits for leadership is told unless the node is taken over already, and the node
-- keeps the lease as it was found, with the old renew time.
pub own_lease-renewed :
    {S : Type 0} (api : Api S) (client_id : Text) (times : ℕ → Times) (vnode : VNode) (server : S)
    (lease : Lease) (before : Bool)
    → (api.get server).0 ≡ got lease
    → is_leader client_id (times 4).time_before vnode.lease ≡ some before
    → is_leader client_id (times 4).time_after (some lease) ≡ some true
    → (api.patch (renewed_lease api client_id (times 4) lease) lease (api.get server).1).0 ≡ none
    → let w' = (create_or_retry_update_lease api client_id times (at_start vnode server)).1 in
      (w'.calls ≡ patch_call (renewed_lease api client_id (times 4) lease) lease ∷ get_call ∷ [])
      × (w'.vnode.lease ≡ some lease)
      × (w'.vnode.told_me ≡ (not vnode.take_overed || vnode.told_me))
unfolding create_or_retry_update_lease attempts attempt or_return after_get hold check_leader
    take_over set_lease leader_acquired_by_me renew after_patch
own_lease-renewed api client_id times vnode server lease before e f g h = ground (arith, e, f, g, h)
