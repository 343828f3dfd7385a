-- ===== src/Lease/Calls.antt =====
-- What `createOrRetryUpdateLease` of vnode_controller/vnode_controller.go asks of the API server.
use virtual_kubelet.Common.{
  ℕ, zero, suc, ◌+◌, ◌*◌, ◌≤◌, ◌<◌, ◌≡◌, refl, sym, subst, Bool, true, false, Error, Option, none,
  some, [], ◌∷◌, ℤ, Text, All, length, arith, if-holds, if◌then◌else◌, is_not_found,
}
use virtual_kubelet.Lease.{
  Lease, VNode, is_leader, GetResult, got, failed, Api, Call, get_call, create_call, patch_call,
  Times, World, Verdict, again, finished, panicked, after_patch, renew, take_over, check_leader,
  hold, after_create, after_get, attempt, attempts, or_return, create_or_retry_update_lease,
  new_lease, set_lease, renewed_lease,
}

-- A created lease is the client's own, from the time of one of the first rounds; a patch only moves
-- the renew time of a lease that the client holds and that had not expired when that round looked.
abbrev pub Allowed : Text → (ℕ → Times) → ℕ → Call → Type 0
Allowed client_id times rounds get_call = Unit {0}
Allowed client_id times rounds (create_call lease) =
    (lease.holder ≡ some client_id)
    × (i : ℕ) × (i < rounds)
    × (lease.renew_time ≡ some (times i).create_time)
Allowed client_id times rounds (patch_call new base) =
    (i : ℕ) × (i < rounds)
    × (is_leader client_id (times i).time_after (some base) ≡ some true)
    × (new ≡ record base { renew_time = some (times i).renewal_time })

leader-holder :
    (client_id : Text) (now : ℤ) (lease : Lease)
    → is_leader client_id now (some lease) ≡ some true
    → lease.holder ≡ some client_id
unfolding is_leader
leader-holder client_id now lease h = ground arith

renewed-base :
    (client_id : Text) (t : Times) (lease : Lease)
    → lease.holder ≡ some client_id
    → record lease { holder = some client_id; renew_time = some t.renewal_time }
      ≡ record lease { renew_time = some t.renewal_time }
renewed-base client_id t lease h = cc

module _ {S : Type 0} (api : Api S) (client_id : Text) (times : ℕ → Times) where
  abbrev Fine : ℕ → World S → Type 0
  Fine rounds w = All (Allowed client_id times rounds) w.calls

  abbrev Good : ℕ → ℕ → World S → Verdict × World S → Type 0
  Good rounds bound w r = Fine rounds r.1 × (length r.1.calls ≤ bound + length w.calls)

  after_patch-calls :
      (lease : Lease) (e : Option Error) (w : World S)
      → (after_patch api client_id lease e w).1.calls ≡ w.calls
  unfolding after_patch
  after_patch-calls lease none w = refl
  after_patch-calls lease (some e) w = ground arith

  renew-calls :
      (t : Times) (lease : Lease) (w : World S)
      → (renew api client_id t lease w).1.calls
        ≡ patch_call (renewed_lease api client_id t lease) lease ∷ w.calls
  unfolding renew
  renew-calls t lease w = after_patch-calls lease _ _

  -- One round, number `i` of `rounds`.
  module _ (rounds i : ℕ) (few : i < rounds) where
    abbrev t : Times
    t = times i

    abbrev Round : ℕ → World S → Verdict × World S → Type 0
    Round bound w r = Good rounds bound w r

    renew-Good :
        (lease : Lease) (w : World S)
        → is_leader client_id t.time_after (some lease) ≡ some true
        → Fine rounds w
        → Round 1 w (renew api client_id t lease w)
    renew-Good lease w h g =
        let same = renewed-base client_id t lease (leader-holder client_id t.time_after lease h) in
        subst
          (λ calls.
            All (Allowed client_id times rounds) calls × (length calls ≤ 1 + length w.calls))
          (sym (renew-calls t lease w)) (((i, few, h, same), g), omega arith)

    -- How often a round patches the lease at most.
    abbrev patches : Bool → ℕ
    patches created = if created then 0 else 1

    take_over-Good :
        (lease : Lease) (created now : Bool) (w : World S)
        → is_leader client_id t.time_after (some lease) ≡ some now
        → Fine rounds w
        → Round (patches created) w (take_over api client_id t lease created now w)
    unfolding take_over
    take_over-Good lease true now w h g = (g, omega arith)
    take_over-Good lease false false w h g = (g, omega arith)
    take_over-Good lease false true w h g = renew-Good lease _ h g

    check-Good :
        (lease : Lease) (created : Bool) (before after : Option Bool) (w : World S)
        → is_leader client_id t.time_after (some lease) ≡ after
        → Fine rounds w
        → Round (patches created) w (check_leader api client_id t lease created before after w)
    unfolding check_leader
    check-Good lease created none after w h g = (g, omega arith)
    check-Good lease created (some before) none w h g = (g, omega arith)
    check-Good lease created (some true) (some false) w h g = (g, omega arith)
    check-Good lease created (some false) (some now) w h g =
        take_over-Good lease created now (record w { vnode = set_lease lease w.vnode }) h g
    check-Good lease created (some true) (some true) w h g =
        take_over-Good lease created true (record w { vnode = set_lease lease w.vnode }) h g

    after_create-Good :
        (lease : Lease) (e : Option Error) (w : World S)
        → Fine rounds w
        → Round 0 w (after_create api client_id t lease e w)
    unfolding after_create hold
    after_create-Good lease none w g = check-Good lease true _ _ w refl g
    after_create-Good lease (some e) w g = (g, omega arith)

    after_get-Good :
        (r : GetResult) (w : World S) → Fine rounds w → Round 1 w (after_get api client_id t r w)
    unfolding after_get hold new_lease
    after_get-Good (got lease) w g =
        let (a, b) = check-Good lease false _ _ w refl g in (a, omega arith)
    after_get-Good (failed e) w g =
        let lease = new_lease w.vnode client_id t.create_time in
        let r = api.create lease w.server in
        let w' : World S = record {
          vnode = w.vnode;
          server = r.1;
          calls = create_call lease ∷ w.calls;
        } in
        if-holds (Round 1 w) (is_not_found e)
          (λ h.
            let (a, b) = after_create-Good lease r.0 w' ((refl, i, few, refl), g) in
            (a, omega arith))
          (λ h. (g, omega arith))

    attempt-Good : (w : World S) → Fine rounds w → Round 2 w (attempt api client_id t w)
    unfolding attempt
    attempt-Good w g =
        let r = api.get w.server in
        let w' : World S = record { vnode = w.vnode; server = r.1; calls = get_call ∷ w.calls } in
        let (a, b) = after_get-Good r.0 w' (tt, g) in (a, omega arith)

  or_return-Good :
      (rounds bound : ℕ) (v : Verdict) (w w' : World S) (rest : Verdict × World S)
      → Good rounds bound w (v, w')
      → Good rounds bound w rest
      → Good rounds bound w (or_return v w' rest)
  unfolding or_return
  or_return-Good rounds bound again w w' rest h g = g
  or_return-Good rounds bound finished w w' rest h g = h
  or_return-Good rounds bound panicked w w' rest h g = h

  attempts-Good :
      (n rounds : ℕ) (w : World S)
      → n ≤ rounds
      → Fine rounds w
      → Good rounds (n * 2) w (attempts api client_id n times w)
  unfolding attempts
  attempts-Good zero rounds w few g = (g, omega arith)
  attempts-Good (suc n) rounds w few g =
      let r = attempt api client_id (times n) w in
      let (a, b) = attempt-Good rounds n (omega (arith, few)) w g in
      let (c, d) = attempts-Good n rounds r.1 (omega (arith, few)) a in
      or_return-Good rounds (suc n * 2) r.0 w r.1 (attempts api client_id n times r.1)
        (a, omega arith) (c, omega arith)

-- In every run, whatever the server answers, the client asks at most 10 times, in at most 5 rounds; it
-- creates only leases of its own, renewed at the time that the round read for them, and patches a lease
-- only if the client holds it and it had not expired at the time that the same round read after it got
-- the lease, moving nothing but the renew time, to the time that the round read for it.
pub create_or_retry_update_lease-Allowed :
    {S : Type 0} (api : Api S) (client_id : Text) (times : ℕ → Times) (vnode : VNode) (server : S)
    → let w : World S = record { vnode = vnode; server = server; calls = [] } in
      let (verdict, w') = create_or_retry_update_lease api client_id times w in
      All (Allowed client_id times 5) w'.calls × (length w'.calls ≤ 10)
unfolding create_or_retry_update_lease
create_or_retry_update_lease-Allowed {S} api client_id times vnode server =
    let w : World S = record { vnode = vnode; server = server; calls = [] } in
    let (a, b) = attempts-Good api client_id times 5 5 w (omega arith) tt in (a, omega arith)
