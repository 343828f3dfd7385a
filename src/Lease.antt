-- ===== src/Lease.antt =====
-- Leader election of a virtual node: `createOrRetryUpdateLease` of
-- vnode_controller/vnode_controller.go and the lease methods of provider/vnode.go. The API server
-- and the clock are parameters; what other clients do between two calls is part of the server.
pub mod Calls
pub mod Outcome
pub mod Tests
use virtual_kubelet.Common.{
  ℕ, zero, suc, ◌≡◌, Bool, true, false, ◌&&◌, ◌||◌, not, Option, none, some, List, [], ◌∷◌, ℤ, pos,
  ◌+ℤ◌, ltb_ℤ, Text, text, Error, is_not_found, is_canceled, is_deadline_exceeded, if◌then◌else◌,
}
use virtual_kubelet.Biz.{same_text}

-- A nil pointer in the spec is `none`.
pub record Lease : Type 0 where
  pub name : Text
  pub env : Text
  pub holder : Option Text
  pub duration_seconds : ℕ
  pub renew_time : Option ℤ

-- `others_listening`: a goroutine waits in the select of `takeOverVNode`. `told_others` and
-- `told_me`: a signal was delivered on the unbuffered, or stands in the buffered, channel.
pub record VNode : Type 0 where
  pub name : Text
  pub env : Text
  pub lease : Option Lease
  pub take_overed : Bool
  pub others_listening : Bool
  pub told_others : Bool
  pub told_me : Bool

abbrev pub lease_duration : ℤ
lease_duration = pos 40_000_000_000

unfoldable pub has_expired : ℤ → ℤ → Bool
has_expired now renewed = ltb_ℤ (renewed +ℤ lease_duration) now

-- `IsLeader`; `none` is the panic on a nil holder or renew time.
unfoldable pub is_leader : Text → ℤ → Option Lease → Option Bool
unfolding has_expired
is_leader client_id now none = some false
is_leader client_id now (some lease) = elim lease.holder [
  | none ↦ none
  | some holder ↦
      if same_text holder [] || not (same_text holder client_id)
      then some false
      else elim lease.renew_time [
        | none ↦ none
        | some renewed ↦ some (not (has_expired now renewed))
      ]
]

unfoldable pub new_lease : VNode → Text → ℤ → Lease
new_lease v client_id now = record {
  name = v.name;
  env = v.env;
  holder = some client_id;
  duration_seconds = 40;
  renew_time = some now;
}

unfoldable pub set_lease : Lease → VNode → VNode
set_lease lease v = record v { lease = some lease }

-- The channel has no buffer: with nobody in the select the signal is lost.
unfoldable pub leader_acquired_by_others : VNode → VNode
leader_acquired_by_others v =
    if v.others_listening then record v { told_others = true; others_listening = false } else v

-- The channel has room for one signal; a second one is dropped.
unfoldable pub leader_acquired_by_me : VNode → VNode
leader_acquired_by_me v = record v { told_me = true }

pub data GetResult : Type 0 where
  got : Lease → GetResult
  failed : Error → GetResult

-- The lease part of the API server, with a state `S` that other clients may change too.
pub record Api (S : Type 0) : Type 0 where
  pub get : S → GetResult × S
  pub create : Lease → S → Option Error × S
  pub patch : Lease → Lease → S → Option Error × S

-- The calls that the client makes; a patch is the new lease and the one it starts from.
pub data Call : Type 0 where
  get_call : Call
  create_call : Lease → Call
  patch_call : Lease → Lease → Call

-- The readings of the clock in one attempt: for a new lease, in `IsLeader` before and after the
-- lease is set, and for the renewal.
pub record Times : Type 0 where
  pub create_time : ℤ
  pub time_before : ℤ
  pub time_after : ℤ
  pub renewal_time : ℤ

-- `calls` has the latest call first.
pub record World (S : Type 0) : Type 0 where
  pub vnode : VNode
  pub server : S
  pub calls : List Call

pub data Verdict : Type 0 where
  again finished panicked : Verdict

-- The loop goes on, or ends with a return or a panic.
unfoldable pub or_return : {S : Type 0} → Verdict → World S → Verdict × World S → Verdict × World S
or_return again w rest = rest
or_return finished w rest = (finished, w)
or_return panicked w rest = (panicked, w)

module _ {S : Type 0} (api : Api S) (client_id : Text) where
  abbrev pub renewed_lease : Times → Lease → Lease
  renewed_lease t lease = record lease { holder = some client_id; renew_time = some t.renewal_time }

  -- After a conflict, and after any other error, the loop goes on.
  unfoldable pub after_patch : Lease → Option Error → World S → Verdict × World S
  after_patch lease none w = (finished, record w { vnode = set_lease lease w.vnode })
  after_patch lease (some e) w =
      if is_canceled e || is_deadline_exceeded e then (finished, w) else (again, w)

  unfoldable pub renew : Times → Lease → World S → Verdict × World S
  unfolding after_patch
  renew t lease w =
      let new = renewed_lease t lease in
      let (e, server) = api.patch new lease w.server in
      after_patch lease e
        (record { vnode = w.vnode; server = server; calls = patch_call new lease ∷ w.calls })

  unfoldable pub take_over : Times → Lease → Bool → Bool → World S → Verdict × World S
  unfolding renew leader_acquired_by_me
  take_over t lease created now w =
      let v = if now && not w.vnode.take_overed then leader_acquired_by_me w.vnode else w.vnode in
      let w' = record w { vnode = v } in
      if created || not now then (finished, w') else renew t lease w'

  unfoldable pub check_leader :
      Times → Lease → Bool → Option Bool → Option Bool → World S → Verdict × World S
  unfolding take_over leader_acquired_by_others
  check_leader t lease created none after w = (panicked, w)
  check_leader t lease created (some before) none w =
      (panicked, record w { vnode = set_lease lease w.vnode })
  check_leader t lease created (some before) (some now) w =
      let v = set_lease lease w.vnode in
      if before && not now
      then (finished, record w { vnode = leader_acquired_by_others v })
      else take_over t lease created now (record w { vnode = v })

  unfoldable pub hold : Times → Lease → Bool → World S → Verdict × World S
  unfolding check_leader is_leader
  hold t lease created w =
      check_leader t lease created (is_leader client_id t.time_before w.vnode.lease)
        (is_leader client_id t.time_after (some lease)) w

  unfoldable pub after_create : Times → Lease → Option Error → World S → Verdict × World S
  unfolding hold
  after_create t lease none w = hold t lease true w
  after_create t lease (some e) w = (again, w)

  unfoldable pub after_get : Times → GetResult → World S → Verdict × World S
  unfolding hold after_create new_lease
  after_get t (got lease) w = hold t lease false w
  after_get t (failed e) w =
      let lease = new_lease w.vnode client_id t.create_time in
      let (e', server) = api.create lease w.server in
      if is_not_found e
      then after_create t lease e'
          (record { vnode = w.vnode; server = server; calls = create_call lease ∷ w.calls })
      else (again, w)

  -- One round of the loop.
  unfoldable pub attempt : Times → World S → Verdict × World S
  unfolding after_get
  attempt t w =
      let (found, server) = api.get w.server in
      after_get t found (record { vnode = w.vnode; server = server; calls = get_call ∷ w.calls })

  unfoldable pub attempts : ℕ → (ℕ → Times) → World S → Verdict × World S
  unfolding attempt or_return
  attempts zero times w = (finished, w)
  attempts (suc n) times w =
      let (verdict, w') = attempt (times n) w in or_return verdict w' (attempts n times w')

  unfoldable pub create_or_retry_update_lease : (ℕ → Times) → World S → Verdict × World S
  unfolding attempts
  create_or_retry_update_lease times w = attempts 5 times w
