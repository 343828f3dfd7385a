-- ===== src/TakeOver.antt =====
-- The life of a virtual node in provider/vnode.go (`Run`, `WaitReady`, `cleanUp`, `Remove`) and
-- vnode_controller/vnode_controller.go (`createAndRunVNode`, `runVNode`, `takeOverVNode`,
-- `deleteVNode`): the goroutine that takes the node over, those that clean up after a take-over, and
-- the one that deletes the node, interleaved in every order.
pub mod Sound
pub mod Remove
pub mod Tests
use virtual_kubelet.Common.{
  ℕ, suc, ◌+◌, ◌≡◌, ◌⊎◌, Bool, true, false, ◌||◌, not, Option, none, some, is_some, List, [], ◌∷◌,
  Error, is_not_found, if◌then◌else◌,
}
use virtual_kubelet.Pods.{Outcome, ok, panic, error}

-- Where the goroutine of `runVNode` stands: at its select; in `Run` before and after the tunnel has
-- registered the node; in `WaitReady`; at the select of `takeOverVNode`; or at its end.
pub data Main : Type 0 where
  waiting starting activating checking holding stopped : Main

-- `watching` and `stale` are the goroutines that `Run` leaves behind: that of the current take-over,
-- and how many there are of earlier ones, whose context is cancelled. `cancelled` is the context of
-- the virtual node, `told_me` the buffered signal, `stored` whether the store has the node.
pub record Life : Type 0 where
  pub main : Main
  pub watching : Bool
  pub stale : ℕ
  pub take_overed : Bool
  pub told_me : Bool
  pub ready : Bool
  pub registered : Bool
  pub exit : Bool
  pub done : Bool
  pub stored : Bool
  pub cancelled : Bool
  pub crashed : Bool

-- What `createVNode` leaves.
abbrev pub created : Life
created = record {
  main = waiting;
  watching = false;
  stale = 0;
  take_overed = false;
  told_me = false;
  ready = false;
  registered = false;
  exit = false;
  done = false;
  stored = true;
  cancelled = false;
  crashed = false;
}

-- The start of `takeOverVNode`, and of `Run`.
unfoldable pub begin_take_over : Life → Life
begin_take_over s = record s { told_me = false; take_overed = true; ready = false; main = starting }

-- `activate`: closing a closed channel panics.
unfoldable pub activate : Life → Life
activate s =
    if s.ready then record s { crashed = true } else record s { ready = true; main = checking }

unfoldable pub clean_up : Life → Life
clean_up s = record s { ready = false; registered = false }

-- The deferred calls of `takeOverVNode`: a goroutine that still watches finds its context cancelled.
unfoldable pub release : Life → Life
release s = record s {
  take_overed = false;
  main = waiting;
  watching = false;
  stale = if s.watching then suc s.stale else s.stale;
}

-- `failed` is an error of `Run`, `not_ready` one of `WaitReady`.
pub data Step (s : Life) : Life → Type 0 where
  signalled : s.take_overed ≡ false → Step s (record s { told_me = true })
  taken : s.main ≡ waiting → s.told_me ≡ true → Step s (begin_take_over s)
  ended : s.main ≡ waiting → s.cancelled ≡ true → Step s (record s { main = stopped })
  failed : s.main ≡ starting → Step s (record s { take_overed = false; main = waiting })
  registers :
      s.main ≡ starting
      → Step s (record s { registered = true; watching = true; main = activating })
  activates : s.main ≡ activating → Step s (activate s)
  found_ready : s.main ≡ checking → s.ready ≡ true → Step s (record s { main = holding })
  not_ready : s.main ≡ checking → (s.ready ≡ false) ⊎ (s.done ≡ true) → Step s (release s)
  lost : s.main ≡ holding → Step s (release s)
  shut_down : Step s (record s { exit = true })
  exits :
      s.watching ≡ true
      → s.exit ≡ true
      → Step s (record (clean_up s) { watching = false; done = true })
  cancelled_watch :
      s.watching ≡ true → s.cancelled ≡ true → Step s (record (clean_up s) { watching = false })
  stale_exits :
      (n : ℕ)
      → s.stale ≡ suc n
      → s.exit ≡ true
      → Step s (record (clean_up s) { stale = n; done = true })
  stale_cleans : (n : ℕ) → s.stale ≡ suc n → Step s (record (clean_up s) { stale = n })
  deletes : s.done ≡ true → s.stored ≡ true → Step s (record s { stored = false; cancelled = true })

-- Nothing happens after a crash.
pub data Reach : Life → Type 0 where
  at_start : Reach created
  next : {s t : Life} → Reach s → s.crashed ≡ false → Step s t → Reach t

-- What `Remove` asks of Kubernetes, each with its error.
pub data RemoveCall : Type 0 where
  node_deleted node_read lease_deleted : Option Error → RemoveCall

pub record RemoveApi (S : Type 0) : Type 0 where
  pub delete_node : S → Option Error × S
  pub get_node : S → Option Error × S
  pub delete_lease : S → Option Error × S

-- No error, or that there is nothing.
abbrev pub is_harmless : Option Error → Bool
is_harmless none = true
is_harmless (some e) = is_not_found e

abbrev pub outcome_of : Option Error → Outcome
outcome_of none = ok
outcome_of (some e) = error e

module _ {S : Type 0} (api : RemoveApi S) where
  -- Without a lease the last call panics; its error is returned even if it is harmless.
  unfoldable pub remove_lease : Bool → S → List RemoveCall → Outcome × S × List RemoveCall
  remove_lease false s calls = (panic, s, calls)
  remove_lease true s calls =
      let (e, s') = api.delete_lease s in (outcome_of e, s', lease_deleted e ∷ calls)

  unfoldable pub read_node : Bool → S → List RemoveCall → Outcome × S × List RemoveCall
  unfolding remove_lease
  read_node has_lease s calls =
      let (e, s') = api.get_node s in
      if is_harmless e
      then remove_lease has_lease s' (node_read e ∷ calls)
      else (outcome_of e, s', node_read e ∷ calls)

  unfoldable pub remove : Bool → S → Outcome × S × List RemoveCall
  unfolding read_node
  remove has_lease s =
      let (e, s') = api.delete_node s in
      if is_harmless e
      then read_node has_lease s' (node_deleted e ∷ [])
      else (outcome_of e, s', node_deleted e ∷ [])

-- `checkNodeExistsInClient`, by the error of the cache.
unfoldable pub check_node_exists_in_client :
    {S : Type 0} → (S → Option Error × S) → S → Bool × Option Error × S
check_node_exists_in_client get s = let (e, s') = get s in (not (is_some e), e, s')
