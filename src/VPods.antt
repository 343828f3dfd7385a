-- ===== src/VPods.antt =====
-- The pod provider: `CallWithRetry` and `DefaultRateLimiter` of common/utils/utils.go,
-- provider/vpod_store.go, and the operations of provider/vpod_provider.go. The tunnel to the base,
-- the cache and go-cmp are parameters; the goroutine that waits for old containers to stop is a step
-- of its own, `check_pending`.
pub mod Retry
pub mod Sync
pub mod Store
pub mod Steps
pub mod Restart
pub mod Tests
use virtual_kubelet.Common.{
  ℕ, zero, suc, ◌+◌, ◌*◌, ◌≡◌, Bool, true, false, ◌&&◌, ◌||◌, not, Option, none, some, is_some,
  List, [], ◌∷◌, ◌++◌, ℤ, pos, Text, text, has_suffix, Map, lookup, insert, delete, Error, message,
  deadline_exceeded, is_not_found, if◌then◌else◌, ltb, map, decided, text_dec,
}
use virtual_kubelet.Kube.{Container, ContainerStatus, Pod}
use virtual_kubelet.Keys.{get_pod_key}
use virtual_kubelet.Pods.{PodResult, got, failed}

-- In milliseconds.
unfoldable pub default_rate_limiter : ℕ → ℕ
default_rate_limiter retry_times =
    if ltb retry_times 30
    then retry_times * 100
    else if ltb retry_times 100
    then retry_times * retry_times * 100
    else 1_000_000

-- `timers` is how many timers fire before the context ends, at its deadline; a call says whether to
-- retry.
unfoldable pub call_with_retry :
    {S : Type 0} → ℕ → (ℕ → S → Bool × Option Error × S) → ℕ → S → Option Error × S
call_with_retry zero call n s =
    let (retry, e, s') = call n s in if retry then (some deadline_exceeded, s') else (e, s')
call_with_retry (suc timers) call n s =
    let (retry, e, s') = call n s in
    let rest = call_with_retry timers call (suc n) s' in if retry then rest else (e, s')

-- The tunnel, by the node's name: starting and stopping a biz for a pod key.
pub record Tunnel (S : Type 0) : Type 0 where
  pub start_biz : Text → Container → S → Option Error × S
  pub stop_biz : Text → Container → S → Option Error × S

-- A notification, and a start or a stop of a container with its retries.
pub data Event : Type 0 where
  notified : Pod → Event
  started stopped : Text → Container → Event

-- A pod whose containers wait to be started until others have stopped.
pub record Pending : Type 0 where
  pub pod : Pod
  pub to_stop : List Container
  pub to_start : List Container

-- `events` has the latest first.
pub record Provider (S : Type 0) : Type 0 where
  pub store : Map Pod
  pub base : S
  pub pending : List Pending
  pub events : List Event

abbrev pub key_of : Text → Text → Text
key_of namespace name = get_pod_key namespace name

abbrev pub pod_key : Pod → Text
pod_key pod = get_pod_key pod.namespace pod.name

module _ {S : Type 0} where
  unfoldable pub put_pod : Pod → Provider S → Provider S
  put_pod pod p = record p { store = insert (pod_key pod) pod p.store }

  unfoldable pub remove_pod : Text → Provider S → Provider S
  remove_pod key p = record p { store = delete key p.store }

  unfoldable pub notify : Pod → Provider S → Provider S
  notify pod p = record p { events = notified pod ∷ p.events }

  unfoldable pub get_pod : Text → Text → Provider S → Option Pod
  get_pod namespace name p = lookup (get_pod_key namespace name) p.store

abbrev pub retried : {S : Type 0} → Option Error × S → Bool × Option Error × S
retried (e, s) = (is_some e, e, s)

abbrev pub key_to_stop : Text → Text
key_to_stop key = if has_suffix key (text "not-exist-pod") then [] else key

module _ {S : Type 0} (tunnel : Tunnel S) (timers : ℕ) where
  -- Errors are only logged.
  unfoldable pub handle_biz_batch_start : Text → List Container → Provider S → Provider S
  unfolding call_with_retry
  handle_biz_batch_start key [] p = p
  handle_biz_batch_start key (c ∷ cs) p =
      let (e, s) = call_with_retry timers (λ n s. retried (tunnel.start_biz key c s)) 0 p.base in
      handle_biz_batch_start key cs (record p { base = s; events = started key c ∷ p.events })

  unfoldable pub handle_biz_batch_stop : Text → List Container → Provider S → Provider S
  unfolding call_with_retry
  handle_biz_batch_stop key [] p = p
  handle_biz_batch_stop key (c ∷ cs) p =
      let stop = key_to_stop key in
      let (e, s) = call_with_retry timers (λ n s. retried (tunnel.stop_biz stop c s)) 0 p.base in
      handle_biz_batch_stop key cs (record p { base = s; events = stopped stop c ∷ p.events })

  unfoldable pub create_pod : Pod → Provider S → Provider S
  unfolding put_pod handle_biz_batch_start notify
  create_pod pod p =
      notify pod (handle_biz_batch_start (pod_key pod) pod.containers (put_pod pod p))

  unfoldable pub delete_pod : Pod → Provider S → Provider S
  unfolding remove_pod handle_biz_batch_stop notify
  delete_pod pod p =
      notify pod (handle_biz_batch_stop (pod_key pod) pod.containers (remove_pod (pod_key pod) p))

-- The containers by name; a later one replaces an earlier one.
unfoldable pub by_name : List Container → Map Container → Map Container
by_name [] m = m
by_name (c ∷ cs) m = by_name cs (insert c.name c m)

-- The old containers that are there still, but not the same, each with the new one.
unfoldable pub changed :
    (Container → Container → Bool) → Map Container → Map Container → List (Container × Container)
changed same new [] = []
changed same new ((name, old) ∷ olds) =
    let rest = changed same new olds in
    elim (lookup name new) [ none ↦ rest | some c ↦ if same c old then rest else (old, c) ∷ rest ]

unfoldable pub added : Map Container → Map Container → List Container
added old [] = []
added old ((name, c) ∷ news) =
    let rest = added old news in if is_some (lookup name old) then rest else c ∷ rest

module _ {S : Type 0} (tunnel : Tunnel S) (timers : ℕ) (same : Container → Container → Bool) where
  abbrev pub stop_some : Text → List Container → Provider S → Provider S
  stop_some key [] p = p
  stop_some key (c ∷ cs) p = handle_biz_batch_stop tunnel timers key (c ∷ cs) p

  -- What is left of `UpdatePod` once the containers to stop and to start are known.
  unfoldable pub replace : Text → Pod → List Container → List Container → Provider S → Provider S
  unfolding handle_biz_batch_stop put_pod notify
  replace old_key pod stops [] p = notify pod (put_pod pod (stop_some old_key stops p))
  replace old_key pod stops (c ∷ cs) p =
      let p' = put_pod pod (stop_some old_key stops p) in
      notify pod (record p' {
        pending = record { pod = pod; to_stop = stops; to_start = c ∷ cs } ∷ p'.pending;
      })

  unfoldable pub update_stored : Pod → Option Pod → Provider S → Option Error × Provider S
  unfolding replace changed added by_name
  update_stored pod none p = (some (message (text "pod not found when updating")), p)
  update_stored pod (some old) p =
      let olds = by_name old.containers [] in
      let news = by_name pod.containers [] in
      let pairs = changed same news olds in
      (
        none,
        replace (pod_key old) pod (map (λ x. x.0) pairs) (map (λ x. x.1) pairs ++ added olds news)
            p,
      )

  unfoldable pub update_pod : Pod → Provider S → Option Error × Provider S
  unfolding update_stored
  update_pod pod p =
      if is_some pod.deletion_timestamp
      then (none, p)
      else update_stored pod (lookup (pod_key pod) p.store) p

-- The last status of the name.
unfoldable pub last_status : Text → List ContainerStatus → Option ContainerStatus
last_status name [] = none
last_status name (s ∷ ss) = elim (last_status name ss) [
  | some later ↦ some later
  | none ↦ if decided (text_dec s.name name) then some s else none
]

abbrev pub has_stopped : Option ContainerStatus → Bool
has_stopped none = true
has_stopped (some s) = is_some s.state.terminated

unfoldable pub all_stopped : List Container → List ContainerStatus → Bool
unfolding last_status
all_stopped [] ss = true
all_stopped (c ∷ cs) ss = has_stopped (last_status c.name ss) && all_stopped cs ss

module _ {S : Type 0} (tunnel : Tunnel S) (timers : ℕ) where
  -- One check of the waiting goroutine, by what Kubernetes says of the pod: whether it goes on
  -- waiting, and the provider afterwards.
  unfoldable pub check_pending : Pending → PodResult → Provider S → Bool × Provider S
  unfolding all_stopped handle_biz_batch_start
  check_pending w (failed e) p = if is_not_found e then (false, p) else (true, p)
  check_pending w (got pod) p =
      if all_stopped w.to_stop pod.status.container_statuses
      then (false, handle_biz_batch_start tunnel timers (pod_key w.pod) w.to_start p)
      else (true, p)
