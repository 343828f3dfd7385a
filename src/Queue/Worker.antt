-- ===== src/Queue/Worker.antt =====
-- The workers of virtual_kubelet/internal/queue/queue.go: taking the next item, what follows when its
-- handler has returned, and the start and the end of `Run`.
use virtual_kubelet.Common.{
  suc, true, false, ◌||◌, Option, none, some, List, ℤ, pos, ◌-ℤ◌, leb_ℤ, Text, text,
  insert as set_entry, delete, Error, wrapped, if◌then◌else◌,
}
use virtual_kubelet.Queue.Items.{Item, is_zero, modify_item, pop_front}
use virtual_kubelet.Queue.{RateLimiter, Queue, Verdict, retry, give_up, ShouldRetryFunc, insert}

-- `newQI.requeues = …; newQI.originallyAdded = …` after the requeue of `qi`.
abbrev pub requeued_from : Item → Item → Item
requeued_from qi new = record new {
  requeues = suc qi.requeues;
  originally_added = qi.originally_added;
}

abbrev pub mark_redirty : Item → Item
mark_redirty new = record new { added_via_redirty = true }

abbrev pub forgetting : Item → Text
forgetting qi =
    if is_zero qi.redirtied_at then text "forgetting" else text "temporarily (requeued) forgetting"

module _ {R : Type 0} (limiter : RateLimiter R) where
  -- The end of `handleQueueItemObject`: success, or no more retries.
  unfoldable pub settle : ℤ → ℤ → Item → Queue R → Queue R
  settle today now qi q =
      let settled = record q { ratelimiter = limiter.forget q.ratelimiter qi.key } in
      if is_zero qi.redirtied_at
      then settled
      else let again =
          insert limiter now qi.key qi.redirtied_with_ratelimit (some (qi.redirtied_at -ℤ today))
            settled in
        record again { items = modify_item qi.key mark_redirty again.items }

  unfoldable pub requeue : ℤ → Option ℤ → Item → Queue R → Queue R
  requeue now delay qi q =
      let again = insert limiter now qi.key true delay q in
      record again { items = modify_item qi.key (requeued_from qi) again.items }

  -- The retry policy has spoken on a failure.
  unfoldable pub follow_verdict : ℤ → ℤ → Item → Verdict → Queue R → Queue R × Option Error
  unfolding settle requeue
  follow_verdict today now qi (retry delay) q = (requeue now delay qi q, none)
  follow_verdict today now qi (give_up e) q =
      (settle today now qi q, some (wrapped (forgetting qi) e))

  unfoldable pub after_handler :
      ShouldRetryFunc → ℤ → ℤ → Item → Option Error → Queue R → Queue R × Option Error
  unfolding settle follow_verdict
  after_handler retry_func today now qi none q = (settle today now qi q, none)
  after_handler retry_func today now qi (some e) q =
      follow_verdict today now qi (retry_func qi.key (suc qi.requeues) qi.originally_added e) q

  -- What `handleQueueItemObject` does once the handler has returned `err`. `qi` is the item that
  -- the worker's pointer shows at that moment.
  unfoldable pub handle_queue_item_object :
      ShouldRetryFunc → ℤ → ℤ → Item → Option Error → Queue R → Queue R × Option Error
  unfolding after_handler
  handle_queue_item_object retry_func today now qi err q =
      let released = record q { items_being_processed = delete qi.key q.items_being_processed } in
      if qi.forget
      then (record released { ratelimiter = limiter.forget q.ratelimiter qi.key }, none)
      else after_handler retry_func today now qi err released

-- One turn of the loop of `getNextItem`: wait for a wakeup, sleep, or take the front item.
pub data Next (R : Type 0) : Type 0 where
  wait_for_item : Next R
  sleep : ℤ → Next R
  take : Item → Queue R → Next R

module _ {R : Type 0} where
  unfoldable pub take_item : Item → List Item → Queue R → Queue R
  take_item qi rest q = record q {
    items = rest;
    items_in_queue = delete qi.key q.items_in_queue;
    items_being_processed = set_entry qi.key qi q.items_being_processed;
  }

  unfoldable pub get_next_item : ℤ → Queue R → Next R
  unfolding take_item
  get_next_item today q = elim (pop_front q.items) [
    | none ↦ wait_for_item
    | some (qi, rest) ↦
        let until = qi.planned_to_start_work_at -ℤ today in
        if leb_ℤ until (pos 0) then take qi (take_item qi rest q) else sleep until
  ]

  -- `Run` takes the queue into service, and panics if it is already running or has no worker.
  unfoldable pub start_running : ℤ → Queue R → Option (Queue R)
  start_running workers q =
      if leb_ℤ workers (pos 0) || q.running then none else some (record q { running = true })

  unfoldable pub stop_running : Queue R → Queue R
  stop_running q = record q { running = false }
