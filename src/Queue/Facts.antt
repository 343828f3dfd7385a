-- ===== src/Queue/Facts.antt =====
-- When the work queue of virtual_kubelet/internal/queue/queue.go runs a key: insertion never delays
-- it, the earliest key that is due runs first, and the default policy bounds the retries.
use virtual_kubelet.Common.{
  suc, ◌+◌, ◌<◌, ◌≡◌, refl, Bool, true, false, not, ◌||◌, Option, none, some, inl, inr, ◌⊎◌, ℤ,
  ◌+ℤ◌, ◌≤ℤ◌, pos, Text, length, ltb, lookup, Error, arith, Option-cases, lookup-delete_self,
  lookup-insert_self, All, ◌<ℤ◌, -ℤ_parts, sym, subst, List, [], ◌∷◌, delete,
}
use virtual_kubelet.Queue.{
  Queue, RateLimiter, ShouldRetryFunc, duration_deref, insert, add_item, schedule, new_item,
  default_retry_func, max_retries, len,
}
use virtual_kubelet.Queue.Worker.{
  requeue, requeued_from, follow_verdict, handle_queue_item_object, take, get_next_item, take_item,
  Next, sleep, wait_for_item,
}
use virtual_kubelet.Queue.Items.{Item, find_item, is_zero, behind, pop_front}
use virtual_kubelet.Queue.Order.{bring_forward, find-adjust, find-place}
use virtual_kubelet.Queue.Removal.{find-modify, AllFrom, pop-Front}
use virtual_kubelet.Queue.Invariant.{Inv, release-Inv}
use virtual_kubelet.Queue.Methods.{requeued_from-Keeps, get_next_item-Taken}
use virtual_kubelet.Queue.Effects.{queued}
use virtual_kubelet.Queue.Waiting.{requeue-queued, settle-queued}
use virtual_kubelet.Queue.System.{System, Reach, start, Reach-start-Sound}

-- A queued key is not in processing.
queued-free :
    {R : Type 0} {q : Queue R} (k : Text) (x : Item)
    → Inv q
    → find_item k q.items ≡ some x
    → lookup k q.items_being_processed ≡ none
queued-free {q = q} k x v e = elim (Option-cases (lookup k q.items_being_processed)) [
  | inl free ↦ free
  | inr (y, busy) ↦ absurd (ground (arith, v.apart k y busy))
]

module _ {R : Type 0} (limiter : RateLimiter R) where
  -- Enqueueing a key that is queued already never delays it: its planned time becomes the earlier
  -- one of the old and the new time.
  pub insert-brings_forward :
      (now : ℤ) (key : Text) (ratelimit : Bool) (delay : Option ℤ) (x : Item) {q : Queue R}
      → Inv q
      → find_item key q.items ≡ some x
      → let when = now +ℤ duration_deref delay (pos 0) in
        (y : Item) × (find_item key (insert limiter now key ratelimit delay q).items ≡ some y)
        × (y.planned_to_start_work_at ≤ℤ x.planned_to_start_work_at)
        × (y.planned_to_start_work_at ≤ℤ when)
        × ((y.planned_to_start_work_at ≡ x.planned_to_start_work_at)
            ⊎ (y.planned_to_start_work_at ≡ when))
  unfolding insert
  insert-brings_forward now key ratelimit delay x {q} v e =
      let when = now +ℤ duration_deref delay (pos 0) in
      (
        bring_forward when x,
        ground (
          arith,
          queued-free key x v e,
          v.agree key,
          find-adjust key key when q.items v.distinct,
        ),
        ground arith,
        ground arith,
        ground arith,
      )

  -- After a failed run under the default policy, of an item that was not forgotten, the key is
  -- queued exactly when fewer than `MaxRetries` tries are used up or it was redirtied.
  pub handle_failed-queued :
      (today now : ℤ) (qi : Item) (e : Error) {q : Queue R}
      → Inv q
      → lookup qi.key q.items_being_processed ≡ some qi
      → qi.forget ≡ false
      → let r = (handle_queue_item_object limiter default_retry_func today now qi (some e) q).0 in
        queued qi.key r ≡ ltb (suc qi.requeues) max_retries || not (is_zero qi.redirtied_at)
  unfolding handle_queue_item_object follow_verdict default_retry_func
  handle_failed-queued today now qi e {q} v there kept =
      let released : Queue R = record q {
        items_being_processed = delete qi.key q.items_being_processed;
      } in
      let sound : Inv released = release-Inv v qi.key q.ratelimiter in
      let free = lookup-delete_self qi.key q.items_being_processed in
      ground (
        arith,
        v.apart qi.key qi there,
        requeue-queued limiter now none qi qi.key sound free,
        settle-queued limiter today now qi qi.key sound free,
      )

  requeue-item :
      (now : ℤ) (delay : Option ℤ) (qi : Item) {q : Queue R}
      → Inv q
      → lookup qi.key q.items_being_processed ≡ none
      → find_item qi.key q.items ≡ none
      → (y : Item) × (find_item qi.key (requeue limiter now delay qi q).items ≡ some y)
        × (y.requeues ≡ suc qi.requeues)
        × (y.originally_added ≡ qi.originally_added)
  unfolding requeue insert add_item
  requeue-item now delay qi {q} v free fresh =
      let s : ℤ × Option ℤ × R = schedule limiter qi.key true delay q.ratelimiter in
      (
        requeued_from qi (new_item limiter now qi.key s),
        ground (
          arith,
          v.agree qi.key,
          find-place qi.key (new_item limiter now qi.key s) q.items fresh,
          find-modify qi.key (requeued_from qi) (requeued_from-Keeps qi) qi.key
              (insert limiter now qi.key true delay q).items,
        ),
        refl,
        refl,
      )

  -- While fewer than `MaxRetries` tries are used up, a failed run puts the key back with one more
  -- requeue and with the time at which it was first added.
  pub handle_failed-requeues :
      (today now : ℤ) (qi : Item) (e : Error) {q : Queue R}
      → Inv q
      → lookup qi.key q.items_being_processed ≡ some qi
      → qi.forget ≡ false
      → suc qi.requeues < max_retries
      → let r = (handle_queue_item_object limiter default_retry_func today now qi (some e) q).0 in
        (y : Item) × (find_item qi.key r.items ≡ some y)
        × (y.requeues ≡ suc qi.requeues)
        × (y.originally_added ≡ qi.originally_added)
  unfolding handle_queue_item_object follow_verdict default_retry_func
  handle_failed-requeues today now qi e {q} v there kept few =
      let released : Queue R = record q {
        items_being_processed = delete qi.key q.items_being_processed;
      } in
      let (y, found, count, added) =
        requeue-item now none qi (release-Inv {q = q} v qi.key q.ratelimiter)
          (lookup-delete_self qi.key q.items_being_processed) (v.apart qi.key qi there) in
      (y, ground (arith, found), count, added)

abbrev pub hands_out : {R : Type 0} → Next R → Bool
hands_out wait_for_item = false
hands_out (sleep d) = false
hands_out (take qi q) = true

behind-some : (x : Item) (o : Option (Item × List Item)) → behind x o ≡ none → o ≡ none
unfolding behind
behind-some x none h = refl
behind-some x (some (f, rest)) h = cc

pop_front-none : (xs : List Item) → pop_front xs ≡ none → xs ≡ []
unfolding pop_front
pop_front-none [] h = refl
pop_front-none (x ∷ []) h = cc
pop_front-none (x ∷ y ∷ xs) h = cc (pop_front-none (y ∷ xs) (behind-some x _ h))

AllFrom-later :
    (today t : ℤ) (xs : List Item)
    → today <ℤ t
    → AllFrom t xs
    → All (λ x. today <ℤ x.planned_to_start_work_at) xs
AllFrom-later today t [] h a = tt
AllFrom-later today t (x ∷ xs) h a = (omega arith, AllFrom-later today t xs h a.1)

module _ {R : Type 0} where
  -- A worker that gets no item leaves none behind that is due: all planned times are in the future.
  pub get_next_item-idle :
      (today : ℤ) {q : Queue R}
      → Inv q
      → hands_out (get_next_item today q) ≡ false
      → All (λ x. today <ℤ x.planned_to_start_work_at) q.items
  unfolding get_next_item
  get_next_item-idle today {q} v idle = elim (Option-cases (pop_front q.items)) [
    | inl e ↦
        subst (All (λ x. today <ℤ x.planned_to_start_work_at)) (sym (pop_front-none q.items e)) tt
    | inr ((f, rest), e) ↦
        AllFrom-later today f.planned_to_start_work_at q.items
          (ground (arith, -ℤ_parts f.planned_to_start_work_at today))
          (pop-Front q.items v.distinct v.ordered e).earliest
  ]

module _ {R : Type 0} (limiter : RateLimiter R) (retry_func : ShouldRetryFunc) where
  -- In every interleaving the item that a worker takes is due, no queued item is planned before it,
  -- and it is marked as in processing.
  pub take_earliest :
      (r : R) (today : ℤ) {s : System R} {qi : Item} {q : Queue R}
      → Reach limiter retry_func (start limiter retry_func r) s
      → get_next_item today s.queue ≡ take qi q
      → (qi.planned_to_start_work_at ≤ℤ today)
        × AllFrom qi.planned_to_start_work_at s.queue.items
        × (find_item qi.key s.queue.items ≡ some qi)
        × (lookup qi.key q.items_being_processed ≡ some qi)
  unfolding take_item
  take_earliest r today {s} {qi} {q} w e =
      let t = get_next_item-Taken today (Reach-start-Sound limiter retry_func r w).valid e in
      (
        t.due,
        t.front.earliest,
        t.front.found,
        ground (arith, t.result, lookup-insert_self qi.key qi s.queue.items_being_processed),
      )

  -- In every interleaving `Len` does not panic, and counts the queued items and those in processing.
  pub len_total :
      (r : R) {s : System R}
      → Reach limiter retry_func (start limiter retry_func r) s
      → len s.queue ≡ some (length s.queue.items + length s.queue.items_being_processed)
  unfolding len
  len_total r {s} w = ground (arith, (Reach-start-Sound limiter retry_func r w).valid.counted)
