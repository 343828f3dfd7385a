-- ===== src/Queue/Methods.antt =====
-- Every method of the work queue (virtual_kubelet/internal/queue/queue.go) keeps the invariant.
use virtual_kubelet.Common.{
  ◌≡◌, refl, Bool, true, false, Option, none, some, List, inl, inr, ℤ, ◌+ℤ◌, pos, Text, lookup,
  Error, arith, Option-cases, lookup-insert, DistinctKeys-insert, ◌≤ℤ◌, -ℤ_parts, if◌then◌else◌,
  if-holds, sym, ap, subst, ◌∙◌,
}
use virtual_kubelet.Queue.{
  Queue, RateLimiter, ShouldRetryFunc, retry, give_up, new_queue, duration_deref, schedule,
  new_item, add_item, insert, forget, Verdict,
}
use virtual_kubelet.Queue.Worker.{
  settle, requeue, mark_redirty, requeued_from, handle_queue_item_object, take_item, get_next_item,
  take, sleep, follow_verdict, after_handler,
}
use virtual_kubelet.Queue.Items.{Item, find_item, pop_front, is_zero}
use virtual_kubelet.Queue.Removal.{Keeps, Front, pop-Front, find-remove}
use virtual_kubelet.Queue.Invariant.{
  Inv, redirty-key, write-Inv, adjust-Inv, place-Inv, modify-Inv, remove-Inv, release-Inv,
  other-Inv,
}

pub new_queue-Inv : {R : Type 0} (r : R) → Inv (new_queue r)
unfolding new_queue lookup find_item
new_queue-Inv r = record {
  distinct = tt;
  ordered = tt;
  agree = λ k. refl;
  counted = refl;
  queue_keys = tt;
  apart = λ k x h. refl;
  named = λ k x h. cc;
  processed_keys = tt;
}

pub mark_redirty-Keeps : Keeps mark_redirty
mark_redirty-Keeps = record { key = λ x. refl; planned = λ x. refl }

pub requeued_from-Keeps : (qi : Item) → Keeps (requeued_from qi)
requeued_from-Keeps qi = record { key = λ x. refl; planned = λ x. refl }

module _ {R : Type 0} (limiter : RateLimiter R) where
  add_item-Inv :
      (now : ℤ) (key : Text) (s : ℤ × Option ℤ × R) {q : Queue R}
      → Inv q
      → lookup key q.items_being_processed ≡ none
      → lookup key q.items_in_queue ≡ none
      → Inv (add_item limiter now key s q)
  unfolding add_item
  add_item-Inv now key s {q} v free absent =
      other-Inv (place-Inv v (new_item limiter now key s) s.2 free absent) s.2 true q.running

  pub insert-Inv :
      (now : ℤ) (key : Text) (ratelimit : Bool) (delay : Option ℤ) {q : Queue R}
      → Inv q
      → Inv (insert limiter now key ratelimit delay q)
  unfolding insert
  insert-Inv now key ratelimit delay {q} v =
      elim (Option-cases (lookup key q.items_being_processed)) [
        | inr (x, e) ↦
            rw (e, insert)
              (other-Inv
                (write-Inv v key x _ e
                  (redirty-key (now +ℤ duration_deref delay (pos 0)) ratelimit x))
                q.ratelimiter true q.running)
        | inl e ↦ elim (Option-cases (lookup key q.items_in_queue)) [
          | inr (x, there) ↦
              rw (e, there, insert) (other-Inv (adjust-Inv v key _) q.ratelimiter true q.running)
          | inl absent ↦
              rw (e, absent, insert)
                (add_item-Inv now key (schedule limiter key ratelimit delay q.ratelimiter) v e
                  absent)
        ]
      ]

  settle-Inv :
      (today now : ℤ) (qi : Item) {q : Queue R} → Inv q → Inv (settle limiter today now qi q)
  unfolding settle
  settle-Inv today now qi {q} v =
      let settled = other-Inv v (limiter.forget q.ratelimiter qi.key) q.wakeup q.running in
      if-holds Inv (is_zero qi.redirtied_at) (λ _. settled)
        (λ _.
          modify-Inv (insert-Inv now qi.key qi.redirtied_with_ratelimit _ settled) qi.key
            mark_redirty mark_redirty-Keeps)

  requeue-Inv :
      (now : ℤ) (delay : Option ℤ) (qi : Item) {q : Queue R}
      → Inv q
      → Inv (requeue limiter now delay qi q)
  unfolding requeue
  requeue-Inv now delay qi v =
      modify-Inv (insert-Inv now qi.key true delay v) qi.key (requeued_from qi)
        (requeued_from-Keeps qi)

  follow_verdict-Inv :
      (today now : ℤ) (qi : Item) (w : Verdict) {q : Queue R}
      → Inv q
      → Inv (follow_verdict limiter today now qi w q).0
  unfolding follow_verdict
  follow_verdict-Inv today now qi (retry delay) v = requeue-Inv now delay qi v
  follow_verdict-Inv today now qi (give_up e) v = settle-Inv today now qi v

  after_handler-Inv :
      (retry_func : ShouldRetryFunc) (today now : ℤ) (qi : Item) (err : Option Error) {q : Queue R}
      → Inv q
      → Inv (after_handler limiter retry_func today now qi err q).0
  unfolding after_handler
  after_handler-Inv retry_func today now qi none v = settle-Inv today now qi v
  after_handler-Inv retry_func today now qi (some e) v = follow_verdict-Inv today now qi _ v

  pub handle-Inv :
      (retry_func : ShouldRetryFunc) (today now : ℤ) (qi : Item) (err : Option Error) {q : Queue R}
      → Inv q
      → Inv (handle_queue_item_object limiter retry_func today now qi err q).0
  unfolding handle_queue_item_object
  handle-Inv retry_func today now qi err {q} v =
      if-holds (λ (r : Queue R × Option Error). Inv r.0) qi.forget
        (λ _. release-Inv v qi.key (limiter.forget q.ratelimiter qi.key))
        (λ _. after_handler-Inv retry_func today now qi err (release-Inv v qi.key q.ratelimiter))

module _ {R : Type 0} where
  pub forget-Inv : (key : Text) {q : Queue R} → Inv q → Inv (forget key q)
  unfolding forget
  forget-Inv key {q} v = elim (Option-cases (lookup key q.items_in_queue)) [
    | inr (x, e) ↦ rw (e, forget) (remove-Inv v key (rw e))
    | inl e ↦ elim (Option-cases (lookup key q.items_being_processed)) [
      | inr (x, there) ↦ rw (e, there, forget) (write-Inv v key x _ there refl)
      | inl absent ↦ rw (e, absent, forget) v
    ]
  ]

  -- The rest of the front item's list: the queue without the item, which is in processing now.
  take_item-Inv :
      (f : Item) (rest : List Item) {q : Queue R}
      → Inv q
      → Front f rest q.items
      → Inv (take_item f rest q)
  unfolding take_item
  take_item-Inv f rest {q} v front =
      let smaller = remove-Inv v f.key (ground (arith, v.agree f.key, front.found)) in
      rw front.removed (record {
        distinct = smaller.distinct;
        ordered = smaller.ordered;
        agree = smaller.agree;
        counted = smaller.counted;
        queue_keys = smaller.queue_keys;
        apart = λ k x h. ground (
          arith,
          find-remove f.key k q.items v.distinct,
          lookup-insert f.key k f q.items_being_processed,
          v.apart k x,
        );
        named =
            λ k x h. ground (arith, lookup-insert f.key k f q.items_being_processed, v.named k x);
        processed_keys = DistinctKeys-insert f.key f _ v.processed_keys;
      })

  if-take :
      (b : Bool) (f qi : Item) (t q' : Queue R) (d : ℤ)
      → (if b then take f t else sleep d) ≡ take qi q'
      → (b ≡ true) × (f ≡ qi) × (t ≡ q')
  if-take true f qi t q' d h = (refl, cc, cc)
  if-take false f qi t q' d h = cc

  -- What `getNextItem` hands out is the front of the list, and its time has come.
  pub record Taken (today : ℤ) (qi : Item) (q q' : Queue R) : Type 0 where
    pub rest : List Item
    pub front : Front qi rest q.items
    pub due : qi.planned_to_start_work_at ≤ℤ today
    pub result : q' ≡ take_item qi rest q

  pub get_next_item-Taken :
      (today : ℤ) {q q' : Queue R} {qi : Item}
      → Inv q
      → get_next_item today q ≡ take qi q'
      → Taken today qi q q'
  unfolding get_next_item
  get_next_item-Taken today {q} {q'} {qi} v h = elim (Option-cases (pop_front q.items)) [
    | inl e ↦ ground arith
    | inr ((f, rest), e) ↦
        let (on_time, same, result) = if-take _ f qi _ q' _ (rw (e, get_next_item) at h) in
        record {
          rest = rest;
          front = subst (λ x. Front x rest q.items) same (pop-Front q.items v.distinct v.ordered e);
          due = ground (arith, -ℤ_parts f.planned_to_start_work_at today);
          result = sym result ∙ ap (λ x. take_item x rest q) same;
        }
  ]

  pub get_next_item-Inv :
      (today : ℤ) {q q' : Queue R} {qi : Item} → Inv q → get_next_item today q ≡ take qi q' → Inv q'
  get_next_item-Inv today {q} {q'} {qi} v h =
      let t = get_next_item-Taken today v h in rw t.result (take_item-Inv qi t.rest v t.front)
