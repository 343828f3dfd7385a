-- ===== src/Queue/Retries.antt =====
-- The bound on retries of virtual_kubelet/internal/queue/queue.go over every interleaving of a
-- queue that runs with the default retry policy.
use mathlib.Core.Option
use virtual_kubelet.Common.{
  suc, ◌<◌, ◌≡◌, Bool, true, false, Option, none, some, inl, inr, ite, text_dec, ℤ, ◌+ℤ◌, pos, Text,
  lookup, Error, arith, Option-cases, Bool-cases, List, lookup-delete, lookup-insert, delete,
  if-holds, ltb,
}
use virtual_kubelet.Queue.{
  Queue, RateLimiter, duration_deref, insert, add_item, schedule, new_item, redirty,
  default_retry_func, max_retries, forget, enqueue, enqueue_without_rate_limit,
  enqueue_without_rate_limit_with_delay, new_queue,
}
use virtual_kubelet.Queue.Worker.{
  settle, requeue, requeued_from, mark_redirty, follow_verdict, after_handler,
  handle_queue_item_object, take_item,
}
use virtual_kubelet.Queue.Items.{Item, find_item, adjust_position, place, is_zero, modify_item}
use virtual_kubelet.Queue.Order.{bring_forward, find-adjust, find-place}
use virtual_kubelet.Queue.Removal.{Keeps, find-modify, find-remove, Front}
use virtual_kubelet.Queue.Invariant.{Inv, release-Inv, other-Inv}
use virtual_kubelet.Queue.Methods.{requeued_from-Keeps, mark_redirty-Keeps, get_next_item-Taken}
use virtual_kubelet.Queue.System.{
  System, Step, Reach, start, here, next, enqueues, enqueues_without_limit, enqueues_with_delay,
  forgets, begins, finishes, Reach-start-Sound,
}

pub record Capped {R : Type 0} (q : Queue R) : Type 0 where
  pub waiting : (k : Text) (x : Item) → find_item k q.items ≡ some x → x.requeues < max_retries
  pub running :
      (k : Text) (x : Item) → lookup k q.items_being_processed ≡ some x → x.requeues < max_retries

redirty-requeues :
    (when : ℤ) (ratelimit : Bool) (x : Item) → (redirty when ratelimit x).requeues ≡ x.requeues
unfolding redirty
redirty-requeues when ratelimit x = ground arith

module _ {R : Type 0} (limiter : RateLimiter R) where
  insert-Capped :
      (now : ℤ) (key : Text) (ratelimit : Bool) (delay : Option ℤ) {q : Queue R}
      → Inv q
      → Capped q
      → Capped (insert limiter now key ratelimit delay q)
  unfolding insert add_item
  insert-Capped now key ratelimit delay {q} v c = record {
    waiting = λ k y h. elim (Option-cases (find_item k q.items)) [
      | inl e ↦ ground (arith, adjusted k, placed k, v.agree key)
      | inr (x, e) ↦ ground (arith, adjusted k, placed k, v.agree key, c.waiting k x e)
    ];
    running = λ k y h. elim (Option-cases (lookup key q.items_being_processed)) [
      | inl e ↦ ground (arith, c.running k y)
      | inr (x, e) ↦ ground (
        arith,
        c.running k y,
        c.running key x e,
        redirty-requeues when ratelimit x,
        lookup-insert key k (redirty when ratelimit x) q.items_being_processed,
      )
    ];
  }
    where
      when : ℤ
      when = now +ℤ duration_deref delay (pos 0)

      fresh : Item
      fresh = new_item limiter now key (schedule limiter key ratelimit delay q.ratelimiter)

      adjusted :
          (k : Text)
          → find_item k (adjust_position key when q.items)
            ≡ ite
                (text_dec key k)
                (Option.map (bring_forward when) (find_item k q.items))
                (find_item k q.items)
      adjusted k = find-adjust key k when q.items v.distinct

      placed :
          (k : Text)
          → find_item key q.items ≡ none
          → find_item k (place fresh q.items)
            ≡ ite (text_dec key k) (some fresh) (find_item k q.items)
      placed k = find-place k fresh q.items

  modify-Capped :
      (key : Text) (f : Item → Item) {q : Queue R}
      → Keeps f
      → ((x : Item) → x.requeues < max_retries → (f x).requeues < max_retries)
      → Capped q
      → Capped (record q { items = modify_item key f q.items })
  modify-Capped key f {q} keeps low c = record {
    waiting = λ k y h. elim (Option-cases (find_item k q.items)) [
      | inl e ↦ ground (arith, find-modify key f keeps k q.items)
      | inr (x, e) ↦
          ground
            (arith, find-modify key f keeps k q.items, c.waiting k x e, low x (c.waiting k x e))
    ];
    running = c.running;
  }

  settle-Capped :
      (today now : ℤ) (qi : Item) {q : Queue R}
      → Inv q
      → Capped q
      → Capped (settle limiter today now qi q)
  unfolding settle
  settle-Capped today now qi {q} v c =
      let settled : Queue R = record q { ratelimiter = limiter.forget q.ratelimiter qi.key } in
      let calm : Capped settled = record { waiting = c.waiting; running = c.running } in
      if-holds Capped (is_zero qi.redirtied_at) (λ _. calm)
        (λ _.
          modify-Capped qi.key mark_redirty mark_redirty-Keeps (λ x h. h)
            (insert-Capped now qi.key qi.redirtied_with_ratelimit _
              (other-Inv v (limiter.forget q.ratelimiter qi.key) q.wakeup q.running) calm))

  requeue-Capped :
      (now : ℤ) (delay : Option ℤ) (qi : Item) {q : Queue R}
      → suc qi.requeues < max_retries
      → Inv q
      → Capped q
      → Capped (requeue limiter now delay qi q)
  unfolding requeue
  requeue-Capped now delay qi few v c =
      modify-Capped qi.key (requeued_from qi) (requeued_from-Keeps qi) (λ x h. few)
        (insert-Capped now qi.key true delay v c)

  after_error-Capped :
      (today now : ℤ) (qi : Item) (e : Error) {q : Queue R}
      → Inv q
      → Capped q
      → Capped (after_handler limiter default_retry_func today now qi (some e) q).0
  unfolding after_handler default_retry_func follow_verdict
  after_error-Capped today now qi e {q} v c =
      elim (Bool-cases (ltb (suc qi.requeues) max_retries)) [
        | inl few ↦ rw (few, follow_verdict) (requeue-Capped now none qi (ground arith) v c)
        | inr many ↦ rw (many, follow_verdict) (settle-Capped today now qi v c)
      ]

  release-Capped :
      (key : Text) (r : R) {q : Queue R}
      → Capped q
      → Capped
          (record q { items_being_processed = delete key q.items_being_processed; ratelimiter = r })
  release-Capped key r {q} c = record {
    waiting = c.waiting;
    running = λ k x h. ground (arith, lookup-delete key k q.items_being_processed, c.running k x);
  }

  after_handler-Capped :
      (today now : ℤ) (qi : Item) (err : Option Error) {q : Queue R}
      → Inv q
      → Capped q
      → Capped (after_handler limiter default_retry_func today now qi err q).0
  after_handler-Capped today now qi none v c =
      unfold after_handler in settle-Capped today now qi v c
  after_handler-Capped today now qi (some e) v c = after_error-Capped today now qi e v c

  handle-Capped :
      (today now : ℤ) (qi : Item) (err : Option Error) {q : Queue R}
      → Inv q
      → Capped q
      → Capped (handle_queue_item_object limiter default_retry_func today now qi err q).0
  unfolding handle_queue_item_object
  handle-Capped today now qi err {q} v c =
      if-holds (λ (r : Queue R × Option Error). Capped r.0) qi.forget
        (λ _. release-Capped qi.key (limiter.forget q.ratelimiter qi.key) c)
        (λ _.
          after_handler-Capped today now qi err (release-Inv v qi.key q.ratelimiter)
            (release-Capped qi.key q.ratelimiter c))

  forget-Capped : (key : Text) {q : Queue R} → Inv q → Capped q → Capped (forget key q)
  unfolding forget
  forget-Capped key {q} v c = record {
    waiting = λ k x h. ground (arith, find-remove key k q.items v.distinct, c.waiting k x);
    running = λ k x h. elim (Option-cases (lookup key q.items_being_processed)) [
      | inl e ↦ ground (arith, c.running k x)
      | inr (y, e) ↦ ground (
        arith,
        c.running k x,
        c.running key y e,
        lookup-insert key k (record y { forget = true }) q.items_being_processed,
      )
    ];
  }

  take-Capped :
      (qi : Item) (rest : List Item) {q : Queue R}
      → Inv q
      → Front qi rest q.items
      → Capped q
      → Capped (take_item qi rest q)
  unfolding take_item
  take-Capped qi rest {q} v front c = record {
    waiting = λ k x h.
        ground (arith, front.removed, find-remove qi.key k q.items v.distinct, c.waiting k x);
    running = λ k x h. ground (
      arith,
      lookup-insert qi.key k qi q.items_being_processed,
      c.running k x,
      c.waiting qi.key qi front.found,
    );
  }

  Step-Capped :
      {s t : System R}
      → Step limiter default_retry_func s t
      → Inv s.queue
      → Capped s.queue
      → Capped t.queue
  unfolding enqueue enqueue_without_rate_limit enqueue_without_rate_limit_with_delay
  Step-Capped (enqueues now k) v c = insert-Capped now k true none v c
  Step-Capped (enqueues_without_limit now k) v c = insert-Capped now k false none v c
  Step-Capped (enqueues_with_delay now k after) v c = insert-Capped now k false (some after) v c
  Step-Capped (forgets k) v c = forget-Capped k v c
  Step-Capped (begins today qi q e) v c =
      let t = get_next_item-Taken today v e in rw t.result (take-Capped qi t.rest v t.front c)
  Step-Capped (finishes today now k qi err busy there) v c = handle-Capped today now qi err v c

  -- Under the default retry policy no item of a queue, waiting or running, is ever on its
  -- twenty-first try: fewer than `MaxRetries` requeues lie behind it.
  pub Reach-Capped :
      (r : R) {t : System R}
      → Reach limiter default_retry_func (start limiter default_retry_func r) t
      → Capped t.queue
  unfolding new_queue find_item lookup
  Reach-Capped r here = record { waiting = λ k x h. cc; running = λ k x h. cc }
  Reach-Capped r (next w st) =
      Step-Capped st (Reach-start-Sound limiter default_retry_func r w).valid (Reach-Capped r w)
