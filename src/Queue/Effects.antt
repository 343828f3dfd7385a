-- ===== src/Queue/Effects.antt =====
-- What the methods of virtual_kubelet/internal/queue/queue.go do to one key: whether it is queued,
-- whether it is in processing, and when its work is planned.
use virtual_kubelet.Common.{
  ◌≡◌, refl, Bool, true, Option, none, some, inl, inr, ite, text_dec, ℤ, ◌+ℤ◌, pos, Text, lookup,
  Error, is_some, arith, Option-cases, lookup-insert, lookup-delete_self, delete, if-holds,
}
use virtual_kubelet.Queue.{
  Queue, RateLimiter, ShouldRetryFunc, Verdict, retry, give_up, duration_deref, redirty, schedule,
  new_item, add_item, insert, forget,
}
use virtual_kubelet.Queue.Worker.{
  settle, requeue, follow_verdict, after_handler, handle_queue_item_object,
}
use virtual_kubelet.Queue.Items.{Item, find_item, is_zero}
use virtual_kubelet.Queue.Order.{find-place, find-adjust}
use virtual_kubelet.Queue.Invariant.{Inv}

abbrev pub queued : {R : Type 0} → Text → Queue R → Bool
queued k q = is_some (find_item k q.items)

abbrev pub processing : {R : Type 0} → Text → Queue R → Bool
processing k q = is_some (lookup k q.items_being_processed)

module _ {R : Type 0} (limiter : RateLimiter R) where
  -- A key that is not in processing goes to the list, once.
  pub insert-queued :
      (now : ℤ) (key k : Text) (ratelimit : Bool) (delay : Option ℤ) {q : Queue R}
      → Inv q
      → lookup key q.items_being_processed ≡ none
      → queued k (insert limiter now key ratelimit delay q) ≡ ite (text_dec key k) true (queued k q)
  unfolding insert add_item new_item
  insert-queued now key k ratelimit delay {q} v free = ground (
    arith,
    v.agree key,
    find-adjust key k (now +ℤ duration_deref delay (pos 0)) q.items v.distinct,
    find-place k (new_item limiter now key (schedule limiter key ratelimit delay q.ratelimiter))
        q.items,
  )

  pub insert-free :
      (now : ℤ) (key : Text) (ratelimit : Bool) (delay : Option ℤ) (q : Queue R)
      → lookup key q.items_being_processed ≡ none
      → (insert limiter now key ratelimit delay q).items_being_processed ≡ q.items_being_processed
  unfolding insert add_item
  insert-free now key ratelimit delay q free = ground arith

  pub insert-processing :
      (now : ℤ) (key k : Text) (ratelimit : Bool) (delay : Option ℤ) (q : Queue R)
      → processing k (insert limiter now key ratelimit delay q) ≡ processing k q
  unfolding insert add_item
  insert-processing now key k ratelimit delay q =
      elim (Option-cases (lookup key q.items_being_processed)) [
        | inl e ↦ rw (insert-free now key ratelimit delay q e)
        | inr (x, e) ↦ ground (
          arith,
          lookup-insert key k (redirty (now +ℤ duration_deref delay (pos 0)) ratelimit x)
              q.items_being_processed,
        )
      ]

  settle-free :
      (today now : ℤ) (qi : Item) (q : Queue R)
      → lookup qi.key q.items_being_processed ≡ none
      → (settle limiter today now qi q).items_being_processed ≡ q.items_being_processed
  unfolding settle
  settle-free today now qi q free =
      if-holds (λ (r : Queue R). r.items_being_processed ≡ q.items_being_processed)
        (is_zero qi.redirtied_at) (λ _. refl)
        (λ _. insert-free now qi.key qi.redirtied_with_ratelimit _ _ free)

  requeue-free :
      (now : ℤ) (delay : Option ℤ) (qi : Item) (q : Queue R)
      → lookup qi.key q.items_being_processed ≡ none
      → (requeue limiter now delay qi q).items_being_processed ≡ q.items_being_processed
  unfolding requeue
  requeue-free now delay qi q free = insert-free now qi.key true delay q free

  follow_verdict-free :
      (today now : ℤ) (qi : Item) (w : Verdict) (q : Queue R)
      → lookup qi.key q.items_being_processed ≡ none
      → (follow_verdict limiter today now qi w q).0.items_being_processed ≡ q.items_being_processed
  unfolding follow_verdict
  follow_verdict-free today now qi (retry delay) q free = requeue-free now delay qi q free
  follow_verdict-free today now qi (give_up e) q free = settle-free today now qi q free

  after_handler-free :
      (retry_func : ShouldRetryFunc) (today now : ℤ) (qi : Item) (err : Option Error) (q : Queue R)
      → lookup qi.key q.items_being_processed ≡ none
      → (after_handler limiter retry_func today now qi err q).0.items_being_processed
        ≡ q.items_being_processed
  unfolding after_handler
  after_handler-free retry_func today now qi none q free = settle-free today now qi q free
  after_handler-free retry_func today now qi (some e) q free =
      follow_verdict-free today now qi _ q free

  -- The end of a handler takes exactly its own key out of processing.
  pub handle-processed :
      (retry_func : ShouldRetryFunc) (today now : ℤ) (qi : Item) (err : Option Error) (q : Queue R)
      → (handle_queue_item_object limiter retry_func today now qi err q).0.items_being_processed
        ≡ delete qi.key q.items_being_processed
  unfolding handle_queue_item_object
  handle-processed retry_func today now qi err q =
      if-holds
        (λ (r : Queue R × Option Error).
          r.0.items_being_processed ≡ delete qi.key q.items_being_processed)
        qi.forget (λ _. refl)
        (λ _.
          after_handler-free retry_func today now qi err _
            (lookup-delete_self qi.key q.items_being_processed))

module _ {R : Type 0} where
  pub forget-processing :
      (key k : Text) (q : Queue R) → processing k (forget key q) ≡ processing k q
  unfolding forget
  forget-processing key k q = elim (Option-cases (lookup key q.items_being_processed)) [
    | inl e ↦ ground arith
    | inr (x, e) ↦
        ground (arith, lookup-insert key k (record x { forget = true }) q.items_being_processed)
  ]
