-- ===== src/Queue/Pending.antt =====
-- No request for work is lost by the queue of virtual_kubelet/internal/queue/queue.go: a key that
-- was enqueued stays due for a run of its handler until that run starts or it is forgotten.
use virtual_kubelet.Common.{
  ◌≡◌, ◌≢◌, sym, subst, true, false, Option, none, some, inl, inr, text_dec, List, ℤ, ◌+ℤ◌, pos,
  Text, lookup, Error, arith, Option-cases, lookup-delete, lookup-insert, lookup-delete_self,
  delete, if-holds,
}
use virtual_kubelet.Queue.{
  Queue, RateLimiter, ShouldRetryFunc, Verdict, retry, give_up, forget, enqueue,
  enqueue_without_rate_limit, enqueue_without_rate_limit_with_delay,
}
use virtual_kubelet.Queue.Worker.{
  follow_verdict, after_handler, handle_queue_item_object, take_item,
}
use virtual_kubelet.Queue.Items.{Item, is_zero}
use virtual_kubelet.Queue.Removal.{find-remove, Front}
use virtual_kubelet.Queue.Invariant.{Inv, release-Inv}
use virtual_kubelet.Queue.Methods.{get_next_item-Taken}
use virtual_kubelet.Queue.Effects.{queued, handle-processed}
use virtual_kubelet.Queue.System.{
  System, Step, enqueues, enqueues_without_limit, enqueues_with_delay, forgets, begins, finishes,
  Sound,
}
use virtual_kubelet.Queue.Waiting.{
  Redirtied, Pending, insert-Pending, requeue-queued, settle-queued,
}

module _ {R : Type 0} (limiter : RateLimiter R) where
  -- What the end of the handler of `qi` keeps of another key, and that it acts on a redirtied item.
  abbrev Keeps : Text → Item → Queue R → Queue R → Type 0
  Keeps k qi q r =
      (queued k q ≡ true → queued k r ≡ true)
      × (qi.key ≡ k → is_zero qi.redirtied_at ≡ false → queued k r ≡ true)

  follow_verdict-Keeps :
      (today now : ℤ) (qi : Item) (w : Verdict) (k : Text) {q : Queue R}
      → Inv q
      → lookup qi.key q.items_being_processed ≡ none
      → Keeps k qi q (follow_verdict limiter today now qi w q).0
  unfolding follow_verdict
  follow_verdict-Keeps today now qi (retry delay) k v free =
      ground (arith, requeue-queued limiter now delay qi k v free)
  follow_verdict-Keeps today now qi (give_up e) k v free =
      ground (arith, settle-queued limiter today now qi k v free)

  after_handler-Keeps :
      (retry_func : ShouldRetryFunc) (today now : ℤ) (qi : Item) (err : Option Error) (k : Text)
      {q : Queue R}
      → Inv q
      → lookup qi.key q.items_being_processed ≡ none
      → Keeps k qi q (after_handler limiter retry_func today now qi err q).0
  unfolding after_handler
  after_handler-Keeps retry_func today now qi none k v free =
      ground (arith, settle-queued limiter today now qi k v free)
  after_handler-Keeps retry_func today now qi (some e) k v free =
      follow_verdict-Keeps today now qi _ k v free

  -- A redirtied key is queued again when its handler ends, whatever the handler returns; the
  -- other pending keys stay as they are.
  pub handle-Pending :
      (retry_func : ShouldRetryFunc) (today now : ℤ) (qi : Item) (err : Option Error) (k : Text)
      {q : Queue R}
      → Inv q
      → lookup qi.key q.items_being_processed ≡ some qi
      → Pending k q
      → Pending k (handle_queue_item_object limiter retry_func today now qi err q).0
  unfolding handle_queue_item_object
  handle-Pending retry_func today now qi err k {q} v there h = go h
    where
      released : Queue R
      released = record q { items_being_processed = delete qi.key q.items_being_processed }

      result : Queue R
      result = (handle_queue_item_object limiter retry_func today now qi err q).0

      keeps : Keeps k qi q (after_handler limiter retry_func today now qi err released).0
      keeps =
          after_handler-Keeps retry_func today now qi err k (release-Inv v qi.key q.ratelimiter)
            (lookup-delete_self qi.key q.items_being_processed)

      self : qi.key ≡ k → Redirtied k q → queued k result ≡ true
      self p r =
          let same : some r.item ≡ some qi = cc in
          let dirty : is_zero qi.redirtied_at ≡ false = ground (arith, same, r.dirty) in
          let kept : qi.forget ≡ false = ground (arith, same, r.kept) in
          if-holds (λ (r : Queue R × Option Error). queued k r.0 ≡ true) qi.forget
            (λ gone. absurd (ground arith)) (λ _. keeps.1 p dirty)

      go : Pending k q → Pending k result
      go (inl there) = inl (
          if-holds (λ (r : Queue R × Option Error). queued k r.0 ≡ true) qi.forget (λ _. there)
            (λ _. keeps.0 there))
      go (inr r) = elim (text_dec qi.key k) [
        | yes p ↦ inl (self p r)
        | no p ↦ inr (record {
          item = r.item;
          found =
              rw (handle-processed limiter retry_func today now qi err q)
                (ground (arith, r.found, lookup-delete qi.key k q.items_being_processed));
          dirty = r.dirty;
          kept = r.kept;
        })
      ]

module _ {R : Type 0} where
  forget-Pending : (j k : Text) {q : Queue R} → Inv q → j ≢ k → Pending k q → Pending k (forget j q)
  unfolding forget
  forget-Pending j k {q} v h (inl there) = inl (ground (arith, find-remove j k q.items v.distinct))
  forget-Pending j k {q} v h (inr r) = inr (record {
    item = r.item;
    found = elim (Option-cases (lookup j q.items_being_processed)) [
      | inl e ↦ ground (arith, r.found)
      | inr (x, e) ↦
          ground
            (arith, r.found, lookup-insert j k (record x { forget = true }) q.items_being_processed)
    ];
    dirty = r.dirty;
    kept = r.kept;
  })

  take-Pending :
      (k : Text) (qi : Item) (rest : List Item) {q : Queue R}
      → Inv q
      → Front qi rest q.items
      → qi.key ≢ k
      → Pending k q
      → Pending k (take_item qi rest q)
  unfolding take_item
  take-Pending k qi rest {q} v front h (inl there) =
      inl (ground (arith, front.removed, find-remove qi.key k q.items v.distinct))
  take-Pending k qi rest {q} v front h (inr r) = inr (record {
    item = r.item;
    found = ground (arith, r.found, lookup-insert qi.key k qi q.items_being_processed);
    dirty = r.dirty;
    kept = r.kept;
  })

module _ {R : Type 0} (limiter : RateLimiter R) (retry_func : ShouldRetryFunc) where
  -- The step neither forgets the key nor starts its handler, and its clock is past the zero time.
  abbrev pub Spares : Text → {s t : System R} → Step limiter retry_func s t → Type 0
  Spares k (enqueues now j) = is_zero (now +ℤ pos 0) ≡ false
  Spares k (enqueues_without_limit now j) = is_zero (now +ℤ pos 0) ≡ false
  Spares k (enqueues_with_delay now j after) = is_zero (now +ℤ after) ≡ false
  Spares k (forgets j) = j ≢ k
  Spares k (begins today qi q e) = qi.key ≢ k
  Spares k (finishes today now j qi err busy there) = Unit {0}

  -- A key that waits for a run of its handler, in the list or redirtied, still does after every
  -- step that neither forgets it nor starts its handler, and whose clock is past the zero time.
  pub Step-Pending :
      (k : Text) {s t : System R} (st : Step limiter retry_func s t)
      → Sound limiter retry_func s
      → Spares k st
      → Pending k s.queue
      → Pending k t.queue
  unfolding enqueue enqueue_without_rate_limit enqueue_without_rate_limit_with_delay
  Step-Pending k (enqueues now j) v w h = insert-Pending limiter now j k true none v.valid w (inr h)
  Step-Pending k (enqueues_without_limit now j) v w h =
      insert-Pending limiter now j k false none v.valid w (inr h)
  Step-Pending k (enqueues_with_delay now j after) v w h =
      insert-Pending limiter now j k false (some after) v.valid w (inr h)
  Step-Pending k (forgets j) v w h = forget-Pending j k v.valid w h
  Step-Pending k (begins today qi q e) v w h =
      let t = get_next_item-Taken today v.valid e in
      rw t.result (take-Pending k qi t.rest v.valid t.front w h)
  Step-Pending k {s = s} (finishes today now j qi err busy there) v w h =
      let same = v.valid.named j qi there in
      handle-Pending limiter retry_func today now qi err k v.valid
        (subst (λ i. lookup i s.queue.items_being_processed ≡ some qi) (sym same) there) h
