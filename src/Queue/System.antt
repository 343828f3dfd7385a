-- ===== src/Queue/System.antt =====
-- The work queue of virtual_kubelet/internal/queue/queue.go with its workers and its clients, as
-- interleavings of the sections that run under `q.lock`. `active` lists the keys whose handler is
-- running, one entry for each worker between `getNextItem` and the end of `handleQueueItemObject`.
use virtual_kubelet.Common.{
  ◌≡◌, ◌≢◌, refl, Bool, true, false, ◌||◌, Option, none, some, List, [], ◌∷◌, inl, inr, ite, ℤ,
  Text, text_dec, lookup, Error, decided, arith, Option-cases, lookup-delete, lookup-insert,
}
use virtual_kubelet.Queue.{
  Queue, RateLimiter, ShouldRetryFunc, new_queue, enqueue, enqueue_without_rate_limit, insert,
  enqueue_without_rate_limit_with_delay, forget,
}
use virtual_kubelet.Queue.Worker.{get_next_item, take, handle_queue_item_object, take_item}
use virtual_kubelet.Queue.Items.{Item}
use virtual_kubelet.Queue.Invariant.{Inv}
use virtual_kubelet.Queue.Methods.{
  new_queue-Inv, insert-Inv, forget-Inv, get_next_item-Inv, get_next_item-Taken, Taken, handle-Inv,
}
use virtual_kubelet.Queue.Effects.{
  processing, insert-processing, forget-processing, handle-processed,
}

pub record System (R : Type 0) : Type 0 where
  pub queue : Queue R
  pub active : List Text

abbrev pub member : Text → List Text → Bool
member k [] = false
member k (x ∷ xs) = decided (text_dec x k) || member k xs

-- The first worker on the key leaves.
abbrev pub drop_one : Text → List Text → List Text
drop_one k [] = []
drop_one k (x ∷ xs) = ite (text_dec x k) xs (x ∷ drop_one k xs)

-- No key stands in the list twice.
abbrev pub Once : List Text → Type 0
Once [] = Unit {0}
Once (x ∷ xs) = (member x xs ≡ false) × Once xs

member-drop :
    (j k : Text) (xs : List Text) → Once xs → j ≢ k → member k (drop_one j xs) ≡ member k xs
member-drop j k [] o h = refl
member-drop j k (x ∷ xs) o h = ground (arith, member-drop j k xs o.1)

member-drop_self : (k : Text) (xs : List Text) → Once xs → member k (drop_one k xs) ≡ false
member-drop_self k [] o = refl
member-drop_self k (x ∷ xs) o = ground (arith, member-drop_self k xs o.1)

Once-drop : (j : Text) (xs : List Text) → Once xs → Once (drop_one j xs)
Once-drop j [] o = tt
Once-drop j (x ∷ xs) o = ground (arith, Once-drop j xs o.1, member-drop j x xs o.1)

module _ {R : Type 0} (limiter : RateLimiter R) (retry_func : ShouldRetryFunc) where
  pub data Step (s : System R) : System R → Type 0 where
    enqueues : (now : ℤ) (k : Text) → Step s (record s { queue = enqueue limiter now k s.queue })
    enqueues_without_limit :
        (now : ℤ) (k : Text)
        → Step s (record s { queue = enqueue_without_rate_limit limiter now k s.queue })
    enqueues_with_delay :
        (now : ℤ) (k : Text) (after : ℤ)
        → Step s
            (record s { queue = enqueue_without_rate_limit_with_delay limiter now k after s.queue })
    forgets : (k : Text) → Step s (record s { queue = forget k s.queue })
    begins :
        (today : ℤ) (qi : Item) (q : Queue R)
        → get_next_item today s.queue ≡ take qi q
        → Step s (record { queue = q; active = qi.key ∷ s.active })
    finishes :
        (today now : ℤ) (k : Text) (qi : Item) (err : Option Error)
        → member k s.active ≡ true
        → lookup k s.queue.items_being_processed ≡ some qi
        → Step s (record {
          queue = (handle_queue_item_object limiter retry_func today now qi err s.queue).0;
          active = drop_one k s.active;
        })

  pub data Reach (s : System R) : System R → Type 0 where
    here : Reach s s
    next : {t u : System R} → Reach s t → Step t u → Reach s u

  -- The workers' keys are those of `itemsBeingProcessed`, and no two workers have the same key.
  pub record Sound (s : System R) : Type 0 where
    pub valid : Inv s.queue
    pub held : (k : Text) → member k s.active ≡ processing k s.queue
    pub alone : Once s.active

  insert-Sound :
      (now : ℤ) (k : Text) (ratelimit : Bool) (delay : Option ℤ) {s : System R}
      → Sound s
      → Sound (record s { queue = insert limiter now k ratelimit delay s.queue })
  insert-Sound now k ratelimit delay {s} v = record {
    valid = insert-Inv limiter now k ratelimit delay v.valid;
    held = λ j. ground (arith, v.held j, insert-processing limiter now k j ratelimit delay s.queue);
    alone = v.alone;
  }

  begin-Sound :
      (today : ℤ) (qi : Item) (q : Queue R) {s : System R}
      → get_next_item today s.queue ≡ take qi q
      → Sound s
      → Sound (record { queue = q; active = qi.key ∷ s.active })
  unfolding take_item
  begin-Sound today qi q {s} e v = record {
    valid = get_next_item-Inv today v.valid e;
    held = λ j.
        ground
          (arith, v.held j, taken.result, lookup-insert qi.key j qi s.queue.items_being_processed);
    alone = (ground (arith, v.held qi.key, free), v.alone);
  }
    where
      taken : Taken today qi s.queue q
      taken = get_next_item-Taken today v.valid e

      free : processing qi.key s.queue ≡ false
      free = elim (Option-cases (lookup qi.key s.queue.items_being_processed)) [
        | inl absent ↦ rw absent
        | inr (x, there) ↦ ground (arith, v.valid.apart qi.key x there, taken.front.found)
      ]

  finish-Sound :
      (today now : ℤ) (k : Text) (qi : Item) (err : Option Error) {s : System R}
      → lookup k s.queue.items_being_processed ≡ some qi
      → Sound s
      → Sound (record {
        queue = (handle_queue_item_object limiter retry_func today now qi err s.queue).0;
        active = drop_one k s.active;
      })
  finish-Sound today now k qi err {s} there v = record {
    valid = handle-Inv limiter retry_func today now qi err v.valid;
    held = λ j. rw (handle-processed limiter retry_func today now qi err s.queue) (
        ground (
          arith,
          v.held j,
          v.valid.named k qi there,
          lookup-delete qi.key j s.queue.items_being_processed,
          member-drop k j s.active v.alone,
          member-drop_self k s.active v.alone,
        ));
    alone = Once-drop k s.active v.alone;
  }

  pub Step-Sound : {s t : System R} → Step s t → Sound s → Sound t
  unfolding enqueue enqueue_without_rate_limit enqueue_without_rate_limit_with_delay
  Step-Sound (enqueues now k) v = insert-Sound now k true none v
  Step-Sound (enqueues_without_limit now k) v = insert-Sound now k false none v
  Step-Sound (enqueues_with_delay now k after) v = insert-Sound now k false (some after) v
  Step-Sound {s = s} (forgets k) v = record {
    valid = forget-Inv k v.valid;
    held = λ j. ground (arith, v.held j, forget-processing k j s.queue);
    alone = v.alone;
  }
  Step-Sound (begins today qi q e) v = begin-Sound today qi q e v
  Step-Sound (finishes today now k qi err busy there) v = finish-Sound today now k qi err there v

  Reach-Sound : {s t : System R} → Sound s → Reach s t → Sound t
  Reach-Sound v here = v
  Reach-Sound v (next r st) = Step-Sound st (Reach-Sound v r)

  abbrev pub start : R → System R
  start r = record { queue = new_queue r; active = [] }

  -- In every interleaving that starts from a new queue the invariant holds, the keys that workers
  -- are on are exactly those of `itemsBeingProcessed`, and no two workers are on the same key.
  pub Reach-start-Sound : (r : R) {t : System R} → Reach (start r) t → Sound t
  unfolding new_queue lookup
  Reach-start-Sound r w =
      Reach-Sound (record { valid = new_queue-Inv r; held = λ k. refl; alone = tt }) w
