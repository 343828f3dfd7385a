-- ===== src/Queue/Tests.antt =====
-- Runs of the work queue (virtual_kubelet/internal/queue/queue.go) on small inputs.
use virtual_kubelet.Common.{
  ℕ, suc, ◌+◌, ◌≤◌, ◌≡◌, refl, ◌⊎◌, length, true, false, Option, none, some, [], ◌∷◌, inr, ℤ, pos,
  ◌+ℤ◌, ◌-ℤ◌, ◌<ℤ◌, Text, text, text_dec, lookup, insert as set_entry, delete, Error, message,
}
use virtual_kubelet.Queue.{
  Queue, RateLimiter, default_retry_func, new_queue, redirty, schedule, new_item, add_item, insert,
  enqueue, enqueue_without_rate_limit, forget, len, unprocessed_len,
}
use virtual_kubelet.Queue.Worker.{
  settle, requeue, follow_verdict, after_handler, handle_queue_item_object, take_item,
  get_next_item, take, Next, start_running,
}
use virtual_kubelet.Queue.Items.{
  Item, is_zero, find_item, remove_item, modify_item, place, adjust_position, behind, pop_front,
}
use virtual_kubelet.Queue.System.{
  System, Reach, Sound, Once, member, drop_one, here, next, start, enqueues, begins, finishes,
  Reach-start-Sound,
}
use virtual_kubelet.Queue.Invariant.{Inv}
use virtual_kubelet.Queue.Waiting.{Pending}
use virtual_kubelet.Queue.Pending.{Step-Pending}
use virtual_kubelet.Queue.Retries.{Capped, Reach-Capped}
use virtual_kubelet.Queue.Pool.{
  Pool, PoolReach, opened, at_start, and_then, clients, takes, cancels, stops, Reach-bounded,
}

program : Unit {0}
unfolding text_dec lookup set_entry delete ◌+ℤ◌ ◌-ℤ◌ default_retry_func new_queue redirty schedule
    new_item add_item insert enqueue enqueue_without_rate_limit settle requeue follow_verdict
    after_handler handle_queue_item_object forget take_item get_next_item len unprocessed_len
    is_zero find_item remove_item modify_item place adjust_position behind pop_front
program = tt

-- A limiter that counts the failures and delays by that many ticks.
abbrev pub counting : RateLimiter ℕ
counting = record { when = λ r k. (pos (suc r), suc r); forget = λ r k. 0 }

abbrev pub pod_a : Text
pod_a = text "ns/a"

abbrev pub pod_b : Text
pod_b = text "ns/b"

abbrev queue_a : Queue ℕ
queue_a = enqueue counting (pos 100) pod_a (new_queue 0)

abbrev two : Queue ℕ
two = enqueue_without_rate_limit counting (pos 50) pod_b queue_a

abbrev item_of : Next ℕ → Option Item
item_of (take item q) = some item
item_of _ = none

abbrev key_of : Option Item → Option Text
key_of none = none
key_of (some x) = some x.key

-- `b` was added later and is planned earlier, so it stands in front; nothing is due at 40.
front_first : key_of (item_of (get_next_item (pos 60) two)) ≡ some pod_b
unfolding program
front_first = refl

nothing_due : item_of (get_next_item (pos 40) two) ≡ none
unfolding program
nothing_due = refl

len-two : (len two ≡ some 2) × (unprocessed_len two ≡ some 2)
unfolding program
len-two = (refl, refl)

abbrev item_a : Item
item_a = record {
  key = pod_a;
  planned_to_start_work_at = pos 101;
  redirtied_at = pos 0;
  redirtied_with_ratelimit = false;
  forget = false;
  requeues = 0;
  originally_added = pos 100;
  added_via_redirty = false;
  delayed_via_rate_limit = some (pos 1);
}

abbrev busy_a : Queue ℕ
busy_a = record {
  items = [];
  items_in_queue = [];
  items_being_processed = (pod_a, item_a) ∷ [];
  ratelimiter = 1;
  wakeup = true;
  running = false;
}

abbrev waiting : System ℕ
waiting = record { queue = queue_a; active = [] }

abbrev working : System ℕ
working = record { queue = busy_a; active = pod_a ∷ [] }

Reach-waiting : Reach counting default_retry_func (start counting default_retry_func 0) waiting
Reach-waiting = next here (enqueues (pos 100) pod_a)

takes_a : get_next_item (pos 200) queue_a ≡ take item_a busy_a
unfolding program
takes_a = refl

Reach-working : Reach counting default_retry_func (start counting default_retry_func 0) working
Reach-working = next Reach-waiting (begins (pos 200) item_a busy_a takes_a)

Reach-start-Sound_example : Sound counting default_retry_func working
Reach-start-Sound_example = Reach-start-Sound counting default_retry_func 0 Reach-working

Reach-Capped_example : Capped busy_a
Reach-Capped_example = Reach-Capped counting 0 Reach-working

waiting-Inv : Inv queue_a
waiting-Inv = (Reach-start-Sound counting default_retry_func 0 Reach-waiting).valid

working-Inv : Inv busy_a
working-Inv = (Reach-start-Sound counting default_retry_func 0 Reach-working).valid

abbrev PlannedAfter : ℤ → Item → Type 0
PlannedAfter t x = t <ℤ x.planned_to_start_work_at

queued_a : find_item pod_a queue_a.items ≡ some item_a
unfolding program
queued_a = refl

abbrev failed : Error
failed = message (text "failed")

busy : lookup pod_a busy_a.items_being_processed ≡ some item_a
unfolding program
busy = refl

abbrev after_failure : Queue ℕ
after_failure =
    (handle_queue_item_object counting default_retry_func (pos 210) (pos 210) item_a (some failed)
      busy_a).0

-- The key is enqueued again while its handler runs, and the handler succeeds.
abbrev redirtied : System ℕ
redirtied = record { queue = enqueue counting (pos 205) pod_a busy_a; active = pod_a ∷ [] }

Reach-redirtied : Reach counting default_retry_func (start counting default_retry_func 0) redirtied
Reach-redirtied = next Reach-working (enqueues (pos 205) pod_a)

abbrev dirty_a : Item
dirty_a = record item_a { redirtied_at = pos 205; redirtied_with_ratelimit = true }

dirty_found : lookup pod_a redirtied.queue.items_being_processed ≡ some dirty_a
unfolding program
dirty_found = refl

dirty_set : is_zero dirty_a.redirtied_at ≡ false
unfolding program
dirty_set = refl

abbrev succeeded : System ℕ
succeeded = record {
  queue =
      (handle_queue_item_object counting default_retry_func (pos 206) (pos 206) dirty_a none
        redirtied.queue).0;
  active = drop_one pod_a (pod_a ∷ []);
}

pod_a_active : member pod_a (pod_a ∷ []) ≡ true
unfolding program
pod_a_active = refl

Step-Pending_example : Pending pod_a succeeded.queue
Step-Pending_example =
    Step-Pending counting default_retry_func pod_a
      (finishes (pos 206) (pos 206) pod_a dirty_a none pod_a_active dirty_found)
      (Reach-start-Sound counting default_retry_func 0 Reach-redirtied) tt
      (inr (record { item = dirty_a; found = dirty_found; dirty = dirty_set; kept = refl }))

-- `Run` with one worker on a new queue.
abbrev serving : Queue ℕ
serving = record (new_queue 0) { running = true }

abbrev open_pool : Pool ℕ
open_pool = opened counting default_retry_func 1 serving

open_reached : PoolReach counting default_retry_func 0 1 open_pool
unfolding start_running new_queue
open_reached = at_start serving refl

abbrev queued_pool : Pool ℕ
queued_pool = record open_pool {
  system = record { queue = enqueue counting (pos 100) pod_a serving; active = [] };
}

abbrev busy_pool : Pool ℕ
busy_pool = record open_pool {
  system = record { queue = record busy_a { running = true }; active = pod_a ∷ [] };
  idle = 0;
}

takes_running :
    get_next_item (pos 200) queued_pool.system.queue ≡ take item_a busy_pool.system.queue
unfolding program
takes_running = refl

queued_reached : PoolReach counting default_retry_func 0 1 queued_pool
queued_reached = and_then open_reached (clients queued_pool.system (enqueues (pos 100) pod_a) refl)

busy_reached : PoolReach counting default_retry_func 0 1 busy_pool
busy_reached = and_then queued_reached (
    takes 0 pod_a busy_pool.system refl
      (begins (pos 200) item_a busy_pool.system.queue takes_running) refl)

Reach-bounded_example :
    (length busy_pool.system.active ≤ 1)
    × Once busy_pool.system.active
    × ((busy_pool.cancelled ≡ true) ⊎ (busy_pool.idle + length busy_pool.system.active ≡ 1))
Reach-bounded_example = Reach-bounded counting default_retry_func 0 1 busy_reached

abbrev closed_pool : Pool ℕ
closed_pool = record open_pool { idle = 0; stopped = 1; cancelled = true }

closed_reached : PoolReach counting default_retry_func 0 1 closed_pool
closed_reached = and_then (and_then open_reached cancels) (stops 0 refl refl)
