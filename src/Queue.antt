-- ===== src/Queue.antt =====
-- virtual_kubelet/internal/queue/queue.go: the rate-limited work queue.
-- Every function is the part of a method that runs under `q.lock`. Instants that the method reads
-- from a clock are arguments: `now` from `q.clock`, `today` from `time.Until`.
pub mod Items
pub mod Order
pub mod Removal
pub mod Invariant
pub mod Methods
pub mod Effects
pub mod System
pub mod Waiting
pub mod Pending
pub mod Facts
pub mod Retries
pub mod Worker
pub mod Pool
pub mod Tests
use Items.{Item, is_zero, find_item, remove_item, modify_item, adjust_position, place, pop_front}
use virtual_kubelet.Common.{
  ℕ, suc, ◌+◌, ◌≡◌, Bool, true, false, ◌||◌, Option, none, some, List, [], ◌∷◌, ℤ, pos, ◌+ℤ◌, ◌-ℤ◌,
  ltb_ℤ, leb_ℤ, Text, text, Map, lookup, insert as set_entry, delete, length, ltb, ◌==◌, Error,
  wrapped, if◌then◌else◌, is_some,
}

-- `workqueue.RateLimiter`, which is not part of the repository.
pub record RateLimiter (R : Type 0) : Type 0 where
  pub when : R → Text → ℤ × R
  pub forget : R → Text → R

-- `items_in_queue` maps a key to its element of `items`; elements are named by their key, so only
-- the presence of an entry is kept. `wakeup` is the token in the channel `wakeupCh`.
pub record Queue (R : Type 0) : Type 0 where
  pub items : List Item
  pub items_in_queue : Map (Unit {0})
  pub items_being_processed : Map Item
  pub ratelimiter : R
  pub wakeup : Bool
  pub running : Bool

-- The result of a `ShouldRetryFunc`: a delay or none, or the error to give up with.
pub data Verdict : Type 0 where
  retry : Option ℤ → Verdict
  give_up : Error → Verdict

abbrev pub ShouldRetryFunc : Type 0
ShouldRetryFunc = Text → ℕ → ℤ → Error → Verdict

abbrev pub max_retries : ℕ
max_retries = 20

unfoldable pub default_retry_func : ShouldRetryFunc
default_retry_func key times_tried added err =
    if ltb times_tried max_retries
    then retry none
    else give_up (wrapped (text "maximum retries (20) reached") err)

unfoldable pub new_queue : {R : Type 0} → R → Queue R
new_queue r = record {
  items = [];
  items_in_queue = [];
  items_being_processed = [];
  ratelimiter = r;
  wakeup = false;
  running = false;
}

abbrev pub duration_deref : Option ℤ → ℤ → ℤ
duration_deref none def = def
duration_deref (some d) def = d

-- A key that is enqueued while its handler runs is marked for another round.
unfoldable pub redirty : ℤ → Bool → Item → Item
unfolding is_zero
redirty when ratelimit item =
    if is_zero item.redirtied_at || ltb_ℤ when item.redirtied_at
    then record item { redirtied_at = when; redirtied_with_ratelimit = ratelimit; forget = false }
    else record item { forget = false }

module _ {R : Type 0} (limiter : RateLimiter R) where
  -- The delay of a new item and what it leaves in `delayedViaRateLimit`. `When` is called, and
  -- counts a failure, also where a given delay overrides its answer.
  unfoldable pub schedule : Text → Bool → Option ℤ → R → ℤ × Option ℤ × R
  schedule key false delay r = (duration_deref delay (pos 0), none, r)
  schedule key true delay r =
      let (limited, r') = limiter.when r key in
      let actual = duration_deref delay limited in (actual, some actual, r')

  unfoldable pub new_item : ℤ → Text → ℤ × Option ℤ × R → Item
  new_item now key (delay, via, r) = record {
    key = key;
    planned_to_start_work_at = now +ℤ delay;
    redirtied_at = pos 0;
    redirtied_with_ratelimit = false;
    forget = false;
    requeues = 0;
    originally_added = now;
    added_via_redirty = false;
    delayed_via_rate_limit = via;
  }

  unfoldable pub add_item : ℤ → Text → ℤ × Option ℤ × R → Queue R → Queue R
  unfolding new_item
  add_item now key s q = record q {
    items = place (new_item now key s) q.items;
    items_in_queue = set_entry key tt q.items_in_queue;
    ratelimiter = s.2;
    wakeup = true;
  }

  unfoldable pub insert : ℤ → Text → Bool → Option ℤ → Queue R → Queue R
  unfolding redirty add_item schedule
  insert now key ratelimit delay q = elim (lookup key q.items_being_processed) [
    | some item ↦ record q {
      items_being_processed =
          set_entry key (redirty (now +ℤ duration_deref delay (pos 0)) ratelimit item)
            q.items_being_processed;
      wakeup = true;
    }
    | none ↦ elim (lookup key q.items_in_queue) [
      | some _ ↦ record q {
        items = adjust_position key (now +ℤ duration_deref delay (pos 0)) q.items;
        wakeup = true;
      }
      | none ↦ add_item now key (schedule key ratelimit delay q.ratelimiter) q
    ]
  ]

  unfoldable pub enqueue : ℤ → Text → Queue R → Queue R
  enqueue now key q = insert now key true none q

  unfoldable pub enqueue_without_rate_limit : ℤ → Text → Queue R → Queue R
  enqueue_without_rate_limit now key q = insert now key false none q

  unfoldable pub enqueue_without_rate_limit_with_delay : ℤ → Text → ℤ → Queue R → Queue R
  enqueue_without_rate_limit_with_delay now key after q = insert now key false (some after) q

module _ {R : Type 0} where
  unfoldable pub forget : Text → Queue R → Queue R
  forget key q = elim (lookup key q.items_in_queue) [
    | some _ ↦ record q {
      items = remove_item key q.items;
      items_in_queue = delete key q.items_in_queue;
    }
    | none ↦ elim (lookup key q.items_being_processed) [
      | some item ↦ record q {
        items_being_processed =
            set_entry key (record item { forget = true }) q.items_being_processed;
      }
      | none ↦ q
    ]
  ]

  -- `none` is the panic on an internally inconsistent state.
  unfoldable pub len : Queue R → Option ℕ
  len q =
      if length q.items == length q.items_in_queue
      then some (length q.items + length q.items_being_processed)
      else none

  unfoldable pub unprocessed_len : Queue R → Option ℕ
  unprocessed_len q =
      if length q.items == length q.items_in_queue then some (length q.items_in_queue) else none

  unfoldable pub items_being_processed_len : Queue R → ℕ
  items_being_processed_len q = length q.items_being_processed

  unfoldable pub is_empty : Queue R → Option Bool
  unfolding len
  is_empty q = elim (len q) [ none ↦ none | some n ↦ some (n == 0) ]
