-- ===== src/Queue/Waiting.antt =====
-- Keys that wait for a run of their handler (virtual_kubelet/internal/queue/queue.go): what insert, a
-- requeue and the settling of a redirtied item do to them.
use virtual_kubelet.Common.{
  ◌≡◌, ◌≢◌, Bool, true, false, not, ◌||◌, Option, none, some, inl, inr, ◌⊎◌, ite, text_dec, ℤ, ◌+ℤ◌,
  ◌-ℤ◌, pos, Text, lookup, arith, Option-cases, lookup-insert, insert as set_entry,
}
use virtual_kubelet.Queue.{Queue, RateLimiter, duration_deref, redirty, insert}
use virtual_kubelet.Queue.Worker.{settle, requeue, mark_redirty, requeued_from}
use virtual_kubelet.Queue.Items.{Item, is_zero}
use virtual_kubelet.Queue.Removal.{find-modify}
use virtual_kubelet.Queue.Invariant.{Inv, other-Inv}
use virtual_kubelet.Queue.Methods.{mark_redirty-Keeps, requeued_from-Keeps}
use virtual_kubelet.Queue.Effects.{queued, insert-queued, insert-free}

-- The handler runs now, and another run is due after it.
pub record Redirtied {R : Type 0} (k : Text) (q : Queue R) : Type 0 where
  pub item : Item
  pub found : lookup k q.items_being_processed ≡ some item
  pub dirty : is_zero item.redirtied_at ≡ false
  pub kept : item.forget ≡ false

abbrev pub Pending : {R : Type 0} → Text → Queue R → Type 0
Pending k q = (queued k q ≡ true) ⊎ Redirtied k q

pub redirty-fields :
    (when : ℤ) (ratelimit : Bool) (x : Item)
    → is_zero when ≡ false
    → (is_zero (redirty when ratelimit x).redirtied_at ≡ false)
      × ((redirty when ratelimit x).forget ≡ false)
unfolding redirty
redirty-fields when ratelimit x h = ground arith

module _ {R : Type 0} (limiter : RateLimiter R) where
  insert_busy-Pending :
      (now : ℤ) (key k : Text) (ratelimit : Bool) (delay : Option ℤ) (x : Item) {q : Queue R}
      → lookup key q.items_being_processed ≡ some x
      → is_zero (now +ℤ duration_deref delay (pos 0)) ≡ false
      → (key ≡ k) ⊎ Pending k q
      → Pending k (insert limiter now key ratelimit delay q)
  unfolding insert
  insert_busy-Pending now key k ratelimit delay x {q} e w h =
      rw (e, insert) (elim (text_dec key k) [ yes p ↦ inr (self p) | no p ↦ other p h ])
    where
      when : ℤ
      when = now +ℤ duration_deref delay (pos 0)

      after : Queue R
      after = record q {
        items_being_processed = set_entry key (redirty when ratelimit x) q.items_being_processed;
        wakeup = true;
      }

      self : key ≡ k → Redirtied k after
      self p = record {
        item = redirty when ratelimit x;
        found =
            ground (arith, lookup-insert key k (redirty when ratelimit x) q.items_being_processed);
        dirty = (redirty-fields when ratelimit x w).0;
        kept = (redirty-fields when ratelimit x w).1;
      }

      other : key ≢ k → (key ≡ k) ⊎ Pending k q → Pending k after
      other p (inl same) = absurd (p same)
      other p (inr (inl there)) = inl there
      other p (inr (inr r)) = inr (record {
        item = r.item;
        found = ground (
          arith,
          lookup-insert key k (redirty when ratelimit x) q.items_being_processed,
          r.found,
        );
        dirty = r.dirty;
        kept = r.kept;
      })

  -- An insertion leaves its key pending, and every key that was.
  pub insert-Pending :
      (now : ℤ) (key k : Text) (ratelimit : Bool) (delay : Option ℤ) {q : Queue R}
      → Inv q
      → is_zero (now +ℤ duration_deref delay (pos 0)) ≡ false
      → (key ≡ k) ⊎ Pending k q
      → Pending k (insert limiter now key ratelimit delay q)
  insert-Pending now key k ratelimit delay {q} v w h =
      elim (Option-cases (lookup key q.items_being_processed)) [
        | inr (x, e) ↦ insert_busy-Pending now key k ratelimit delay x e w h
        | inl e ↦ free e h
      ]
    where
      free :
          lookup key q.items_being_processed ≡ none
          → (key ≡ k) ⊎ Pending k q
          → Pending k (insert limiter now key ratelimit delay q)
      free e (inl same) = inl (ground (arith, insert-queued limiter now key k ratelimit delay v e))
      free e (inr (inl there)) =
          inl (ground (arith, insert-queued limiter now key k ratelimit delay v e))
      free e (inr (inr r)) = inr (record {
        item = r.item;
        found = rw (insert-free limiter now key ratelimit delay q e) r.found;
        dirty = r.dirty;
        kept = r.kept;
      })

  pub requeue-queued :
      (now : ℤ) (delay : Option ℤ) (qi : Item) (k : Text) {q : Queue R}
      → Inv q
      → lookup qi.key q.items_being_processed ≡ none
      → queued k (requeue limiter now delay qi q) ≡ ite (text_dec qi.key k) true (queued k q)
  unfolding requeue
  requeue-queued now delay qi k {q} v free =
      let again : Queue R = insert limiter now qi.key true delay q in
      ground (
        arith,
        insert-queued limiter now qi.key k true delay v free,
        find-modify qi.key (requeued_from qi) (requeued_from-Keeps qi) k again.items,
      )

  pub settle-queued :
      (today now : ℤ) (qi : Item) (k : Text) {q : Queue R}
      → Inv q
      → lookup qi.key q.items_being_processed ≡ none
      → queued k (settle limiter today now qi q)
        ≡ ite (text_dec qi.key k) (not (is_zero qi.redirtied_at) || queued k q) (queued k q)
  unfolding settle
  settle-queued today now qi k {q} v free =
      let settled : Queue R = record q { ratelimiter = limiter.forget q.ratelimiter qi.key } in
      let late : ℤ = qi.redirtied_at -ℤ today in
      let again : Queue R =
        insert limiter now qi.key qi.redirtied_with_ratelimit (some late) settled in
      let sound : Inv settled =
        other-Inv v (limiter.forget q.ratelimiter qi.key) q.wakeup q.running in
      ground (
        arith,
        insert-queued limiter now qi.key k qi.redirtied_with_ratelimit (some late) sound free,
        find-modify qi.key mark_redirty mark_redirty-Keeps k again.items,
      )
