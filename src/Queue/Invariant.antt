-- ===== src/Queue/Invariant.antt =====
-- The well-formedness of the work queue of virtual_kubelet/internal/queue/queue.go, and that every
-- method keeps it.
use virtual_kubelet.Common.{
  ◌≡◌, Bool, true, none, some, inl, inr, ℤ, Text, lookup, insert as set_entry, delete, length,
  is_some, arith, Option-cases, lookup-insert, lookup-delete, DistinctKeys, DistinctKeys-insert,
  DistinctKeys-delete, length-insert_new, length-delete,
}
use virtual_kubelet.Queue.{Queue, redirty}
use virtual_kubelet.Queue.Items.{Item, find_item, remove_item, modify_item, place, adjust_position}
use virtual_kubelet.Queue.Order.{
  Distinct, Descends, find-place, Distinct-place, length-place, Descends-place, find-adjust,
  Distinct-adjust, length-adjust, Descends-adjust,
}
use virtual_kubelet.Queue.Removal.{
  Keeps, find-remove, Distinct-remove, length-remove, Descends-remove, find-modify, Distinct-modify,
  length-modify, Descends-modify,
}

-- The item list is in order and holds a key once; the map `itemsInQueue` has exactly its keys;
-- no key is both queued and in processing.
pub record Inv {R : Type 0} (q : Queue R) : Type 0 where
  pub distinct : Distinct q.items
  pub ordered : Descends q.items
  pub agree : (k : Text) → is_some (lookup k q.items_in_queue) ≡ is_some (find_item k q.items)
  pub counted : length q.items ≡ length q.items_in_queue
  pub queue_keys : DistinctKeys q.items_in_queue
  pub apart :
      (k : Text) (x : Item) → lookup k q.items_being_processed ≡ some x → find_item k q.items ≡ none
  pub named : (k : Text) (x : Item) → lookup k q.items_being_processed ≡ some x → x.key ≡ k
  pub processed_keys : DistinctKeys q.items_being_processed

pub redirty-key : (when : ℤ) (ratelimit : Bool) (x : Item) → (redirty when ratelimit x).key ≡ x.key
unfolding redirty
redirty-key when ratelimit x = ground arith

module _ {R : Type 0} {q : Queue R} (v : Inv q) where
  -- An entry of `itemsBeingProcessed` is written through its pointer.
  pub write-Inv :
      (key : Text) (x y : Item)
      → lookup key q.items_being_processed ≡ some x
      → y.key ≡ x.key
      → Inv (record q { items_being_processed = set_entry key y q.items_being_processed })
  write-Inv key x y e same = record {
    distinct = v.distinct;
    ordered = v.ordered;
    agree = v.agree;
    counted = v.counted;
    queue_keys = v.queue_keys;
    apart = λ k z h.
        ground (arith, lookup-insert key k y q.items_being_processed, v.apart key x e, v.apart k z);
    named = λ k z h.
        ground (arith, lookup-insert key k y q.items_being_processed, v.named key x e, v.named k z);
    processed_keys = DistinctKeys-insert key y _ v.processed_keys;
  }

  pub adjust-Inv :
      (key : Text) (when : ℤ) → Inv (record q { items = adjust_position key when q.items })
  adjust-Inv key when = record {
    distinct = Distinct-adjust key when _ v.distinct;
    ordered = Descends-adjust key when _ v.ordered;
    agree = λ k. ground (arith, find-adjust key k when q.items v.distinct, v.agree k);
    counted = ground (arith, length-adjust key when q.items, v.counted);
    queue_keys = v.queue_keys;
    apart = λ k z h. ground (arith, find-adjust key k when q.items v.distinct, v.apart k z h);
    named = v.named;
    processed_keys = v.processed_keys;
  }

  pub place-Inv :
      (x : Item) (r : R)
      → lookup x.key q.items_being_processed ≡ none
      → lookup x.key q.items_in_queue ≡ none
      → Inv (record q {
        items = place x q.items;
        items_in_queue = set_entry x.key tt q.items_in_queue;
        ratelimiter = r;
      })
  place-Inv x r free absent = record {
    distinct = Distinct-place x q.items fresh v.distinct;
    ordered = Descends-place x q.items v.ordered;
    agree = λ k.
        ground (
          arith,
          find-place k x q.items fresh,
          lookup-insert x.key k tt q.items_in_queue,
          v.agree k,
        );
    counted = ground (
      arith,
      length-place x q.items,
      length-insert_new x.key tt q.items_in_queue absent,
      v.counted,
    );
    queue_keys = DistinctKeys-insert x.key tt _ v.queue_keys;
    apart = λ k z h. ground (arith, find-place k x q.items fresh, v.apart k z h);
    named = v.named;
    processed_keys = v.processed_keys;
  }
    where
      fresh : find_item x.key q.items ≡ none
      fresh = ground (arith, v.agree x.key)

  -- Writes to an item that leave its key and planned time alone.
  pub modify-Inv :
      (key : Text) (f : Item → Item)
      → Keeps f
      → Inv (record q { items = modify_item key f q.items })
  modify-Inv key f keeps = record {
    distinct = Distinct-modify key f keeps _ v.distinct;
    ordered = Descends-modify key f keeps _ v.ordered;
    agree = λ k. ground (arith, find-modify key f keeps k q.items, v.agree k);
    counted = ground (arith, length-modify key f keeps q.items, v.counted);
    queue_keys = v.queue_keys;
    apart = λ k z h. ground (arith, find-modify key f keeps k q.items, v.apart k z h);
    named = v.named;
    processed_keys = v.processed_keys;
  }

  pub remove-Inv :
      (key : Text)
      → is_some (lookup key q.items_in_queue) ≡ true
      → Inv (record q {
        items = remove_item key q.items;
        items_in_queue = delete key q.items_in_queue;
      })
  remove-Inv key there = record {
    distinct = Distinct-remove key _ v.distinct;
    ordered = Descends-remove key _ v.ordered;
    agree = λ k. ground (
      arith,
      find-remove key k q.items v.distinct,
      lookup-delete key k q.items_in_queue,
      v.agree k,
    );
    counted = elim (Option-cases (find_item key q.items)) [
      | inl e ↦ ground (arith, v.agree key)
      | inr (x, e) ↦ ground (
        arith,
        length-remove key q.items e,
        length-delete key q.items_in_queue v.queue_keys there,
        v.counted,
      )
    ];
    queue_keys = DistinctKeys-delete key _ v.queue_keys;
    apart = λ k z h. ground (arith, find-remove key k q.items v.distinct, v.apart k z h);
    named = v.named;
    processed_keys = v.processed_keys;
  }

  -- A worker lets go of a key.
  pub release-Inv :
      (key : Text) (r : R)
      → Inv
          (record q { items_being_processed = delete key q.items_being_processed; ratelimiter = r })
  release-Inv key r = record {
    distinct = v.distinct;
    ordered = v.ordered;
    agree = v.agree;
    counted = v.counted;
    queue_keys = v.queue_keys;
    apart = λ k z h. ground (arith, lookup-delete key k q.items_being_processed, v.apart k z);
    named = λ k z h. ground (arith, lookup-delete key k q.items_being_processed, v.named k z);
    processed_keys = DistinctKeys-delete key _ v.processed_keys;
  }

  -- The invariant does not speak of the other fields.
  pub other-Inv : (r : R) (w b : Bool) → Inv (record q { ratelimiter = r; wakeup = w; running = b })
  other-Inv r w b = record {
    distinct = v.distinct;
    ordered = v.ordered;
    agree = v.agree;
    counted = v.counted;
    queue_keys = v.queue_keys;
    apart = v.apart;
    named = v.named;
    processed_keys = v.processed_keys;
  }
