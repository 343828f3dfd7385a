-- ===== src/Queue/Removal.antt =====
-- How removals from the item list and writes to an item act on the list that
-- virtual_kubelet/internal/queue/queue.go keeps.
use mathlib.Core.Option
use virtual_kubelet.Common.{
  suc, ◌≡◌, refl, none, some, List, [], ◌∷◌, ite, ℤ, ◌≤ℤ◌, Text, text_dec, length, All, arith, inl,
  inr, Option-cases,
}
use virtual_kubelet.Queue.Items.{Item, find_item, remove_item, modify_item, pop_front}
use virtual_kubelet.Queue.Order.{Distinct, Below, Descends}

pub find-remove :
    (j k : Text) (xs : List Item)
    → Distinct xs
    → find_item k (remove_item j xs) ≡ ite (text_dec j k) none (find_item k xs)
unfolding find_item remove_item
find-remove j k [] d = ground arith
find-remove j k (x ∷ xs) d = ground (arith, find-remove j k xs d.1)

pub Distinct-remove : (j : Text) (xs : List Item) → Distinct xs → Distinct (remove_item j xs)
unfolding remove_item
Distinct-remove j [] d = tt
Distinct-remove j (x ∷ xs) d = ground (arith, Distinct-remove j xs d.1, find-remove j x.key xs d.1)

pub length-remove :
    (j : Text) (xs : List Item) {v : Item}
    → find_item j xs ≡ some v
    → suc (length (remove_item j xs)) ≡ length xs
unfolding find_item remove_item
length-remove j [] h = cc
length-remove j (x ∷ xs) {v} h = ground (arith, length-remove j xs {v = v})

Below-remove : (t : ℤ) (j : Text) (xs : List Item) → Below t xs → Below t (remove_item j xs)
unfolding remove_item
Below-remove t j [] b = tt
Below-remove t j (x ∷ xs) b = ground (arith, Below-remove t j xs b.1)

pub Descends-remove : (j : Text) (xs : List Item) → Descends xs → Descends (remove_item j xs)
unfolding remove_item
Descends-remove j [] d = tt
Descends-remove j (x ∷ xs) d =
    ground (arith, Descends-remove j xs d.1, Below-remove x.planned_to_start_work_at j xs d.0)

-- A write that leaves the key and the planned time alone.
pub record Keeps (f : Item → Item) : Type 0 where
  pub key : (x : Item) → (f x).key ≡ x.key
  pub planned : (x : Item) → (f x).planned_to_start_work_at ≡ x.planned_to_start_work_at

module _ (j : Text) (f : Item → Item) (keeps : Keeps f) where
  pub find-modify :
      (k : Text) (xs : List Item)
      → find_item k (modify_item j f xs)
        ≡ ite (text_dec j k) (Option.map f (find_item k xs)) (find_item k xs)
  unfolding find_item modify_item
  find-modify k [] = ground arith
  find-modify k (x ∷ xs) = ground (arith, find-modify k xs, keeps.key x)

  pub Distinct-modify : (xs : List Item) → Distinct xs → Distinct (modify_item j f xs)
  unfolding modify_item
  Distinct-modify [] d = tt
  Distinct-modify (x ∷ xs) d =
      ground (arith, Distinct-modify xs d.1, find-modify x.key xs, keeps.key x)

  pub length-modify : (xs : List Item) → length (modify_item j f xs) ≡ length xs
  unfolding modify_item
  length-modify [] = refl
  length-modify (x ∷ xs) = ground (arith, length-modify xs)

  Below-modify : (t : ℤ) (xs : List Item) → Below t xs → Below t (modify_item j f xs)
  unfolding modify_item
  Below-modify t [] b = tt
  Below-modify t (x ∷ xs) b = ground (arith, Below-modify t xs b.1, keeps.planned x)

  pub Descends-modify : (xs : List Item) → Descends xs → Descends (modify_item j f xs)
  unfolding modify_item
  Descends-modify [] d = tt
  Descends-modify (x ∷ xs) d = ground (
    arith,
    Descends-modify xs d.1,
    Below-modify x.planned_to_start_work_at xs d.0,
    keeps.planned x,
  )

abbrev pub AllFrom : ℤ → List Item → Type 0
AllFrom t = All (λ x. t ≤ℤ x.planned_to_start_work_at)

-- The front item of a list in order: it is of the list, the rest is the list without it, and no
-- item is planned before it.
pub record Front (f : Item) (rest xs : List Item) : Type 0 where
  pub found : find_item f.key xs ≡ some f
  pub removed : rest ≡ remove_item f.key xs
  pub earliest : AllFrom f.planned_to_start_work_at xs

Below-find :
    (t : ℤ) (k : Text) (xs : List Item) {f : Item}
    → Below t xs
    → find_item k xs ≡ some f
    → f.planned_to_start_work_at ≤ℤ t
unfolding find_item
Below-find t k [] b h = cc
Below-find t k (x ∷ xs) {f} b h = ground (arith, Below-find t k xs {f = f} b.1)

behind-Front :
    (x : Item) (xs : List Item) {f : Item} {rest : List Item}
    → find_item x.key xs ≡ none
    → Below x.planned_to_start_work_at xs
    → Front f rest xs
    → Front f (x ∷ rest) (x ∷ xs)
unfolding find_item remove_item
behind-Front x xs {f} {rest} d b h =
    ground (arith, h, Below-find x.planned_to_start_work_at f.key xs b h.found)

pub pop-Front :
    (xs : List Item) {f : Item} {rest : List Item}
    → Distinct xs
    → Descends xs
    → pop_front xs ≡ some (f, rest)
    → Front f rest xs
unfolding pop_front find_item remove_item
pop-Front [] d o h = cc
pop-Front (x ∷ []) d o h = ground arith
pop-Front (x ∷ y ∷ xs) {f} {rest} d o h = elim (Option-cases (pop_front (y ∷ xs))) [
  | inl e ↦ ground arith
  | inr ((f', rest'), e) ↦
      let front = behind-Front x (y ∷ xs) d.0 o.0 (pop-Front (y ∷ xs) d.1 o.1 e) in
      let same : some (f', x ∷ rest') ≡ some (f, rest) = rw (e, pop_front) at h in
      ground (arith, front, same)
]
