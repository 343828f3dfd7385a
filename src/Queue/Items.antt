-- ===== src/Queue/Items.antt =====
-- The work queue's items, and the walks over `q.items` in virtual_kubelet/internal/queue/queue.go.
-- The list stands from its back to its front, the order in which the loops of `insert` and
-- `adjustPosition` visit it. An element of the list is named by the key of its item.
use virtual_kubelet.Common.{
  ℕ, zero, Bool, true, false, Option, none, some, List, [], ◌∷◌, ite, ℤ, pos, ltb_ℤ, Text, text_dec,
  if◌then◌else◌,
}

pub record Item : Type 0 where
  pub key : Text
  pub planned_to_start_work_at : ℤ
  pub redirtied_at : ℤ
  pub redirtied_with_ratelimit : Bool
  pub forget : Bool
  pub requeues : ℕ
  pub originally_added : ℤ
  pub added_via_redirty : Bool
  pub delayed_via_rate_limit : Option ℤ

-- The zero `time.Time` is the instant 0.
unfoldable pub is_zero : ℤ → Bool
is_zero (pos zero) = true
is_zero _ = false

abbrev pub before : Item → ℤ → Bool
before item when = ltb_ℤ item.planned_to_start_work_at when

unfoldable pub find_item : Text → List Item → Option Item
find_item k [] = none
find_item k (x ∷ xs) = ite (text_dec x.key k) (some x) (find_item k xs)

-- `q.items.Remove(element)`.
unfoldable pub remove_item : Text → List Item → List Item
remove_item k [] = []
remove_item k (x ∷ xs) = ite (text_dec x.key k) xs (x ∷ remove_item k xs)

-- A write through the pointer to an item of the list.
unfoldable pub modify_item : Text → (Item → Item) → List Item → List Item
modify_item k f [] = []
modify_item k f (x ∷ xs) = ite (text_dec x.key k) (f x ∷ xs) (x ∷ modify_item k f xs)

-- From the back: after the first item that is planned strictly before the new one, or in front.
unfoldable pub place : Item → List Item → List Item
place val [] = val ∷ []
place val (x ∷ prev) =
    if before x val.planned_to_start_work_at then val ∷ x ∷ prev else x ∷ place val prev

unfoldable pub adjust_position : Text → ℤ → List Item → List Item
adjust_position k when [] = []
adjust_position k when (x ∷ prev) =
    ite (text_dec x.key k)
      (if ltb_ℤ x.planned_to_start_work_at when
        then x ∷ prev
        else place (record x { planned_to_start_work_at = when }) prev)
      (x ∷ adjust_position k when prev)

-- `q.items.Front()` and the list without it.
unfoldable pub behind : Item → Option (Item × List Item) → Option (Item × List Item)
behind x none = none
behind x (some (front, rest)) = some (front, x ∷ rest)

unfoldable pub pop_front : List Item → Option (Item × List Item)
unfolding behind
pop_front [] = none
pop_front (x ∷ []) = some (x, [])
pop_front (x ∷ y ∷ prev) = behind x (pop_front (y ∷ prev))
