-- ===== src/Queue/Order.antt =====
-- How the walks over the item list of virtual_kubelet/internal/queue/queue.go act on it: which
-- keys it holds, how many items, and in which order they stand.
use virtual_kubelet.Common.{
  suc, ◌≡◌, refl, true, none, some, List, [], ◌∷◌, ite, ℤ, ◌≤ℤ◌, Text, text_dec, length, All, arith,
  is_some, ltb_ℤ, if◌then◌else◌,
}
use mathlib.Core.Option
use virtual_kubelet.Queue.Items.{Item, find_item, place, adjust_position}

-- The key of an item of the list.
abbrev pub Holds : Text → List Item → Type 0
Holds k xs = is_some (find_item k xs) ≡ true

-- No two items have the same key.
abbrev pub Distinct : List Item → Type 0
Distinct [] = Unit {0}
Distinct (x ∷ xs) = (find_item x.key xs ≡ none) × Distinct xs

abbrev pub Below : ℤ → List Item → Type 0
Below t = All (λ x. x.planned_to_start_work_at ≤ℤ t)

-- From the back to the front the planned times do not rise.
abbrev pub Descends : List Item → Type 0
Descends [] = Unit {0}
Descends (x ∷ xs) = Below x.planned_to_start_work_at xs × Descends xs

Below-mono : (s t : ℤ) (xs : List Item) → s ≤ℤ t → Below s xs → Below t xs
Below-mono s t [] h b = tt
Below-mono s t (x ∷ xs) h b = (omega arith, Below-mono s t xs h b.1)

pub find-place :
    (k : Text) (v : Item) (xs : List Item)
    → find_item v.key xs ≡ none
    → find_item k (place v xs) ≡ ite (text_dec v.key k) (some v) (find_item k xs)
unfolding find_item place
find-place k v [] h = refl
find-place k v (x ∷ xs) h = ground (arith, find-place k v xs)

pub Distinct-place :
    (v : Item) (xs : List Item) → find_item v.key xs ≡ none → Distinct xs → Distinct (place v xs)
unfolding find_item place
Distinct-place v [] h d = (refl, tt)
Distinct-place v (x ∷ xs) h d = ground (arith, Distinct-place v xs, find-place x.key v xs)

pub length-place : (v : Item) (xs : List Item) → length (place v xs) ≡ suc (length xs)
unfolding place
length-place v [] = refl
length-place v (x ∷ xs) = ground (arith, length-place v xs)

Below-place :
    (t : ℤ) (v : Item) (xs : List Item)
    → v.planned_to_start_work_at ≤ℤ t
    → Below t xs
    → Below t (place v xs)
unfolding place
Below-place t v [] h b = (h, tt)
Below-place t v (x ∷ xs) h b = ground (arith, Below-place t v xs)

pub Descends-place : (v : Item) (xs : List Item) → Descends xs → Descends (place v xs)
unfolding place
Descends-place v [] d = (tt, tt)
Descends-place v (x ∷ xs) d = ground (
  arith,
  Below-place x.planned_to_start_work_at v xs,
  Below-mono x.planned_to_start_work_at v.planned_to_start_work_at xs,
  Descends-place v xs,
)

-- What `adjustPosition` makes of the item: it can only move forward.
abbrev pub bring_forward : ℤ → Item → Item
bring_forward when x =
    if ltb_ℤ x.planned_to_start_work_at when
    then x
    else record x { planned_to_start_work_at = when }

pub find-adjust :
    (j k : Text) (when : ℤ) (xs : List Item)
    → Distinct xs
    → find_item k (adjust_position j when xs)
      ≡ ite (text_dec j k) (Option.map (bring_forward when) (find_item k xs)) (find_item k xs)
unfolding find_item adjust_position
find-adjust j k when [] d = ground arith
find-adjust j k when (x ∷ xs) d = ground (
  arith,
  find-adjust j k when xs d.1,
  find-place k (record x { planned_to_start_work_at = when }) xs d.0,
)

pub Distinct-adjust :
    (j : Text) (when : ℤ) (xs : List Item) → Distinct xs → Distinct (adjust_position j when xs)
unfolding adjust_position find_item
Distinct-adjust j when [] d = tt
Distinct-adjust j when (x ∷ xs) d = ground (
  arith,
  Distinct-adjust j when xs d.1,
  find-adjust j x.key when xs d.1,
  Distinct-place (record x { planned_to_start_work_at = when }) xs,
)

pub length-adjust :
    (j : Text) (when : ℤ) (xs : List Item) → length (adjust_position j when xs) ≡ length xs
unfolding adjust_position
length-adjust j when [] = refl
length-adjust j when (x ∷ xs) =
    ground (
      arith,
      length-adjust j when xs,
      length-place (record x { planned_to_start_work_at = when }) xs,
    )

Below-adjust :
    (t : ℤ) (j : Text) (when : ℤ) (xs : List Item)
    → Below t xs
    → Below t (adjust_position j when xs)
unfolding adjust_position
Below-adjust t j when [] b = tt
Below-adjust t j when (x ∷ xs) b = ground (
  arith,
  Below-adjust t j when xs b.1,
  Below-place t (record x { planned_to_start_work_at = when }) xs,
)

pub Descends-adjust :
    (j : Text) (when : ℤ) (xs : List Item) → Descends xs → Descends (adjust_position j when xs)
unfolding adjust_position
Descends-adjust j when [] d = tt
Descends-adjust j when (x ∷ xs) d = ground (
  arith,
  Descends-adjust j when xs d.1,
  Below-adjust x.planned_to_start_work_at j when xs d.0,
  Descends-place (record x { planned_to_start_work_at = when }) xs d.1,
)
