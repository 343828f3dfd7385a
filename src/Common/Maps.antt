-- ===== src/Common/Maps.antt =====
-- Go maps with string keys, as association lists; an entry appears in the order of insertion,
-- which stands for the order that a `range` loop happens to take.
use mathlib.Core.Path.{◌≡◌, refl}
use mathlib.Core.Logic.{ite, ◌≢◌}
use mathlib.Core.List.{List, [], ◌∷◌}
use mathlib.Core.Option.{Option, none, some}
use native.Mathlib.Omega.{arith}
use Prim.Native.Nat.{suc}
use mathlib.Core.Bool.{true, false}
use virtual_kubelet.Common.Tests.{is_some}
use virtual_kubelet.Common.Lists.{length}
use virtual_kubelet.Common.Texts.{Text, text_dec}

module _ {ℓ} (V : Type ℓ) where
  abbrev pub Map : Type ℓ
  Map = List (Text × V)

module _ {ℓ} {V : Type ℓ} where
  unfoldable pub lookup : Text → Map V → Option V
  lookup k [] = none
  lookup k ((j, v) ∷ m) = ite (text_dec j k) (some v) (lookup k m)

  unfoldable pub insert : Text → V → Map V → Map V
  insert k v [] = (k, v) ∷ []
  insert k v ((j, w) ∷ m) = ite (text_dec j k) ((k, v) ∷ m) ((j, w) ∷ insert k v m)

  unfoldable pub delete : Text → Map V → Map V
  delete k [] = []
  delete k ((j, w) ∷ m) = ite (text_dec j k) (delete k m) ((j, w) ∷ delete k m)

  pub lookup-insert :
      (k j : Text) (v : V) (m : Map V)
      → lookup j (insert k v m) ≡ ite (text_dec k j) (some v) (lookup j m)
  unfolding lookup insert
  lookup-insert k j v [] = refl
  lookup-insert k j v ((i, w) ∷ m) = ground (arith, lookup-insert k j v m)

  pub lookup-delete :
      (k j : Text) (m : Map V) → lookup j (delete k m) ≡ ite (text_dec k j) none (lookup j m)
  unfolding lookup delete
  lookup-delete k j [] = ground arith
  lookup-delete k j ((i, w) ∷ m) = ground (arith, lookup-delete k j m)

  pub lookup-insert_self : (k : Text) (v : V) (m : Map V) → lookup k (insert k v m) ≡ some v
  lookup-insert_self k v m = ground (arith, lookup-insert k k v m)

  pub lookup-insert_ne :
      (k j : Text) (v : V) (m : Map V) → k ≢ j → lookup j (insert k v m) ≡ lookup j m
  lookup-insert_ne k j v m h = ground (arith, lookup-insert k j v m)

  pub lookup-delete_self : (k : Text) (m : Map V) → lookup k (delete k m) ≡ none
  lookup-delete_self k m = ground (arith, lookup-delete k k m)

  pub lookup-delete_ne : (k j : Text) (m : Map V) → k ≢ j → lookup j (delete k m) ≡ lookup j m
  lookup-delete_ne k j m h = ground (arith, lookup-delete k j m)

  -- No key has two entries.
  abbrev pub DistinctKeys : Map V → Type 0
  DistinctKeys [] = Unit {0}
  DistinctKeys ((k, v) ∷ m) = (is_some (lookup k m) ≡ false) × DistinctKeys m

  pub DistinctKeys-insert :
      (k : Text) (v : V) (m : Map V) → DistinctKeys m → DistinctKeys (insert k v m)
  unfolding lookup insert
  DistinctKeys-insert k v [] d = (refl, tt)
  DistinctKeys-insert k v ((i, w) ∷ m) d =
      ground (arith, DistinctKeys-insert k v m d.1, lookup-insert k i v m)

  pub DistinctKeys-delete : (k : Text) (m : Map V) → DistinctKeys m → DistinctKeys (delete k m)
  unfolding lookup delete
  DistinctKeys-delete k [] d = tt
  DistinctKeys-delete k ((i, w) ∷ m) d =
      ground (arith, DistinctKeys-delete k m d.1, lookup-delete k i m)

  pub length-insert_new :
      (k : Text) (v : V) (m : Map V) → lookup k m ≡ none → length (insert k v m) ≡ suc (length m)
  unfolding lookup insert
  length-insert_new k v [] h = refl
  length-insert_new k v ((i, w) ∷ m) h = ground (arith, length-insert_new k v m)

  length-delete_absent :
      (k : Text) (m : Map V) → is_some (lookup k m) ≡ false → length (delete k m) ≡ length m
  unfolding lookup delete
  length-delete_absent k [] h = refl
  length-delete_absent k ((i, w) ∷ m) h = ground (arith, length-delete_absent k m)

  pub length-delete :
      (k : Text) (m : Map V)
      → DistinctKeys m
      → is_some (lookup k m) ≡ true
      → suc (length (delete k m)) ≡ length m
  unfolding lookup delete
  length-delete k [] d h = cc
  length-delete k ((i, w) ∷ m) d h = ground (arith, length-delete k m d.1, length-delete_absent k m)

module _ {ℓ κ} {V : Type ℓ} {W : Type κ} (f : V → W) where
  -- `for k, v := range entries { m[k] = f(v) }`.
  unfoldable pub insert_each : Map V → Map W → Map W
  unfolding insert
  insert_each [] m = m
  insert_each ((k, v) ∷ entries) m = insert_each entries (insert k (f v) m)

  -- What a key has afterwards: its entry, or else what it had.
  abbrev pub overlaid : Option V → Option W → Option W
  overlaid none old = old
  overlaid (some v) old = some (f v)

  pub lookup-insert_each :
      (k : Text) (entries : Map V) (m : Map W)
      → DistinctKeys entries
      → lookup k (insert_each entries m) ≡ overlaid (lookup k entries) (lookup k m)
  unfolding lookup insert_each
  lookup-insert_each k [] m d = refl
  lookup-insert_each k ((j, v) ∷ entries) m d =
      ground (arith, lookup-insert_each k entries (insert j (f v) m) d.1, lookup-insert j k (f v) m)

  pub DistinctKeys-insert_each :
      (entries : Map V) (m : Map W) → DistinctKeys m → DistinctKeys (insert_each entries m)
  unfolding insert_each
  DistinctKeys-insert_each [] m d = d
  DistinctKeys-insert_each ((k, v) ∷ entries) m d =
      DistinctKeys-insert_each entries (insert k (f v) m) (DistinctKeys-insert k (f v) m d)
