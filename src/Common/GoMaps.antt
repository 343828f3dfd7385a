-- ===== src/Common/GoMaps.antt =====
-- Maps without an order: association lists that answer every lookup alike are the same map.
use mathlib.Core.Path.{◌≡◌}
use mathlib.Core.Logic.{ite, ◌≢◌}
use mathlib.Core.Option.{Option, none, some}
use mathlib.Core.Quot
use mathlib.Core.Quot.{Quot, Quot-set}
use native.Mathlib.Omega.{arith}
use virtual_kubelet.Common.Texts.{Text, text_dec}
use virtual_kubelet.Common.Maps.{Map, lookup, insert, delete, lookup-insert, lookup-delete}

module _ {ℓ} {V : Type ℓ} where
  abbrev pub SameEntries : Map V → Map V → Type ℓ
  SameEntries m m' = (k : Text) → lookup k m ≡ lookup k m'

  abbrev pub set_entry : Text → Option V → Map V → Map V
  set_entry k none m = delete k m
  set_entry k (some v) m = insert k v m

  pub lookup-set_entry :
      (k j : Text) (v : Option V) (m : Map V)
      → lookup j (set_entry k v m) ≡ ite (text_dec k j) v (lookup j m)
  lookup-set_entry k j none m = lookup-delete k j m
  lookup-set_entry k j (some v) m = lookup-insert k j v m

  pub set_entry-SameEntries :
      (k : Text) (v : Option V) (m m' : Map V)
      → SameEntries m m'
      → SameEntries (set_entry k v m) (set_entry k v m')
  set_entry-SameEntries k v m m' h j =
      ground (arith, lookup-set_entry k j v m, lookup-set_entry k j v m', h j)

module _ {ℓ} (V : Type ℓ) where
  abbrev pub GoMap : Type ℓ
  GoMap = Quot (SameEntries {V = V})

module _ {ℓ} {V : Type ℓ} where
  abbrev pub view : Map V → GoMap V
  view m = Quot.mk m

  pub view_same : {m m' : Map V} → SameEntries m m' → view m ≡ view m'
  view_same h = Quot.sound h

  -- The key gets this entry, or none.
  abbrev pub put : Text → Option V → GoMap V → GoMap V
  put k v =
      Quot.lift Quot-set (λ m. view (set_entry k v m))
        (λ m m' h. Quot.sound (set_entry-SameEntries k v m m' h))

  -- Entries of different keys may be put in either order, and the last one of a key counts.
  pub put_comm :
      (k j : Text) (v u : Option V) (m : GoMap V)
      → k ≢ j
      → put k v (put j u m) ≡ put j u (put k v m)
  put_comm k j v u m n =
      Quot.ind {β = λ q. put k v (put j u q) ≡ put j u (put k v q)} (λ q. Quot-set _ _)
        (λ m. Quot.sound (λ i. ground (
          arith,
          n,
          lookup-set_entry k i v (set_entry j u m),
          lookup-set_entry j i u m,
          lookup-set_entry j i u (set_entry k v m),
          lookup-set_entry k i v m,
        )))
        m

  pub put_twice : (k : Text) (v u : Option V) (m : GoMap V) → put k v (put k u m) ≡ put k v m
  put_twice k v u =
      Quot.ind (λ q. Quot-set _ _)
        (λ m. Quot.sound (λ i. ground (
          arith,
          lookup-set_entry k i v (set_entry k u m),
          lookup-set_entry k i u m,
          lookup-set_entry k i v m,
        )))
