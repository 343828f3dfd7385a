-- ===== src/Keys/Names.antt =====
-- The pod keys of common/utils/utils.go are the pairs of a namespace and a name.
use virtual_kubelet.Common.{
  ◌≡◌, refl, ◌∙◌, ap, List, [], ◌∷◌, Text, split, join, join-split, length, All, Lacks, arith,
  split-All-Lacks, Lacks-prop, suc, split-append, split-Lacks,
}
use native.Mathlib.Nat.{ℕ_set}
use mathlib.Core.HLevel.{Σ_prop_path, ×_prop}
use mathlib.Core.Equiv.{Iso, IsContr, Fiber, iso_to_equiv}
use virtual_kubelet.Keys.{get_pod_key, two_parts, get_namespace_and_name_from_pod_key}
use virtual_kubelet.Keys.RoundTrip.{get_pod_key-parts}

-- A namespace and a name without slashes.
abbrev pub Names : Type 0
Names = (p : Text × Text) × (Lacks b'/' p.0 × Lacks b'/' p.1)

-- A text with one slash.
abbrev pub PodKey : Type 0
PodKey = (k : Text) × (length (split k b'/') ≡ 2)

pub key_length :
    (p : Text × Text)
    → Lacks b'/' p.0
    → Lacks b'/' p.1
    → length (split (get_pod_key p.0 p.1) b'/') ≡ 2
unfolding get_pod_key
key_length (namespace, name) l l' =
    ap length (split-append namespace name b'/' l)
    ∙ ap (λ ps. suc (length ps)) (split-Lacks name b'/' l')

abbrev pub pod_key_of : Names → PodKey
pod_key_of (p, (l, l')) = (get_pod_key p.0 p.1, key_length p l l')

two_parts-Lacks :
    (ps : List Text)
    → All (Lacks b'/') ps
    → Lacks b'/' (two_parts ps).0 × Lacks b'/' (two_parts ps).1
unfolding two_parts
two_parts-Lacks [] h = (tt, tt)
two_parts-Lacks (a ∷ []) h = (tt, tt)
two_parts-Lacks (a ∷ b ∷ []) (l, (l', h)) = (l, l')
two_parts-Lacks (a ∷ b ∷ c ∷ ps) h = (tt, tt)

two_parts-join :
    (ps : List Text) → length ps ≡ 2 → get_pod_key (two_parts ps).0 (two_parts ps).1 ≡ join ps b'/'
unfolding two_parts get_pod_key join
two_parts-join [] e = ground (arith, e)
two_parts-join (a ∷ []) e = ground (arith, e)
two_parts-join (a ∷ b ∷ []) e = refl
two_parts-join (a ∷ b ∷ c ∷ ps) e = ground (arith, e)

names_of : PodKey → Names
unfolding get_namespace_and_name_from_pod_key
names_of (k, e) =
    (get_namespace_and_name_from_pod_key k, two_parts-Lacks (split k b'/') (split-All-Lacks k b'/'))

names_iso : Iso Names PodKey
unfolding names_of get_namespace_and_name_from_pod_key
names_iso = record {
  fun = pod_key_of;
  inv = names_of;
  rinv =
      λ (k, e). Σ_prop_path (λ x. ℕ_set _ _) (two_parts-join (split k b'/') e ∙ join-split k b'/');
  linv = λ (p, (l, l')).
      Σ_prop_path (λ q. ×_prop (Lacks-prop b'/' q.0) (Lacks-prop b'/' q.1))
        (get_pod_key-parts p.0 p.1 l l').0;
}

-- A text with one slash is the pod key of exactly one pair of a namespace and a name without slashes.
pub pod_key_of-IsContr : (k : PodKey) → IsContr (Fiber pod_key_of k)
unfolding names_iso
pod_key_of-IsContr k = (iso_to_equiv names_iso).1 k
