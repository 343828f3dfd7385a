-- ===== src/Biz/Filling.antt =====
-- `FillPodKey` of common/utils/utils.go: which biz reports belong to a pod, and which have none and
-- are uninstalled.
use virtual_kubelet.Common.{
  ◌≡◌, ◌≢◌, refl, subst, Bool, true, false, not, none, some, is_some, List, [], ◌∷◌, map, Text,
  arith, Map, lookup, insert, All, All-mono, if◌then◌else◌, lookup-insert, Option-cases, inl, inr,
}
use virtual_kubelet.Keys.{get_pod_key}
use virtual_kubelet.Kube.{Container, Pod, BizStatusData}
use virtual_kubelet.Biz.{
  get_biz_unique_key, is_biz, add_containers, biz_key_to_pod_key, fill_one, has_pod_key, partition,
  fill_pod_key,
}

abbrev pub keep {ℓ} : {A : Type ℓ} → (A → Bool) → List A → List A
keep p [] = []
keep p (x ∷ xs) = if p x then x ∷ keep p xs else keep p xs

abbrev pub lacks_pod_key : BizStatusData → Bool
lacks_pod_key d = not (has_pod_key d)

partition-keep :
    (m : Map Text) (ds : List BizStatusData)
    → partition m ds
      ≡ (keep has_pod_key (map (fill_one m) ds), keep lacks_pod_key (map (fill_one m) ds))
unfolding partition
partition-keep m [] = refl
partition-keep m (d ∷ ds) = ground (arith, partition-keep m ds)

-- Every report, with its pod key filled in where it had none, goes in order to the first list if it
-- has a pod key now, and to the second if not.
pub fill_pod_key-keep :
    (pods : List Pod) (ds : List BizStatusData)
    → let filled = map (fill_one (biz_key_to_pod_key pods [])) ds in
      fill_pod_key pods ds ≡ (keep has_pod_key filled, keep lacks_pod_key filled)
unfolding fill_pod_key
fill_pod_key-keep pods ds = partition-keep (biz_key_to_pod_key pods []) ds

abbrev Known : Text → Map Text → Type 0
Known k m = is_some (lookup k m) ≡ true

-- No pod key in the map is empty.
abbrev Filled : Map Text → Type 0
Filled m = (k v : Text) → lookup k m ≡ some v → v ≢ []

Known-add :
    (k key : Text) (cs : List Container) (m : Map Text)
    → Known k m
    → Known k (add_containers key cs m)
unfolding add_containers
Known-add k key [] m h = h
Known-add k key (c ∷ cs) m h =
    Known-add k key cs _ (ground (arith, lookup-insert (get_biz_unique_key c) k key m))

Known-pods :
    (k : Text) (ps : List Pod) (m : Map Text) → Known k m → Known k (biz_key_to_pod_key ps m)
unfolding biz_key_to_pod_key
Known-pods k [] m h = h
Known-pods k (p ∷ ps) m h = Known-pods k ps _ (Known-add k _ p.containers m h)

abbrev Listed : Map Text → Container → Type 0
Listed m c = is_biz c ≡ true → Known (get_biz_unique_key c) m

add-Listed :
    (key : Text) (cs : List Container) (m : Map Text) → All (Listed (add_containers key cs m)) cs
unfolding add_containers
add-Listed key [] m = tt
add-Listed key (c ∷ cs) m =
    let m' : Map Text = if is_biz c then insert (get_biz_unique_key c) key m else m in
    (
      λ biz.
          Known-add (get_biz_unique_key c) key cs m'
            (ground (arith, lookup-insert (get_biz_unique_key c) (get_biz_unique_key c) key m)),
      add-Listed key cs m',
    )

pods-Listed :
    (ps : List Pod) (m : Map Text)
    → All (λ p. All (Listed (biz_key_to_pod_key ps m)) p.containers) ps
unfolding biz_key_to_pod_key
pods-Listed [] m = tt
pods-Listed (p ∷ ps) m =
    let key = get_pod_key p.namespace p.name in
    let m' = add_containers key p.containers m in
    (
      All-mono (λ c h biz. Known-pods (get_biz_unique_key c) ps m' (h biz)) p.containers
          (add-Listed key p.containers m),
      pods-Listed ps m',
    )

Filled-add :
    (key : Text) (cs : List Container) (m : Map Text)
    → key ≢ []
    → Filled m
    → Filled (add_containers key cs m)
unfolding add_containers
Filled-add key [] m h f = f
Filled-add key (c ∷ cs) m h f =
    Filled-add key cs _ h
      λ k v e. ground (arith, f k v, lookup-insert (get_biz_unique_key c) k key m)

get_pod_key-ne-nil : (namespace name : Text) → get_pod_key namespace name ≢ []
unfolding get_pod_key
get_pod_key-ne-nil [] name = λ e. cc
get_pod_key-ne-nil (c ∷ namespace) name = λ e. cc

Filled-pods : (ps : List Pod) (m : Map Text) → Filled m → Filled (biz_key_to_pod_key ps m)
unfolding biz_key_to_pod_key
Filled-pods [] m f = f
Filled-pods (p ∷ ps) m f =
    Filled-pods ps _ (Filled-add _ p.containers m (get_pod_key-ne-nil p.namespace p.name) f)

fill_one-lacks :
    (m : Map Text) (d : BizStatusData)
    → Filled m
    → has_pod_key (fill_one m d) ≡ false
    → (lookup (fill_one m d).key m ≡ none)
unfolding fill_one
fill_one-lacks m d f h = elim (Option-cases (lookup d.key m)) [
  | inl e ↦ ground arith
  | inr (v, e) ↦ ground (arith, f d.key v e)
]

partition-unknown :
    (m : Map Text) (ds : List BizStatusData)
    → Filled m
    → All (λ d. lookup d.key m ≡ none) (partition m ds).1
unfolding partition
partition-unknown m [] f = tt
partition-unknown m (d ∷ ds) f = ground (arith, partition-unknown m ds f, fill_one-lacks m d f)

Filled-nil : Filled []
unfolding lookup
Filled-nil k v e = cc

clash :
    (m : Map Text) (d : BizStatusData) (c : Container)
    → lookup d.key m ≡ none
    → d.key ≡ get_biz_unique_key c
    → Known (get_biz_unique_key c) m
    → ⊥
clash m d c absent same known = ground (arith, subst (λ k. lookup k m ≡ none) same absent)

-- No biz that belongs to a `.jar` container of one of the pods is among the reports to uninstall.
pub fill_pod_key_spares :
    (pods : List Pod) (ds : List BizStatusData)
    → All
        (λ p.
          All
            (λ c.
              is_biz c ≡ true → All (λ d. d.key ≢ get_biz_unique_key c) (fill_pod_key pods ds).1)
            p.containers)
        pods
unfolding fill_pod_key
fill_pod_key_spares pods ds =
    let m = biz_key_to_pod_key pods [] in
    All-mono
      (λ p.
        All-mono
          (λ c known biz.
            All-mono (λ d absent same. clash m d c absent same (known biz)) _
              (partition-unknown m ds (Filled-pods pods [] Filled-nil)))
          p.containers)
      pods (pods-Listed pods [])
