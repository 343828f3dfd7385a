-- ===== src/EndToEnd/Start.antt =====
-- The start of the pod controller (virtual_kubelet/node/podcontroller.go) over
-- provider/vpod_provider.go: which pods the provider has when the workers begin.
use virtual_kubelet.Common.{
  ℕ, ◌≡◌, refl, ◌∙◌, ap, Bool, true, false, ◌||◌, Option, none, some, List, [], ◌∷◌, map, Text,
  text_dec, decided, Map, lookup, delete, lookup-delete, DistinctKeys, All, if◌then◌else◌, arith,
}
use virtual_kubelet.Kube.{Container, Pod}
use virtual_kubelet.Biz.Filling.{keep}
use virtual_kubelet.Pods.{Cmp, World, Outside}
use virtual_kubelet.Pods.Deletion.{
  delete_each, delete_dangling_pods, start_pods, is_absent, Answers, dangling-keep,
}
use virtual_kubelet.VPods.{Tunnel, pod_key}
use virtual_kubelet.VPods.Store.{delete-store, Keyed}
use virtual_kubelet.EndToEnd.{Cluster, Joint, outside}
use virtual_kubelet.EndToEnd.Stores.{joint, store_of}

abbrev remove_each : List Pod → Map Pod → Map Pod
remove_each [] m = m
remove_each (p ∷ ps) m = remove_each ps (delete (pod_key p) m)

abbrev has_key : Text → List Pod → Bool
has_key j [] = false
has_key j (p ∷ ps) = decided (text_dec (pod_key p) j) || has_key j ps

lookup-remove_each :
    (j : Text) (ps : List Pod) (m : Map Pod)
    → lookup j (remove_each ps m) ≡ (if has_key j ps then none else lookup j m)
lookup-remove_each j [] m = refl
lookup-remove_each j (p ∷ ps) m =
    ground (arith, lookup-remove_each j ps (delete (pod_key p) m), lookup-delete (pod_key p) j m)

abbrev entries : Map Pod → List Pod
entries m = map (λ e. e.1) m

-- Every entry has the key of its pod.
abbrev Own : Map Pod → Type 0
Own m = All (λ e. pod_key e.1 ≡ e.0) m

Keyed-Own : (m : Map Pod) → DistinctKeys m → Keyed m → Own m
unfolding lookup
Keyed-Own [] d h = tt
Keyed-Own ((k, p) ∷ m) d h =
    (h k p (ground arith), Keyed-Own m d.1 (λ j q e. h j q (ground (arith, e, d.0))))

-- The pod is there, and the test does not hold of it.
abbrev pub sifted : (Pod → Bool) → Option Pod → Option Pod
sifted absent none = none
sifted absent (some p) = if absent p then none else some p

absent_at : (Pod → Bool) → Option Pod → Bool
absent_at absent none = false
absent_at absent (some p) = absent p

has_key-keep :
    (absent : Pod → Bool) (j : Text) (m : Map Pod)
    → DistinctKeys m
    → Own m
    → has_key j (keep absent (entries m)) ≡ absent_at absent (lookup j m)
unfolding lookup absent_at
has_key-keep absent j [] d h = refl
has_key-keep absent j ((k, p) ∷ m) d h = ground (arith, has_key-keep absent j m d.1 h.1, h.0, d.0)

has_key-sifted :
    (absent : Pod → Bool) (found : Option Pod) (has : Bool)
    → has ≡ absent_at absent found
    → (if has then none else found) ≡ sifted absent found
unfolding absent_at
has_key-sifted absent none has e = ground (arith, e)
has_key-sifted absent (some p) has e = ground (arith, e)

module _ {S K : Type 0} (cluster : Cluster K) (tunnel : Tunnel S) (timers : ℕ)
    (same : Container → Container → Bool) (cmp : Cmp) where
  abbrev o : Outside (Joint S K)
  o = joint cluster tunnel timers same cmp

  delete_each-store :
      (ps : List Pod) (w : World (Joint S K))
      → store_of (delete_each o ps w) ≡ remove_each ps (store_of w)
  unfolding delete_each outside
  delete_each-store [] w = refl
  delete_each-store (p ∷ ps) w =
      delete_each-store ps _ ∙ ap (remove_each ps) (delete-store tunnel timers p w.outside.provider)

  dangling-store :
      (w : World (Joint S K))
      → All (Answers o w.outside) (entries (store_of w))
      → store_of (delete_dangling_pods o w)
        ≡ remove_each (keep (is_absent o w.outside) (entries (store_of w))) (store_of w)
  unfolding delete_dangling_pods outside
  dangling-store w h =
      let ps = entries (store_of w) in
      rw (delete_dangling_pods, dangling-keep o ps w.outside h)
        (delete_each-store (keep (is_absent o w.outside) ps) w)

  -- When the workers start, the provider has exactly the pods that it had before and that Kubernetes
  -- still has, if the cache either has each of them or says that it does not, and the provider has
  -- every pod under its own key.
  pub start_pods-sifted :
      (w : World (Joint S K)) (j : Text)
      → DistinctKeys (store_of w)
      → Keyed (store_of w)
      → All (Answers o w.outside) (entries (store_of w))
      → (w' : World (Joint S K)) × (start_pods o true w ≡ some w')
        × (lookup j (store_of w') ≡ sifted (is_absent o w.outside) (lookup j (store_of w)))
  unfolding start_pods
  start_pods-sifted w j d keyed h =
      let m = store_of w in
      let absent = is_absent o w.outside in
      let gone = keep absent (entries m) in
      (
        delete_dangling_pods o w,
        refl,
        ap (lookup j) (dangling-store w h)
            ∙ lookup-remove_each j gone m
            ∙ has_key-sifted absent (lookup j m) (has_key j gone)
                (has_key-keep absent j m d (Keyed-Own m d keyed)),
      )
