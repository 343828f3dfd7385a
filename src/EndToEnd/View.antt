-- ===== src/EndToEnd/View.antt =====
-- The pods of provider/vpod_provider.go as a map without an order, and what the synchronisations of
-- virtual_kubelet/node/podcontroller.go do to it.
use virtual_kubelet.Common.{
  ℕ, ◌≡◌, refl, sym, ◌∙◌, ap, Bool, Option, List, [], ◌∷◌, Text, text_dec, ite, lookup, All, GoMap,
  view, view_same, put, set_entry, lookup-set_entry,
}
use virtual_kubelet.Kube.{Container, Pod}
use virtual_kubelet.Pods.{Cmp, World}
use virtual_kubelet.VPods.{Tunnel}
use virtual_kubelet.VPods.Store.{Keyed}
use virtual_kubelet.EndToEnd.{Cluster, Joint}
use virtual_kubelet.EndToEnd.Spec.{Becomes}
use virtual_kubelet.EndToEnd.Stores.{store_of}
use virtual_kubelet.EndToEnd.Frame.{IsStable}
use virtual_kubelet.EndToEnd.Drain.{Named, key_of, Distinct, sync_keys, entry, Ready}
use virtual_kubelet.EndToEnd.Order.{desired_of, sync_keys-desired, sync_keys-order}
use mathlib.Core.Quot.{Quot-set}
use mathlib.Core.Logic.{∥∥₁_elim}
use mathlib.Core.List.{Perm}

Becomes-view :
    (key : Text) (d : Option Pod) (m m' : List (Text × Pod))
    → Becomes key d m m'
    → view m' ≡ put key d (view m)
Becomes-view key d m m' h = view_same (λ j. h j ∙ sym (lookup-set_entry key j d m))

module _ {S K : Type 0} where
  abbrev pub pods_of : World (Joint S K) → GoMap Pod
  pods_of w = view (store_of w)

module _ {S K : Type 0} (cluster : Cluster K) (tunnel : Tunnel S) (timers : ℕ)
    (same : Container → Container → Bool) (cmp : Cmp) where
  -- The listed keys get the pods that are desired of them at the start.
  abbrev pub put_each : World (Joint S K) → List Named → GoMap Pod → GoMap Pod
  put_each w [] m = m
  put_each w (p ∷ ps) m =
      put (key_of p) (entry cluster tunnel timers same cmp w p) (put_each w ps m)

  set_each : World (Joint S K) → List Named → List (Text × Pod)
  set_each w [] = store_of w
  set_each w (p ∷ ps) =
      set_entry (key_of p) (entry cluster tunnel timers same cmp w p) (set_each w ps)

  lookup-set_each :
      (w : World (Joint S K)) (ps : List Named) (j : Text)
      → lookup j (set_each w ps) ≡ desired_of cluster tunnel timers same cmp w ps j
  unfolding set_each
  lookup-set_each w [] j = refl
  lookup-set_each w (p ∷ ps) j =
      let d = entry cluster tunnel timers same cmp w p in
      lookup-set_entry (key_of p) j d (set_each w ps)
      ∙ ap (ite (text_dec (key_of p) j) d) (lookup-set_each w ps j)

  view-set_each :
      (w : World (Joint S K)) (ps : List Named) → view (set_each w ps) ≡ put_each w ps (pods_of w)
  unfolding set_each
  view-set_each w [] = refl
  view-set_each w (p ∷ ps) =
      ap (put (key_of p) (entry cluster tunnel timers same cmp w p)) (view-set_each w ps)

  -- A series of synchronisations of different keys puts, under each of them, the pod that is desired
  -- of it at the start into the provider's map, if the names hold no slash, every answer is for its
  -- key, calls leave the cache alone and the provider has every pod under its own key.
  pub sync_keys-view :
      (stable : IsStable cluster) (ps : List Named) (w : World (Joint S K))
      → Keyed (store_of w)
      → Distinct ps
      → All (Ready cluster w.outside.cluster) ps
      → pods_of (sync_keys cluster tunnel timers same cmp ps w) ≡ put_each w ps (pods_of w)
  sync_keys-view stable ps w keyed d r =
      view_same (λ j.
        sync_keys-desired cluster tunnel timers same cmp stable ps w j keyed d r
        ∙ sym (lookup-set_each w ps j))
      ∙ view-set_each w ps

  -- Every order of such keys leads to the same map of pods in the provider, under these conditions: the
  -- names hold no slash, every answer is for its key, calls leave the cache alone, the provider has
  -- every pod under its own key and no key comes twice.
  pub sync_keys-Perm :
      (stable : IsStable cluster) (ps qs : List Named) (w : World (Joint S K))
      → Keyed (store_of w)
      → Distinct ps
      → All (Ready cluster w.outside.cluster) ps
      → Perm ps qs
      → pods_of (sync_keys cluster tunnel timers same cmp ps w)
        ≡ pods_of (sync_keys cluster tunnel timers same cmp qs w)
  sync_keys-Perm stable ps qs w keyed d r perm = ∥∥₁_elim perm (Quot-set _ _) (λ order.
      view_same
        (λ j. sync_keys-order cluster tunnel timers same cmp stable ps qs w j keyed d r order))
