-- ===== src/EndToEnd/Order.antt =====
-- The order of a series of synchronisations does not matter to the pods of provider/vpod_provider.go.
use virtual_kubelet.Common.{
  ℕ, ◌≡◌, ◌≢◌, refl, sym, ◌∙◌, ap, subst, Bool, Option, List, [], ◌∷◌, Text, text_dec, ite, lookup,
  All, arith,
}
use virtual_kubelet.Kube.{Container, Pod}
use virtual_kubelet.Pods.{Cmp, World}
use virtual_kubelet.VPods.{Tunnel}
use virtual_kubelet.VPods.Store.{Keyed}
use virtual_kubelet.EndToEnd.{Cluster, Joint}
use virtual_kubelet.EndToEnd.Stores.{store_of}
use virtual_kubelet.EndToEnd.Frame.{IsStable}
use virtual_kubelet.EndToEnd.Drain.{
  Named, key_of, Apart, Distinct, sync_keys, entry, Ready, sync_keys-reaches,
}
use mathlib.Core.List.{Permᴰ}

module _ (P : Named → Type 0) where
  All-Perm : {ps qs : List Named} → Permᴰ ps qs → All P ps → All P qs
  All-Perm Permᴰ.nil h = h
  All-Perm (Permᴰ.cons e d) (x, h) = (subst P e x, All-Perm d h)
  All-Perm (Permᴰ.swap e e') (x, (y, h)) = (subst P e' y, (subst P e x, h))
  All-Perm (Permᴰ.trans d d') h = All-Perm d' (All-Perm d h)

Distinct-Perm : {ps qs : List Named} → Permᴰ ps qs → Distinct ps → Distinct qs
Distinct-Perm Permᴰ.nil h = h
Distinct-Perm (Permᴰ.cons {b = b} {l₁ = l₁} e d) (n, h) = (
  All-Perm (λ p. key_of b ≢ key_of p) d (subst (λ a. Apart (key_of a) l₁) e n),
  Distinct-Perm d h,
)
Distinct-Perm (Permᴰ.swap {a' = a'} {b' = b'} {l = l} e e') ((n, m), (m', h)) = (
  (λ same. n (ap key_of e ∙ sym same ∙ ap key_of (sym e')), subst (λ b. Apart (key_of b) l) e' m'),
  (subst (λ a. Apart (key_of a) l) e m, h),
)
Distinct-Perm (Permᴰ.trans d d') h = Distinct-Perm d' (Distinct-Perm d h)

module _ {S K : Type 0} (cluster : Cluster K) (tunnel : Tunnel S) (timers : ℕ)
    (same : Container → Container → Bool) (cmp : Cmp) where
  -- The pod under a key: what is desired of it where it is listed, and otherwise the old one.
  abbrev pub desired_of : World (Joint S K) → List Named → Text → Option Pod
  desired_of w [] j = lookup j (store_of w)
  desired_of w (p ∷ ps) j =
      ite (text_dec (key_of p) j) (entry cluster tunnel timers same cmp w p) (desired_of w ps j)

  two_tests :
      (k k' j : Text) (x x' y : Option Pod)
      → k ≢ k'
      → ite (text_dec k j) x (ite (text_dec k' j) x' y)
        ≡ ite (text_dec k' j) x' (ite (text_dec k j) x y)
  two_tests k k' j x x' y n = ground arith

  desired_of-Perm :
      (w : World (Joint S K)) (j : Text) {ps qs : List Named}
      → Permᴰ ps qs
      → Distinct ps
      → desired_of w ps j ≡ desired_of w qs j
  desired_of-Perm w j Permᴰ.nil h = refl
  desired_of-Perm w j (Permᴰ.cons {a = a} {l₁ = l₁} {l₂ = l₂} e d) (n, h) =
      ap (λ p. desired_of w (p ∷ l₁) j) e
      ∙ ap (ite (text_dec (key_of _) j) _) (desired_of-Perm w j d h)
  desired_of-Perm w j (Permᴰ.swap {a = a} {b = b} {a' = a'} {l = l} e e') h =
      two_tests (key_of a) (key_of b) j _ _ (desired_of w l j) h.0.0
      ∙ ap (λ p. desired_of w (p ∷ a ∷ l) j) e'
      ∙ ap (λ p. desired_of w (a' ∷ p ∷ l) j) e
  desired_of-Perm w j (Permᴰ.trans d d') h =
      desired_of-Perm w j d h ∙ desired_of-Perm w j d' (Distinct-Perm d h)

  meets-desired :
      (pod_at : Text → Option Pod) (w : World (Joint S K)) (j : Text) (ps : List Named)
      → All (λ p. pod_at (key_of p) ≡ entry cluster tunnel timers same cmp w p) ps
      → (Apart j ps → pod_at j ≡ lookup j (store_of w))
      → pod_at j ≡ desired_of w ps j
  meets-desired pod_at w j [] h g = g tt
  meets-desired pod_at w j (p ∷ ps) (e, h) g =
      elim (text_dec (key_of p) j)
        as (λ d. pod_at j ≡ ite d (entry cluster tunnel timers same cmp w p) (desired_of w ps j)) [
          | yes at ↦ ap pod_at (sym at) ∙ e
          | no n ↦ meets-desired pod_at w j ps h (λ apart. g ((λ at. n (sym at)), apart))
        ]

  -- If no key comes twice, the names hold no slash, every answer is for its key, calls leave the
  -- cache alone and the provider has every pod under its own key, then after a series of
  -- synchronisations the provider has under every listed key the pod that is desired by the answer
  -- for it, the version known before and the pod it had before, and under every other key the old one.
  pub sync_keys-desired :
      (stable : IsStable cluster) (ps : List Named) (w : World (Joint S K)) (j : Text)
      → Keyed (store_of w)
      → Distinct ps
      → All (Ready cluster w.outside.cluster) ps
      → lookup j (store_of (sync_keys cluster tunnel timers same cmp ps w)) ≡ desired_of w ps j
  sync_keys-desired stable ps w j keyed d r =
      let w' = sync_keys cluster tunnel timers same cmp ps w in
      let (reached, rest) =
        sync_keys-reaches cluster tunnel timers same cmp stable ps w keyed d r in
      meets-desired (λ k. lookup k (store_of w')) w j ps reached (rest j)

  -- Two orders of the same keys, none of which comes twice, leave the provider with the same pods, if
  -- the names hold no slash, every answer is for its key, calls leave the cache alone and the provider
  -- has every pod under its own key.
  pub sync_keys-order :
      (stable : IsStable cluster) (ps qs : List Named) (w : World (Joint S K)) (j : Text)
      → Keyed (store_of w)
      → Distinct ps
      → All (Ready cluster w.outside.cluster) ps
      → Permᴰ ps qs
      → lookup j (store_of (sync_keys cluster tunnel timers same cmp ps w))
        ≡ lookup j (store_of (sync_keys cluster tunnel timers same cmp qs w))
  sync_keys-order stable ps qs w j keyed d r perm =
      sync_keys-desired stable ps w j keyed d r
      ∙ desired_of-Perm w j perm d
      ∙ sym (
          sync_keys-desired stable qs w j keyed (Distinct-Perm perm d)
            (All-Perm (Ready cluster w.outside.cluster) perm r))
