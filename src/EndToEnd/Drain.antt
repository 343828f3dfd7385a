-- ===== src/EndToEnd/Drain.antt =====
-- A series of synchronisations of virtual_kubelet/node/podcontroller.go, one key after the other, as
-- its work queue hands them out, over provider/vpod_provider.go.
use virtual_kubelet.Common.{
  ℕ, ◌≡◌, ◌≢◌, refl, sym, ◌∙◌, subst, ap, Bool, Option, List, [], ◌∷◌, Text, lookup, All, All-mono,
  All-both, Lacks,
}
use virtual_kubelet.Kube.{Container, Pod}
use virtual_kubelet.Keys.{get_pod_key}
use virtual_kubelet.Keys.RoundTrip.{get_pod_key-parts}
use virtual_kubelet.Pods.{PodResult, Outside, Cmp, World}
use virtual_kubelet.Pods.Provider.{sync_pods_from_kubernetes_handler}
use virtual_kubelet.VPods.{Tunnel}
use virtual_kubelet.VPods.Store.{Keyed}
use virtual_kubelet.EndToEnd.{Cluster, Joint}
use virtual_kubelet.EndToEnd.Spec.{desired, IsFor, Becomes, Becomes-at, Becomes-other}
use virtual_kubelet.EndToEnd.Stores.{joint, store_of}
use virtual_kubelet.EndToEnd.Refine.{is_new, handler-refines}
use virtual_kubelet.EndToEnd.Frame.{IsStable, Frame, handler-Keeps}

-- The namespace and the name of a pod.
abbrev pub Named : Type 0
Named = Text × Text

abbrev pub key_of : Named → Text
key_of (namespace, name) = get_pod_key namespace name

-- A key that is not among these.
abbrev pub Apart : Text → List Named → Type 0
Apart j ps = All (λ p. j ≢ key_of p) ps

-- No key comes twice.
abbrev pub Distinct : List Named → Type 0
Distinct [] = Unit {0}
Distinct (p ∷ ps) = Apart (key_of p) ps × Distinct ps

module _ {K : Type 0} (cluster : Cluster K) where
  abbrev pub answer : Named → K → PodResult
  answer (namespace, name) k = cluster.cache_get namespace name k

  -- The names hold no slash, and the cache answers with the pod that it is asked for.
  abbrev pub Ready : K → Named → Type 0
  Ready k p = Lacks b'/' p.0 × Lacks b'/' p.1 × IsFor (key_of p) (answer p k)

module _ {S K : Type 0} (cluster : Cluster K) (tunnel : Tunnel S) (timers : ℕ)
    (same : Container → Container → Bool) (cmp : Cmp) where
  abbrev o : Outside (Joint S K)
  o = joint cluster tunnel timers same cmp

  abbrev step : Named → World (Joint S K) → World (Joint S K)
  step p w = (sync_pods_from_kubernetes_handler o cmp (key_of p) w).1

  -- The handler for each key in turn, as a single worker of the queue runs it, without retries.
  unfoldable pub sync_keys : List Named → World (Joint S K) → World (Joint S K)
  sync_keys [] w = w
  sync_keys (p ∷ ps) w = sync_keys ps (step p w)

  -- What the promise of one synchronisation makes of the pod under this key.
  abbrev pub entry : World (Joint S K) → Named → Option Pod
  entry w p =
      desired cmp (is_new cluster tunnel timers same cmp (lookup (key_of p) w.known))
        (answer cluster p w.outside.cluster) (lookup (key_of p) (store_of w))

  module _ (stable : IsStable cluster) (p : Named) (w : World (Joint S K)) where
    step-Frame : Frame cluster (key_of p) w (step p w)
    step-Frame = handler-Keeps cluster stable tunnel timers same cmp (key_of p) w

    Ready-step :
        (q : Named) → Ready cluster w.outside.cluster q → Ready cluster (step p w).outside.cluster q
    Ready-step q (l, l', h) = (l, l', subst (IsFor (key_of q)) (sym (step-Frame.1 q.0 q.1)) h)

    other-entry :
        (q : Named)
        → key_of p ≢ key_of q
        → lookup (key_of q) (store_of (step p w)) ≡ lookup (key_of q) (store_of w)
        → entry (step p w) q ≡ entry w q
    other-entry q n e =
        ap
          (λ k.
            desired cmp (is_new cluster tunnel timers same cmp k)
              (answer cluster q (step p w).outside.cluster)
              (lookup (key_of q) (store_of (step p w))))
          (step-Frame.0 (key_of q) n)
        ∙ ap
            (λ a.
              desired cmp (is_new cluster tunnel timers same cmp (lookup (key_of q) w.known)) a
                (lookup (key_of q) (store_of (step p w))))
            (step-Frame.1 q.0 q.1)
        ∙ ap
            (λ there.
              desired cmp (is_new cluster tunnel timers same cmp (lookup (key_of q) w.known))
                (answer cluster q w.outside.cluster) there)
            e

  step-refines :
      (p : Named) (w : World (Joint S K))
      → Keyed (store_of w)
      → Ready cluster w.outside.cluster p
      → Becomes (key_of p) (entry w p) (store_of w) (store_of (step p w))
        × Keyed (store_of (step p w))
  step-refines (namespace, name) w keyed (l, l', h) =
      handler-refines cluster tunnel timers same cmp (get_pod_key namespace name) namespace name w
        keyed (get_pod_key-parts namespace name l l').1 refl h

  -- If no key comes twice, the names hold no slash, every answer is for its key, and calls leave the
  -- cache alone, then a series of synchronisations brings the pod of every listed key to what is
  -- desired of it by the answer for that key, as if it were alone, and leaves every other pod.
  pub sync_keys-reaches :
      (stable : IsStable cluster) (ps : List Named) (w : World (Joint S K))
      → Keyed (store_of w)
      → Distinct ps
      → All (Ready cluster w.outside.cluster) ps
      → All (λ p. lookup (key_of p) (store_of (sync_keys ps w)) ≡ entry w p) ps
        × ((j : Text) → Apart j ps → lookup j (store_of (sync_keys ps w)) ≡ lookup j (store_of w))
  unfolding sync_keys
  sync_keys-reaches stable [] w keyed d r = (tt, λ j n. refl)
  sync_keys-reaches stable (p ∷ ps) w keyed (apart, d) (ready, r) =
      let (b, keyed') = step-refines p w keyed ready in
      let k = key_of p in
      let w' = step p w in
      let others =
        λ (j : Text) (n : k ≢ j). Becomes-other k j (entry w p) (store_of w) (store_of w') b n in
      let (reached, rest) =
        sync_keys-reaches stable ps w' keyed' d (All-mono (Ready-step stable p w) ps r) in
      (
        (
          rest k apart ∙ Becomes-at k (entry w p) (store_of w) (store_of w') b,
          All-both (λ q n e. e ∙ other-entry stable p w q n (others (key_of q) n)) ps apart reached,
        ),
        λ j n. rest j n.1 ∙ others j (λ e. n.0 (sym e)),
      )
