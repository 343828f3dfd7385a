-- ===== src/Pods/Deletion.antt =====
-- Removing pods: `deletePodsFromKubernetesHandler` of virtual_kubelet/node/pod.go, and
-- `deleteDanglingPods` of podcontroller.go.
use virtual_kubelet.Common.{
  ◌≡◌, ◌⊎◌, inl, inr, refl, sym, subst, Bool, true, false, Option, none, some, List, [], ◌∷◌, map,
  pos, Text, Error, is_not_found, is_conflict, if-holds, All, reverse_onto, if◌then◌else◌, Lacks,
  arith, text_dec,
}
use virtual_kubelet.Kube.{Pod}
use virtual_kubelet.Biz.{same_text}
use virtual_kubelet.Keys.{
  KeyResult, parts, bad_key, split_meta_namespace_key, get_uid_and_meta_namespace_key, deletion_key,
  get_pod_key,
}
use virtual_kubelet.Biz.Filling.{keep}
use virtual_kubelet.Keys.RoundTrip.{get_pod_key-parts, deletion_key_parts}
use virtual_kubelet.Pods.{
  PodResult, got, failed, Outside, api_delete, delete_call, World, Outcome, ok, panic, error,
  calling,
}

PodResult-cases : (r : PodResult) → ((pod : Pod) × (r ≡ got pod)) ⊎ ((e : Error) × (r ≡ failed e))
PodResult-cases (got pod) = inl (pod, refl)
PodResult-cases (failed e) = inr (e, refl)

module _ {S : Type 0} (o : Outside S) where
  abbrev pub outcome_of : Option Error → Outcome
  outcome_of none = ok
  outcome_of (some e) = if is_not_found e then ok else if is_conflict e then ok else error e

  unfoldable pub delete_same_uid : Text → Pod → World S → Outcome × World S
  delete_same_uid uid pod w =
      let grace = some (pos 0) in
      let (e, w') =
        calling (api_delete pod grace (some uid)) (o.client_delete pod grace (some uid)) w in
      if same_text pod.uid uid then (outcome_of e, w') else (ok, w)

  unfoldable pub delete_found : Text → PodResult → World S → Outcome × World S
  unfolding delete_same_uid
  delete_found uid (got pod) w = delete_same_uid uid pod w
  delete_found uid (failed e) w = if is_not_found e then (ok, w) else (error e, w)

  unfoldable pub delete_named : Text → KeyResult → World S → Outcome × World S
  unfolding delete_found
  delete_named uid (bad_key e) w = (ok, w)
  delete_named uid (parts namespace name) w =
      delete_found uid (o.client_get namespace name w.outside) w

  -- The slicing of a key without a slash panics.
  unfoldable pub delete_pods_from_kubernetes_handler : Text → World S → Outcome × World S
  unfolding get_uid_and_meta_namespace_key delete_named
  delete_pods_from_kubernetes_handler key w = elim (get_uid_and_meta_namespace_key key) [
    | none ↦ (panic, w)
    | some (uid, meta_key) ↦ delete_named uid (o.split_key meta_key) w
  ]

  -- The pods of the provider that the cache does not have; `none` if the cache fails otherwise.
  unfoldable pub dangling : List Pod → S → Option (List Pod)
  dangling [] s = some []
  dangling (p ∷ ps) s =
      let rest = dangling ps s in
      elim (o.cache_get p.namespace p.name s) [
        | got pod ↦ rest
        | failed e ↦
            if is_not_found e then elim rest [ none ↦ none | some qs ↦ some (p ∷ qs) ] else none
      ]

  -- The goroutines delete in any order; the order is that of the list.
  unfoldable pub delete_each : List Pod → World S → World S
  delete_each [] w = w
  delete_each (p ∷ ps) w = delete_each ps (calling (delete_call p) (o.delete_pod p) w).1

  unfoldable pub delete_dangling_pods : World S → World S
  unfolding dangling delete_each
  delete_dangling_pods w =
      let (e, ps) = o.get_pods w.outside in
      elim e [
        | some err ↦ w
        | none ↦ elim (dangling ps w.outside) [ none ↦ w | some qs ↦ delete_each qs w ]
      ]

  -- What `Run` does before its workers start. A provider that has no `NotifyPods` is replaced by a nil
  -- interface, whose first call panics.
  unfoldable pub start_pods : Bool → World S → Option (World S)
  unfolding delete_dangling_pods
  start_pods has_notify_pods w = if has_notify_pods then some (delete_dangling_pods w) else none

  -- What one run may do to the world: nothing, or delete the pod it found under its uid.
  abbrev pub Guarded : Text → PodResult → World S → World S → Type 0
  Guarded uid found w w' =
      (w' ≡ w)
      ⊎ ((pod : Pod) × (found ≡ got pod)
          × (pod.uid ≡ uid)
          × (w'.calls ≡ api_delete pod (some (pos 0)) (some uid) ∷ w.calls))

  delete_found-Guarded :
      (uid : Text) (found : PodResult) (w : World S)
      → Guarded uid found w (delete_found uid found w).1
  unfolding delete_found delete_same_uid
  delete_found-Guarded uid (failed e) w =
      if-holds (λ (r : Outcome × World S). Guarded uid (failed e) w r.1) (is_not_found e)
        (λ h. inl refl) (λ h. inl refl)
  delete_found-Guarded uid (got pod) w = elim (text_dec pod.uid uid) [
    | yes same ↦ inr (pod, refl, same, ground (arith, same))
    | no differs ↦ inl (ground (arith, differs))
  ]

  handler_found :
      ((key : Text) → o.split_key key ≡ split_meta_namespace_key key)
      → (namespace name uid : Text) (w : World S) → Lacks b'/' namespace
      → Lacks b'/' name
      → Lacks b'/' uid
      → delete_pods_from_kubernetes_handler (deletion_key (get_pod_key namespace name) uid) w
        ≡ delete_found uid (o.client_get namespace name w.outside) w
  unfolding delete_pods_from_kubernetes_handler delete_found
  handler_found splits namespace name uid w h g k = rw (
    delete_pods_from_kubernetes_handler,
    deletion_key_parts (get_pod_key namespace name) uid k,
    splits (get_pod_key namespace name),
    (get_pod_key-parts namespace name h g).1,
    delete_named,
  )

  -- For a key made of a pod's namespace, name and uid, the handler deletes in Kubernetes at most a
  -- pod with that very uid, with the uid as precondition and no grace period, and makes no other call.
  pub delete_handler-Guarded :
      ((key : Text) → o.split_key key ≡ split_meta_namespace_key key)
      → (namespace name uid : Text) (w : World S) → Lacks b'/' namespace
      → Lacks b'/' name
      → Lacks b'/' uid
      → let key = deletion_key (get_pod_key namespace name) uid in
        Guarded uid
          (o.client_get namespace name w.outside)
          w
          (delete_pods_from_kubernetes_handler key w).1
  delete_handler-Guarded splits namespace name uid w h g k =
      let found = o.client_get namespace name w.outside in
      subst (λ r. Guarded uid found w r.1) (sym (handler_found splits namespace name uid w h g k))
        (delete_found-Guarded uid found w)

  -- The cache does not have the pod.
  abbrev pub is_absent : S → Pod → Bool
  is_absent s p = elim (o.cache_get p.namespace p.name s) [
    | got pod ↦ false
    | failed e ↦ is_not_found e
  ]

  -- The cache answers for the pod: it has it, or says that it does not.
  abbrev pub Answers : S → Pod → Type 0
  Answers s p = (e : Error) → o.cache_get p.namespace p.name s ≡ failed e → is_not_found e ≡ true

  pub dangling-keep :
      (ps : List Pod) (s : S) → All (Answers s) ps → dangling ps s ≡ some (keep (is_absent s) ps)
  unfolding dangling
  dangling-keep [] s h = refl
  dangling-keep (p ∷ ps) s h = elim (PodResult-cases (o.cache_get p.namespace p.name s)) [
    | inl (pod, e) ↦ ground (arith, e, dangling-keep ps s h.1)
    | inr (err, e) ↦ ground (arith, e, h.0 err e, dangling-keep ps s h.1)
  ]

  delete_each-calls :
      (ps : List Pod) (w : World S)
      → ((delete_each ps w).calls ≡ reverse_onto (map delete_call ps) w.calls)
        × ((delete_each ps w).known ≡ w.known)
  unfolding delete_each
  delete_each-calls [] w = (refl, refl)
  delete_each-calls (p ∷ ps) w = delete_each-calls ps _

  -- At start, if the cache answers for every pod of the provider, exactly those that it does not have
  -- are deleted in the provider, each once, and nothing else is called.
  pub delete_dangling_pods-absent :
      (w : World S) (ps : List Pod)
      → o.get_pods w.outside ≡ (none, ps)
      → All (Answers w.outside) ps
      → (delete_dangling_pods w).calls
        ≡ reverse_onto (map delete_call (keep (is_absent w.outside) ps)) w.calls
  unfolding delete_dangling_pods
  delete_dangling_pods-absent w ps e h =
      ground (
        arith,
        e,
        dangling-keep ps w.outside h,
        delete_each-calls (keep (is_absent w.outside) ps) w,
      )
