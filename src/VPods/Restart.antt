-- ===== src/VPods/Restart.antt =====
-- Which containers an updated pod stops and starts, and when the start has to wait
-- (provider/vpod_provider.go).
use virtual_kubelet.Common.{
  ℕ, ◌≡◌, ◌⊎◌, refl, Bool, true, false, ◌&&◌, none, some, is_some, List, [], ◌∷◌, Text, Bool-cases,
  inl, inr, All, Map, lookup, insert, DistinctKeys, DistinctKeys-insert, is_not_found, if-holds,
  arith,
}
use virtual_kubelet.Kube.{Container, ContainerStatus, Pod}
use virtual_kubelet.Pods.{PodResult, got, failed}
use virtual_kubelet.VPods.{
  Tunnel, Provider, Pending, pod_key, put_pod, notify, replace, update_stored, update_pod, by_name,
  changed, added, last_status, has_stopped, all_stopped, check_pending,
}

-- The entries of a map that stand in it under their keys.
abbrev pub Within : Map Container → Map Container → Type 0
Within m [] = Unit {0}
Within m ((k, c) ∷ rest) = (lookup k m ≡ some c) × Within m rest

Within-cons :
    (k : Text) (c : Container) (m rest : Map Container)
    → is_some (lookup k rest) ≡ false
    → Within m rest
    → Within ((k, c) ∷ m) rest
unfolding lookup
Within-cons k c m [] h w = tt
Within-cons k c m ((j, d) ∷ rest) h w =
    (ground (arith, h, w.0), Within-cons k c m rest (ground (arith, h)) w.1)

Within-self : (m : Map Container) → DistinctKeys m → Within m m
unfolding lookup
Within-self [] d = tt
Within-self ((k, c) ∷ m) d = (ground arith, Within-cons k c m m d.0 (Within-self m d.1))

by_name-DistinctKeys :
    (cs : List Container) (m : Map Container) → DistinctKeys m → DistinctKeys (by_name cs m)
unfolding by_name
by_name-DistinctKeys [] m d = d
by_name-DistinctKeys (c ∷ cs) m d =
    by_name-DistinctKeys cs (insert c.name c m) (DistinctKeys-insert c.name c m d)

changed-none :
    (same : Container → Container → Bool) (m rest : Map Container)
    → ((c : Container) → same c c ≡ true)
    → Within m rest
    → changed same m rest ≡ []
unfolding changed
changed-none same m [] reflexive w = refl
changed-none same m ((k, c) ∷ rest) reflexive w =
    ground (arith, w.0, reflexive c, changed-none same m rest reflexive w.1)

added-none : (m rest : Map Container) → Within m rest → added m rest ≡ []
unfolding added
added-none m [] w = refl
added-none m ((k, c) ∷ rest) w = ground (arith, w.0, added-none m rest w.1)

both : (a b : Bool) → (a && b) ≡ true → (a ≡ true) × (b ≡ true)
both a b h = ground (arith, h)

module _ {S : Type 0} (tunnel : Tunnel S) (timers : ℕ) where
  -- An update of a stored pod that is not marked for deletion and has the same containers stops none
  -- and starts none: the pod is stored and handed to the pod controller, if `cmp.Equal` is reflexive.
  pub update_pod-unchanged :
      (same : Container → Container → Bool) (pod old : Pod) (p : Provider S)
      → ((c : Container) → same c c ≡ true)
      → is_some pod.deletion_timestamp ≡ false
      → lookup (pod_key pod) p.store ≡ some old
      → old.containers ≡ pod.containers
      → update_pod tunnel timers same pod p ≡ (none, notify pod (put_pod pod p))
  unfolding update_pod update_stored replace
  update_pod-unchanged same pod old p reflexive h e f =
      let m = by_name pod.containers [] in
      let within : Within m m = Within-self m (by_name-DistinctKeys pod.containers [] tt) in
      rw (
        update_pod,
        h,
        e,
        update_stored,
        f,
        changed-none same m m reflexive within,
        added-none m m within,
      )

  all_stopped-All :
      (cs : List Container) (ss : List ContainerStatus)
      → all_stopped cs ss ≡ true
      → All (λ c. has_stopped (last_status c.name ss) ≡ true) cs
  unfolding all_stopped
  all_stopped-All [] ss h = tt
  all_stopped-All (c ∷ cs) ss h =
      let (a, b) = both (has_stopped (last_status c.name ss)) (all_stopped cs ss) h in
      (a, all_stopped-All cs ss b)

  -- The waiting goroutine does nothing to the provider unless Kubernetes shows the pod with every
  -- container that had to stop either terminated or without a status.
  pub check_pending-waits :
      (w : Pending) (r : PodResult) (p : Provider S)
      → ((check_pending tunnel timers w r p).1 ≡ p)
        ⊎ ((pod : Pod) × (r ≡ got pod)
            × All
                (λ c. has_stopped (last_status c.name pod.status.container_statuses) ≡ true)
                w.to_stop)
  unfolding check_pending
  check_pending-waits w (failed e) p =
      inl (if-holds (λ (x : Bool × Provider S). x.1 ≡ p) (is_not_found e) (λ h. refl) (λ h. refl))
  check_pending-waits w (got pod) p =
      elim (Bool-cases (all_stopped w.to_stop pod.status.container_statuses)) [
        | inl stopped ↦
            inr (pod, refl, all_stopped-All w.to_stop pod.status.container_statuses stopped)
        | inr waits ↦ inl (rw waits refl)
      ]
