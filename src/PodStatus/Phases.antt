-- ===== src/PodStatus/Phases.antt =====
-- The phase that `GetPodStatus` of provider/vpod_provider.go computes from its counters, and that it
-- always computes one.
use virtual_kubelet.Common.{
  ◌+◌, ◌≡◌, refl, ap, map, Bool, true, false, ◌&&◌, ◌||◌, not, some, is_some, List, [], ◌∷◌, ℤ,
  Text, Map, lookup, lookup-insert, if◌then◌else◌, ltb, ◌==◌, arith, Option-cases, Bool-cases, inl,
  inr,
}
use virtual_kubelet.Kube.{
  Container, ContainerStatus, Phase, pending, running, succeeded, PodStatus, Pod, BizStatusData,
}
use virtual_kubelet.Biz.{is_biz, no_state, status_of, convert_biz_status_to_container_status}
use virtual_kubelet.Biz.Conversion.{Succeeds, convert-Succeeds}
use virtual_kubelet.Biz.Filling.{keep}
use virtual_kubelet.PodStatus.{
  statuses_by_name, listed, prepend, convert_containers, count_all, phase_of, pod_status,
  get_pod_status,
}

abbrev pub every {ℓ} : {A : Type ℓ} → (A → Bool) → List A → Bool
every p [] = true
every p (x ∷ xs) = p x && every p xs

abbrev pub any {ℓ} : {A : Type ℓ} → (A → Bool) → List A → Bool
any p [] = false
any p (x ∷ xs) = p x || any p xs

abbrev pub has_terminated : ContainerStatus → Bool
has_terminated s = not s.ready && is_some s.state.terminated

-- The container is ready, runs, or waits to run.
abbrev pub is_up : ContainerStatus → Bool
is_up s =
    s.ready
    || (not (is_some s.state.terminated) && (is_some s.state.waiting || is_some s.state.running))

-- Each status is counted in exactly one of the four classes.
counts_sum :
    (ss : List ContainerStatus)
    → let n = count_all ss in n.total ≡ n.ready + n.terminated + n.not_ready + n.not_inited
unfolding count_all
counts_sum [] = refl
counts_sum (s ∷ ss) = ground (arith, counts_sum ss)

every-terminated :
    (ss : List ContainerStatus)
    → every has_terminated ss ≡ ((count_all ss).total == (count_all ss).terminated)
unfolding count_all
every-terminated [] = refl
every-terminated (s ∷ ss) = ground (arith, every-terminated ss, counts_sum ss)

every-ready :
    (ss : List ContainerStatus)
    → every (λ s. s.ready) ss ≡ ((count_all ss).total == (count_all ss).ready)
unfolding count_all
every-ready [] = refl
every-ready (s ∷ ss) = ground (arith, every-ready ss, counts_sum ss)

any-up :
    (ss : List ContainerStatus)
    → any is_up ss ≡ ltb 0 ((count_all ss).ready + (count_all ss).not_ready)
unfolding count_all
any-up [] = refl
any-up (s ∷ ss) = ground (arith, any-up ss, counts_sum ss)

-- What the phase means, without counters.
abbrev pub phase_spec : List ContainerStatus → Phase
phase_spec ss =
    if every has_terminated ss then succeeded else if any is_up ss then running else pending

abbrev pub ready_spec : List ContainerStatus → Bool
ready_spec ss = every (λ s. s.ready) ss && not (every has_terminated ss)

-- The phase is Succeeded if every container has terminated (also with no container), else Running if
-- one is ready, running or waiting, else Pending; the conditions hold exactly if every container is
-- ready and not all have terminated.
pub phase_of-spec :
    (ss : List ContainerStatus) → phase_of (count_all ss) ≡ (phase_spec ss, ready_spec ss)
unfolding phase_of
phase_of-spec ss = ground (arith, counts_sum ss, every-terminated ss, every-ready ss, any-up ss)

-- A status stands under the name of its container.
abbrev Named : Map ContainerStatus → Type 0
Named m = (k : Text) (s : ContainerStatus) → lookup k m ≡ some s → s.name ≡ k

Named-statuses :
    (ss : List ContainerStatus) (m : Map ContainerStatus) → Named m → Named (statuses_by_name ss m)
unfolding statuses_by_name
Named-statuses [] m h = h
Named-statuses (s ∷ ss) m h =
    Named-statuses ss _ λ k x e. ground (arith, lookup-insert s.name k s m, h k x)

abbrev pub status_names : List ContainerStatus → List Text
status_names = map (λ s. s.name)

abbrev pub biz_names : List Container → List Text
biz_names cs = map (λ c. c.name) (keep is_biz cs)

convert_one :
    (m : Map ContainerStatus) (d : BizStatusData) (c : Container)
    → Named m
    → Succeeds c (convert_biz_status_to_container_status c (lookup c.name m) (some d))
convert_one m d c h = elim (Option-cases (lookup c.name m)) [
  | inl e ↦ rw e (convert-Succeeds c (status_of c no_state false) false (some d) refl)
  | inr (old, e) ↦ rw e (convert-Succeeds c old true (some d) (h c.name old e))
]

Named-nil : Named []
unfolding lookup
Named-nil k s e = cc

convert-total :
    (m : Map ContainerStatus) (d : BizStatusData) (cs : List Container)
    → Named m
    → (ss : List ContainerStatus) × (convert_containers m d cs ≡ listed ss)
      × (status_names ss ≡ biz_names cs)
unfolding convert_containers prepend
convert-total m d [] h = ([], refl, refl)
convert-total m d (c ∷ cs) h =
    let (ss, e, names) = convert-total m d cs h in
    let (s, converted, named) = convert_one m d c h in
    elim (Bool-cases (is_biz c)) [
      | inl biz ↦ (s ∷ ss, ground (arith, converted, e), ground (arith, named, names))
      | inr other ↦ (ss, ground (arith, e), ground (arith, names))
    ]

-- `GetPodStatus` never fails: it gives a status, never nil, with one container status for each biz
-- container, in the containers' order, and the phase and readiness that these amount to.
pub get_pod_status_total :
    (local_ip : Text) (now : ℤ) (pod : Pod) (d : BizStatusData)
    → (s : PodStatus) × (get_pod_status local_ip now pod d ≡ some s)
      × (status_names s.container_statuses ≡ biz_names pod.containers)
      × (s.phase ≡ phase_spec s.container_statuses)
      × (map (λ c. c.holds) s.conditions
          ≡ ready_spec s.container_statuses ∷ ready_spec s.container_statuses ∷ [])
unfolding get_pod_status pod_status
get_pod_status_total local_ip now pod d =
    let (ss, e, names) =
      convert-total (statuses_by_name pod.status.container_statuses []) d pod.containers
        (Named-statuses pod.status.container_statuses [] Named-nil) in
    (
      pod_status local_ip now ss,
      rw (e, get_pod_status),
      names,
      ap (λ p. p.0) (phase_of-spec ss),
      ap (λ p. p.1 ∷ p.1 ∷ []) (phase_of-spec ss),
    )
