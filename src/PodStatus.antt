-- ===== src/PodStatus.antt =====
-- The status of a pod from the states of its containers: `GetPodStatus` of
-- provider/vpod_provider.go and `CheckContainerStatusNeedSync` of provider/vpod_store.go.
pub mod Phases
pub mod Sync
pub mod Tests
use virtual_kubelet.Common.{
  ℕ, suc, ◌+◌, ◌*◌, ◌-◌, ◌/◌, ◌%◌, ◌≡◌, Bool, true, false, ◌&&◌, ◌||◌, not, Option, none, some,
  is_some, List, [], ◌∷◌, ℤ, pos, negsuc, Text, text, contains, Map, lookup, insert, Error,
  if◌then◌else◌, ltb, ◌==◌,
}
use virtual_kubelet.Kube.{
  Container, ContainerState, ContainerStatus, Terminated, Phase, pending, running, succeeded,
  PodCondition, PodStatus, Pod, BizStatusData,
}
use virtual_kubelet.Biz.{
  is_biz, same_text, StatusResult, ok, err, convert_biz_status_to_container_status,
}

-- `nameToContainerStatus`: a later status of the same name replaces an earlier one.
unfoldable pub statuses_by_name : List ContainerStatus → Map ContainerStatus → Map ContainerStatus
statuses_by_name [] m = m
statuses_by_name (s ∷ ss) m = statuses_by_name ss (insert s.name s m)

pub data StatusList : Type 0 where
  listed : List ContainerStatus → StatusList
  failed : Error → StatusList

unfoldable pub prepend : StatusResult → StatusList → StatusList
prepend (err e) rest = failed e
prepend (ok s) (listed ss) = listed (s ∷ ss)
prepend (ok s) (failed e) = failed e

-- The loop over the biz containers; it stops at the first failed conversion.
unfoldable pub convert_containers :
    Map ContainerStatus → BizStatusData → List Container → StatusList
unfolding prepend
convert_containers m d [] = listed []
convert_containers m d (c ∷ cs) =
    let rest = convert_containers m d cs in
    if is_biz c
    then prepend (convert_biz_status_to_container_status c (lookup c.name m) (some d)) rest
    else rest

pub record Counts : Type 0 where
  pub total : ℕ
  pub ready : ℕ
  pub terminated : ℕ
  pub not_ready : ℕ
  pub not_inited : ℕ

unfoldable pub count_one : ContainerStatus → Counts → Counts
count_one s n =
    let n' = record n { total = suc n.total } in
    if s.ready
    then record n' { ready = suc n.ready }
    else if is_some s.state.terminated
    then record n' { terminated = suc n.terminated }
    else if is_some s.state.waiting || is_some s.state.running
    then record n' { not_ready = suc n.not_ready }
    else record n' { not_inited = suc n.not_inited }

unfoldable pub count_all : List ContainerStatus → Counts
unfolding count_one
count_all [] = record { total = 0; ready = 0; terminated = 0; not_ready = 0; not_inited = 0 }
count_all (s ∷ ss) = count_one s (count_all ss)

-- The phase, and the value of the conditions `Ready` and `ContainersReady`.
unfoldable pub phase_of : Counts → Phase × Bool
phase_of n =
    if n.total == 0 || n.total == n.terminated
    then (succeeded, false)
    else if n.not_inited == n.total
    then (pending, false)
    else if n.total == n.ready
    then (running, true)
    else if ltb 0 n.not_ready || (ltb 0 n.ready && ltb n.ready n.total)
    then (running, false)
    else (pending, false)

abbrev pub condition : Text → Bool → ℤ → PodCondition
condition kind holds now = record {
  kind = kind;
  holds = holds;
  last_probe_time = now;
  last_transition_time = pos 0;
}

unfoldable pub pod_status : Text → ℤ → List ContainerStatus → PodStatus
unfolding phase_of count_all
pod_status local_ip now ss =
    let (phase, ready) = phase_of (count_all ss) in
    record {
      phase = phase;
      reason = [];
      message = [];
      pod_ip = local_ip;
      conditions =
          condition (text "Ready") ready now ∷ condition (text "ContainersReady") ready now ∷ [];
      container_statuses = ss;
    }

-- `none` is the nil status that comes with an error.
unfoldable pub get_pod_status : Text → ℤ → Pod → BizStatusData → Option PodStatus
unfolding convert_containers statuses_by_name pod_status
get_pod_status local_ip now pod d =
    elim (convert_containers (statuses_by_name pod.status.container_statuses []) d pod.containers) [
      | listed ss ↦ some (pod_status local_ip now ss)
      | failed e ↦ none
    ]

-- `Time.Second()`: the second within the minute.
unfoldable pub second : ℤ → ℕ
second (pos n) = n / 1_000_000_000 % 60
second (negsuc n) = 59 - n / 1_000_000_000 % 60

-- The last status, and the last container, with the name of the biz.
unfoldable pub matched_status : Text → List ContainerStatus → Option ContainerStatus
matched_status name [] = none
matched_status name (s ∷ ss) = elim (matched_status name ss) [
  | some later ↦ some later
  | none ↦ if same_text s.name name && contains s.image (text ".jar") then some s else none
]

unfoldable pub matched_container : Text → List Container → Option Container
matched_container name [] = none
matched_container name (c ∷ cs) = elim (matched_container name cs) [
  | some later ↦ some later
  | none ↦ if same_text c.name name then some c else none
]

unfoldable pub transition_time : List PodCondition → ℤ → ℤ
transition_time [] t = t
transition_time (c ∷ cs) t = c.last_transition_time

unfoldable pub running_since : Option ℤ → ℤ → ℤ
running_since none t = t
running_since (some started) t = started

unfoldable pub finished_since : Option Terminated → ℤ → ℤ
finished_since none t = t
finished_since (some terminated) t = terminated.finished_at

-- The three assignments to `oldChangeTime`, each over the one before.
unfoldable pub status_change_time : ContainerState → List PodCondition → ℤ
unfolding transition_time running_since finished_since
status_change_time s conditions =
    let started = running_since s.running (pos 0) in
    let finished = finished_since s.terminated started in
    if is_some s.waiting then transition_time conditions finished else finished

unfoldable pub old_change_time : Pod → BizStatusData → ℤ
unfolding matched_container matched_status status_change_time
old_change_time pod d = elim (matched_container d.name pod.containers) [
  | none ↦ pos 0
  | some c ↦ elim (matched_status d.name pod.status.container_statuses) [
    | none ↦ pos 0
    | some s ↦ status_change_time s.state pod.status.conditions
  ]
]

unfoldable pub check_container_status_need_sync : Pod → BizStatusData → Bool
unfolding second old_change_time
check_container_status_need_sync pod d = ltb (second (old_change_time pod d)) (second d.change_time)
