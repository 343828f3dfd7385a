-- ===== src/PodStatus/Tests.antt =====
-- Pod statuses (provider/vpod_provider.go, provider/vpod_store.go) on small inputs.
use virtual_kubelet.Common.{◌≡◌, refl, some, [], ◌∷◌, map, pos, text, contains, text_dec}
use virtual_kubelet.Kube.{PodStatus}
use virtual_kubelet.Kube.Samples.{biz_pod, running_pod, report}
use virtual_kubelet.PodStatus.{
  get_pod_status, old_change_time, matched_container, matched_status, status_change_time,
  running_since, finished_since, transition_time,
}
use virtual_kubelet.PodStatus.Phases.{
  phase_spec, ready_spec, status_names, biz_names, get_pod_status_total,
}

get_pod_status_total_example :
    (s : PodStatus) × (get_pod_status (text "10.0.0.1") (pos 9) biz_pod report ≡ some s)
    × (status_names s.container_statuses ≡ biz_names biz_pod.containers)
    × (s.phase ≡ phase_spec s.container_statuses)
    × (map (λ c. c.holds) s.conditions
        ≡ ready_spec s.container_statuses ∷ ready_spec s.container_statuses ∷ [])
get_pod_status_total_example = get_pod_status_total (text "10.0.0.1") (pos 9) biz_pod report

old_time : old_change_time running_pod report ≡ pos 5_000_000_000
unfolding old_change_time matched_container matched_status status_change_time running_since
    finished_since transition_time contains text_dec
old_time = refl
