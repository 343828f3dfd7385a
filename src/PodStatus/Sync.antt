-- ===== src/PodStatus/Sync.antt =====
-- When `CheckContainerStatusNeedSync` of provider/vpod_store.go lets a report through. It compares
-- `Time.Second()`, the second within the minute, and not the times.
use virtual_kubelet.Common.{ℕ, ◌+◌, ◌*◌, ◌/◌, ◌%◌, ◌<◌, ◌≡◌, false, ℤ, pos, negsuc, arith, ltb}
use virtual_kubelet.Kube.{Pod, BizStatusData}
use virtual_kubelet.PodStatus.{second, old_change_time, check_container_status_need_sync}

second-lt : (t : ℤ) → second t < 60
unfolding second
second-lt (pos n) = omega arith
second-lt (negsuc n) = omega arith

second_of_minute :
    (minute t : ℕ)
    → t < 60_000_000_000
    → (minute * 60_000_000_000 + t) / 1_000_000_000 % 60 ≡ t / 1_000_000_000
second_of_minute minute t h = omega arith

second_later :
    (t minutes : ℕ) → (t + 60_000_000_000 * minutes) / 1_000_000_000 % 60 ≡ t / 1_000_000_000 % 60
second_later t minutes = omega arith

ltb_irrefl : (n : ℕ) → ltb n n ≡ false
ltb_irrefl n = ground arith

-- Within one minute of the clock a report is let through exactly if its second is later.
pub need_sync_within_minute :
    (pod : Pod) (d : BizStatusData) (minute old new : ℕ)
    → old_change_time pod d ≡ pos (minute * 60_000_000_000 + old)
    → d.change_time ≡ pos (minute * 60_000_000_000 + new)
    → old < 60_000_000_000
    → new < 60_000_000_000
    → check_container_status_need_sync pod d ≡ ltb (old / 1_000_000_000) (new / 1_000_000_000)
unfolding check_container_status_need_sync second
need_sync_within_minute pod d minute old new e f h g =
    rw (e, f, second_of_minute minute old h, second_of_minute minute new g)

-- A report from a later minute is dropped whenever its second within the minute is not later, in
-- particular one that comes whole minutes after the status it should replace.
pub later_report_dropped :
    (pod : Pod) (d : BizStatusData) (old minutes : ℕ)
    → old_change_time pod d ≡ pos old
    → d.change_time ≡ pos (old + 60_000_000_000 * minutes)
    → check_container_status_need_sync pod d ≡ false
unfolding check_container_status_need_sync second
later_report_dropped pod d old minutes e f =
    rw (e, f, second_later old minutes, ltb_irrefl (old / 1_000_000_000 % 60))
