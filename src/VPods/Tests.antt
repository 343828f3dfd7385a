-- ===== src/VPods/Tests.antt =====
-- The pod provider (provider/vpod_provider.go, common/utils/utils.go) on small inputs.
use virtual_kubelet.Common.{
  ℕ, suc, ◌≡◌, refl, Bool, true, Option, none, some, [], ◌∷◌, Text, text, text_dec, lookup, Error,
  not_found, decided, ℕ_discrete, arith, ltb,
}
use virtual_kubelet.Kube.{Container, Pod, BizStatusData}
use virtual_kubelet.Keys.{get_pod_key}
use virtual_kubelet.Kube.Samples.{biz_pod, report}
use virtual_kubelet.Pods.{PodResult, failed}
use virtual_kubelet.VPods.{Tunnel, Provider, pod_key, create_pod, delete_pod}
use virtual_kubelet.VPods.Store.{Keyed}
use virtual_kubelet.VPods.Steps.{here, next, creates, deletes, Reach-Keyed}

-- A base that counts the calls and refuses none.
abbrev tunnel : Tunnel ℕ
tunnel = record { start_biz = λ key c s. (none, suc s); stop_biz = λ key c s. (none, suc s) }

-- A call that asks for a retry twice.
abbrev flaky : ℕ → ℕ → Bool × Option Error × ℕ
flaky n s = (ltb n 2, none, suc s)

abbrev empty : Provider ℕ
empty = record { store = []; base = 0; pending = []; events = [] }

abbrev filled : Provider ℕ
filled = record empty { store = (text "ns/a", biz_pod) ∷ [] }

abbrev keyed_report : BizStatusData
keyed_report = record report { pod_key = text "ns/a" }

is_stored : lookup (text "ns/a") filled.store ≡ some biz_pod
unfolding lookup text_dec
is_stored = refl

abbrev no_cache : Text → Text → PodResult
no_cache namespace name = failed not_found

empty-Keyed : Keyed []
unfolding lookup
empty-Keyed k pod e = cc

Container-discrete : Discrete Container
Container-discrete = hlevel (ℕ_discrete)

abbrev same : Container → Container → Bool
same c d = decided (Container-discrete c d)

same_reflexive : (c : Container) → same c c ≡ true
same_reflexive c = ground arith

Reach-Keyed_example : Keyed (delete_pod tunnel 3 biz_pod (create_pod tunnel 3 biz_pod empty)).store
Reach-Keyed_example =
    Reach-Keyed tunnel 3 same no_cache (text "10.0.0.1")
      (next (next (here empty) (creates biz_pod empty))
        (deletes biz_pod (create_pod tunnel 3 biz_pod empty)))
      refl

-- The same pod in another version.
abbrev touched : Pod
touched = record biz_pod { resource_version = text "8" }

is_stored_key : lookup (pod_key touched) filled.store ≡ some biz_pod
unfolding lookup text_dec get_pod_key
is_stored_key = refl
