-- ===== src/Biz/Tests.antt =====
-- Biz states and reports of common/utils/utils.go on small inputs.
use virtual_kubelet.Common.{
  ◌≡◌, ◌≢◌, refl, true, [], ◌∷◌, All, equal_fold, text_dec, to_lower, contains, lookup, insert,
  text,
}
use virtual_kubelet.Keys.{get_biz_identity, get_pod_key}
use virtual_kubelet.Kube.{BizStatusData}
use virtual_kubelet.Kube.Samples.{biz_pod, report}
use virtual_kubelet.Biz.{
  version_in, get_biz_unique_key, is_biz, add_containers, biz_key_to_pod_key, fill_one, partition,
  fill_pod_key,
}
use virtual_kubelet.Biz.Filling.{fill_pod_key_spares}

is_activated : equal_fold (text "activated") (text "ACTIVATED") ≡ true
unfolding equal_fold to_lower text_dec
is_activated = refl

-- A report of a biz that no pod holds.
abbrev pub stranger : BizStatusData
stranger = record report { key = text "biz9:1.0"; name = text "biz9" }

fill_pod_key_spares_example :
    All
      (λ p.
        All
          (λ c.
            is_biz c ≡ true
            → All
                (λ d. d.key ≢ get_biz_unique_key c)
                (fill_pod_key (biz_pod ∷ []) (report ∷ stranger ∷ [])).1)
          p.containers)
      (biz_pod ∷ [])
fill_pod_key_spares_example = fill_pod_key_spares (biz_pod ∷ []) (report ∷ stranger ∷ [])

-- The report of the pod's biz is filled in, the stranger's is to uninstall.
fill_test :
    fill_pod_key (biz_pod ∷ []) (report ∷ stranger ∷ [])
    ≡ (record report { pod_key = text "ns/a" } ∷ [], stranger ∷ [])
unfolding fill_pod_key partition fill_one biz_key_to_pod_key add_containers get_biz_unique_key
    version_in get_biz_identity get_pod_key lookup insert contains text_dec
fill_test = refl
