-- ===== src/VPods/Sync.antt =====
-- How reports of biz states reach the pods of the provider: `syncBizStatusToKube`,
-- `SyncBizStatusToKube` and `SyncAllBizStatusToKube` of provider/vpod_provider.go.
use virtual_kubelet.Common.{
  Bool, false, Option, none, some, List, [], ◌∷◌, ◌++◌, ℤ, Text, text, map, Map, lookup, insert,
  if◌then◌else◌,
}
use virtual_kubelet.Kube.{Container, Pod, PodStatus, BizStatusData}
use virtual_kubelet.Keys.{get_namespace_and_name_from_pod_key}
use virtual_kubelet.Biz.{get_biz_unique_key}
use virtual_kubelet.PodStatus.{get_pod_status, check_container_status_need_sync}
use virtual_kubelet.Pods.{PodResult, got, failed}
use virtual_kubelet.VPods.{Provider, pod_key, put_pod, notify}

-- `bizKeyToBizStatusData`: a later report of a key replaces an earlier one.
unfoldable pub by_biz_key : List BizStatusData → Map BizStatusData → Map BizStatusData
by_biz_key [] m = m
by_biz_key (d ∷ ds) m = by_biz_key ds (insert d.key d m)

-- The report that stands for a container with none.
unfoldable pub unreported : ℤ → Text → Container → BizStatusData
unfolding get_biz_unique_key
unreported now key c = record {
  key = get_biz_unique_key c;
  name = c.name;
  pod_key = key;
  state = text "UNRESOLVED";
  change_time = now;
  reason = [];
  message = [];
}

unfoldable pub report_of : ℤ → Map BizStatusData → Text → Container → BizStatusData
unfolding unreported
report_of now m key c = elim (lookup (get_biz_unique_key c) m) [
  | none ↦ unreported now key c
  | some d ↦ d
]

-- By the pod that the cache has under the report's pod key.
unfoldable pub needs_sync : PodResult → BizStatusData → Bool
needs_sync (failed e) d = false
needs_sync (got pod) d = check_container_status_need_sync pod d

module _ (cache_get : Text → Text → PodResult) where
  abbrev pub cached : BizStatusData → PodResult
  cached d =
      let (namespace, name) = get_namespace_and_name_from_pod_key d.pod_key in
      cache_get namespace name

  unfoldable pub reports_of_pod : ℤ → Map BizStatusData → Text → List Container → List BizStatusData
  unfolding report_of needs_sync
  reports_of_pod now m key [] = []
  reports_of_pod now m key (c ∷ cs) =
      let rest = reports_of_pod now m key cs in
      let d = report_of now m key c in if needs_sync (cached d) d then d ∷ rest else rest

  unfoldable pub reports_of_pods : ℤ → Map BizStatusData → List Pod → List BizStatusData
  unfolding reports_of_pod
  reports_of_pods now m [] = []
  reports_of_pods now m (pod ∷ pods) =
      reports_of_pod now m (pod_key pod) pod.containers ++ reports_of_pods now m pods

module _ {S : Type 0} (cache_get : Text → Text → PodResult) (local_ip : Text) where
  -- A nil status would make the copy panic.
  unfoldable pub store_status : Pod → Option PodStatus → Provider S → Option (Provider S)
  unfolding put_pod notify
  store_status pod none p = none
  store_status pod (some s) p =
      let pod' = record pod { status = s } in some (notify pod' (put_pod pod' p))

  unfoldable pub sync_stored : ℤ → BizStatusData → Option Pod → Provider S → Option (Provider S)
  unfolding store_status get_pod_status
  sync_stored now d none p = some p
  sync_stored now d (some pod) p = store_status pod (get_pod_status local_ip now pod d) p

  -- `syncBizStatusToKube`; `none` is a panic.
  unfoldable pub sync_status : ℤ → BizStatusData → Provider S → Option (Provider S)
  unfolding sync_stored
  sync_status now d p = sync_stored now d (lookup d.pod_key p.store) p

  unfoldable pub sync_biz_status_to_kube : ℤ → BizStatusData → Provider S → Option (Provider S)
  unfolding needs_sync sync_status
  sync_biz_status_to_kube now d p =
      if needs_sync (cached cache_get d) d then sync_status now d p else some p

  unfoldable pub sync_each : ℤ → List BizStatusData → Option (Provider S) → Option (Provider S)
  unfolding sync_status
  sync_each now ds none = none
  sync_each now [] (some p) = some p
  sync_each now (d ∷ ds) (some p) = sync_each now ds (sync_status now d p)

  -- `by_age` is the sorting of the pods by their time of creation.
  unfoldable pub sync_all_biz_status_to_kube :
      (List Pod → List Pod) → ℤ → List BizStatusData → Provider S → Option (Provider S)
  unfolding by_biz_key reports_of_pods sync_each
  sync_all_biz_status_to_kube by_age now ds p =
      sync_each now
        (reports_of_pods cache_get now (by_biz_key ds []) (by_age (map (λ entry. entry.1) p.store)))
        (some p)
