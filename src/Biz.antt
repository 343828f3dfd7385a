-- ===== src/Biz.antt =====
-- The state of biz modules as container statuses: `ConvertBizStatusToContainerStatus`,
-- `GetBizUniqueKey` and `FillPodKey` of common/utils/utils.go.
pub mod Conversion
pub mod Filling
pub mod Tests
use virtual_kubelet.Common.{
  ◌≡◌, Bool, true, false, ◌&&◌, ◌||◌, not, Option, none, some, is_some, List, [], ◌∷◌, ◌++◌, ℤ,
  Text, text, text_dec, decided, equal_fold, contains, Map, lookup, insert, Error, message,
  if◌then◌else◌,
}
use virtual_kubelet.Keys.{get_biz_identity, get_pod_key}
use virtual_kubelet.Kube.{
  EnvVar, Container, Waiting, Terminated, ContainerState, ContainerStatus, Pod, BizStatusData,
}

abbrev pub same_text : Text → Text → Bool
same_text s t = decided (text_dec s t)

abbrev pub no_state : ContainerState
no_state = record { waiting = none; running = none; terminated = none }

abbrev pub is_in : Text → BizStatusData → Bool
is_in state d = equal_fold d.state state

abbrev pub waiting_state : BizStatusData → ContainerState
waiting_state d = record no_state {
  waiting = some (record { reason = d.reason; message = d.message });
}

abbrev pub running_state : BizStatusData → ContainerState
running_state d = record no_state { running = some d.change_time }

abbrev pub terminated_state : BizStatusData → ContainerState
terminated_state d = record no_state {
  terminated = some (record {
    exit_code = 1;
    reason = d.reason;
    message = d.message;
    started_at = d.change_time;
    finished_at = d.change_time;
  });
}

unfoldable pub container_state : BizStatusData → ContainerState
container_state d =
    if is_in (text "UNRESOLVED") d
    then no_state
    else if is_in (text "RESOLVED") d || is_in (text "BROKEN") d || is_in (text "DEACTIVATED") d
    then waiting_state d
    else if is_in (text "ACTIVATED") d
    then running_state d
    else if is_in (text "STOPPED") d
    then terminated_state d
    else no_state

abbrev pub status_of : Container → ContainerState → Bool → ContainerStatus
status_of c state ready = record {
  name = c.name;
  container_id = c.name;
  state = state;
  ready = ready;
  started = some ready;
  image = c.image;
  image_id = c.image;
}

unfoldable pub status_from_data : Container → BizStatusData → ContainerStatus
unfolding container_state
status_from_data c d = status_of c (container_state d) (is_in (text "ACTIVATED") d)

pub data StatusResult : Type 0 where
  ok : ContainerStatus → StatusResult
  err : Error → StatusResult

unfoldable pub reuse : Container → ContainerStatus → StatusResult
reuse c old =
    if same_text old.name c.name
    then ok old
    else err (message (text "convert biz status to container status but container name mismatch"))

unfoldable pub convert_biz_status_to_container_status :
    Container → Option ContainerStatus → Option BizStatusData → StatusResult
unfolding status_from_data reuse
convert_biz_status_to_container_status c none none = ok (status_of c no_state false)
convert_biz_status_to_container_status c none (some d) =
    if same_text c.name d.name then ok (status_from_data c d) else ok (status_of c no_state false)
convert_biz_status_to_container_status c (some old) none = reuse c old
convert_biz_status_to_container_status c (some old) (some d) =
    if same_text c.name d.name then ok (status_from_data c d) else reuse c old

-- The first `BIZ_VERSION` of the environment.
unfoldable pub version_in : List EnvVar → Text
version_in [] = []
version_in (e ∷ env) = if same_text e.name (text "BIZ_VERSION") then e.value else version_in env

unfoldable pub get_biz_unique_key : Container → Text
unfolding version_in get_biz_identity
get_biz_unique_key c = get_biz_identity c.name (version_in c.env)

abbrev pub is_biz : Container → Bool
is_biz c = contains c.image (text ".jar")

unfoldable pub add_containers : Text → List Container → Map Text → Map Text
add_containers pod_key [] m = m
add_containers pod_key (c ∷ cs) m =
    add_containers pod_key cs (if is_biz c then insert (get_biz_unique_key c) pod_key m else m)

-- `bizKeyToPodKey`.
unfoldable pub biz_key_to_pod_key : List Pod → Map Text → Map Text
unfolding add_containers
biz_key_to_pod_key [] m = m
biz_key_to_pod_key (p ∷ ps) m =
    biz_key_to_pod_key ps (add_containers (get_pod_key p.namespace p.name) p.containers m)

unfoldable pub fill_one : Map Text → BizStatusData → BizStatusData
fill_one m d = elim (lookup d.key m) [
  | none ↦ d
  | some pod_key ↦ if same_text d.pod_key [] then record d { pod_key = pod_key } else d
]

abbrev pub has_pod_key : BizStatusData → Bool
has_pod_key d = not (same_text d.pod_key [])

unfoldable pub partition : Map Text → List BizStatusData → List BizStatusData × List BizStatusData
unfolding fill_one
partition m [] = ([], [])
partition m (d ∷ ds) =
    let rest = partition m ds in
    let d' = fill_one m d in if has_pod_key d' then (d' ∷ rest.0, rest.1) else (rest.0, d' ∷ rest.1)

-- What to update in Kubernetes, and what to uninstall from the base.
unfoldable pub fill_pod_key :
    List Pod → List BizStatusData → List BizStatusData × List BizStatusData
unfolding partition biz_key_to_pod_key
fill_pod_key pods ds = partition (biz_key_to_pod_key pods []) ds
