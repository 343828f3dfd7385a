-- ===== src/Biz/Conversion.antt =====
-- The container status made from the state of a biz module (common/utils/utils.go).
use virtual_kubelet.Common.{
  ◌≡◌, refl, Bool, true, false, Option, none, some, Text, text, arith, equal_fold, to_lower,
  if◌then◌else◌, text_dec, map,
}
use virtual_kubelet.Kube.{Container, ContainerState, ContainerStatus, BizStatusData}
use virtual_kubelet.Biz.{
  no_state, waiting_state, running_state, terminated_state, status_of, container_state,
  status_from_data, StatusResult, ok, reuse, convert_biz_status_to_container_status,
}

-- The name of the container that a conversion is about, where it succeeds.
abbrev pub Succeeds : Container → StatusResult → Type 0
Succeeds c r = (s : ContainerStatus) × (r ≡ ok s) × (s.name ≡ c.name)

reuse-Succeeds :
    (c : Container) (old : ContainerStatus) → old.name ≡ c.name → Succeeds c (reuse c old)
unfolding reuse
reuse-Succeeds c old h = (old, ground arith, h)

if-Succeeds :
    (b : Bool) (c : Container) (x y : StatusResult)
    → Succeeds c x
    → Succeeds c y
    → Succeeds c (if b then x else y)
if-Succeeds true c x y h g = h
if-Succeeds false c x y h g = g

-- With no old status, or one of the same container, the conversion succeeds, whatever the new data
-- is, and the status is one of that container.
pub convert-Succeeds :
    (c : Container) (old : ContainerStatus) (known : Bool) (d : Option BizStatusData)
    → old.name ≡ c.name
    → Succeeds c (convert_biz_status_to_container_status c (if known then some old else none) d)
unfolding convert_biz_status_to_container_status status_from_data
convert-Succeeds c old true none h = reuse-Succeeds c old h
convert-Succeeds c old true (some d) h =
    if-Succeeds _ c _ _ (status_from_data c d, refl, refl) (reuse-Succeeds c old h)
convert-Succeeds c old false none h = (status_of c no_state false, refl, refl)
convert-Succeeds c old false (some d) h =
    if-Succeeds _ c _ _ (status_from_data c d, refl, refl) (status_of c no_state false, refl, refl)

-- The states of model/consts.go, their names, and what they are shown as.
pub data BizState : Type 0 where
  resolved unresolved activated deactivated broken stopped : BizState

abbrev pub state_name : BizState → Text
state_name resolved = text "RESOLVED"
state_name unresolved = text "UNRESOLVED"
state_name activated = text "ACTIVATED"
state_name deactivated = text "DEACTIVATED"
state_name broken = text "BROKEN"
state_name stopped = text "STOPPED"

abbrev pub shown_as : BizState → BizStatusData → ContainerState
shown_as resolved d = waiting_state d
shown_as unresolved d = no_state
shown_as activated d = running_state d
shown_as deactivated d = waiting_state d
shown_as broken d = waiting_state d
shown_as stopped d = terminated_state d

abbrev pub is_ready : BizState → Bool
is_ready activated = true
is_ready _ = false

folded : (s t : Text) → equal_fold s t ≡ true → map to_lower s ≡ map to_lower t
unfolding equal_fold
folded s t h = ground arith

-- A state that spells one of the six names, in any case, is shown as the table says, whichever
-- order the code asks in: only `ACTIVATED` is ready.
pub status_from_data_table :
    (b : BizState) (c : Container) (d : BizStatusData)
    → equal_fold d.state (state_name b) ≡ true
    → status_from_data c d ≡ status_of c (shown_as b d) (is_ready b)
unfolding status_from_data container_state equal_fold to_lower text_dec
status_from_data_table resolved c d h = rw (folded d.state (text "RESOLVED") h)
status_from_data_table unresolved c d h = rw (folded d.state (text "UNRESOLVED") h)
status_from_data_table activated c d h = rw (folded d.state (text "ACTIVATED") h)
status_from_data_table deactivated c d h = rw (folded d.state (text "DEACTIVATED") h)
status_from_data_table broken c d h = rw (folded d.state (text "BROKEN") h)
status_from_data_table stopped c d h = rw (folded d.state (text "STOPPED") h)
