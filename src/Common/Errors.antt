-- ===== src/Common/Errors.antt =====
-- Go errors: the kinds that the Kubernetes API helpers tell apart, and wrapping with a message.
use mathlib.Core.Bool.{Bool, true, false}
use virtual_kubelet.Common.Texts.{Text}

pub data Error : Type 0 where
  not_found conflict canceled deadline_exceeded : Error
  message : Text → Error
  wrapped : Text → Error → Error

-- `errors.IsNotFound` and `errors.IsConflict` look through wrapping.
unfoldable pub is_not_found : Error → Bool
is_not_found not_found = true
is_not_found (wrapped m e) = is_not_found e
is_not_found _ = false

unfoldable pub is_conflict : Error → Bool
is_conflict conflict = true
is_conflict (wrapped m e) = is_conflict e
is_conflict _ = false

-- `errors.Is(err, context.Canceled)`, and likewise for an exceeded deadline.
unfoldable pub is_canceled : Error → Bool
is_canceled canceled = true
is_canceled (wrapped m e) = is_canceled e
is_canceled _ = false

unfoldable pub is_deadline_exceeded : Error → Bool
is_deadline_exceeded deadline_exceeded = true
is_deadline_exceeded (wrapped m e) = is_deadline_exceeded e
is_deadline_exceeded _ = false
