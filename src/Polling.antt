-- ===== src/Polling.antt =====
-- `CheckAndFinallyCall` of common/utils/utils.go: a check at each tick of a timer until it passes,
-- fails or the context ends. The ticks are counted: so many come before the context ends.
pub mod Decides
pub mod Tests
use virtual_kubelet.Common.{
  ℕ, zero, suc, Bool, true, false, Option, none, some, Text, text, Error, message, wrapped,
}

module _ {S : Type 0} (finally timeout_call : S → S) where
  -- What one check leads to; `rest` is the loop that goes on.
  unfoldable pub after_check : Bool × Option Error × S → Option Error × S → Option Error × S
  after_check (finished, some e, s) rest =
      (some (wrapped (text "Error when checking condition") e), s)
  after_check (true, none, s) rest = (none, finally s)
  after_check (false, none, s) rest = rest

  unfoldable pub check_and_finally_call : ℕ → (S → Bool × Option Error × S) → S → Option Error × S
  unfolding after_check
  check_and_finally_call zero check s = (some (message (text "check time out")), timeout_call s)
  check_and_finally_call (suc ticks) check s =
      after_check (check s) (check_and_finally_call ticks check (check s).2)
