-- ===== src/Polling/Decides.antt =====
-- Which check decides a poll (common/utils/utils.go).
use virtual_kubelet.Common.{
  ℕ, zero, suc, ◌<◌, ◌≡◌, refl, ◌∙◌, Bool, true, false, Option, none, some, text, Error, message,
  wrapped, arith,
}
use virtual_kubelet.Polling.{after_check, check_and_finally_call}

module _ {S : Type 0} (finally timeout_call : S → S) (check : S → Bool × Option Error × S) where
  -- The state after so many checks.
  abbrev pub checked : ℕ → S → S
  checked zero s = s
  checked (suc k) s = checked k (check s).2

  abbrev IsUndecided : Bool × Option Error × S → Type 0
  IsUndecided r = (r.0 ≡ false) × (r.1 ≡ none)

  -- So many checks neither pass nor fail.
  abbrev pub Waits : ℕ → S → Type 0
  Waits zero s = Unit {0}
  Waits (suc k) s = IsUndecided (check s) × Waits k (check s).2

  undecided-goes_on :
      (r : Bool × Option Error × S) (rest : Option Error × S)
      → IsUndecided r
      → after_check finally timeout_call r rest ≡ rest
  unfolding after_check
  undecided-goes_on (true, none, s) rest h = let bad : ⊥ = cc in elim bad [ ]
  undecided-goes_on (false, none, s) rest h = refl
  undecided-goes_on (b, some e, s) rest h = let bad : ⊥ = cc in elim bad [ ]

  -- What a check that passes or fails leads to.
  abbrev pub decision : Bool × Option Error × S → Option Error × S
  decision (finished, none, s) = (none, finally s)
  decision (finished, some e, s) = (some (wrapped (text "Error when checking condition") e), s)

  decided-ends :
      (r : Bool × Option Error × S) (rest : Option Error × S)
      → (r.1 ≡ none → r.0 ≡ true)
      → after_check finally timeout_call r rest ≡ decision r
  unfolding after_check
  decided-ends (true, none, s) rest h = refl
  decided-ends (false, none, s) rest h = let bad : false ≡ true = h refl in cc
  decided-ends (b, some e, s) rest h = refl

  -- The poll goes by the first check that passes or fails, if its tick comes before the context ends:
  -- the final call is made if it passes, and its error is returned wrapped, with no call, if it fails.
  pub check_and_finally_call-decided :
      (k ticks : ℕ) (s : S)
      → k < ticks
      → Waits k s
      → ((check (checked k s)).1 ≡ none → (check (checked k s)).0 ≡ true)
      → check_and_finally_call finally timeout_call ticks check s ≡ decision (check (checked k s))
  unfolding check_and_finally_call
  check_and_finally_call-decided k zero s few w h = absurd (omega arith)
  check_and_finally_call-decided zero (suc ticks) s few w h = decided-ends (check s) _ h
  check_and_finally_call-decided (suc k) (suc ticks) s few w h =
      undecided-goes_on (check s) _ w.0
      ∙ check_and_finally_call-decided k ticks (check s).2 (omega arith) w.1 h

  -- If no check passes or fails before the context ends, the timeout call is made, and only that.
  pub check_and_finally_call-times_out :
      (ticks : ℕ) (s : S)
      → Waits ticks s
      → check_and_finally_call finally timeout_call ticks check s
        ≡ (some (message (text "check time out")), timeout_call (checked ticks s))
  unfolding check_and_finally_call
  check_and_finally_call-times_out zero s w = refl
  check_and_finally_call-times_out (suc ticks) s w =
      undecided-goes_on (check s) _ w.0 ∙ check_and_finally_call-times_out ticks (check s).2 w.1
