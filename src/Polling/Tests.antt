-- ===== src/Polling/Tests.antt =====
-- Polls (common/utils/utils.go) of a counter.
use virtual_kubelet.Common.{ℕ, suc, ◌≡◌, refl, ◌==◌, Bool, Option, none, Error, arith}
use virtual_kubelet.Polling.{after_check, check_and_finally_call}
use virtual_kubelet.Polling.Decides.{decision, check_and_finally_call-decided}

abbrev check : ℕ → Bool × Option Error × ℕ
check n = (n == 2, none, suc n)

check_and_finally_call-decided_example :
    check_and_finally_call (λ n. n) (λ n. 0) 300 check 0
    ≡ decision (λ n. n) (λ n. 0) check (check 2)
check_and_finally_call-decided_example =
    check_and_finally_call-decided (λ n. n) (λ n. 0) check 2 300 0 (omega arith)
      ((refl, refl), ((refl, refl), tt)) (λ h. refl)

polling_program : Unit {0}
unfolding after_check check_and_finally_call
polling_program = tt
