-- ===== src/VPods/Retry.antt =====
-- Retrying calls (common/utils/utils.go).
use virtual_kubelet.Common.{
  ℕ, zero, suc, ◌+◌, ◌*◌, ◌≤◌, ◌<◌, ◌≡◌, subst, Bool, true, false, Option, some, Error,
  deadline_exceeded, arith, sym, ◌∙◌,
}
use native.Mathlib.Nat.{mul-le-mul}
use virtual_kubelet.VPods.{default_rate_limiter, call_with_retry}

square-low : (b : ℕ) → 30 ≤ b → 900 ≤ b * b
square-low b h = let square : 30 * 30 ≤ b * b = mul-le-mul h h in omega (arith, square)

square-high : (b : ℕ) → b < 100 → b * b ≤ 9801
square-high b h =
    let top : b ≤ 99 = omega (arith, h) in
    let square : b * b ≤ 99 * 99 = mul-le-mul top top in omega (arith, square)

-- The delay grows with the number of retries, and never passes 1000 seconds.
pub default_rate_limiter_mono :
    (a b : ℕ)
    → a ≤ b
    → (default_rate_limiter a ≤ default_rate_limiter b) × (default_rate_limiter b ≤ 1_000_000)
unfolding default_rate_limiter
default_rate_limiter_mono a b h =
    let squares : a * a ≤ b * b = mul-le-mul h h in
    let low = square-low b in
    let high = square-high b in
    let high_a = square-high a in ground (arith, squares, low, high, high_a)

no_shift : (n : ℕ) → n ≡ n + 0
no_shift n = omega arith

shift : (n k : ℕ) → suc n + k ≡ n + suc k
shift n k = omega arith

module _ {S : Type 0} (call : ℕ → S → Bool × Option Error × S) where
  -- The state after so many calls.
  abbrev pub after : ℕ → ℕ → S → S
  after zero n s = s
  after (suc k) n s = after k (suc n) (call n s).2

  abbrev pub Retries : ℕ → ℕ → S → Type 0
  Retries zero n s = Unit {0}
  Retries (suc k) n s = ((call n s).0 ≡ true) × Retries k (suc n) (call n s).2

  pub call_with_retry-settled :
      (timers n : ℕ) (s : S)
      → (call n s).0 ≡ false
      → call_with_retry timers call n s ≡ ((call n s).1, (call n s).2)
  unfolding call_with_retry
  call_with_retry-settled zero n s h = rw h
  call_with_retry-settled (suc timers) n s h = rw h

  call_with_retry-step :
      (timers n : ℕ) (s : S)
      → (call n s).0 ≡ true
      → call_with_retry (suc timers) call n s ≡ call_with_retry timers call (suc n) (call n s).2
  unfolding call_with_retry
  call_with_retry-step timers n s h = rw h

  -- If the calls number 0 to k - 1 ask for a retry, and call number k does not, then the result is that
  -- of call number k, if k timers fire before the context ends.
  pub call_with_retry-returns :
      (k timers n : ℕ) (s : S)
      → k ≤ timers
      → Retries k n s
      → (call (n + k) (after k n s)).0 ≡ false
      → call_with_retry timers call n s
        ≡ ((call (n + k) (after k n s)).1, (call (n + k) (after k n s)).2)
  call_with_retry-returns zero timers n s h g e =
      subst (λ m. call_with_retry timers call n s ≡ ((call m s).1, (call m s).2)) (no_shift n)
        (call_with_retry-settled timers n s
          (subst (λ m. (call m s).0 ≡ false) (sym (no_shift n)) e))
  call_with_retry-returns (suc k) zero n s h g e = let bad : ⊥ = omega (arith, h) in elim bad [ ]
  call_with_retry-returns (suc k) (suc timers) n s h g e =
      call_with_retry-step timers n s g.0
      ∙ subst
          (λ m. call_with_retry timers call (suc n) (call n s).2 ≡ (
            (call m (after k (suc n) (call n s).2)).1,
            (call m (after k (suc n) (call n s).2)).2,
          ))
          (shift n k)
          (call_with_retry-returns k timers (suc n) (call n s).2 (omega (arith, h)) g.1
            (subst (λ m. (call m (after k (suc n) (call n s).2)).0 ≡ false) (sym (shift n k)) e))

  -- If every call asks for a retry, the result is the context's error.
  pub call_with_retry-gives_up :
      (timers n : ℕ) (s : S)
      → Retries (suc timers) n s
      → call_with_retry timers call n s ≡ (some deadline_exceeded, after (suc timers) n s)
  unfolding call_with_retry
  call_with_retry-gives_up zero n s h = rw h.0
  call_with_retry-gives_up (suc timers) n s h =
      call_with_retry-step timers n s h.0 ∙ call_with_retry-gives_up timers (suc n) (call n s).2 h.1
