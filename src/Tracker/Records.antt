-- ===== src/Tracker/Records.antt =====
-- What common/tracker/default_tracker.go records of polled events.
use virtual_kubelet.Common.{
  ℕ, zero, suc, ◌<◌, ◌≡◌, refl, sym, ◌∙◌, ap, subst, Bool, true, false, Option, none, some, [], ◌∷◌,
  ◌++◌, Text, text, Error, map, if-holds,
}
use virtual_kubelet.Polling.Decides.{
  checked, Waits, decision, check_and_finally_call-decided, check_and_finally_call-times_out,
}
use virtual_kubelet.Tracker.{
  Config, is_debug, Tracked, Event, code_success, data_of, record_event, report_event, poll,
  after_poll, eventually,
}

module _ {S : Type 0} (check : S → Bool × Option Error × S) (passed timeout_call : S → S) where
  abbrev flagged : Bool × S → Bool × Option Error × (Bool × S)
  flagged x = let (b, e, s) = check x.1 in (b, e, (x.0, s))

  abbrev passed' : Bool × S → Bool × S
  passed' x = (x.0, passed x.1)

  abbrev timeout' : Bool × S → Bool × S
  timeout' x = (true, timeout_call x.1)

  flagged-checked :
      (k : ℕ) (b : Bool) (s : S)
      → checked passed' timeout' flagged k (b, s) ≡ (b, checked passed timeout_call check k s)
  flagged-checked zero b s = refl
  flagged-checked (suc k) b s = flagged-checked k b (check s).2

  flagged-Waits :
      (k : ℕ) (b : Bool) (s : S)
      → Waits passed timeout_call check k s
      → Waits passed' timeout' flagged k (b, s)
  flagged-Waits zero b s h = tt
  flagged-Waits (suc k) b s h = (h.0, flagged-Waits k b (check s).2 h.1)

  poll-times_out :
      (ticks : ℕ) (s : S)
      → Waits passed timeout_call check ticks s
      → poll ticks check passed timeout_call s
        ≡ (true, timeout_call (checked passed timeout_call check ticks s))
  unfolding poll
  poll-times_out ticks s h =
      ap (λ x. x.1)
        (check_and_finally_call-times_out passed' timeout' flagged ticks (false, s)
          (flagged-Waits ticks false s h))
      ∙ ap timeout' (flagged-checked ticks false s)

  decided-flag :
      (r : Bool × Option Error × (Bool × S)) → (decision passed' timeout' flagged r).1.0 ≡ r.2.0
  decided-flag (b, none, x) = refl
  decided-flag (b, some e, x) = refl

  poll-decided :
      (k ticks : ℕ) (s : S)
      → k < ticks
      → Waits passed timeout_call check k s
      → (let r = check (checked passed timeout_call check k s) in r.1 ≡ none → r.0 ≡ true)
      → (poll ticks check passed timeout_call s).0 ≡ false
  unfolding poll
  poll-decided k ticks s few w h =
      let last = checked passed timeout_call check k s in
      ap (λ x. x.1.0)
        (check_and_finally_call-decided passed' timeout' flagged k ticks (false, s) few
          (flagged-Waits k false s w)
          (subst (λ x. (flagged x).1 ≡ none → (flagged x).0 ≡ true)
            (sym (flagged-checked k false s)) h))
      ∙ decided-flag (flagged (checked passed' timeout' flagged k (false, s)))
      ∙ ap (λ x. x.0) (flagged-checked k false s)

  module _ (config : Config) (e : Event) (timeout_code : Text) (time_used : ℕ) where
    -- A poll that times out makes the timeout call, and is recorded as failed and reported to every
    -- link, but under the code of a success, whatever code it was given.
    pub eventually-times_out :
        (ticks : ℕ) (t : Tracked S)
        → Waits passed timeout_call check ticks t.outer
        → let entry = data_of e (text "fail") (text "event timeout") code_success time_used in
          eventually config e timeout_code ticks check passed timeout_call time_used t ≡ record {
            outer = timeout_call (checked passed timeout_call check ticks t.outer);
            recorded = entry ∷ t.recorded;
            reported = map (λ link. (link, entry)) config.report_links ++ t.reported;
          }
    unfolding eventually after_poll record_event report_event
    eventually-times_out ticks t w =
        ap (λ (x : Bool × S). after_poll config e time_used x.0 (record t { outer = x.1 }))
          (poll-times_out ticks t.outer w)

    -- A poll that a check decides is recorded as a success, even if the check failed with an error.
    pub eventually-decided :
        (k ticks : ℕ) (t : Tracked S)
        → k < ticks
        → Waits passed timeout_call check k t.outer
        → (let r = check (checked passed timeout_call check k t.outer) in r.1 ≡ none → r.0 ≡ true)
        → (eventually config e timeout_code ticks check passed timeout_call time_used t).recorded
          ≡ data_of e (text "success") [] code_success time_used ∷ t.recorded
    unfolding eventually after_poll record_event report_event
    eventually-decided k ticks t few w h =
        let (timed_out, s) = poll ticks check passed timeout_call t.outer in
        let flag : timed_out ≡ false = poll-decided k ticks t.outer few w h in
        subst
          (λ b.
            (after_poll config e time_used b (record t { outer = s })).recorded
            ≡ data_of e (text "success") [] code_success time_used ∷ t.recorded)
          (sym flag)
          (if-holds
            (λ (x : Tracked S).
              (record_event (data_of e (text "success") [] code_success time_used) x).recorded
              ≡ data_of e (text "success") [] code_success time_used ∷ t.recorded)
            (is_debug config) (λ h. refl) (λ h. refl))
