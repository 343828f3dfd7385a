-- ===== src/Queue/Pool.antt =====
-- The workers that `Run` of virtual_kubelet/internal/queue/queue.go starts: each handles one item
-- after the other until the context is cancelled, and `Run` returns when all have stopped.
use virtual_kubelet.Common.{
  ℕ, suc, ◌+◌, ◌≤◌, ◌≡◌, refl, sym, ◌∙◌, ap, subst, ◌⊎◌, inl, inr, Bool-cases, Bool, true, false,
  some, List, [], ◌∷◌, Text, length, lookup, arith, pos,
}
use virtual_kubelet.Queue.{Queue, RateLimiter, ShouldRetryFunc, new_queue}
use virtual_kubelet.Queue.Worker.{start_running}
use virtual_kubelet.Queue.Effects.{processing}
use virtual_kubelet.Queue.Methods.{new_queue-Inv}
use virtual_kubelet.Queue.System.{System, Step, Sound, Step-Sound, member, drop_one, Once}

-- `idle` workers stand in `getNextItem`, those of `system.active` run a handler, `stopped` ones have
-- left their loop.
pub record Pool (R : Type 0) : Type 0 where
  pub system : System R
  pub idle : ℕ
  pub stopped : ℕ
  pub cancelled : Bool

length-drop_one :
    (k : Text) (xs : List Text) → member k xs ≡ true → suc (length (drop_one k xs)) ≡ length xs
length-drop_one k [] h = ground (arith, h)
length-drop_one k (x ∷ xs) h = ground (arith, length-drop_one k xs, h)

none_active : (xs : List Text) → length xs ≡ 0 → xs ≡ []
none_active [] h = refl
none_active (x ∷ xs) h = ground (arith, h)

module _ {R : Type 0} (limiter : RateLimiter R) (retry_func : ShouldRetryFunc) where
  -- A worker leaves its loop only where `getNextItem` fails, which it does once the context is
  -- cancelled; an error of a handler does not end the loop.
  pub data PoolStep (p : Pool R) : Pool R → Type 0 where
    clients :
        (t : System R)
        → Step limiter retry_func p.system t
        → t.active ≡ p.system.active
        → PoolStep p (record p { system = t })
    takes :
        (n : ℕ) (k : Text) (t : System R)
        → p.idle ≡ suc n
        → Step limiter retry_func p.system t
        → t.active ≡ k ∷ p.system.active
        → PoolStep p (record p { system = t; idle = n })
    returns :
        (k : Text) (t : System R)
        → Step limiter retry_func p.system t
        → member k p.system.active ≡ true
        → t.active ≡ drop_one k p.system.active
        → PoolStep p (record p { system = t; idle = suc p.idle })
    cancels : PoolStep p (record p { cancelled = true })
    stops :
        (n : ℕ)
        → p.idle ≡ suc n
        → p.cancelled ≡ true
        → PoolStep p (record p { idle = n; stopped = suc p.stopped })

  abbrev pub opened : ℕ → Queue R → Pool R
  opened workers q = record {
    system = record { queue = q; active = [] };
    idle = workers;
    stopped = 0;
    cancelled = false;
  }

  -- `Run` with these workers on a new queue.
  pub data PoolReach (r : R) (workers : ℕ) : Pool R → Type 0 where
    at_start :
        (q : Queue R)
        → start_running (pos workers) (new_queue r) ≡ some q
        → PoolReach r workers (opened workers q)
    and_then : {p t : Pool R} → PoolReach r workers p → PoolStep p t → PoolReach r workers t

  record Staffed (workers : ℕ) (p : Pool R) : Type 0 where
    sound : Sound limiter retry_func p.system
    total : p.idle + length p.system.active + p.stopped ≡ workers
    patient : p.cancelled ≡ false → p.stopped ≡ 0

  running-queue :
      (r : R) (workers : ℕ) (q : Queue R)
      → start_running (pos workers) (new_queue r) ≡ some q
      → record (new_queue r) { running = true } ≡ q
  unfolding start_running
  running-queue r workers q e = ground (arith, e)

  running-Sound :
      (r : R)
      → Sound limiter retry_func
          (record { queue = record (new_queue r) { running = true }; active = [] })
  unfolding new_queue lookup
  running-Sound r =
      let v = new_queue-Inv r in
      record {
        valid = record {
          distinct = v.distinct;
          ordered = v.ordered;
          agree = v.agree;
          counted = v.counted;
          queue_keys = v.queue_keys;
          apart = v.apart;
          named = v.named;
          processed_keys = v.processed_keys;
        };
        held = λ k. refl;
        alone = tt;
      }

  opened-Staffed :
      (r : R) (workers : ℕ) (q : Queue R)
      → start_running (pos workers) (new_queue r) ≡ some q
      → Staffed workers (opened workers q)
  opened-Staffed r workers q e = record {
    sound =
        subst (λ x. Sound limiter retry_func (record { queue = x; active = [] }))
          (running-queue r workers q e) (running-Sound r);
    total = omega arith;
    patient = λ _. refl;
  }

  Staffed-step : (workers : ℕ) {p t : Pool R} → PoolStep p t → Staffed workers p → Staffed workers t
  Staffed-step workers (clients t step same) v = record {
    sound = Step-Sound limiter retry_func step v.sound;
    total = rw same v.total;
    patient = v.patient;
  }
  Staffed-step workers {p = p} (takes n k t e step more) v = record {
    sound = Step-Sound limiter retry_func step v.sound;
    total = ground (arith, v.total, more, e);
    patient = v.patient;
  }
  Staffed-step workers {p = p} (returns k t step there less) v = record {
    sound = Step-Sound limiter retry_func step v.sound;
    total = ground (arith, v.total, less, length-drop_one k p.system.active there);
    patient = v.patient;
  }
  Staffed-step workers cancels v = record {
    sound = v.sound;
    total = v.total;
    patient = λ going. ground (arith, going);
  }
  Staffed-step workers {p = p} (stops n e c) v = record {
    sound = v.sound;
    total = ground (arith, v.total, e);
    patient = λ going. ground (arith, going, c);
  }

  Reach-Staffed : (r : R) (workers : ℕ) {p : Pool R} → PoolReach r workers p → Staffed workers p
  Reach-Staffed r workers (at_start q e) = opened-Staffed r workers q e
  Reach-Staffed r workers (and_then reach step) =
      Staffed-step workers step (Reach-Staffed r workers reach)

  -- At most as many handlers run at once as there are workers, on different keys, and no worker stops
  -- before the context is cancelled, whatever the handlers return; so with one worker the handlers run
  -- one after the other.
  pub Reach-bounded :
      (r : R) (workers : ℕ) {p : Pool R}
      → PoolReach r workers p
      → (length p.system.active ≤ workers)
        × Once p.system.active
        × ((p.cancelled ≡ true) ⊎ (p.idle + length p.system.active ≡ workers))
  Reach-bounded r workers {p = p} reach =
      let v = Reach-Staffed r workers reach in
      (
        omega (arith, v.total),
        v.sound.alone,
        elim (Bool-cases p.cancelled) [
          | inl c ↦ inl c
          | inr going ↦ inr (omega (arith, v.total, v.patient going))
        ],
      )

  -- Once all workers have stopped, no handler runs and no key is in processing.
  pub Reach-returned :
      (r : R) (workers : ℕ) {p : Pool R}
      → PoolReach r workers p
      → p.stopped ≡ workers
      → (p.system.active ≡ []) × ((k : Text) → processing k p.system.queue ≡ false)
  Reach-returned r workers reach all =
      let v = Reach-Staffed r workers reach in
      let empty = none_active _ (omega (arith, v.total, all)) in
      (empty, λ k. sym (v.sound.held k) ∙ ap (member k) empty)
