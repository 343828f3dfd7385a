-- ===== src/Nodes/Silence.antt =====
-- When a node whose base has fallen silent is shut down (vnode_controller/vnode_controller.go,
-- provider/liveness.go).
use virtual_kubelet.Common.{
  ◌≡◌, refl, sym, ◌∙◌, ap, subst, true, false, Option, none, some, inl, inr, List, [], ◌∷◌, ℤ, pos,
  ◌+ℤ◌, ◌-ℤ◌, ◌≤ℤ◌, ◌<ℤ◌, leb_ℤ, Text, lookup, lookup-insert_self, if◌then◌else◌, if-holds, arith,
  Bool-cases, +ℤ_parts, -ℤ_parts,
}
use virtual_kubelet.Nodes.{Node, Nodes, is_dead, close, shutdown, node_shutdown}
use virtual_kubelet.Nodes.Watch.{
  Tick, health, modules, check, Watched, check_dead, on_tick, connect_with_interval,
}

abbrev pub dead_after : ℤ
dead_after = pos 60_000_000_000

abbrev pub check_interval : ℤ
check_interval = pos 3_000_000_000

-- The first check at which a heart beat is 60 seconds old.
abbrev pub first_dead : ℤ → List Tick → Option ℤ
first_dead heart_beat [] = none
first_dead heart_beat (health ∷ ts) = first_dead heart_beat ts
first_dead heart_beat (modules ∷ ts) = first_dead heart_beat ts
first_dead heart_beat (check now ∷ ts) =
    let rest = first_dead heart_beat ts in
    if leb_ℤ dead_after (now -ℤ heart_beat) then some now else rest

-- No more than three seconds from one check to the next.
abbrev pub Spaced : ℤ → List Tick → Type 0
Spaced last [] = Unit {0}
Spaced last (health ∷ ts) = Spaced last ts
Spaced last (modules ∷ ts) = Spaced last ts
Spaced last (check now ∷ ts) = (now ≤ℤ last +ℤ check_interval) × Spaced now ts

leb_of : (a b : ℤ) → leb_ℤ a b ≡ true → a ≤ℤ b
leb_of a b h = ground (arith, h)

not_leb : (a b : ℤ) → leb_ℤ a b ≡ false → b <ℤ a
not_leb a b h = ground (arith, h)

in_time :
    (last now heart_beat : ℤ)
    → last -ℤ heart_beat <ℤ dead_after
    → now ≤ℤ last +ℤ check_interval
    → now -ℤ heart_beat <ℤ dead_after +ℤ check_interval
in_time last now heart_beat h g =
    let a = -ℤ_parts last heart_beat in
    let b = -ℤ_parts now heart_beat in
    let c = +ℤ_parts last check_interval in
    let d = +ℤ_parts dead_after check_interval in omega (arith, a, b, c, d, h, g)

module _ {S : Type 0} (name : Text) where
  -- The node is there and its goroutines are told to exit.
  abbrev pub IsShutDown : Nodes S → Type 0
  IsShutDown nodes =
      (n : Node S) × (lookup name nodes ≡ some n) × (n.is_close ≡ true) × (n.exit ≡ true)

  shutdown-exit : (n : Node S) → ((shutdown n).exit ≡ true) × ((shutdown n).is_close ≡ n.is_close)
  unfolding shutdown
  shutdown-exit n = ground arith

  shutdown-IsShutDown :
      (now : ℤ) (n : Node S) (nodes : Nodes S)
      → lookup name nodes ≡ some n
      → IsShutDown (node_shutdown now name nodes)
  unfolding close node_shutdown
  shutdown-IsShutDown now n nodes e =
      let n' = shutdown (close now n) in
      let (exit, same) = shutdown-exit (close now n) in
      rw (node_shutdown, e) (n', lookup-insert_self name n' nodes, same, exit)

  check_dead-dead :
      (now : ℤ) (n : Node S) (nodes : Nodes S)
      → lookup name nodes ≡ some n
      → is_dead now n ≡ true
      → check_dead name now nodes ≡ node_shutdown now name nodes
  unfolding check_dead
  check_dead-dead now n nodes e h = rw (check_dead, e, h) refl

  check_dead-alive :
      (now : ℤ) (n : Node S) (nodes : Nodes S)
      → lookup name nodes ≡ some n
      → is_dead now n ≡ false
      → check_dead name now nodes ≡ nodes
  unfolding check_dead
  check_dead-alive now n nodes e h = rw (check_dead, e, h) refl

  -- A node that is shut down stays so.
  check-IsShutDown :
      (now : ℤ) (nodes : Nodes S) → IsShutDown nodes → IsShutDown (check_dead name now nodes)
  check-IsShutDown now nodes (n, e, closed, exit) = elim (Bool-cases (is_dead now n)) [
    | inl dead ↦
        subst IsShutDown (sym (check_dead-dead now n nodes e dead))
          (shutdown-IsShutDown now n nodes e)
    | inr alive ↦ subst IsShutDown (sym (check_dead-alive now n nodes e alive)) (n, e, closed, exit)
  ]

  watch-IsShutDown :
      (ts : List Tick) (w : Watched S)
      → IsShutDown w.nodes
      → IsShutDown (connect_with_interval name ts w).nodes
  unfolding connect_with_interval
  watch-IsShutDown [] w h = h
  watch-IsShutDown (health ∷ ts) w h = watch-IsShutDown ts (on_tick name health w) h
  watch-IsShutDown (modules ∷ ts) w h = watch-IsShutDown ts (on_tick name modules w) h
  watch-IsShutDown (check now ∷ ts) w h =
      watch-IsShutDown ts (on_tick name (check now) w) (check-IsShutDown now w.nodes h)

  -- What is to come of a node with this heart beat: nothing before it is 60 seconds old, and the end
  -- of the node at the first check after that, less than 63 seconds after it.
  abbrev pub Timely : ℤ → Nodes S → Option ℤ → Nodes S → Type 0
  Timely heart_beat nodes none nodes' = nodes' ≡ nodes
  Timely heart_beat nodes (some now) nodes' =
      (dead_after ≤ℤ now -ℤ heart_beat)
      × (now -ℤ heart_beat <ℤ dead_after +ℤ check_interval)
      × IsShutDown nodes'

  is_dead-open :
      (now : ℤ) (n : Node S)
      → n.is_close ≡ false
      → is_dead now n ≡ leb_ℤ dead_after (now -ℤ n.heart_beat)
  unfolding is_dead
  is_dead-open now n h = rw h refl

  -- An open node of which nothing is heard any more, and whose heart beat was less than 60 seconds old
  -- before the first check, is left alone until the heart beat is 60 seconds old, and is shut down at
  -- the first check after that, which is less than 63 seconds after the heart beat, if no two checks
  -- are more than 3 seconds apart; from then on it stays shut down. The other tasks change no node.
  pub silence-Timely :
      (ts : List Tick) (last : ℤ) (n : Node S) (w : Watched S)
      → lookup name w.nodes ≡ some n
      → n.is_close ≡ false
      → last -ℤ n.heart_beat <ℤ dead_after
      → Spaced last ts
      → Timely n.heart_beat w.nodes
          (first_dead n.heart_beat ts)
          (connect_with_interval name ts w).nodes
  unfolding connect_with_interval
  silence-Timely [] last n w e up young s = refl
  silence-Timely (health ∷ ts) last n w e up young s =
      silence-Timely ts last n (on_tick name health w) e up young s
  silence-Timely (modules ∷ ts) last n w e up young s =
      silence-Timely ts last n (on_tick name modules w) e up young s
  silence-Timely (check now ∷ ts) last n w e up young (near, s) =
      let h = n.heart_beat in
      let w' = on_tick name (check now) w in
      if-holds (λ o. Timely h w.nodes o (connect_with_interval name ts w').nodes)
        (leb_ℤ dead_after (now -ℤ h))
        (λ old. (
          leb_of dead_after (now -ℤ h) old,
          in_time last now h young near,
          watch-IsShutDown ts w' (
              subst IsShutDown (sym (check_dead-dead now n w.nodes e (is_dead-open now n up ∙ old)))
                (shutdown-IsShutDown now n w.nodes e)),
        ))
        (λ fresh.
          let same = check_dead-alive now n w.nodes e (is_dead-open now n up ∙ fresh) in
          subst (λ m. Timely h m (first_dead h ts) (connect_with_interval name ts w').nodes) same
            (silence-Timely ts now n w' (ap (lookup name) same ∙ e) up
              (not_leb dead_after (now -ℤ h) fresh) s))
