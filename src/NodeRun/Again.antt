-- ===== src/NodeRun/Again.antt =====
-- Calls of `Run` of virtual_kubelet/node/nodeutil/controller.go after the first one: the channels are
-- the same, so that no more than one call gets past each of them, and the program is bound to crash.
use virtual_kubelet.Common.{
  ℕ, ◌+◌, ◌≤◌, ◌<◌, ◌≡◌, refl, sym, ◌∙◌, subst, ap, ◌⊎◌, inl, inr, Bool, true, false, Bool-cases,
  none, some, List, [], ◌∷◌, ◌++◌, length, arith, if◌then◌else◌,
}
use virtual_kubelet.NodeRun.{
  Main, returned, Proc, off, starting, staffed, working, Call, Channels, Run, fresh, new_call,
  call_run, Result, run_queues, close_pods_ready, close_pods_done, close_node_ready,
  close_node_done, close_ready, close_done, Act, pods_clean, workers_start, workers_stop,
  pods_start, pods_stop, node_start, refused, node_stop, sees_pods, gives_up_pods, sees_node,
  gives_up_node, stops, left_node, left_pods, cancels, result, Step, called, acts, Steps, none_yet,
  and_then, Reach,
}
use virtual_kubelet.NodeRun.Invariant.{length-around}

-- Whether the pod controller of a call has closed `ready`, and whether the call has returned.
abbrev pub past : Proc → ℕ
past off = 1
past starting = 0
past staffed = 0
past working = 1

abbrev pub back : Main → ℕ
back returned = 1
back _ = 0

abbrev pub bit : Bool → ℕ
bit b = if b then 1 else 0

abbrev pub count : (Call → ℕ) → List Call → ℕ
count f [] = 0
count f (c ∷ cs) = f c + count f cs

abbrev pub all_past : List Call → ℕ
all_past = count (λ c. past c.pods)

abbrev pub all_back : List Call → ℕ
all_back = count (λ c. back c.main)

count-around :
    (f : Call → ℕ) (before after : List Call) (c : Call)
    → count f (before ++ c ∷ after) ≡ f c + (count f before + count f after)
count-around f [] after c = omega arith
count-around f (d ∷ before) after c = let n = count-around f before after c in omega (arith, n)

-- What a step adds to the two numbers is what it does to the channels.
abbrev Counted : Channels → Call → Result → Type 0
Counted s c none = Unit {0}
Counted s c (some (t, d)) =
    (past d.pods + bit s.pods_ready ≡ past c.pods + bit t.pods_ready)
    × (back d.main + bit s.done ≡ back c.main + bit t.done)

Act-Counted : (s : Channels) (c : Call) (x : Result) → Act s c x → Counted s c x
unfolding run_queues close_pods_ready close_pods_done close_node_ready close_node_done close_ready
    close_done
Act-Counted s c x (pods_clean e) = ground arith
Act-Counted s c x (workers_start e) = ground arith
Act-Counted s c x (workers_stop e f) = ground arith
Act-Counted s c x (pods_start e) = ground arith
Act-Counted s c x (pods_stop e f i) = ground arith
Act-Counted s c x (node_start e) = ground arith
Act-Counted s c x (refused e) = ground arith
Act-Counted s c x (node_stop e f) = ground arith
Act-Counted s c x (sees_pods e f) = ground arith
Act-Counted s c x (gives_up_pods e f) = ground arith
Act-Counted s c x (sees_node e f) = ground arith
Act-Counted s c x (gives_up_node e f) = ground arith
Act-Counted s c x (stops e f) = ground arith
Act-Counted s c x (left_node e f) = ground arith
Act-Counted s c x (left_pods e f) = ground arith
Act-Counted s c x cancels = ground arith

abbrev pub Once : Run → Type 0
Once r = (all_past r.calls ≡ bit r.channels.pods_ready) × (all_back r.calls ≡ bit r.channels.done)

result-Once :
    (r : Run) (before after : List Call) (c : Call) (x : Result)
    → r.calls ≡ before ++ c ∷ after
    → Counted r.channels c x
    → Once r
    → Once (result before after x r)
result-Once r before after c none e n h = h
result-Once r before after c (some (t, d)) e n h =
    let p = ap all_past e ∙ count-around (λ c. past c.pods) before after c in
    let b = ap all_back e ∙ count-around (λ c. back c.main) before after c in
    let p' = count-around (λ c. past c.pods) before after d in
    let b' = count-around (λ c. back c.main) before after d in
    (omega (arith, p, p', n.0, h.0), omega (arith, b, b', n.1, h.1))

Step-Once : {r t : Run} → Step r t → Once r → Once t
unfolding call_run new_call
Step-Once called h = (omega (arith, h.0), omega (arith, h.1))
Step-Once {r} (acts before after c x e a) h =
    result-Once r before after c x e (Act-Counted r.channels c x a) h

Steps-Once : {r t : Run} → Steps r t → Once r → Once t
Steps-Once none_yet h = h
Steps-Once (and_then steps ok step) h = Step-Once step (Steps-Once steps h)

-- A crash can follow.
abbrev pub CanCrash : Run → Type 0
CanCrash r = (t : Run) × Steps r t × (t.crashed ≡ true)

abbrev Waiting : Call → Type 0
Waiting c = (c.pods ≡ starting) ⊎ (c.pods ≡ staffed)

not_past : (c : Call) → Waiting c ⊎ (past c.pods ≡ 1)
not_past c = ground arith

-- With more calls than are past, one is not.
waiting_one :
    (cs : List Call)
    → all_past cs < length cs
    → (before after : List Call) × (c : Call) × (cs ≡ before ++ c ∷ after) × Waiting c
waiting_one [] h = absurd (omega (arith, h))
waiting_one (c ∷ cs) h = elim (not_past c) [
  | inl w ↦ ([], cs, c, refl, w)
  | inr p ↦
      let (before, after, d, e, w) = waiting_one cs (omega (arith, h, p)) in
      (c ∷ before, after, d, ap (λ x. c ∷ x) e, w)
]

-- The pod controller of a waiting call gets its workers.
staff :
    (r : Run) (before after : List Call) (c : Call)
    → r.crashed ≡ false
    → r.calls ≡ before ++ c ∷ after
    → Waiting c
    → (d : Call) × (d.pods ≡ staffed) × Steps r (record r { calls = before ++ d ∷ after })
staff r before after c ok e (inl s) = (
  record c { pods = staffed; workers = starting },
  refl,
  and_then none_yet ok (acts before after c _ e (pods_clean s)),
)
staff r before after c ok e (inr s) =
    (c, s, subst (λ cs. Steps r (record r { calls = cs })) e none_yet)

closed_twice : (s : Channels) (c : Call) → s.pods_ready ≡ true → close_pods_ready s c ≡ none
unfolding close_pods_ready
closed_twice s c h = rw h refl

closed_once :
    (s : Channels) (c : Call)
    → s.pods_ready ≡ false
    → close_pods_ready s c ≡ some (record s { pods_ready = true }, record c { pods = working })
unfolding close_pods_ready
closed_once s c h = rw h refl

after_ready :
    (r : Run)
    → r.crashed ≡ false
    → r.channels.pods_ready ≡ true
    → all_past r.calls < length r.calls
    → CanCrash r
after_ready r ok ready more =
    let (before, after, c, e, w) = waiting_one r.calls more in
    let (d, s, steps) = staff r before after c ok e w in
    let u = record r { calls = before ++ d ∷ after } in
    let crash : Step u (result before after (close_pods_ready r.channels d) u) =
      acts before after d _ refl (pods_start s) in
    (
      result before after none u,
      and_then steps ok
          (subst (λ x. Step u (result before after x u)) (closed_twice r.channels d ready) crash),
      refl,
    )

Steps-then : {r s t : Run} → Steps r s → Steps s t → Steps r t
Steps-then first none_yet = first
Steps-then first (and_then steps ok step) = and_then (Steps-then first steps) ok step

same_length :
    (before after cs : List Call) (c d : Call)
    → cs ≡ before ++ c ∷ after
    → length (before ++ d ∷ after) ≡ length cs
same_length before after cs c d e =
    length-around before after d ∙ sym (length-around before after c) ∙ ap length (sym e)

-- One call closes `ready`, and another one does it again.
before_ready :
    (r : Run)
    → r.crashed ≡ false
    → r.channels.pods_ready ≡ false
    → Once r
    → 2 ≤ length r.calls
    → CanCrash r
before_ready r ok unready once many =
    let (before, after, c, e, w) =
      waiting_one r.calls (let n = once.0 in ground (arith, n, unready, many)) in
    let (d, s, steps) = staff r before after c ok e w in
    let u = record r { calls = before ++ d ∷ after } in
    let d' = record d { pods = working } in
    let v = record u {
      channels = record r.channels { pods_ready = true };
      calls = before ++ d' ∷ after;
    } in
    let close : Step u (result before after (close_pods_ready r.channels d) u) =
      acts before after d _ refl (pods_start s) in
    let closes =
      and_then steps ok
        (subst (λ x. Step u (result before after x u)) (closed_once r.channels d unready) close) in
    let n = same_length before after r.calls c d' e in
    let once' = Steps-Once closes once in
    let (t, rest, bad) = after_ready v ok refl (omega (arith, once'.0, n, many)) in
    (t, Steps-then closes rest, bad)

fresh-Once : Once fresh
fresh-Once = (refl, refl)

one_or_more : (n : ℕ) → (n ≤ 1) ⊎ (2 ≤ n)
one_or_more n = omega arith

many-CanCrash : (r : Run) → Once r → 2 ≤ length r.calls → CanCrash r
many-CanCrash r once many = elim (Bool-cases r.crashed) [
  | inl bad ↦ (r, none_yet, bad)
  | inr ok ↦ elim (Bool-cases r.channels.pods_ready) [
    | inl ready ↦ after_ready r ok ready (let n = once.0 in ground (arith, n, ready, many))
    | inr unready ↦ before_ready r ok unready once many
  ]
]

-- However many calls of `Run` there are, and in every interleaving, at most one of their pod
-- controllers closes `ready` and at most one of the calls returns; and with a second call, whether the
-- first one has returned or not, the program can crash from then on.
pub Reach-again :
    {r : Run}
    → Reach r
    → (all_past r.calls ≤ 1) × (all_back r.calls ≤ 1) × ((length r.calls ≤ 1) ⊎ CanCrash r)
Reach-again {r} reach =
    let once = Steps-Once reach fresh-Once in
    (
      let n = once.0 in ground (arith, n),
      let n = once.1 in ground (arith, n),
      elim (one_or_more (length r.calls)) [
        | inl one ↦ inl one
        | inr many ↦ inr (many-CanCrash r once many)
      ],
    )
