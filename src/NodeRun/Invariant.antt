-- ===== src/NodeRun/Invariant.antt =====
-- The first call of `Run` of virtual_kubelet/node/nodeutil/controller.go is safe in every
-- interleaving.
use virtual_kubelet.Common.{
  ◌≤◌, ◌≡◌, refl, sym, subst, ap, ◌⊎◌, inl, inr, Bool, true, false, none, some, List, [], ◌∷◌, ◌++◌,
  All, length, arith, suc, ◌+◌,
}
use virtual_kubelet.NodeRun.{
  Main, awaiting_pods, awaiting_node, serving, leaving_node, leaving_pods, returned, Proc, off,
  starting, staffed, working, Call, Channels, Run, fresh, new_call, call_run, Result, run_queues,
  close_pods_ready, close_pods_done, close_node_ready, close_node_done, close_ready, close_done,
  Act, pods_clean, workers_start, workers_stop, pods_start, pods_stop, node_start, refused,
  node_stop, sees_pods, gives_up_pods, sees_node, gives_up_node, stops, left_node, left_pods,
  cancels, result, Step, called, acts, none_yet, and_then, Reach,
}

abbrev PodsOk : Proc → Bool → Bool → Type 0
PodsOk off ready done = (ready ≡ true) × (done ≡ true)
PodsOk starting ready done = (ready ≡ false) × (done ≡ false)
PodsOk staffed ready done = (ready ≡ false) × (done ≡ false)
PodsOk working ready done = (ready ≡ true) × (done ≡ false)

-- The queues, by what the workers of the only call do, which have not begun before the pod controller
-- begins them.
abbrev QueuesOk : Proc → Bool → Type 0
QueuesOk off running = running ≡ false
QueuesOk starting running = running ≡ false
QueuesOk staffed running = ⊥
QueuesOk working running = running ≡ true

abbrev Unbegun : Proc → Proc → Type 0
Unbegun off workers = Unit {0}
Unbegun starting workers = workers ≡ off
Unbegun staffed workers = Unit {0}
Unbegun working workers = Unit {0}

abbrev NodeOk : Proc → Bool → Bool → Type 0
NodeOk off ready done = done ≡ true
NodeOk starting ready done = (ready ≡ false) × (done ≡ false)
NodeOk staffed ready done = ⊥
NodeOk working ready done = (ready ≡ true) × (done ≡ false)

-- The node controller and the channels of `Run`, by where the only call stands.
abbrev MainOk : Main → Channels → Call → Type 0
MainOk awaiting_pods s c =
    (c.node ≡ off)
    × (s.node_ready ≡ false)
    × (s.node_done ≡ false)
    × (s.ready ≡ false)
    × (s.done ≡ false)
MainOk awaiting_node s c =
    NodeOk c.node s.node_ready s.node_done
    × (s.pods_ready ≡ true)
    × (s.ready ≡ false)
    × (s.done ≡ false)
MainOk serving s c =
    NodeOk c.node s.node_ready s.node_done
    × (s.pods_ready ≡ true)
    × (s.node_ready ≡ true)
    × (s.done ≡ false)
MainOk leaving_node s c =
    NodeOk c.node s.node_ready s.node_done
    × (s.pods_ready ≡ true)
    × ((s.ready ≡ false) ⊎ (s.node_ready ≡ true))
    × (s.done ≡ false)
MainOk leaving_pods s c =
    (c.node ≡ off)
    × ((s.ready ≡ false) ⊎ ((s.pods_ready ≡ true) × (s.node_ready ≡ true)))
    × (s.done ≡ false)
MainOk returned s c =
    (c.node ≡ off)
    × (c.pods ≡ off)
    × ((s.ready ≡ false) ⊎ ((s.pods_ready ≡ true) × (s.node_ready ≡ true)))
    × (s.done ≡ true)

abbrev First : Channels → Call → Type 0
First s c =
    PodsOk c.pods s.pods_ready s.pods_done
    × MainOk c.main s c
    × QueuesOk c.workers s.queues_running
    × Unbegun c.pods c.workers

-- A step of the only call does not panic.
abbrev StaysFirst : Result → Type 0
StaysFirst none = ⊥
StaysFirst (some (s, c)) = First s c

Act-First : (s : Channels) (c : Call) (x : Result) → Act s c x → First s c → StaysFirst x
unfolding run_queues close_pods_ready close_pods_done close_node_ready close_node_done close_ready
    close_done
Act-First s c x (pods_clean e) h = ground arith
Act-First s c x (workers_start e) h = ground arith
Act-First s c x (workers_stop e f) h = ground arith
Act-First s c x (pods_start e) h = ground arith
Act-First s c x (pods_stop e f i) h = ground arith
Act-First s c x (node_start e) h = ground arith
Act-First s c x (refused e) h = ground arith
Act-First s c x (node_stop e f) h = ground arith
Act-First s c x (sees_pods e f) h = ground arith
Act-First s c x (gives_up_pods e f) h = ground arith
Act-First s c x (sees_node e f) h = ground arith
Act-First s c x (gives_up_node e f) h = ground arith
Act-First s c x (stops e f) h = ground arith
Act-First s c x (left_node e f) h = ground arith
Act-First s c x (left_pods e f) h = ground arith
Act-First s c x cancels h = ground arith

-- By how many calls there were: nothing is closed, or the only call stands as above.
abbrev Safe : Channels → List Call → Bool → Type 0
Safe s [] crashed = (s ≡ fresh.channels) × (crashed ≡ false)
Safe s (c ∷ []) crashed = First s c × (crashed ≡ false)
Safe s (c ∷ d ∷ cs) crashed = Unit {0}

new-Safe :
    (s : Channels) (cs : List Call) (crashed : Bool)
    → Safe s cs crashed
    → Safe s (new_call ∷ cs) crashed
unfolding new_call
new-Safe s [] crashed (e, ok) =
    ((ground (arith, e), ground (arith, e), ap (λ x. x.queues_running) e, refl), ok)
new-Safe s (c ∷ cs) crashed h = tt

two-Safe : (s : Channels) (cs : List Call) (crashed : Bool) → 2 ≤ length cs → Safe s cs crashed
two-Safe s [] crashed h = absurd (omega (arith, h))
two-Safe s (c ∷ []) crashed h = absurd (omega (arith, h))
two-Safe s (c ∷ d ∷ cs) crashed h = tt

pub length-around :
    (before after : List Call) (c : Call)
    → length (before ++ c ∷ after) ≡ suc (length before + length after)
length-around [] after c = omega arith
length-around (d ∷ before) after c = let n = length-around before after c in omega (arith, n)

abbrev IsSafe : Run → Type 0
IsSafe r = Safe r.channels r.calls r.crashed

-- What one of several calls does, and what the only one does.
many-IsSafe :
    (r : Run) (before after : List Call) (c : Call) (x : Result)
    → r.calls ≡ before ++ c ∷ after
    → 1 ≤ length before + length after
    → IsSafe (result before after x r)
many-IsSafe r before after c none e h =
    let n = length-around before after c in
    two-Safe r.channels r.calls true (subst (λ cs. 2 ≤ length cs) (sym e) (omega (arith, n, h)))
many-IsSafe r before after c (some (s, d)) e h =
    two-Safe s (before ++ d ∷ after) r.crashed
      (let n = length-around before after d in omega (arith, n, h))

only-IsSafe : (r : Run) (x : Result) → r.crashed ≡ false → StaysFirst x → IsSafe (result [] [] x r)
only-IsSafe r none ok h = elim h [ ]
only-IsSafe r (some (s, c)) ok h = (h, ok)

Step-IsSafe : {r t : Run} → Step r t → r.crashed ≡ false → IsSafe r → IsSafe t
unfolding call_run
Step-IsSafe {r} called ok h = new-Safe r.channels r.calls r.crashed h
Step-IsSafe {r} (acts [] [] c x e a) ok h =
    only-IsSafe r x ok
      (Act-First r.channels c x a (subst (λ cs. Safe r.channels cs r.crashed) e h).0)
Step-IsSafe {r} (acts [] (d ∷ after) c x e a) ok h =
    many-IsSafe r [] (d ∷ after) c x e (omega arith)
Step-IsSafe {r} (acts (d ∷ before) after c x e a) ok h =
    many-IsSafe r (d ∷ before) after c x e (omega arith)

Reach-IsSafe : {r : Run} → Reach r → IsSafe r
Reach-IsSafe none_yet = (refl, refl)
Reach-IsSafe (and_then steps ok step) = Step-IsSafe step ok (Reach-IsSafe steps)

-- As long as `Run` is called once at most, no channel is closed twice, and no queue is run while it runs,
-- in any interleaving; the node is ready only if both controllers are, and done only if both have
-- returned.
pub Reach-first :
    {r : Run}
    → Reach r
    → length r.calls ≤ 1
    → (r.crashed ≡ false)
      × ((r.channels.ready ≡ false)
          ⊎ ((r.channels.pods_ready ≡ true) × (r.channels.node_ready ≡ true)))
      × ((r.channels.done ≡ false) ⊎ All (λ c. (c.pods ≡ off) × (c.node ≡ off)) r.calls)
Reach-first {r} reach few = few-Safe r.channels r.calls r.crashed few (Reach-IsSafe reach)
  where
    few-Safe :
        (s : Channels) (cs : List Call) (crashed : Bool)
        → length cs ≤ 1
        → Safe s cs crashed
        → (crashed ≡ false)
          × ((s.ready ≡ false) ⊎ ((s.pods_ready ≡ true) × (s.node_ready ≡ true)))
          × ((s.done ≡ false) ⊎ All (λ c. (c.pods ≡ off) × (c.node ≡ off)) cs)
    few-Safe s [] crashed few h = (h.1, inl (ap (λ x. x.ready) h.0), inr tt)
    few-Safe s (c ∷ []) crashed few h = ground (arith, h)
    few-Safe s (c ∷ d ∷ cs) crashed few h = absurd (omega (arith, few))
