-- ===== src/Startup/Events.antt =====
-- Which pod events the watch of vnode_controller/vnode_controller.go hands to the handlers, in which
-- order, and when.
use virtual_kubelet.Common.{
  ◌≡◌, ◌≢◌, ◌⊎◌, inl, inr, Bool, ◌&&◌, not, refl, sym, ◌∙◌, ap, true, false, Option, none, some,
  List, [], ◌∷◌, ◌++◌, Text, append_assoc, text_dec, if◌then◌else◌, arith,
}
use virtual_kubelet.Kube.{Pod}
use virtual_kubelet.Biz.{same_text}
use virtual_kubelet.Pods.{Cmp, World}
use virtual_kubelet.Nodes.{Nodes}
use virtual_kubelet.NodeObject.{Settings}
use virtual_kubelet.Startup.{
  Event, object_of, Selector, pod_predicate, Progress, syncing, listing, finished, gave_up, Startup,
  start, moved, after_event, handle_event, Step, polled, synced, not_synced, listed, not_listed,
  discovered, node_deleted, arrives, drops, handles, Steps, none_yet, and_then,
}

-- The pods that the controller is for: they have the label and stand on a node.
abbrev on_a_node : Text → Bool
on_a_node [] = false
on_a_node (c ∷ cs) = true

abbrev pub wanted : Selector → Pod → Bool
wanted matches pod = if on_a_node pod.node_name then matches pod.labels else false

abbrev pub passing : Selector → List (Event Pod) → List (Event Pod)
passing matches [] = []
passing matches (e ∷ es) =
    if wanted matches (object_of e) then e ∷ passing matches es else passing matches es

not_unnamed : (name : Text) → not (same_text name []) ≡ on_a_node name
unfolding text_dec
not_unnamed [] = refl
not_unnamed (c ∷ cs) = refl

and_on : (b on : Bool) → b && on ≡ (if on then b else false)
and_on b on = ground arith

pod_predicate-wanted :
    (matches : Selector) (e : Event Pod) → pod_predicate matches e ≡ wanted matches (object_of e)
unfolding pod_predicate
pod_predicate-wanted matches e =
    ap (λ x. matches (object_of e).labels && x) (not_unnamed (object_of e).node_name)
    ∙ and_on (matches (object_of e).labels) (on_a_node (object_of e).node_name)

module _ (matches : Selector) where
  passing-append :
      (xs ys : List (Event Pod))
      → passing matches (xs ++ ys) ≡ passing matches xs ++ passing matches ys
  passing-append [] ys = refl
  passing-append (x ∷ xs) ys = ground (arith, passing-append xs ys)

  arrives-order :
      (handled waiting arrived : List (Event Pod)) (e : Event Pod)
      → handled ++ passing matches waiting ≡ passing matches arrived
      → handled ++ passing matches (waiting ++ e ∷ []) ≡ passing matches (arrived ++ e ∷ [])
  arrives-order handled waiting arrived e h =
      ap (λ x. handled ++ x) (passing-append waiting (e ∷ []))
      ∙ sym (append_assoc handled (passing matches waiting) (passing matches (e ∷ [])))
      ∙ ap (λ x. x ++ passing matches (e ∷ [])) h
      ∙ sym (passing-append arrived (e ∷ []))

  passing-drop :
      (e : Event Pod) (rest waiting : List (Event Pod))
      → waiting ≡ e ∷ rest
      → pod_predicate matches e ≡ false
      → passing matches waiting ≡ passing matches rest
  passing-drop e rest waiting w p = rw (w, sym (pod_predicate-wanted matches e) ∙ p) refl

  passing-keep :
      (e : Event Pod) (rest : List (Event Pod))
      → pod_predicate matches e ≡ true
      → passing matches (e ∷ rest) ≡ e ∷ passing matches rest
  passing-keep e rest p = rw (sym (pod_predicate-wanted matches e) ∙ p) refl

  handles-order :
      (handled waiting rest all : List (Event Pod)) (e : Event Pod)
      → waiting ≡ e ∷ rest
      → pod_predicate matches e ≡ true
      → handled ++ passing matches waiting ≡ all
      → (handled ++ e ∷ []) ++ passing matches rest ≡ all
  handles-order handled waiting rest all e w p h =
      append_assoc handled (e ∷ []) (passing matches rest)
      ∙ ap (λ x. handled ++ x) (sym (ap (passing matches) w ∙ passing-keep e rest p))
      ∙ h

gave_up-unfinished : gave_up ≢ finished
gave_up-unfinished f = cc

-- As long as nothing has crashed, the events that were handled, followed by those that wait and
-- are wanted, are those that came and are wanted; and nothing is handled before the controller is ready.
module _ {S : Type 0} (matches : Selector) where
  pub record Inv (s : Startup S) : Type 0 where
    pub in_order :
        s.crashed ≡ false → s.handled ++ passing matches s.waiting ≡ passing matches s.arrived
    pub patient : (s.progress ≡ finished) ⊎ (s.handled ≡ [])

  Inv-moved : (p : Progress) (s : Startup S) → s.progress ≢ finished → Inv s → Inv (moved p s)
  Inv-moved p s n h = record {
    in_order = h.in_order;
    patient = elim h.patient [ inl f ↦ elim (n f) [ ] | inr e ↦ inr e ];
  }

  after_event-Inv :
      (e : Event Pod) (rest : List (Event Pod)) (left : Option (Nodes S)) (s : Startup S)
      → s.waiting ≡ e ∷ rest
      → pod_predicate matches e ≡ true
      → s.progress ≡ finished
      → s.crashed ≡ false
      → Inv s
      → Inv (after_event e rest left s)
  unfolding after_event
  after_event-Inv e rest none s w p f ok h = record { in_order = λ bad. cc; patient = inl f }
  after_event-Inv e rest (some nodes) s w p f ok h = record {
    in_order = λ c.
        handles-order matches s.handled s.waiting rest (passing matches s.arrived) e w p
          (h.in_order c);
    patient = inl f;
  }

  module _ (client_id : Text) (cmp : Cmp) (settings : Settings) (pods : World S) where
    Inv-step :
        {s t : Startup S}
        → Step client_id cmp settings pods matches s t
        → s.crashed ≡ false
        → Inv s
        → Inv t
    Inv-step {s} (polled e) ok h = Inv-moved syncing s (λ f. cc) h
    Inv-step {s} (synced e) ok h = Inv-moved listing s (λ f. cc) h
    Inv-step {s} (not_synced e) ok h = Inv-moved gave_up s (λ f. cc) h
    Inv-step {s} (listed found e) ok h = record { in_order = h.in_order; patient = inl refl }
    Inv-step {s} (not_listed e) ok h = Inv-moved gave_up s (λ f. cc) h
    Inv-step {s} (discovered now name state new) ok h = record {
      in_order = h.in_order;
      patient = h.patient;
    }
    Inv-step {s} (node_deleted name) ok h = record { in_order = h.in_order; patient = h.patient }
    Inv-step {s} (arrives e) ok h = record {
      in_order = λ c. arrives-order matches s.handled s.waiting s.arrived e (h.in_order c);
      patient = h.patient;
    }
    Inv-step {s} (drops e rest w p) ok h = record {
      in_order = λ c.
          ap (λ x. s.handled ++ x) (sym (passing-drop matches e rest s.waiting w p)) ∙ h.in_order c;
      patient = h.patient;
    }
    Inv-step {s} (handles now e rest w p f) ok h =
        after_event-Inv e rest (handle_event client_id cmp now e s.nodes) s w p f ok h

    Inv-Steps : {s t : Startup S} → Steps client_id cmp settings pods matches s t → Inv s → Inv t
    Inv-Steps none_yet h = h
    Inv-Steps (and_then steps ok step) h = Inv-step step ok (Inv-Steps steps h)

    start-Inv : (nodes : Nodes S) → Inv (start nodes)
    start-Inv nodes = record { in_order = λ _. refl; patient = inr refl }

    gave_up-step :
        {s t : Startup S}
        → Step client_id cmp settings pods matches s t
        → s.progress ≡ gave_up
        → t.progress ≡ gave_up
    unfolding after_event
    gave_up-step (polled e) g = cc
    gave_up-step (synced e) g = cc
    gave_up-step (not_synced e) g = refl
    gave_up-step (listed found e) g = cc
    gave_up-step (not_listed e) g = refl
    gave_up-step (discovered now name state new) g = g
    gave_up-step (node_deleted name) g = g
    gave_up-step (arrives e) g = g
    gave_up-step (drops e rest w p) g = g
    gave_up-step (handles now e rest w p f) g = cc

    gave_up-Steps :
        {s t : Startup S}
        → Steps client_id cmp settings pods matches s t
        → s.progress ≡ gave_up
        → t.progress ≡ gave_up
    gave_up-Steps none_yet g = g
    gave_up-Steps (and_then steps ok step) g = gave_up-step step (gave_up-Steps steps g)

  module _ (client_id : Text) (cmp : Cmp) (settings : Settings) (pods : World S) where
    -- Once the cache is not synced, or the nodes are not listed, no event is ever handled, and every
    -- one that comes and is wanted waits, unless the controller has crashed.
    pub gave_up-deaf :
        {nodes : Nodes S} {s t : Startup S}
        → Steps client_id cmp settings pods matches (start nodes) s
        → s.progress ≡ gave_up
        → Steps client_id cmp settings pods matches s t
        → t.crashed ≡ false
        → (t.handled ≡ []) × (passing matches t.waiting ≡ passing matches t.arrived)
    gave_up-deaf {nodes} {s} {t} first g later ok =
        let h = Inv-Steps client_id cmp settings pods later (
          Inv-Steps client_id cmp settings pods first
            (start-Inv client_id cmp settings pods nodes)) in
        let g' = gave_up-Steps client_id cmp settings pods later g in
        let none_handled : t.handled ≡ [] = elim h.patient [
          | inl f ↦ elim (gave_up-unfinished (sym g' ∙ f)) [ ]
          | inr e ↦ e
        ] in
        (none_handled, ap (λ x. x ++ passing matches t.waiting) (sym none_handled) ∙ h.in_order ok)
