-- ===== src/Arrivals/Led.antt =====
-- Only the leader of a node acts on reports of it, and only on that node
-- (vnode_controller/vnode_controller.go).
use virtual_kubelet.Common.{
  ℕ, ◌≡◌, ◌≢◌, refl, Bool, true, false, Option, none, some, List, ℤ, Text, lookup, insert,
  lookup-insert_ne, ◌⊎◌, inl, inr,
}
use virtual_kubelet.Kube.{Pod, BizStatusData}
use virtual_kubelet.Lease.{is_leader}
use virtual_kubelet.Pods.{PodResult}
use virtual_kubelet.VPods.{Tunnel, Provider}
use virtual_kubelet.Nodes.{Node}
use virtual_kubelet.Arrivals.{
  Fleet, on_provider, if_led, when_led, on_all_biz_status_arrived, on_single_biz_status_arrived,
}

module _ {S T : Type 0} (name : Text) (fleet : Fleet S T) where
  -- The nodes stay, and so does the provider of every other node.
  abbrev pub Only : Option (Fleet S T) → Type 0
  Only none = Unit {0}
  Only (some fleet') =
      (fleet'.nodes ≡ fleet.nodes)
      × ((other : Text)
          → name ≢ other
          → lookup other fleet'.providers ≡ lookup other fleet.providers)

  acted-Only :
      (act : Option (Provider T))
      → Only (elim act [
        | none ↦ none
        | some p' ↦ some (record fleet { providers = insert name p' fleet.providers })
      ])
  acted-Only none = tt
  acted-Only (some p') = (refl, λ other ne. lookup-insert_ne name other p' fleet.providers ne)

  provider-Only : (act : Provider T → Option (Provider T)) → Only (on_provider name act fleet)
  unfolding on_provider
  provider-Only act =
      elim (lookup name fleet.providers)
        as (λ x. Only (elim x [
          | none ↦ some fleet
          | some p ↦ elim (act p) [
            | none ↦ none
            | some p' ↦ some (record fleet { providers = insert name p' fleet.providers })
          ]
        ])) [ none ↦ (refl, λ other ne. refl) | some p ↦ acted-Only (act p) ]

  -- Only the node is touched; and the client leads it, or nothing changes, or its lease makes the
  -- handler panic.
  abbrev pub Allowed : Text → ℤ → Option (Fleet S T) → Type 0
  Allowed client_id now r =
      Only r
      × (((n : Node S) × (lookup name fleet.nodes ≡ some n)
            × (is_leader client_id now n.lease ≡ some true))
          ⊎ ((r ≡ some fleet) ⊎ (r ≡ none)))

  led-Allowed :
      (client_id : Text) (now : ℤ) (n : Node S) (b : Option Bool) (act : Option (Fleet S T))
      → lookup name fleet.nodes ≡ some n
      → is_leader client_id now n.lease ≡ b
      → Only act
      → Allowed client_id now (if_led b act fleet)
  unfolding if_led
  led-Allowed client_id now n none act e f h = (tt, inr (inr refl))
  led-Allowed client_id now n (some false) act e f h = ((refl, λ other ne. refl), inr (inl refl))
  led-Allowed client_id now n (some true) act e f h = (h, inl (n, e, f))

  found-Allowed :
      (client_id : Text) (now : ℤ) (act : Provider T → Option (Provider T))
      (found : Option (Node S))
      → lookup name fleet.nodes ≡ found
      → Allowed client_id now (elim found [
        | none ↦ some fleet
        | some n ↦ if_led (is_leader client_id now n.lease) (on_provider name act fleet) fleet
      ])
  found-Allowed client_id now act none e = ((refl, λ other ne. refl), inr (inl refl))
  found-Allowed client_id now act (some n) e =
      led-Allowed client_id now n (is_leader client_id now n.lease) (on_provider name act fleet) e
        refl (provider-Only act)

  when_led-Allowed :
      (client_id : Text) (now : ℤ) (act : Provider T → Option (Provider T))
      → Allowed client_id now (when_led client_id now name act fleet)
  unfolding when_led
  when_led-Allowed client_id now act =
      found-Allowed client_id now act (lookup name fleet.nodes) refl

  -- Reports of biz modules touch the provider of that node only, and nothing at all unless the client
  -- leads the node, in both handlers.
  pub reports-Allowed :
      (tunnel : Tunnel T) (timers : ℕ) (cache_get : Text → Text → PodResult) (local_ip : Text)
      (by_age : List Pod → List Pod) (client_id : Text) (now : ℤ) (pods : List Pod)
      (ds : List BizStatusData) (d : BizStatusData)
      → Allowed client_id now (
          on_all_biz_status_arrived tunnel timers cache_get local_ip by_age client_id now name pods
            ds fleet)
        × Allowed client_id now (
            on_single_biz_status_arrived tunnel timers cache_get local_ip client_id now name pods d
              fleet)
  unfolding on_all_biz_status_arrived on_single_biz_status_arrived
  reports-Allowed tunnel timers cache_get local_ip by_age client_id now pods ds d =
      (when_led-Allowed client_id now _, when_led-Allowed client_id now _)
