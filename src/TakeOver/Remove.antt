-- ===== src/TakeOver/Remove.antt =====
-- What `Remove` and the check of `Run` (provider/vnode.go) achieve, by the answers of Kubernetes.
use virtual_kubelet.Common.{
  ℕ, suc, ◌≡◌, refl, ◌⊎◌, inl, inr, Bool-cases, true, false, Option, none, some, List, [], ◌∷◌,
  Error, is_not_found, wrapped, text, if-holds, arith,
}
use virtual_kubelet.Pods.{Outcome, ok, panic, error}
use virtual_kubelet.Polling.{after_check, check_and_finally_call}
use virtual_kubelet.TakeOver.{
  RemoveCall, node_deleted, node_read, lease_deleted, RemoveApi, is_harmless, outcome_of,
  remove_lease, read_node, remove, check_node_exists_in_client,
}

-- The node and its lease are deleted, or were not there.
abbrev pub IsRemoved : List RemoveCall → Type 0
IsRemoved calls =
    (a b c : Option Error) × (calls ≡ lease_deleted c ∷ node_read b ∷ node_deleted a ∷ [])
    × (is_harmless a ≡ true)
    × (is_harmless c ≡ true)

-- The answer to the latest call.
abbrev pub latest : List RemoveCall → Option Error
latest [] = none
latest (node_deleted e ∷ calls) = e
latest (node_read e ∷ calls) = e
latest (lease_deleted e ∷ calls) = e

-- A result without an error, or with the harmless one, means that everything is removed; any other
-- error is that of the latest call.
abbrev pub Told : Outcome → List RemoveCall → Type 0
Told ok calls = IsRemoved calls
Told panic calls = ⊥
Told (error e) calls =
    ((is_not_found e ≡ true) × IsRemoved calls)
    ⊎ ((is_not_found e ≡ false) × (latest calls ≡ some e))

module _ {S : Type 0} (api : RemoveApi S) where
  refused-Told :
      (e : Option Error) (calls : List RemoveCall)
      → is_harmless e ≡ false
      → latest calls ≡ e
      → Told (outcome_of e) calls
  refused-Told none calls h g = let bad : ⊥ = cc in elim bad [ ]
  refused-Told (some e) calls h g = ground arith

  lease-Told :
      (a b c : Option Error)
      → is_harmless a ≡ true
      → Told (outcome_of c) (lease_deleted c ∷ node_read b ∷ node_deleted a ∷ [])
  lease-Told a b none h = (a, b, none, refl, h, refl)
  lease-Told a b (some e) h = elim (Bool-cases (is_not_found e)) [
    | inl gone ↦ inl (gone, (a, b, some e, refl, h, gone))
    | inr other ↦ inr (other, refl)
  ]

  -- If the node has a lease, removing it does not panic; with no error, or with the error that there
  -- is nothing, both the node and the lease are deleted or were not there; any other error is the
  -- answer to the latest call.
  pub remove-Told : (s : S) → let (r, s', calls) = remove api true s in Told r calls
  unfolding remove read_node remove_lease
  remove-Told s =
      let (a, s1) = api.delete_node s in
      let (b, s2) = api.get_node s1 in
      let (c, s3) = api.delete_lease s2 in
      if-holds (λ (r : Outcome × S × List RemoveCall). Told r.0 r.2) (is_harmless a)
        (λ h.
          if-holds (λ (r : Outcome × S × List RemoveCall). Told r.0 r.2) (is_harmless b)
            (λ g. lease-Told a b c h)
            (λ g. refused-Told b (node_read b ∷ node_deleted a ∷ []) g refl))
        (λ h. refused-Told a (node_deleted a ∷ []) h refl)

-- The poll for the node in the cache is decided by its first check, however many ticks there are: if
-- the cache has the node the poll passes, and if not, it fails with the error of that one check.
pub check_node-first :
    {S : Type 0} (get : S → Option Error × S) (finally timeout_call : S → S) (ticks : ℕ) (s : S)
    → let (e, s') = get s in
      check_and_finally_call finally timeout_call (suc ticks) (check_node_exists_in_client get) s
      ≡ (elim e [
        | none ↦ (none, finally s')
        | some x ↦ (some (wrapped (text "Error when checking condition") x), s')
      ])
unfolding check_and_finally_call after_check check_node_exists_in_client
check_node-first get finally timeout_call ticks s = ground arith
