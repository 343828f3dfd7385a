-- ===== src/TakeOver/Tests.antt =====
-- The life of a virtual node (provider/vnode.go, vnode_controller/vnode_controller.go) in small runs.
use virtual_kubelet.Common.{
  ℕ, suc, ◌≤◌, ◌≡◌, refl, ◌⊎◌, true, false, Option, none, some, Error, not_found, is_not_found,
}
use virtual_kubelet.TakeOver.{
  holding, Life, begin_take_over, activate, clean_up, release, signalled, taken, registers,
  activates, found_ready, lost, shut_down, exits, stale_cleans, deletes, Reach, at_start, next,
  RemoveApi, remove_lease, read_node, remove, check_node_exists_in_client,
}
use virtual_kubelet.TakeOver.Sound.{is_taken, is_active, Reach-Sound}

-- Taken over, shut down, cleaned up and deleted.
deleted : (s : Life) × Reach s × (s.stored ≡ false)
unfolding begin_take_over activate clean_up
deleted =
    let r1 = next at_start refl (signalled refl) in
    let r2 = next r1 refl (taken refl refl) in
    let r3 = next r2 refl (registers refl) in
    let r4 = next r3 refl (activates refl) in
    let r5 = next r4 refl (found_ready refl refl) in
    let r6 = next r5 refl shut_down in
    let r7 = next r6 refl (exits refl refl) in
    let r8 = next r7 refl (deletes refl refl) in (_, r8, refl)

abbrev last : Life
last = deleted.0

Reach-Sound_example :
    (last.crashed ≡ false)
    × (last.take_overed ≡ is_taken last.main)
    × ((last.registered ≡ false) ⊎ ((last.watching ≡ true) ⊎ (1 ≤ last.stale)))
    × ((last.ready ≡ false)
        ⊎ ((last.watching ≡ true) × (is_active last.main ≡ true))
        ⊎ ((last.done ≡ true) ⊎ (1 ≤ last.stale)))
    × ((last.done ≡ false) ⊎ (last.exit ≡ true))
    × ((last.stored ≡ true) ⊎ (last.done ≡ true))
unfolding deleted
Reach-Sound_example = Reach-Sound deleted.1

-- The clean-up of a take-over that was lost comes late, and undoes the next one.
undone :
    (s : Life) × Reach s
    × (s.main ≡ holding)
    × (s.exit ≡ false)
    × (s.ready ≡ false)
    × (s.registered ≡ false)
unfolding begin_take_over activate clean_up release
undone =
    let r1 = next at_start refl (signalled refl) in
    let r2 = next r1 refl (taken refl refl) in
    let r3 = next r2 refl (registers refl) in
    let r4 = next r3 refl (activates refl) in
    let r5 = next r4 refl (found_ready refl refl) in
    let r6 = next r5 refl (lost refl) in
    let r7 = next r6 refl (signalled refl) in
    let r8 = next r7 refl (taken refl refl) in
    let r9 = next r8 refl (registers refl) in
    let r10 = next r9 refl (activates refl) in
    let r11 = next r10 refl (found_ready refl refl) in
    let r12 = next r11 refl (stale_cleans 0 refl) in (_, r12, refl, refl, refl, refl)

-- The node is there, the lease is gone.
abbrev api : RemoveApi ℕ
api = record {
  delete_node = λ s. (none, suc s);
  get_node = λ s. (some not_found, suc s);
  delete_lease = λ s. (some not_found, suc s);
}

abbrev missing : ℕ → Option Error × ℕ
missing s = (some not_found, suc s)

take_over_program : Unit {0}
unfolding remove_lease read_node remove check_node_exists_in_client begin_take_over activate
    clean_up release is_not_found
take_over_program = tt
