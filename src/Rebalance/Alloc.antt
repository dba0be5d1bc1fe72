-- ===== src/Rebalance/Alloc.antt =====
-- AllocSlots. The sums of floats that it rounds are a parameter: `ends i` is
-- `utils.Round(cursor + slotsPerNode - 1)` in round `i`.
use k8s_cluster.Base.{
  List, [], false, if◌then◌else◌, length, none, some, true, ℕ, ◌+◌, ◌==◌, ◌||◌, ◌∷◌,
}
use k8s_cluster.Base.Int.{ℤ, pos, pos_part, ltb_ℤ, sub_ℕ}
use k8s_cluster.Slot.{Slot, build_slot_slice}
use k8s_cluster.Node.{Ptr, Nodes, Heap, write, ip_port}
use k8s_cluster.Admin.{Command, Log, Oracle, send}
use k8s_cluster.Rebalance.Move.{Run}

-- The last slot of round `i`.
unfoldable pub last_slot : (ℕ → ℤ) → ℕ → ℕ → ℕ → ℕ → ℤ
last_slot ends slots masters i first =
    let last = if ltb_ℤ (pos slots) (ends i) || i + 1 == masters then sub_ℕ slots 1 else ends i in
    if ltb_ℤ last (pos first) then pos first else last

-- The slots are below the largest word, so the loop of `BuildSlotSlice` ends.
abbrev pub slice_between : ℕ → ℕ → List Slot
slice_between first last = elim (build_slot_slice first last) [ none ↦ [] | some s ↦ s ]

unfoldable pub assign_slots : Heap → Ptr → List Slot → Heap
unfolding write
assign_slots h p slots = write h p (record (h p) { slots = slots })

unfoldable pub alloc_loop : Oracle → (ℕ → ℤ) → ℕ → ℕ → ℕ → ℕ → Nodes → Heap → Log → Run
alloc_loop o ends slots masters i first [] h log = record { fine = true; heap = h; log = log }
alloc_loop o ends slots masters i first (p ∷ nodes) h log =
    let last = pos_part (last_slot ends slots masters i first) in
    let h' = assign_slots h p (slice_between first last) in
    let (added, log') = send o (Command.add_slots (ip_port (h p)) (slice_between first last)) log in
    let rest = alloc_loop o ends slots masters (i + 1) (last + 1) nodes h' log' in
    if added then rest else record { fine = false; heap = h'; log = log' }

unfoldable pub alloc_slots : Oracle → (ℕ → ℤ) → ℕ → Nodes → Heap → Log → Run
unfolding alloc_loop
alloc_slots o ends hash_max_slot new_masters h log =
    alloc_loop o ends (hash_max_slot + 1) (length new_masters) 0 0 new_masters h log
