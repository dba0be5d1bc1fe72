-- ===== src/Rebalance/Loop.antt =====
-- The main loop of RebalancedCluster. `sn[dstIdx]` to `sn[srcIdx]` is the window of the masters
-- that the loop still looks at: its first is `dst`, its last `src`, and `dstIdx < srcIdx` says that
-- it has at least two.
use k8s_cluster.Base.{
  Bool, Option, [], if◌then◌else◌, length, ltb, none, some, suc, true, zero, ℕ, ◌++◌, ◌==◌, ◌∷◌,
}
use k8s_cluster.Base.Int.{ℤ, pos, ◌+ℤ◌, ◌-ℤ◌, abs, ltb_ℤ}
use k8s_cluster.Node.{Ptr, Nodes, Heap, write, set_balance, sort_by_func}
use k8s_cluster.Admin.{Log, Oracle}
use k8s_cluster.Rebalance.Balance.{expected_slots, set_balances, total_balance, lower_loop}
use k8s_cluster.Rebalance.Move.{Share, Run, compute_reshard_table, move_table}

-- How a call ends: it returns, it panics, or the fuel is used up.
pub data Ended : Type 0 where
  returned : Run → Ended
  panicked : Ended
  out_of_fuel : Ended

-- `numSlots`
abbrev pub num_slots : ℤ → ℤ → ℕ
num_slots dst src = if ltb (abs dst) (abs src) then abs dst else abs src

unfoldable pub reshard : Share → Oracle → ℕ → Ptr → Ptr → Heap → Log → Option Run
unfolding compute_reshard_table move_table
reshard share o n dst src h log =
    if ltb 0 n
    then elim (compute_reshard_table share h (src ∷ []) n) [
      | none ↦ none
      | some table ↦ some (move_table o table dst h log)
    ]
    else some (record { fine = true; heap = h; log = log })

-- "Update nodes balance": the two assignments, one after the other.
unfoldable pub shift_balance : Ptr → Ptr → ℕ → Heap → Heap
unfolding write set_balance
shift_balance dst src n h =
    let h1 = write h dst (set_balance (h dst) ((h dst).balance +ℤ pos n)) in
    write h1 src (set_balance (h1 src) ((h1 src).balance -ℤ pos n))

abbrev pub is_zero : ℤ → Bool
is_zero a = abs a == 0

-- The window without `dst` if its balance is 0, and without `src` if its balance is 0.
abbrev pub shrink : Heap → Ptr → Nodes → Ptr → Nodes
shrink h dst mid src =
    let back = if is_zero (h src).balance then mid else mid ++ src ∷ [] in
    if is_zero (h dst).balance then back else dst ∷ back

-- `sn` behind its first, as what stands before the last, and the last.
abbrev pub init_last : Ptr → Nodes → Nodes × Ptr
init_last p [] = ([], p)
init_last p (q ∷ nodes) = let (mid, src) = init_last q nodes in (p ∷ mid, src)

unfoldable pub balance_loop : ℕ → Share → Oracle → Nodes → Heap → Log → Ended
unfolding reshard shift_balance
balance_loop zero share o window h log = out_of_fuel
balance_loop (suc fuel) share o [] h log = returned (record { fine = true; heap = h; log = log })
balance_loop (suc fuel) share o (p ∷ []) h log =
    returned (record { fine = true; heap = h; log = log })
balance_loop (suc fuel) share o (dst ∷ q ∷ rest) h log =
    let (mid, src) = init_last q rest in
    let n = num_slots (h dst).balance (h src).balance in
    elim (reshard share o n dst src h log) [
      | none ↦ panicked
      | some run ↦
          let h' = shift_balance dst src n run.heap in
          let next_round = balance_loop fuel share o (shrink h' dst mid src) h' run.log in
          if run.fine then next_round else returned run
    ]

unfoldable pub rebalanced_cluster : ℕ → Share → Oracle → ℕ → Nodes → Heap → Log → Ended
unfolding expected_slots set_balances total_balance lower_loop sort_by_func balance_loop
rebalanced_cluster fuel share o hash_max_slot new_masters h log =
    let h1 = set_balances (expected_slots hash_max_slot (length new_masters)) new_masters h in
    elim (lower_loop fuel new_masters (h1, total_balance h1 new_masters)) [
      | none ↦ out_of_fuel
      | some (h2, _) ↦
          let sn = sort_by_func h2 (λ a b. ltb_ℤ a.balance b.balance) new_masters in
          balance_loop fuel share o sn h2 log
    ]
