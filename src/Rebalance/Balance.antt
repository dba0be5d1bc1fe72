-- ===== src/Rebalance/Balance.antt =====
-- The first part of RebalancedCluster: each master's balance, and the loop that takes a positive
-- total off the masters that lack slots.
use k8s_cluster.Base.{
  Option, [], if◌then◌else◌, length, none, some, suc, zero, ℕ, ◌&&◌, ◌+◌, ◌/◌, ◌∷◌,
}
use k8s_cluster.Base.Int.{ℤ, pos, ◌+ℤ◌, ◌-ℤ◌, sub_ℕ, ltb_ℤ}
use k8s_cluster.Node.{Nodes, Heap, write, set_balance}

-- `int(float64(slots) / float64(nbNode))` is the quotient of numbers below 2^53.
unfoldable pub expected_slots : ℕ → ℕ → ℕ
expected_slots hash_max_slot nb_node = (hash_max_slot + 1) / nb_node

unfoldable pub set_balances : ℕ → Nodes → Heap → Heap
unfolding write set_balance
set_balances expected [] h = h
set_balances expected (p ∷ nodes) h =
    set_balances expected nodes
      (write h p (set_balance (h p) (sub_ℕ (length (h p).slots) expected)))

unfoldable pub total_balance : Heap → Nodes → ℤ
total_balance h [] = pos 0
total_balance h (p ∷ nodes) = (h p).balance +ℤ total_balance h nodes

-- One round over the masters.
unfoldable pub lower_round : Nodes → Heap × ℤ → Heap × ℤ
unfolding write set_balance
lower_round [] st = st
lower_round (p ∷ nodes) (h, total) = lower_round nodes (
    if ltb_ℤ (h p).balance (pos 0) && ltb_ℤ (pos 0) total
    then (write h p (set_balance (h p) ((h p).balance -ℤ pos 1)), total -ℤ pos 1)
    else (h, total))

-- `for totalBalance > 0`, on fuel: `none` means that the loop has not ended.
unfoldable pub lower_loop : ℕ → Nodes → Heap × ℤ → Option (Heap × ℤ)
unfolding lower_round
lower_loop zero nodes st = none
lower_loop (suc fuel) nodes st =
    let rest = lower_loop fuel nodes (lower_round nodes st) in
    if ltb_ℤ (pos 0) st.1 then rest else some st
