-- ===== src/Rebalance/Move.antt =====
-- computeReshardTable and moveSlot. The product and quotient of floats in computeReshardTable are
-- a parameter: `share first numSlots total node` is `int(math.Ceil(..))` where `first`, and else
-- `int(math.Floor(..))`, of numSlots / total * node.
use k8s_cluster.Base.{
  Bool, List, Option, [], false, if◌then◌else◌, length, ltb, none, not, some, suc, true, zero, ℕ,
  ◌++◌, ◌+◌, ◌∷◌,
}
use k8s_cluster.Slot.{Slot, remove_slot}
use k8s_cluster.Node.{Ptr, Nodes, Heap, write, ip_port, sort_by_func, total_slots}
use k8s_cluster.Admin.{Action, Command, Log, Oracle, send}

abbrev pub Share : Type 0
Share = (first : Bool) (num_slots total node : ℕ) → ℕ

pub record MovedNode : Type 0 where
  pub source : Ptr
  pub slot : Slot

-- `for i := 0; i < int(n); i++` over the keys. `none` is the panic on an index out of range.
unfoldable pub take_keys : Ptr → ℕ → ℕ → List Slot → List MovedNode → Option (List MovedNode)
take_keys p num_slots zero keys moved = some moved
take_keys p num_slots (suc n) [] moved =
    let rest = take_keys p num_slots n [] moved in
    if ltb (length moved) num_slots then none else rest
take_keys p num_slots (suc n) (k ∷ keys) moved =
    take_keys p num_slots n keys (
      if ltb (length moved) num_slots then moved ++ record { source = p; slot = k } ∷ [] else moved)

unfoldable pub sum_slots : Heap → Nodes → ℕ
unfolding total_slots
sum_slots h [] = 0
sum_slots h (p ∷ nodes) = total_slots (h p) + sum_slots h nodes

unfoldable pub table_loop :
    Share → Heap → ℕ → ℕ → Bool → Nodes → List MovedNode → Option (List MovedNode)
unfolding take_keys total_slots
table_loop share h num_slots total first [] moved = some moved
table_loop share h num_slots total first (p ∷ nodes) moved =
    elim (take_keys p num_slots (share first num_slots total (total_slots (h p))) (h p).slots
      moved) [ none ↦ none | some moved' ↦ table_loop share h num_slots total false nodes moved' ]

unfoldable pub compute_reshard_table : Share → Heap → Nodes → ℕ → Option (List MovedNode)
unfolding table_loop sum_slots sort_by_func
compute_reshard_table share h src num_slots =
    let sources = sort_by_func h (λ a b. ltb (total_slots a) (total_slots b)) src in
    table_loop share h num_slots (sum_slots h sources) true sources []

-- The nodes, the log, and whether there was no error.
pub record Run : Type 0 where
  pub fine : Bool
  pub heap : Heap
  pub log : Log

unfoldable pub lose_slot : Heap → Ptr → Slot → Heap
unfolding write remove_slot
lose_slot h p slot = write h p (record (h p) { slots = remove_slot (h p).slots slot })

-- IMPORTING names the target and MIGRATING the source, as the source code has it. Errors of the
-- last two commands are only logged.
unfoldable pub move_slot : Oracle → MovedNode → Ptr → Heap → Log → Run
unfolding ip_port lose_slot
move_slot o e target h log0 =
    let t = h target in
    let s = h e.source in
    let (importing, log1) =
      send o (Command.set_slot (ip_port t) Action.importing e.slot t.id) log0 in
    let (migrating, log2) =
      send o (Command.set_slot (ip_port s) Action.migrating e.slot s.id) log1 in
    let (migrated, log3) = send o (Command.migrate_keys_in_slot (ip_port s) t.id e.slot) log2 in
    let (_, log4) = send o (Command.set_slot (ip_port t) Action.node e.slot t.id) log3 in
    let (_, log5) = send o (Command.set_slot (ip_port s) Action.node e.slot t.id) log4 in
    if not importing
    then record { fine = false; heap = h; log = log1 }
    else if not migrating
    then record { fine = false; heap = h; log = log2 }
    else if not migrated
    then record { fine = false; heap = h; log = log3 }
    else record { fine = true; heap = lose_slot h e.source e.slot; log = log5 }

unfoldable pub move_table : Oracle → List MovedNode → Ptr → Heap → Log → Run
unfolding move_slot
move_table o [] target h log = record { fine = true; heap = h; log = log }
move_table o (e ∷ table) target h log =
    let run = move_slot o e target h log in
    let rest = move_table o table target run.heap run.log in if run.fine then rest else run
