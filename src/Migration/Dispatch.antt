-- ===== src/Migration/Dispatch.antt =====
-- DispatchSlotToNewMasters: the commands of each move, and the change of the nodes' slots.
use k8s_cluster.Base.{
  Bool, List, [], false, if◌then◌else◌, none, not, some, text_eq, true, ℕ, ◌+◌, ◌==◌, ◌||◌, ◌∷◌,
}
use k8s_cluster.Slot.{Slot, remove_slots}
use k8s_cluster.Slot as Slot
use k8s_cluster.Node.{Ptr, Nodes, Heap, write, ip_port, total_slots, ClusterStatus, Cluster}
use k8s_cluster.Admin.{Action, Command, Log, Oracle, send}
use k8s_cluster.Migration.Plan.{MigrationInfo, Moves, feed_mig_info}

-- The nodes, the log, and whether the call goes on without an error.
pub record Run : Type 0 where
  pub fine : Bool
  pub heap : Heap
  pub log : Log

unfoldable pub drop_slots : Heap → Ptr → List Slot → Heap
unfolding write remove_slots
drop_slots h p slots = write h p (record (h p) { slots = remove_slots (h p).slots slots })

unfoldable pub gain_slots : Heap → Ptr → List Slot → Heap
unfolding write Slot.add_slots
gain_slots h p slots = write h p (record (h p) { slots = Slot.add_slots (h p).slots slots })

-- "now tell all other nodes": the masters that are neither end of the move and still have slots.
-- An error is only logged.
unfoldable pub tell_others : Oracle → Heap → MigrationInfo → Ptr → List Slot → Nodes → Log → Log
unfolding ip_port total_slots
tell_others o h key from slots [] log = log
tell_others o h key from slots (p ∷ masters) log = tell_others o h key from slots masters (
    if text_eq (ip_port (h p)) (ip_port (h key.to)) || text_eq (ip_port (h p)) (ip_port (h from))
    then log
    else if total_slots (h p) == 0
    then log
    else (send o (Command.set_slots (ip_port (h p)) Action.node slots (h key.to).id) log).1)

-- Steps 3 and 4 of a move: errors of these commands are only logged.
unfoldable pub hand_over : Oracle → Nodes → MigrationInfo → Ptr → List Slot → Heap → Log → Run
unfolding ip_port drop_slots gain_slots tell_others
hand_over o all_masters key from slots h log0 =
    let to_addr = ip_port (h key.to) in
    let from_addr = ip_port (h from) in
    let (_, log1) = send o (Command.migrate_keys from_addr (h key.to).id slots) log0 in
    let (_, log2) = send o (Command.set_slots to_addr Action.node slots (h key.to).id) log1 in
    let (_, log3) = send o (Command.set_slots from_addr Action.node slots (h key.to).id) log2 in
    let h1 = drop_slots h from slots in
    let log4 = tell_others o h1 key from slots all_masters log3 in
    record { fine = true; heap = gain_slots h1 key.to slots; log = log4 }

-- Steps 1 and 2 of a move between two nodes.
unfoldable pub move_between : Oracle → Nodes → MigrationInfo → Ptr → List Slot → Heap → Log → Run
unfolding ip_port hand_over
move_between o all_masters key from slots h log0 =
    let (importing, log1) =
      send o (Command.set_slots (ip_port (h key.to)) Action.importing slots (h from).id) log0 in
    let (migrating, log2) =
      send o (Command.set_slots (ip_port (h from)) Action.migrating slots (h key.to).id) log1 in
    if not importing
    then record { fine = false; heap = h; log = log1 }
    else if not migrating
    then record { fine = false; heap = h; log = log2 }
    else hand_over o all_masters key from slots h log2

-- Lost slots are added to the target.
unfoldable pub move_lost : Oracle → MigrationInfo → List Slot → Heap → Log → Run
unfolding ip_port gain_slots
move_lost o key slots h log0 =
    let (added, log1) = send o (Command.add_slots (ip_port (h key.to)) slots) log0 in
    if not added
    then record { fine = false; heap = h; log = log1 }
    else record { fine = true; heap = gain_slots h key.to slots; log = log1 }

unfoldable pub dispatch_move : Oracle → Nodes → MigrationInfo → List Slot → Heap → Log → Run
unfolding move_between move_lost
dispatch_move o all_masters key slots h log = elim key.from [
  | none ↦ move_lost o key slots h log
  | some from ↦ move_between o all_masters key from slots h log
]

-- The loop over the moves, in the order in which the map is read; it ends at the first error.
unfoldable pub dispatch_moves : Oracle → Nodes → Moves → Heap → Log → Run
unfolding dispatch_move
dispatch_moves o all_masters [] h log = record { fine = true; heap = h; log = log }
dispatch_moves o all_masters ((key, slots) ∷ moves) h log =
    let run = dispatch_move o all_masters key slots h log in
    let rest = dispatch_moves o all_masters moves run.heap run.log in if run.fine then rest else run

unfoldable pub dispatch_slot_to_new_masters :
    Oracle → ℕ → Nodes → Nodes → Nodes → Cluster → Heap → Log → Cluster × Run
unfolding feed_mig_info dispatch_moves
dispatch_slot_to_new_masters o hash_max_slot new_masters current_masters all_masters c h log =
    let (moves, nb_slots_to_migrate) =
      feed_mig_info h new_masters current_masters (hash_max_slot + 1) in
    (
      record c { nb_slots_to_migrate = nb_slots_to_migrate; status = ClusterStatus.rebalancing },
      dispatch_moves o all_masters moves h log,
    )
