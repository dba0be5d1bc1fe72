-- ===== src/Tests/Moves.antt =====
-- The migration of slots.
use k8s_cluster.Base.{
  List, Text, [], arith, codes, if◌then◌else◌, ltb, none, not, refl, some, true, ◌&&◌, ◌++◌, ◌==◌,
  ◌||◌, ◌∷◌, ◌≡◌, text_eq,
}
use k8s_cluster.Slot.{Slot, contains}
use k8s_cluster.Node.{Nodes}
use k8s_cluster.Admin.{always}
use k8s_cluster.Migration.{
  MigrationInfo, full_range, retrieve_lost_slots, ids_of, slots_of, filling_of, fill_all,
  build_slot_by_node_from_available_slots, feed_mig_info, move_between, hand_over, dispatch_moves,
  has_id, build_slots_by_node,
}
use k8s_cluster.Migration.Lost.{contains-retrieve_lost_slots}
use k8s_cluster.Migration.Balance.{
  count_slots, IsFilling, fill_all-IsFilling_final,
  count_slots-build_slot_by_node_from_available_slots,
}
use k8s_cluster.Migration.Moves.{moved, AllMoves, IsSound, feed_mig_info-IsPlan}
use k8s_cluster.Migration.Owners.{owns, owned, owns-hand_over, owned-dispatch_moves}
use k8s_cluster.Migration.Removed.{handed-build_slots_by_node}
use k8s_cluster.Migration.Named.{handed}
use k8s_cluster.Migration.Order.{importing_command, migrating_command, log_by, move_between-log}
use k8s_cluster.Tests.Samples.{heap}

-- The move from the first node to the third.
abbrev key : MigrationInfo
key = record { from = some 0; to = 2 }

abbrev masters : Nodes
masters = 0 ∷ 1 ∷ 2 ∷ []

abbrev moves : List (MigrationInfo × List Slot)
moves = (key, 4 ∷ 5 ∷ []) ∷ (record { from = none; to = 2 }, 11 ∷ []) ∷ []

abbrev available : List (Text × List Slot)
available = (codes "aaa", 4 ∷ 5 ∷ []) ∷ ([], 11 ∷ []) ∷ []

owned-dispatch_moves_example :
    owned always masters masters (dispatch_moves always masters moves heap []).heap 4 ≡ true
unfolding contains
owned-dispatch_moves_example =
    owned-dispatch_moves always masters masters moves heap [] 4 (refl, (refl, tt)) refl

handed-build_slots_by_node_example :
    handed heap (1 ∷ 2 ∷ []) 4 (build_slots_by_node heap (1 ∷ 2 ∷ []) (0 ∷ 1 ∷ []) 12) ≡ true
unfolding text_eq contains has_id
handed-build_slots_by_node_example =
    handed-build_slots_by_node heap 1 (2 ∷ []) (0 ∷ 1 ∷ []) 12 (codes "aaa") 4 refl refl refl
      ((λ e. refl), ((λ e. ground arith), tt))

feed_mig_info-IsPlan_example :
    AllMoves (IsSound heap masters (0 ∷ 1 ∷ [])) (feed_mig_info heap masters (0 ∷ 1 ∷ []) 12).0
    × (moved (feed_mig_info heap masters (0 ∷ 1 ∷ []) 12).0
        ≡ (feed_mig_info heap masters (0 ∷ 1 ∷ []) 12).1)
feed_mig_info-IsPlan_example = feed_mig_info-IsPlan heap masters (0 ∷ 1 ∷ []) 12

count_slots-build_slot_by_node_from_available_slots_example :
    count_slots 5 (build_slot_by_node_from_available_slots heap masters 4 available)
    ≡ count_slots 5 available
count_slots-build_slot_by_node_from_available_slots_example =
    count_slots-build_slot_by_node_from_available_slots heap 0 (1 ∷ 2 ∷ []) 4 available 5

move_between-log_example :
    let importing = always ([] ++ importing_command heap key 0 (4 ∷ []) ∷ []) in
    let migrating =
      always (
        [] ++ importing_command heap key 0 (4 ∷ []) ∷ migrating_command heap key 0 (4 ∷ []) ∷ []) in
    let run = move_between always masters key 0 (4 ∷ []) heap [] in
    (run.fine ≡ (importing && migrating))
    × (run.heap ≡ (if importing && migrating then run.heap else heap))
    × (run.log ≡ log_by heap key 0 (4 ∷ []) importing migrating masters [])
move_between-log_example = move_between-log always masters key 0 (4 ∷ []) heap []

owns-hand_over_example : owns (hand_over always masters key 0 (4 ∷ []) heap []).heap 4 2 ≡ (
    if key.to == 2
    then owns heap 4 2 || contains (4 ∷ []) 4
    else if 0 == 2
    then owns heap 4 2 && not (contains (4 ∷ []) 4)
    else owns heap 4 2)
owns-hand_over_example =
    owns-hand_over always masters key 0 (4 ∷ []) heap [] 2 4 (λ e. omega (arith, e))

contains-retrieve_lost_slots_example :
    contains (retrieve_lost_slots heap (0 ∷ 1 ∷ []) 12) 11
    ≡ (ltb 11 12 && not (contains (full_range heap (0 ∷ 1 ∷ [])) 11))
unfolding full_range
contains-retrieve_lost_slots_example =
    contains-retrieve_lost_slots heap (0 ∷ 1 ∷ []) 12 11
      (
        omega arith,
        (
          omega arith,
          (
            omega arith,
            (
              omega arith,
              (
                omega arith,
                (
                  omega arith,
                  (omega arith, (omega arith, (omega arith, (omega arith, (omega arith, tt))))),
                ),
              ),
            ),
          ),
        ),
      )
      (omega arith) (omega arith)

fill_all-IsFilling_final_example :
    IsFilling
      (ids_of heap masters)
      4
      (slots_of heap masters)
      (fill_all (ids_of heap masters) 4 available (filling_of heap masters))
      2
fill_all-IsFilling_final_example = fill_all-IsFilling_final heap 0 (1 ∷ 2 ∷ []) 4 available 2
