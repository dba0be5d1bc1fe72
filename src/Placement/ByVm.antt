-- ===== src/Placement/ByVm.antt =====
-- The older placement by machine, pkg/controller/clustering/placement.go: sortRedisNodeByVM,
-- PlaceMasters and checkIfSameVM; DispatchMasters of migration.go calls PlaceMasters.
use k8s_cluster.Base.{
  Bool, List, Option, Text, [], false, if◌then◌else◌, leb, length, ltb, none, not, some, suc,
  text_eq, true, zero, ℕ, ◌&&◌, ◌++◌, ◌∷◌, take,
}
use k8s_cluster.Base.Assoc.{append_at}
use k8s_cluster.Node.{
  Nodes, Heap, Cluster, ClusterStatus, NodesPlacementInfo, cluster_node_by_id, filter_by_func,
  sort_by_func, is_master_with_slot, is_master_with_no_slot, less_by_id,
}
use k8s_cluster.Placement.Context.{name_or_unknown, unknown_vm_name}

unfoldable pub sort_by_vm : Heap → Cluster → Nodes → List (Text × Nodes) → List (Text × Nodes)
unfolding cluster_node_by_id append_at
sort_by_vm h c [] m = m
sort_by_vm h c (r ∷ nodes) m = sort_by_vm h c nodes (elim (cluster_node_by_id h c (h r).id) [
  | none ↦ m
  | some n ↦ append_at (name_or_unknown (h n).node_name) r m
])

unfoldable pub sort_redis_node_by_vm : Heap → Cluster → Nodes → List (Text × Nodes)
unfolding sort_by_vm
sort_redis_node_by_vm h c nodes = sort_by_vm h c nodes []

abbrev pub has_key : Text → List (Text × Nodes) → Bool
has_key k [] = false
has_key k ((j, _) ∷ m) = if text_eq j k then true else has_key k m

-- The variables of the loops of `PlaceMasters`. `full` is the early return.
pub record Picking : Type 0 where
  pub selection : Nodes
  pub master_by_vm : List (Text × Nodes)
  pub progress : Bool
  pub full : Bool

module _ (taken : List (Text × Nodes)) (nb_master : ℕ) (best_effort : Bool) where
  -- The inner loop, over the machines: one node from each that is not passed over.
  unfoldable pub pick_round : List (Text × Nodes) → Nodes → Picking
  pick_round [] selection = record {
    selection = selection;
    master_by_vm = [];
    progress = false;
    full = false;
  }
  pick_round ((vm, []) ∷ m) selection =
      let rest = pick_round m selection in
      record rest { master_by_vm = (vm, []) ∷ rest.master_by_vm }
  pick_round ((vm, p ∷ nodes) ∷ m) selection =
      let skipped = pick_round m selection in
      let selection' = selection ++ p ∷ [] in
      let rest = pick_round m selection' in
      if not best_effort && has_key vm taken
      then record skipped { master_by_vm = (vm, p ∷ nodes) ∷ skipped.master_by_vm }
      else if leb nb_master (length selection')
      then record {
        selection = selection';
        master_by_vm = (vm, nodes) ∷ m;
        progress = true;
        full = true;
      }
      else record rest { master_by_vm = (vm, nodes) ∷ rest.master_by_vm; progress = true }

-- The outer loop: the selection, whether it is best effort, and whether it is large enough. On
-- fuel: `none` means that the loop has not ended.
unfoldable pub pick_loop :
    ℕ → List (Text × Nodes) → ℕ → Bool → List (Text × Nodes) → Nodes → Option (Nodes × Bool × Bool)
unfolding pick_round
pick_loop zero taken nb_master best_effort m selection = none
pick_loop (suc fuel) taken nb_master best_effort m selection =
    let round = pick_round taken nb_master best_effort m selection in
    let again = pick_loop fuel taken nb_master true round.master_by_vm round.selection in
    if leb nb_master (length selection)
    then some (selection, best_effort, true)
    else if round.full
    then some (round.selection, best_effort, true)
    else if best_effort && not round.progress
    then some (round.selection, best_effort, leb nb_master (length round.selection))
    else again

unfoldable pub place_masters_by_vm :
    ℕ → Heap → Cluster → Nodes → Nodes → ℕ → Option (Nodes × Bool × Bool)
unfolding pick_loop sort_redis_node_by_vm
place_masters_by_vm fuel h c current_master all_possible_masters nb_master =
    let selection =
      if ltb nb_master (length current_master)
      then take nb_master current_master
      else current_master in
    pick_loop fuel (sort_redis_node_by_vm h c current_master) nb_master false
      (sort_redis_node_by_vm h c all_possible_masters) selection

-- `checkIfSameVM`
unfoldable pub check_if_same_vm : Heap → Cluster → Text → Text → Bool
unfolding cluster_node_by_id
check_if_same_vm h c redis_id vm_name = elim (cluster_node_by_id h c redis_id) [
  | none ↦ text_eq vm_name unknown_vm_name
  | some n ↦ text_eq vm_name (h n).node_name
]

-- `DispatchMasters` of migration.go: the selection sorted by ID, the current and all masters, and
-- the cluster with its status; the last component is false on the error.
pub record Dispatched : Type 0 where
  pub new_masters : Nodes
  pub current_masters : Nodes
  pub all_masters : Nodes
  pub cluster : Cluster
  pub fine : Bool

unfoldable pub dispatch_masters_by_vm : ℕ → Heap → Cluster → Nodes → ℕ → Option Dispatched
unfolding place_masters_by_vm filter_by_func is_master_with_slot is_master_with_no_slot sort_by_func
    less_by_id
dispatch_masters_by_vm fuel h c nodes nb_master =
    let current = filter_by_func h is_master_with_slot nodes in
    let free = filter_by_func h is_master_with_no_slot nodes in
    elim (place_masters_by_vm fuel h c current free nb_master) [
      | none ↦ none
      | some (selection, best_effort, true) ↦ some (record {
        new_masters = sort_by_func h less_by_id selection;
        current_masters = current;
        all_masters = current ++ free;
        cluster = record c {
          status = ClusterStatus.calculating_rebalancing;
          nodes_placement =
              if best_effort then NodesPlacementInfo.best_effort else NodesPlacementInfo.optimal;
        };
        fine = true;
      })
      | some (_, _, false) ↦ some (record {
        new_masters = [];
        current_masters = [];
        all_masters = [];
        cluster = c;
        fine = false;
      })
    ]
