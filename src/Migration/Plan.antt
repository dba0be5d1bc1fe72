-- ===== src/Migration/Plan.antt =====
-- The plan: retrieveSlotToMigrateFrom, retrieveSlotToMigrateFromRemovedNodes, retrieveLostSlots,
-- buildSlotByNodeFromAvailableSlots, buildSlotsByNode and feedMigInfo. Logging is left out, and
-- with it the totals of buildSlotsByNode that only the log shows.
use k8s_cluster.Slot.{Slot, contains, next}
use k8s_cluster.Node.{Ptr, Nodes, get_node_by_id}
use k8s_cluster.Node.{Heap}
use k8s_cluster.Base.{
  Bool, List, Option, Text, [], false, if◌then◌else◌, leb, length, ltb, map, none, some, suc,
  text_eq, true, up_from, zero, ℕ, ◌&&◌, ◌++◌, ◌+◌, ◌-◌, ◌/◌, ◌==◌, ◌∷◌, drop, set, any,
}
use k8s_cluster.Base.Sort.{sort}
use k8s_cluster.Base.Assoc.{insert, slice_at, append_at}

-- `int(math.Ceil(float64(a) / float64(b)))` for numbers that a float64 holds exactly, b not 0.
unfoldable pub ceil_div : ℕ → ℕ → ℕ
ceil_div a b = (a + b - 1) / b

-- `for id, slots := range more { m[id] = slots }`
unfoldable pub insert_all :
    List (Text × List Slot) → List (Text × List Slot) → List (Text × List Slot)
unfolding insert
insert_all m [] = m
insert_all m ((id, slots) ∷ more) = insert_all (insert id slots m) more

-- `append(m[id], more...)` stored under `id`
unfoldable pub append_all : Text → List Slot → List (Text × List Slot) → List (Text × List Slot)
unfolding insert slice_at
append_all id more m = insert id (slice_at id m ++ more) m

module _ (h : Heap) where
  unfoldable pub migrate_from_loop : Nodes → ℕ → List (Text × List Slot) → List (Text × List Slot)
  unfolding append_all
  migrate_from_loop [] nb_slot_by_node m = m
  migrate_from_loop (p ∷ nodes) nb_slot_by_node m =
      let n = h p in
      let surplus = drop nb_slot_by_node n.slots in
      migrate_from_loop nodes nb_slot_by_node (
        if leb nb_slot_by_node (length n.slots) && ltb 0 (length surplus)
        then append_all n.id surplus m
        else m)

  unfoldable pub retrieve_slot_to_migrate_from : Nodes → ℕ → List (Text × List Slot)
  unfolding migrate_from_loop
  retrieve_slot_to_migrate_from old_master_nodes nb_slot_by_node =
      migrate_from_loop old_master_nodes nb_slot_by_node []

  unfoldable pub has_id : Nodes → Text → Bool
  has_id nodes id = any (λ p. text_eq id (h p).id) nodes

  -- The slots of the old masters that are no new masters.
  unfoldable pub removed_loop : Nodes → Nodes → List (Text × List Slot) → List (Text × List Slot)
  unfolding has_id insert
  removed_loop new_master_nodes [] m = m
  removed_loop new_master_nodes (p ∷ old) m =
      let n = h p in
      removed_loop new_master_nodes old
        (if has_id new_master_nodes n.id then m else insert n.id n.slots m)

  unfoldable pub retrieve_slot_to_migrate_from_removed_nodes :
      Nodes → Nodes → List (Text × List Slot)
  unfolding removed_loop
  retrieve_slot_to_migrate_from_removed_nodes new_master_nodes old_master_nodes =
      removed_loop new_master_nodes old_master_nodes []

  -- All slots of the nodes, node by node.
  unfoldable pub full_range : Nodes → List Slot
  full_range [] = []
  full_range (p ∷ nodes) = (h p).slots ++ full_range nodes

-- `len(currentFullRange) == 0 || currentFullRange[0] != 0`
unfoldable pub first_lost : List Slot → List Slot
first_lost [] = 0 ∷ []
first_lost (s ∷ slots) = if s == 0 then [] else 0 ∷ []

-- The loop over the sorted slots: the last slot seen, and the lost slots so far.
unfoldable pub lost_loop : Slot → List Slot → List Slot → Slot × List Slot
lost_loop last lost [] = (last, lost)
lost_loop last lost (slot ∷ slots) =
    lost_loop slot
      (if ltb (next last) slot then lost ++ up_from (next last) (slot - next last) else lost) slots

unfoldable pub lost_slots_of : List Slot → ℕ → List Slot
unfolding lost_loop first_lost
lost_slots_of sorted nb_slots =
    let (last, lost) = lost_loop 0 (first_lost sorted) sorted in
    lost ++ up_from (next last) (nb_slots - next last)

unfoldable pub retrieve_lost_slots : Heap → Nodes → ℕ → List Slot
unfolding full_range lost_slots_of sort
retrieve_lost_slots h old_master_nodes nb_slots =
    lost_slots_of (sort ltb (full_range h old_master_nodes)) nb_slots

-- The state of buildSlotByNodeFromAvailableSlots: `slotOfNode` by index, `slotToAddByNode`, and
-- `idNode`.
pub record Filling : Type 0 where
  pub slot_of_node : List (List Slot)
  pub slot_to_add_by_node : List (Text × List Slot)
  pub id_node : ℕ

abbrev pub slots_of_index : List (List Slot) → ℕ → List Slot
slots_of_index [] i = []
slots_of_index (s ∷ slots) zero = s
slots_of_index (s ∷ slots) (suc i) = slots_of_index slots i

abbrev pub id_of_index : List Text → ℕ → Text
id_of_index [] i = []
id_of_index (id ∷ ids) zero = id
id_of_index (id ∷ ids) (suc i) = id_of_index ids i

-- The two `append`s, under index `i`.
unfoldable pub give : List Text → ℕ → Slot → Filling → Filling
unfolding append_at
give ids i slot st = record {
  slot_of_node = set st.slot_of_node i (slots_of_index st.slot_of_node i ++ slot ∷ []);
  slot_to_add_by_node = append_at (id_of_index ids i) slot st.slot_to_add_by_node;
  id_node = i;
}

-- `idNode++`, taken back if it passes the last node.
unfoldable pub advance : ℕ → ℕ → ℕ
advance nb_node id_node = if ltb (nb_node - 1) (id_node + 1) then id_node else id_node + 1

unfoldable pub fill_slot : List Text → ℕ → Slot → Filling → Filling
unfolding give advance
fill_slot ids nb_slot_by_node slot st =
    if ltb (length (slots_of_index st.slot_of_node st.id_node)) nb_slot_by_node
    then give ids st.id_node slot st
    else give ids (advance (length ids) st.id_node) slot st

unfoldable pub fill_slots : List Text → ℕ → List Slot → Filling → Filling
unfolding fill_slot
fill_slots ids nb_slot_by_node [] st = st
fill_slots ids nb_slot_by_node (slot ∷ slots) st =
    fill_slots ids nb_slot_by_node slots (fill_slot ids nb_slot_by_node slot st)

unfoldable pub fill_all : List Text → ℕ → List (Text × List Slot) → Filling → Filling
unfolding fill_slots
fill_all ids nb_slot_by_node [] st = st
fill_all ids nb_slot_by_node ((_, slots) ∷ m) st =
    fill_all ids nb_slot_by_node m (fill_slots ids nb_slot_by_node slots st)

module _ (h : Heap) where
  abbrev pub ids_of : Nodes → List Text
  ids_of nodes = map (λ p. (h p).id) nodes

  abbrev pub slots_of : Nodes → List (List Slot)
  slots_of nodes = map (λ p. (h p).slots) nodes

  abbrev pub filling_of : Nodes → Filling
  filling_of nodes = record { slot_of_node = slots_of nodes; slot_to_add_by_node = []; id_node = 0 }

  unfoldable pub build_slot_by_node_from_available_slots :
      Nodes → ℕ → List (Text × List Slot) → List (Text × List Slot)
  unfolding fill_all
  build_slot_by_node_from_available_slots [] nb_slot_by_node m = []
  build_slot_by_node_from_available_slots (p ∷ nodes) nb_slot_by_node m =
      (fill_all (ids_of (p ∷ nodes)) nb_slot_by_node m (filling_of (p ∷ nodes))).slot_to_add_by_node

  -- The slots that leave a node, by its ID, with the lost slots under the empty ID.
  unfoldable pub slots_to_migrate : Nodes → Nodes → ℕ → ℕ → List (Text × List Slot)
  unfolding retrieve_slot_to_migrate_from retrieve_slot_to_migrate_from_removed_nodes insert_all
      retrieve_lost_slots
  slots_to_migrate new_master_nodes old_master_nodes nb_slot_by_node nb_slots =
      insert [] (retrieve_lost_slots h old_master_nodes nb_slots) (
        insert_all (retrieve_slot_to_migrate_from h old_master_nodes nb_slot_by_node)
          (retrieve_slot_to_migrate_from_removed_nodes h new_master_nodes old_master_nodes))

  unfoldable pub build_slots_by_node : Nodes → Nodes → ℕ → List (Text × List Slot)
  unfolding ceil_div slots_to_migrate build_slot_by_node_from_available_slots
  build_slots_by_node [] old_master_nodes nb_slots = []
  build_slots_by_node (p ∷ nodes) old_master_nodes nb_slots =
      let nb_slot_by_node = ceil_div nb_slots (length (p ∷ nodes)) in
      build_slot_by_node_from_available_slots (p ∷ nodes) nb_slot_by_node
        (slots_to_migrate (p ∷ nodes) old_master_nodes nb_slot_by_node nb_slots)

-- `migrationInfo`: the keys are compared as pointers; `none` is the nil pointer.
pub record MigrationInfo : Type 0 where
  pub from : Option Ptr
  pub to : Ptr

abbrev pub ptr_eq : Option Ptr → Option Ptr → Bool
ptr_eq none none = true
ptr_eq (some p) (some q) = p == q
ptr_eq _ _ = false

abbrev pub same_move : MigrationInfo → MigrationInfo → Bool
same_move a b = ptr_eq a.from b.from && a.to == b.to

-- `mapSlotByMigInfo`
abbrev pub Moves : Type 0
Moves = List (MigrationInfo × List Slot)

unfoldable pub add_move : MigrationInfo → Slot → Moves → Moves
add_move key s [] = (key, s ∷ []) ∷ []
add_move key s ((k, slots) ∷ m) =
    if same_move k key then (k, slots ++ s ∷ []) ∷ m else (k, slots) ∷ add_move key s m

-- What the loop over the old masters finds for slot `s` of target `id`: nothing to do, a move, or
-- no old master that owns the slot.
pub data Found : Type 0 where
  stays : Found
  moves : MigrationInfo → Found
  lost : Found

module _ (h : Heap) (new_master_nodes : Nodes) where
  unfoldable pub find_owner : Text → Slot → Nodes → Found
  unfolding contains get_node_by_id
  find_owner id s [] = lost
  find_owner id s (old ∷ olds) =
      if text_eq (h old).id id
      then (if contains (h old).slots s then stays else find_owner id s olds)
      else if contains (h old).slots s
      then elim (get_node_by_id h id new_master_nodes) [
        | none ↦ find_owner id s olds
        | some to ↦ moves (record { from = some old; to = to })
      ]
      else find_owner id s olds

  -- The moves and the counter `NbslotsToMigrate`.
  unfoldable pub record_move : Found → Text → Slot → Moves × ℕ → Moves × ℕ
  unfolding add_move get_node_by_id
  record_move stays id s (m, n) = (m, n)
  record_move (moves key) id s (m, n) = (add_move key s m, n + 1)
  record_move lost id s (m, n) = elim (get_node_by_id h id new_master_nodes) [
    | none ↦ (m, n)
    | some to ↦ (add_move (record { from = none; to = to }) s m, n + 1)
  ]

  module _ (old_master_nodes : Nodes) where
    unfoldable pub feed_slots : Text → List Slot → Moves × ℕ → Moves × ℕ
    unfolding find_owner record_move
    feed_slots id [] st = st
    feed_slots id (s ∷ slots) st =
        feed_slots id slots (record_move (find_owner id s old_master_nodes) id s st)

    unfoldable pub feed_all : List (Text × List Slot) → Moves × ℕ → Moves × ℕ
    unfolding feed_slots
    feed_all [] st = st
    feed_all ((id, slots) ∷ m) st = feed_all m (feed_slots id slots st)

unfoldable pub feed_mig_info : Heap → Nodes → Nodes → ℕ → Moves × ℕ
unfolding build_slots_by_node feed_all
feed_mig_info h new_master_nodes old_master_nodes nb_slots =
    feed_all h new_master_nodes old_master_nodes
      (build_slots_by_node h new_master_nodes old_master_nodes nb_slots) ([], 0)
