-- ===== src/Migration/Removed.antt =====
-- Masters that are to hold no slots any more: retrieveSlotToMigrateFromRemovedNodes, as
-- buildSlotsByNode uses it.
use k8s_cluster.Base.{
  All, Bool, Bool-cases, List, Option, Text, [], ap, arith, false, if◌then◌else◌, inl, inr, length,
  none, refl, some, subst, sym, text_eq, text_eq_sound, true, ℕ, ◌<◌, ◌||◌, ◌∙◌, ◌∷◌, ◌≡◌, any,
  count,
}
use k8s_cluster.Base.Assoc.{lookup, insert, lookup-insert}
use k8s_cluster.Slot.{Slot, contains}
use k8s_cluster.Node.{Ptr, Nodes, Heap, Node}
use k8s_cluster.Migration.Plan.{
  has_id, insert_all, removed_loop, retrieve_slot_to_migrate_from,
  retrieve_slot_to_migrate_from_removed_nodes, retrieve_lost_slots, slots_to_migrate,
  build_slots_by_node, ceil_div,
}
use k8s_cluster.Migration.Named.{handed, handed-build_slot_by_node_from_available_slots}
use k8s_cluster.Migration.Balance.{count_slots, count_slots-build_slot_by_node_from_available_slots}

module _ (id : Text) (e : Slot) where
  -- The map has the slot under the ID.
  abbrev listed : List (Text × List Slot) → Bool
  listed m = elim (lookup id m) [ none ↦ false | some slots ↦ contains slots e ]

  -- The slots that stand under the ID hold the slot.
  abbrev Holds : Text × List Slot → Type 0
  Holds x = text_eq x.0 id ≡ true → contains x.1 e ≡ true

  listed-insert :
      (k : Text) (slots : List Slot) (m : List (Text × List Slot))
      → listed (insert k slots m) ≡ (if text_eq k id then contains slots e else listed m)
  listed-insert k slots m =
      ap
        (λ (o : Option (List Slot)). elim o as (λ _. Bool) [ none ↦ false | some s ↦ contains s e ])
        (lookup-insert k id slots m)
      ∙ elim (Bool-cases (text_eq k id)) [ inl same ↦ rw same refl | inr other ↦ rw other refl ]

  listed-insert_all :
      (m more : List (Text × List Slot))
      → All Holds more
      → (listed m || any (λ x. text_eq x.0 id) more) ≡ true
      → listed (insert_all m more) ≡ true
  unfolding insert_all
  listed-insert_all m [] a l = ground arith
  listed-insert_all m ((k, slots) ∷ more) a l =
      listed-insert_all (insert k slots m) more a.1
        (let i = listed-insert k slots m in let f = a.0 in ground arith)

  insert-Holds :
      (k : Text) (slots : List Slot) (m : List (Text × List Slot))
      → Holds (k, slots)
      → All Holds m
      → All Holds (insert k slots m)
  unfolding insert
  insert-Holds k slots [] f a = (f, tt)
  insert-Holds k slots ((j, v) ∷ m) f a = elim (Bool-cases (text_eq j k)) [
    | inl same ↦
        rw same ((λ y. f (subst (λ t. text_eq t id ≡ true) (text_eq_sound j k same) y)), a.1)
    | inr other ↦ rw other (a.0, insert-Holds k slots m f a.1)
  ]

  any-insert :
      (k : Text) (slots : List Slot) (m : List (Text × List Slot))
      → (text_eq k id || any (λ x. text_eq x.0 id) m) ≡ true
      → any (λ x. text_eq x.0 id) (insert k slots m) ≡ true
  unfolding insert
  any-insert k slots [] y = ground arith
  any-insert k slots ((j, v) ∷ m) y = elim (Bool-cases (text_eq j k)) [
    | inl same ↦ rw same (let q = ap (λ t. text_eq t id) (text_eq_sound j k same) in ground arith)
    | inr other ↦ rw other (ground (arith, any-insert k slots m))
  ]

  contains-count : (slots : List Slot) → contains slots e ≡ true → 0 < count e slots
  unfolding contains
  contains-count [] c = absurd (ground arith)
  contains-count (s ∷ slots) c = ground (arith, contains-count slots)

  listed-count : (m : List (Text × List Slot)) → listed m ≡ true → 0 < count_slots e m
  unfolding lookup
  listed-count [] l = absurd (ground arith)
  listed-count ((k, slots) ∷ m) l = elim (Bool-cases (text_eq k id)) [
    | inl same ↦ let c = contains-count slots (rw (same, listed) at l) in omega arith
    | inr other ↦ let c = listed-count m (rw (other, listed) at l) in omega arith
  ]

module _ (h : Heap) (new_masters : Nodes) (id : Text) (e : Slot) where
  -- The masters with the ID own the slot.
  abbrev pub Own : Nodes → Type 0
  Own nodes = All (λ q. text_eq (h q).id id ≡ true → contains (h q).slots e ≡ true) nodes

  removed_loop-Holds :
      (old : Nodes) (m : List (Text × List Slot))
      → Own old
      → All (Holds id e) m
      → All (Holds id e) (removed_loop h new_masters old m)
  unfolding removed_loop
  removed_loop-Holds [] m o a = a
  removed_loop-Holds (p ∷ old) m o a = elim (Bool-cases (has_id h new_masters (h p).id)) [
    | inl kept ↦ rw kept (removed_loop-Holds old m o.1 a)
    | inr gone ↦
        rw gone (removed_loop-Holds old _ o.1 (insert-Holds id e (h p).id (h p).slots m o.0 a))
  ]

  any-inserted :
      (n : Node) (m : List (Text × List Slot)) (old : Nodes)
      → (any (λ x. text_eq x.0 id) m
          || (if text_eq n.id id then true else any (λ q. text_eq (h q).id id) old))
        ≡ true
      → (any (λ x. text_eq x.0 id) (insert n.id n.slots m) || any (λ q. text_eq (h q).id id) old)
        ≡ true
  any-inserted n m old y = elim (Bool-cases (text_eq n.id id || any (λ x. text_eq x.0 id) m)) [
    | inl here ↦ let k = any-insert id e n.id n.slots m here in ground arith
    | inr later ↦
        let k : any (λ q. text_eq (h q).id id) old ≡ true = ground arith in rw k (ground arith)
  ]

  removed_loop-any :
      (old : Nodes) (m : List (Text × List Slot))
      → has_id h new_masters id ≡ false
      → (any (λ x. text_eq x.0 id) m || any (λ q. text_eq (h q).id id) old) ≡ true
      → any (λ x. text_eq x.0 id) (removed_loop h new_masters old m) ≡ true
  unfolding removed_loop
  removed_loop-any [] m g y = ground arith
  removed_loop-any (p ∷ old) m g y = elim (Bool-cases (has_id h new_masters (h p).id)) [
    | inl kept ↦ elim (Bool-cases (text_eq (h p).id id)) [
      | inl same ↦
          absurd
            (let q = ap (has_id h new_masters) (text_eq_sound (h p).id id same) in ground arith)
      | inr other ↦ rw kept (removed_loop-any old m g (rw other at y))
    ]
    | inr gone ↦ rw gone (removed_loop-any old _ g (any-inserted (h p) m old y))
  ]

or_any : (a b : Bool) → b ≡ true → (a || b) ≡ true
or_any a b y = ground arith

-- With at least one new master: a slot of an old master that is no new master is handed to some new
-- master, so an entry of the result stands under the ID of a new master and holds the slot, if the old master has an ID, and all old masters with that ID own the slot.
pub handed-build_slots_by_node :
    (h : Heap) (p : Ptr) (nodes old_masters : Nodes) (nb_slots : ℕ) (id : Text) (e : Slot)
    → text_eq [] id ≡ false
    → has_id h (p ∷ nodes) id ≡ false
    → any (λ q. text_eq (h q).id id) old_masters ≡ true
    → Own h (p ∷ nodes) id e old_masters
    → handed h (p ∷ nodes) e (build_slots_by_node h (p ∷ nodes) old_masters nb_slots) ≡ true
unfolding build_slots_by_node slots_to_migrate retrieve_slot_to_migrate_from_removed_nodes
handed-build_slots_by_node h p nodes old nb_slots id e named gone there own =
    let nb = ceil_div nb_slots (length (p ∷ nodes)) in
    let surplus = retrieve_slot_to_migrate_from h old nb in
    let removed = removed_loop h (p ∷ nodes) old [] in
    let all = insert_all surplus removed in
    let lost = retrieve_lost_slots h old nb_slots in
    let held =
      listed-insert_all id e surplus removed (removed_loop-Holds h (p ∷ nodes) id e old [] own tt) (
        or_any (listed id e surplus) (any (λ x. text_eq x.0 id) removed)
          (removed_loop-any h (p ∷ nodes) id e old [] gone there)) in
    let kept : listed id e (insert [] lost all) ≡ true =
      listed-insert id e [] lost all
      ∙ ap (λ b. if b then contains lost e else listed id e all) named
      ∙ held in
    let some_of = listed-count id e (insert [] lost all) kept in
    handed-build_slot_by_node_from_available_slots h p nodes nb (insert [] lost all) e (
      subst (λ n. 0 < n)
        (sym
          (count_slots-build_slot_by_node_from_available_slots h p nodes nb (insert [] lost all) e))
        some_of)
