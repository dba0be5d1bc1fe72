-- ===== src/Migration/Named.antt =====
-- To whom the slots are handed: the keys of what buildSlotByNodeFromAvailableSlots returns are IDs of
-- new masters.
use k8s_cluster.Base.{
  All, Bool-cases, List, Text, [], any, arith, inl, inr, length, ltb, refl, suc, text_eq,
  text_eq_refl, true, zero, ℕ, ◌<◌, ◌∷◌, ◌≡◌, sym, count, Bool, ◌∙◌, ◌&&◌,
}
use k8s_cluster.Base.Assoc.{append_at}
use k8s_cluster.Slot.{Slot, contains}
use k8s_cluster.Node.{Ptr, Nodes, Heap}
use k8s_cluster.Migration.Plan.{
  has_id, Filling, slots_of_index, id_of_index, give, advance, fill_slot, fill_slots, fill_all,
  ids_of, filling_of, build_slot_by_node_from_available_slots,
}
use k8s_cluster.Migration.Balance.{count_slots}

any-id_of_index :
    (ids : List Text) (i : ℕ) → i < length ids → any (text_eq (id_of_index ids i)) ids ≡ true
any-id_of_index [] i h = elim h [ ]
any-id_of_index (id ∷ ids) zero h = rw (text_eq_refl id) refl
any-id_of_index (id ∷ ids) (suc i) h =
    let ih = any-id_of_index ids i (omega arith) in ground (arith, ih)

module _ (ids : List Text) where
  -- The key of an entry is one of the IDs.
  abbrev pub Keyed : Text × List Slot → Type 0
  Keyed x = any (text_eq x.0) ids ≡ true

  append_at-Keyed :
      (k : Text) (slot : Slot) (m : List (Text × List Slot))
      → any (text_eq k) ids ≡ true
      → All Keyed m
      → All Keyed (append_at k slot m)
  unfolding append_at
  append_at-Keyed k slot [] e a = (e, tt)
  append_at-Keyed k slot ((j, slots) ∷ m) e a = elim (Bool-cases (text_eq j k)) [
    | inl same ↦ rw same a
    | inr other ↦ rw other (a.0, append_at-Keyed k slot m e a.1)
  ]

  -- The node in turn is one of the new masters, and every key is the ID of one.
  abbrev IsNamed : Filling → Type 0
  IsNamed st = (st.id_node < length ids) × All Keyed st.slot_to_add_by_node

  give-IsNamed :
      (i : ℕ) (slot : Slot) (st : Filling)
      → i < length ids
      → IsNamed st
      → IsNamed (give ids i slot st)
  unfolding give
  give-IsNamed i slot st l v =
      (l, append_at-Keyed _ slot st.slot_to_add_by_node (any-id_of_index ids i l) v.1)

  module _ (nb : ℕ) where
    fill_slot-IsNamed :
        (slot : Slot) (st : Filling) → IsNamed st → IsNamed (fill_slot ids nb slot st)
    unfolding fill_slot advance
    fill_slot-IsNamed slot st v =
        elim (Bool-cases (ltb (length (slots_of_index st.slot_of_node st.id_node)) nb)) [
          | inl free ↦ rw free (give-IsNamed st.id_node slot st v.0 v)
          | inr full ↦ rw full (
              give-IsNamed (advance (length ids) st.id_node) slot st (let l = v.0 in ground arith)
                v)
        ]

    fill_slots-IsNamed :
        (slots : List Slot) (st : Filling) → IsNamed st → IsNamed (fill_slots ids nb slots st)
    unfolding fill_slots
    fill_slots-IsNamed [] st v = v
    fill_slots-IsNamed (slot ∷ slots) st v =
        fill_slots-IsNamed slots (fill_slot ids nb slot st) (fill_slot-IsNamed slot st v)

    fill_all-IsNamed :
        (m : List (Text × List Slot)) (st : Filling) → IsNamed st → IsNamed (fill_all ids nb m st)
    unfolding fill_all
    fill_all-IsNamed [] st v = v
    fill_all-IsNamed ((k, slots) ∷ m) st v =
        fill_all-IsNamed m (fill_slots ids nb slots st) (fill_slots-IsNamed slots st v)

any-ids_of :
    (h : Heap) (k : Text) (nodes : Nodes) → any (text_eq k) (ids_of h nodes) ≡ has_id h nodes k
unfolding has_id
any-ids_of h k [] = refl
any-ids_of h k (p ∷ nodes) =
    let ih : any (text_eq k) (ids_of h nodes) ≡ any (λ q. text_eq k (h q).id) nodes =
      any-ids_of h k nodes in
    rw ih refl

count-contains : (slots : List Slot) (e : Slot) → 0 < count e slots → contains slots e ≡ true
unfolding contains
count-contains [] e c = absurd (omega arith)
count-contains (s ∷ slots) e c = ground (arith, count-contains slots e)

-- Some new master is handed the slot: an entry of the map stands under its ID and holds the slot.
abbrev pub handed : Heap → Nodes → Slot → List (Text × List Slot) → Bool
handed h new_masters e m = any (λ x. has_id h new_masters x.0 && contains x.1 e) m

count_slots-handed :
    (h : Heap) (new_masters : Nodes) (e : Slot) (m : List (Text × List Slot))
    → All (Keyed (ids_of h new_masters)) m
    → 0 < count_slots e m
    → handed h new_masters e m ≡ true
count_slots-handed h new_masters e [] a c = absurd (omega arith)
count_slots-handed h new_masters e ((k, slots) ∷ m) a c =
    let named = sym (any-ids_of h k new_masters) ∙ a.0 in
    elim (Bool-cases (contains slots e)) [
      | inl here ↦ rw (named, here) refl
      | inr other ↦
          rw (named, other)
            (count_slots-handed h new_masters e m a.1
              (let back = count-contains slots e in ground arith))
    ]

pub handed-build_slot_by_node_from_available_slots :
    (h : Heap) (p : Ptr) (nodes : Nodes) (nb : ℕ) (m : List (Text × List Slot)) (e : Slot)
    → 0 < count_slots e (build_slot_by_node_from_available_slots h (p ∷ nodes) nb m)
    → handed h (p ∷ nodes) e (build_slot_by_node_from_available_slots h (p ∷ nodes) nb m) ≡ true
unfolding build_slot_by_node_from_available_slots
handed-build_slot_by_node_from_available_slots h p nodes nb m e c =
    count_slots-handed h (p ∷ nodes) e _
      (fill_all-IsNamed (ids_of h (p ∷ nodes)) nb m (filling_of h (p ∷ nodes)) (omega arith, tt)).1
      c
