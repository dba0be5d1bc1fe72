-- ===== src/Migration/Balance.antt =====
-- How the slots that leave their nodes are spread over the new masters:
-- buildSlotByNodeFromAvailableSlots.
use k8s_cluster.Base.{
  ==_iff, Bool-cases, List, Text, [], ap, arith, count-append, if◌then◌else◌, inl, inr, length,
  length-append, ltb, ltb→lt, refl, subst, suc, zero, ℕ, ◌++◌, ◌+◌, ◌-◌, ◌<◌, ◌==◌, ◌∷◌, ◌≡◌, ◌≢◌,
  ◌≤◌, ◌⊎◌,
}
use k8s_cluster.Base.{count, set}
use k8s_cluster.Base.Assoc.{append_at}
use native.Mathlib.Decide.{ℕ_discrete}
use k8s_cluster.Slot.{Slot}
use k8s_cluster.Node.{Ptr, Nodes, Heap}
use k8s_cluster.Migration.Plan.{
  Filling, slots_of_index, give, advance, fill_slot, fill_slots, fill_all, ids_of, slots_of,
  filling_of, build_slot_by_node_from_available_slots,
}

-- How often a slot stands in the slices of a map.
abbrev pub count_slots : Slot → List (Text × List Slot) → ℕ
count_slots e [] = 0
count_slots e ((_, slots) ∷ m) = count e slots + count_slots e m

count_slots-append_at :
    (e : Slot) (k : Text) (a : Slot) (m : List (Text × List Slot))
    → count_slots e (append_at k a m) ≡ (if a == e then 1 else 0) + count_slots e m
unfolding append_at
count_slots-append_at e k a [] = omega arith
count_slots-append_at e k a ((j, slots) ∷ m) =
    ground (arith, count-append e slots (a ∷ []), count_slots-append_at e k a m)

module _ (e : Slot) (ids : List Text) (nb : ℕ) where
  count_slots-fill_slot :
      (slot : Slot) (st : Filling)
      → count_slots e (fill_slot ids nb slot st).slot_to_add_by_node
        ≡ (if slot == e then 1 else 0) + count_slots e st.slot_to_add_by_node
  unfolding fill_slot give
  count_slots-fill_slot slot st =
      let i = advance (length ids) st.id_node in
      elim (Bool-cases (ltb (length (slots_of_index st.slot_of_node st.id_node)) nb)) [
        | inl room ↦ rw room (count_slots-append_at e _ slot st.slot_to_add_by_node)
        | inr full ↦ rw full (count_slots-append_at e _ slot st.slot_to_add_by_node)
      ]

  count_slots-fill_slots :
      (slots : List Slot) (st : Filling)
      → count_slots e (fill_slots ids nb slots st).slot_to_add_by_node
        ≡ count e slots + count_slots e st.slot_to_add_by_node
  unfolding fill_slots
  count_slots-fill_slots [] st = omega arith
  count_slots-fill_slots (slot ∷ slots) st = omega (
    arith,
    count_slots-fill_slots slots (fill_slot ids nb slot st),
    count_slots-fill_slot slot st,
  )

  count_slots-fill_all :
      (m : List (Text × List Slot)) (st : Filling)
      → count_slots e (fill_all ids nb m st).slot_to_add_by_node
        ≡ count_slots e m + count_slots e st.slot_to_add_by_node
  unfolding fill_all
  count_slots-fill_all [] st = omega arith
  count_slots-fill_all ((k, slots) ∷ m) st =
      omega (
        arith,
        count_slots-fill_all m (fill_slots ids nb slots st),
        count_slots-fill_slots slots st,
      )

-- With at least one new master, each slot is handed out exactly as often as it is to be moved,
-- in whatever order the map of slots is read.
pub count_slots-build_slot_by_node_from_available_slots :
    (h : Heap) (p : Ptr) (nodes : Nodes) (nb : ℕ) (m : List (Text × List Slot)) (e : Slot)
    → count_slots e (build_slot_by_node_from_available_slots h (p ∷ nodes) nb m) ≡ count_slots e m
unfolding build_slot_by_node_from_available_slots
count_slots-build_slot_by_node_from_available_slots h p nodes nb m e =
    omega (arith, count_slots-fill_all e (ids_of h (p ∷ nodes)) nb m (filling_of h (p ∷ nodes)))

abbrev pub len_at : List (List Slot) → ℕ → ℕ
len_at slots i = length (slots_of_index slots i)

len_at-set :
    (slots : List (List Slot)) (i j : ℕ) (v : List Slot)
    → i < length slots
    → len_at (set slots i v) j ≡ (if i == j then length v else len_at slots j)
len_at-set [] i j v h = elim h [ ]
len_at-set (x ∷ slots) zero zero v h = refl
len_at-set (x ∷ slots) zero (suc j) v h = ground arith
len_at-set (x ∷ slots) (suc i) zero v h = ground arith
len_at-set (x ∷ slots) (suc i) (suc j) v h = ground (arith, len_at-set slots i j v)

length-set :
    (slots : List (List Slot)) (i : ℕ) (v : List Slot) → length (set slots i v) ≡ length slots
length-set [] i v = refl
length-set (x ∷ slots) zero v = refl
length-set (x ∷ slots) (suc i) v = ap suc (length-set slots i v)

module _ (ids : List Text) (nb : ℕ) (before : List (List Slot)) where
  -- What holds of node `i` while the slots are handed out. `before` is what the nodes had.
  pub record IsFilling (st : Filling) (i : ℕ) : Type 0 where
    pub same_size : length st.slot_of_node ≡ length ids
    pub in_range : st.id_node < length ids
    pub waits : st.id_node < i → len_at st.slot_of_node i ≡ len_at before i
    pub is_full : i < st.id_node → nb ≤ len_at st.slot_of_node i
    pub bounded :
        i + 1 < length ids
        → (len_at st.slot_of_node i ≤ nb) ⊎ (len_at st.slot_of_node i ≤ len_at before i + 1)

  len_at-give :
      (t : ℕ) (slot : Slot) (st : Filling) (i : ℕ)
      → t < length st.slot_of_node
      → len_at (give ids t slot st).slot_of_node i
        ≡ (if t == i then len_at st.slot_of_node i + 1 else len_at st.slot_of_node i)
  unfolding give
  len_at-give t slot st i h =
      let old = slots_of_index st.slot_of_node t in
      elim (Bool-cases (t == i)) [
        | inl same ↦ ground (
          arith,
          len_at-set st.slot_of_node t i (old ++ slot ∷ []) h,
          length-append old (slot ∷ []),
          ap (len_at st.slot_of_node) ((==_iff t i).0 same),
        )
        | inr other ↦ ground (arith, len_at-set st.slot_of_node t i (old ++ slot ∷ []) h)
      ]

  length-give :
      (t : ℕ) (slot : Slot) (st : Filling)
      → length (give ids t slot st).slot_of_node ≡ length st.slot_of_node
  unfolding give
  length-give t slot st = length-set st.slot_of_node t _

  id_node-give : (t : ℕ) (slot : Slot) (st : Filling) → (give ids t slot st).id_node ≡ t
  unfolding give
  id_node-give t slot st = refl

  -- The node that gets the slot has room, is the next one behind a full one, or is the last.
  pub data Target (st : Filling) (t : ℕ) : Type 0 where
    room : t ≡ st.id_node → len_at st.slot_of_node st.id_node < nb → Target st t
    ahead :
        t ≡ st.id_node + 1 → t < length ids → nb ≤ len_at st.slot_of_node st.id_node → Target st t
    last : t ≡ st.id_node → t + 1 ≡ length ids → Target st t

  give_other :
      (t : ℕ) (slot : Slot) (st : Filling) (i : ℕ)
      → IsFilling st i
      → Target st t
      → t ≢ i
      → t < length ids
      → IsFilling (give ids t slot st) i
  give_other t slot st i v (room e f) other h = record {
    same_size = omega (arith, length-give t slot st);
    in_range = omega (arith, id_node-give t slot st);
    waits = ground (arith, len_at-give t slot st i, id_node-give t slot st);
    is_full = ground (arith, len_at-give t slot st i, id_node-give t slot st);
    bounded = ground (arith, len_at-give t slot st i);
  }
  give_other t slot st i v (ahead e b f) other h = record {
    same_size = omega (arith, length-give t slot st);
    in_range = omega (arith, id_node-give t slot st);
    waits = ground (arith, len_at-give t slot st i, id_node-give t slot st);
    is_full = elim (Bool-cases (i == st.id_node)) [
      | inl same ↦ ground (
        arith,
        len_at-give t slot st i,
        id_node-give t slot st,
        ap (len_at st.slot_of_node) ((==_iff i st.id_node).0 same),
      )
      | inr differ ↦ ground (arith, len_at-give t slot st i, id_node-give t slot st)
    ];
    bounded = ground (arith, len_at-give t slot st i);
  }
  give_other t slot st i v (last e f) other h = record {
    same_size = omega (arith, length-give t slot st);
    in_range = omega (arith, id_node-give t slot st);
    waits = ground (arith, len_at-give t slot st i, id_node-give t slot st);
    is_full = ground (arith, len_at-give t slot st i, id_node-give t slot st);
    bounded = ground (arith, len_at-give t slot st i);
  }

  give_self :
      (t : ℕ) (slot : Slot) (st : Filling)
      → IsFilling st t
      → Target st t
      → t < length ids
      → IsFilling (give ids t slot st) t
  give_self t slot st v (room e f) h = record {
    same_size = omega (arith, length-give t slot st);
    in_range = omega (arith, id_node-give t slot st);
    waits = ground (arith, id_node-give t slot st);
    is_full = ground (arith, id_node-give t slot st);
    bounded = ground (arith, len_at-give t slot st t, ap (len_at st.slot_of_node) e);
  }
  give_self t slot st v (ahead e b f) h = record {
    same_size = omega (arith, length-give t slot st);
    in_range = omega (arith, id_node-give t slot st);
    waits = ground (arith, id_node-give t slot st);
    is_full = ground (arith, id_node-give t slot st);
    bounded = ground (arith, len_at-give t slot st t);
  }
  give_self t slot st v (last e f) h = record {
    same_size = omega (arith, length-give t slot st);
    in_range = omega (arith, id_node-give t slot st);
    waits = ground (arith, id_node-give t slot st);
    is_full = ground (arith, id_node-give t slot st);
    bounded = ground arith;
  }

  give-IsFilling :
      (t : ℕ) (slot : Slot) (st : Filling) (i : ℕ)
      → ((j : ℕ) → IsFilling st j)
      → Target st t
      → t < length ids
      → IsFilling (give ids t slot st) i
  give-IsFilling t slot st i v g h = elim (ℕ_discrete t i) [
    | yes same ↦ subst (IsFilling (give ids t slot st)) same (give_self t slot st (v t) g h)
    | no other ↦ give_other t slot st i (v i) g other h
  ]

  fill_slot-IsFilling :
      (slot : Slot) (st : Filling) (i : ℕ)
      → ((j : ℕ) → IsFilling st j)
      → IsFilling (fill_slot ids nb slot st) i
  unfolding fill_slot advance
  fill_slot-IsFilling slot st i v =
      let w = v 0 in
      elim (Bool-cases (ltb (length (slots_of_index st.slot_of_node st.id_node)) nb)) [
        | inl free ↦
            rw free
              (give-IsFilling st.id_node slot st i v (room refl (ltb→lt _ nb free)) w.in_range)
        | inr full ↦ elim (Bool-cases (ltb (length ids - 1) (st.id_node + 1))) [
          | inl at_end ↦
              rw (full, at_end)
                (give-IsFilling st.id_node slot st i v (last refl (ground arith)) w.in_range)
          | inr more ↦
              rw (full, more)
                (give-IsFilling (st.id_node + 1) slot st i v
                  (ahead refl (ground arith) (ground arith)) (ground arith))
        ]
      ]

  fill_slots-IsFilling :
      (slots : List Slot) (st : Filling)
      → ((i : ℕ) → IsFilling st i)
      → (i : ℕ) → IsFilling (fill_slots ids nb slots st) i
  unfolding fill_slots
  fill_slots-IsFilling [] st v = v
  fill_slots-IsFilling (slot ∷ slots) st v =
      fill_slots-IsFilling slots (fill_slot ids nb slot st) (λ i. fill_slot-IsFilling slot st i v)

  fill_all-IsFilling :
      (m : List (Text × List Slot)) (st : Filling)
      → ((i : ℕ) → IsFilling st i)
      → (i : ℕ) → IsFilling (fill_all ids nb m st) i
  unfolding fill_all
  fill_all-IsFilling [] st v = v
  fill_all-IsFilling ((_, slots) ∷ m) st v =
      fill_all-IsFilling m (fill_slots ids nb slots st) (fill_slots-IsFilling slots st v)

IsFilling-start :
    (ids : List Text) (nb : ℕ) (before : List (List Slot)) (i : ℕ)
    → length before ≡ length ids
    → 0 < length ids
    → IsFilling ids nb before
        (record { slot_of_node = before; slot_to_add_by_node = []; id_node = 0 })
        i
IsFilling-start ids nb before i e h = record {
  same_size = e;
  in_range = h;
  waits = λ _. refl;
  is_full = λ k. absurd (omega arith);
  bounded = λ _. inr (omega arith);
}

length-ids_slots : (h : Heap) (nodes : Nodes) → length (slots_of h nodes) ≡ length (ids_of h nodes)
length-ids_slots h [] = refl
length-ids_slots h (p ∷ nodes) = ap suc (length-ids_slots h nodes)

-- When all slots are handed out: every new master in front of the one that was filled last holds
-- at least the target number of slots, the masters behind that one got nothing, and no master but
-- the last of the list holds more than the target unless it holds at most one more than before.
pub fill_all-IsFilling_final :
    (h : Heap) (p : Ptr) (nodes : Nodes) (nb : ℕ) (m : List (Text × List Slot)) (i : ℕ)
    → IsFilling
        (ids_of h (p ∷ nodes))
        nb
        (slots_of h (p ∷ nodes))
        (fill_all (ids_of h (p ∷ nodes)) nb m (filling_of h (p ∷ nodes)))
        i
fill_all-IsFilling_final h p nodes nb m i =
    fill_all-IsFilling (ids_of h (p ∷ nodes)) nb (slots_of h (p ∷ nodes)) m
      (filling_of h (p ∷ nodes))
      (λ j.
        IsFilling-start (ids_of h (p ∷ nodes)) nb (slots_of h (p ∷ nodes)) j
          (length-ids_slots h (p ∷ nodes)) (omega arith))
      i
