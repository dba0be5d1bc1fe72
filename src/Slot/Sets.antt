-- ===== src/Slot/Sets.antt =====
-- The set operations on slots: membership after removal and addition, and what stays distinct.
use k8s_cluster.Base.{
  ◌≡◌, refl, false, ◌&&◌, ◌||◌, not, List, [], ◌∷◌, ◌++◌, arith, ltb, ◌==◌, if◌then◌else◌,
  Bool-cases, inl, inr,
}
use k8s_cluster.Base.Sort.{sort, insert_sorted}
use k8s_cluster.Slot.Defs.{Slot, contains, remove_slots, remove_slot, add_slots}

pub contains-append :
    (xs ys : List Slot) (e : Slot) → contains (xs ++ ys) e ≡ (contains xs e || contains ys e)
unfolding contains
contains-append [] ys e = refl
contains-append (x ∷ xs) ys e = ground (arith, contains-append xs ys e)

contains-insert_sorted :
    (x : Slot) (xs : List Slot) (e : Slot)
    → contains (insert_sorted ltb x xs) e ≡ ((x == e) || contains xs e)
unfolding contains insert_sorted
contains-insert_sorted x [] e = ground arith
contains-insert_sorted x (y ∷ xs) e = ground (arith, contains-insert_sorted x xs e)

pub contains-sort : (xs : List Slot) (e : Slot) → contains (sort ltb xs) e ≡ contains xs e
unfolding contains sort
contains-sort [] e = refl
contains-sort (x ∷ xs) e =
    ground (arith, contains-insert_sorted x (sort ltb xs) e, contains-sort xs e)

-- After a removal exactly the other slots are left.
pub contains-remove_slots :
    (slots removed : List Slot) (e : Slot)
    → contains (remove_slots slots removed) e ≡ (contains slots e && not (contains removed e))
unfolding contains remove_slots
contains-remove_slots [] removed e = refl
contains-remove_slots (s ∷ slots) removed e =
    let ih = contains-remove_slots slots removed e in
    elim (Bool-cases (s == e)) [ inl same ↦ ground (arith, ih) | inr other ↦ ground (arith, ih) ]

-- An addition is a union.
pub contains-add_slots :
    (slots added : List Slot) (e : Slot)
    → contains (add_slots slots added) e ≡ (contains slots e || contains added e)
unfolding contains add_slots
contains-add_slots slots [] e = ground arith
contains-add_slots slots (s ∷ added) e =
    let slots' = if contains slots s then slots else slots ++ s ∷ [] in
    ground (arith, contains-add_slots slots' added e, contains-append slots (s ∷ []) e)

-- No slot stands twice.
abbrev pub Distinct : List Slot → Type 0
Distinct [] = Unit {0}
Distinct (s ∷ slots) = (contains slots s ≡ false) × Distinct slots

Distinct-snoc :
    (slots : List Slot) (s : Slot)
    → contains slots s ≡ false
    → Distinct slots
    → Distinct (slots ++ s ∷ [])
unfolding contains
Distinct-snoc [] s h d = (refl, tt)
Distinct-snoc (x ∷ slots) s h d =
    (ground (arith, contains-append slots (s ∷ []) x), Distinct-snoc slots s (ground arith) d.1)

-- An addition to distinct slots leaves them distinct, also where the added ones repeat.
pub add_slots-Distinct :
    (slots added : List Slot) → Distinct slots → Distinct (add_slots slots added)
unfolding add_slots
add_slots-Distinct slots [] d = d
add_slots-Distinct slots (s ∷ added) d = elim (Bool-cases (contains slots s)) [
  | inl old ↦ rw old (add_slots-Distinct slots added d)
  | inr new ↦ rw new (add_slots-Distinct (slots ++ s ∷ []) added (Distinct-snoc slots s new d))
]

-- On distinct slots the removal of one slot removes it.
pub contains-remove_slot :
    (slots : List Slot) (s e : Slot)
    → Distinct slots
    → contains (remove_slot slots s) e ≡ (contains slots e && not (s == e))
unfolding contains remove_slot
contains-remove_slot [] s e d = refl
contains-remove_slot (x ∷ slots) s e d = ground (arith, contains-remove_slot slots s e d.1)
