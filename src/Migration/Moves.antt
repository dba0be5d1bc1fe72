-- ===== src/Migration/Moves.antt =====
-- The moves that feedMigInfo plans, and its counter.
use k8s_cluster.Base.{
  All, All-append, Bool-cases, List, Option-cases, Text, [], arith, false, inl, inr, length,
  length-append, none, refl, some, subst, sym, text_eq, text_eq_sound, true, ℕ, ◌+◌, ◌∷◌, ◌≡◌, ◌⊎◌,
}
use k8s_cluster.Slot.{Slot, contains}
use k8s_cluster.Slot.Sets.{contains-append}
use k8s_cluster.Node.{Ptr, Nodes, Heap, get_node_by_id}
use k8s_cluster.Migration.Plan.{
  full_range, build_slots_by_node, MigrationInfo, same_move, Moves, add_move, Found, find_owner,
  record_move, feed_slots, feed_all, feed_mig_info,
}

get_node_by_id-id :
    (h : Heap) (id : Text) (nodes : Nodes) (p : Ptr)
    → get_node_by_id h id nodes ≡ some p
    → text_eq (h p).id id ≡ true
unfolding get_node_by_id
get_node_by_id-id h id [] p e = cc
get_node_by_id-id h id (q ∷ nodes) p e = elim (Bool-cases (text_eq (h q).id id)) [
  | inl here ↦ ground arith
  | inr other ↦ get_node_by_id-id h id nodes p (ground arith)
]

same_move_sound : (a b : MigrationInfo) → same_move a b ≡ true → a ≡ b
same_move_sound a b e = ground arith

-- The number of slots in all moves.
abbrev pub moved : Moves → ℕ
moved [] = 0
moved ((_, slots) ∷ m) = length slots + moved m

moved-add_move :
    (key : MigrationInfo) (s : Slot) (m : Moves) → moved (add_move key s m) ≡ moved m + 1
unfolding add_move
moved-add_move key s [] = refl
moved-add_move key s ((k, slots) ∷ m) = elim (Bool-cases (same_move k key)) [
  | inl same ↦ rw same (omega (arith, length-append slots (s ∷ [])))
  | inr other ↦ rw other (omega (arith, moved-add_move key s m))
]

-- Every slot of every move has the property.
abbrev pub AllMoves : (MigrationInfo → Slot → Type 0) → Moves → Type 0
AllMoves V [] = Unit {0}
AllMoves V ((k, slots) ∷ m) = All (V k) slots × AllMoves V m

add_move-AllMoves :
    (V : MigrationInfo → Slot → Type 0) (key : MigrationInfo) (s : Slot) (m : Moves)
    → V key s
    → AllMoves V m
    → AllMoves V (add_move key s m)
unfolding add_move
add_move-AllMoves V key s [] v a = ((v, tt), tt)
add_move-AllMoves V key s ((k, slots) ∷ m) v a = elim (Bool-cases (same_move k key)) [
  | inl same ↦ rw same (
    All-append (V k) slots (s ∷ []) a.0
        (subst (λ q. V q s) (sym (same_move_sound k key same)) v, tt),
    a.1,
  )
  | inr other ↦ rw other (a.0, add_move-AllMoves V key s m v a.1)
]

module _ (h : Heap) (new_masters old_masters : Nodes) where
  -- The source owns the slot and is not the target; with no source, no old master owns the slot.
  abbrev pub IsSound : MigrationInfo → Slot → Type 0
  IsSound key s = elim key.from [
    | none ↦ contains (full_range h old_masters) s ≡ false
    | some p ↦ (contains (h p).slots s ≡ true) × (text_eq (h p).id (h key.to).id ≡ false)
  ]

  abbrev IsOwner : Text → Slot → Nodes → Found → Type 0
  IsOwner id s olds Found.stays = Unit {0}
  IsOwner id s olds (Found.moves key) = IsSound key s
  IsOwner id s olds Found.lost =
      (contains (full_range h olds) s ≡ false) ⊎ (get_node_by_id h id new_masters ≡ none)

  skip-IsOwner :
      (id : Text) (s : Slot) (old : Ptr) (olds : Nodes) (f : Found)
      → (contains (h old).slots s ≡ false) ⊎ (get_node_by_id h id new_masters ≡ none)
      → IsOwner id s olds f
      → IsOwner id s (old ∷ olds) f
  unfolding full_range
  skip-IsOwner id s old olds Found.stays c o = o
  skip-IsOwner id s old olds (Found.moves key) c o = o
  skip-IsOwner id s old olds Found.lost (inr e) o = inr e
  skip-IsOwner id s old olds Found.lost (inl e) (inr o) = inr o
  skip-IsOwner id s old olds Found.lost (inl e) (inl o) =
      inl (ground (arith, contains-append (h old).slots (full_range h olds) s))

  find_owner-IsOwner :
      (id : Text) (s : Slot) (olds : Nodes) → IsOwner id s olds (find_owner h new_masters id s olds)
  unfolding find_owner full_range contains
  find_owner-IsOwner id s [] = inl refl
  find_owner-IsOwner id s (old ∷ olds) =
      let ih = find_owner-IsOwner id s olds in
      elim (Bool-cases (contains (h old).slots s)) [
        | inr free ↦ elim (Bool-cases (text_eq (h old).id id)) [
          | inl self ↦ rw (self, free) (skip-IsOwner id s old olds _ (inl free) ih)
          | inr other ↦ rw (other, free) (skip-IsOwner id s old olds _ (inl free) ih)
        ]
        | inl owned ↦ elim (Bool-cases (text_eq (h old).id id)) [
          | inl self ↦ rw (self, owned) tt
          | inr other ↦ elim (Option-cases (get_node_by_id h id new_masters)) [
            | inl absent ↦ rw (other, owned, absent) (skip-IsOwner id s old olds _ (inr absent) ih)
            | inr (to, e) ↦
                rw (other, owned, e)
                  (
                    owned,
                    subst (λ i. text_eq (h old).id i ≡ false)
                        (sym (text_eq_sound (h to).id id (get_node_by_id-id h id new_masters to e)))
                        other,
                  )
          ]
        ]
      ]

  -- The moves are sound and counted.
  abbrev IsPlan : Moves × ℕ → Type 0
  IsPlan (m, n) = AllMoves IsSound m × (moved m ≡ n)

  record_move-IsPlan :
      (f : Found) (id : Text) (s : Slot) (st : Moves × ℕ)
      → IsOwner id s old_masters f
      → IsPlan st
      → IsPlan (record_move h new_masters f id s st)
  unfolding record_move
  record_move-IsPlan Found.stays id s st o p = p
  record_move-IsPlan (Found.moves key) id s (m, n) o p =
      (add_move-AllMoves IsSound key s m o p.0, omega (arith, moved-add_move key s m))
  record_move-IsPlan Found.lost id s (m, n) o p =
      elim (Option-cases (get_node_by_id h id new_masters)) [
        | inl absent ↦ rw (absent, record_move) p
        | inr (to, e) ↦
            let key : MigrationInfo = record { from = none; to = to } in
            rw (e, record_move)
              (
                add_move-AllMoves IsSound key s m (ground arith) p.0,
                omega (arith, moved-add_move key s m),
              )
      ]

  feed_slots-IsPlan :
      (id : Text) (slots : List Slot) (st : Moves × ℕ)
      → IsPlan st
      → IsPlan (feed_slots h new_masters old_masters id slots st)
  unfolding feed_slots
  feed_slots-IsPlan id [] st p = p
  feed_slots-IsPlan id (s ∷ slots) st p = feed_slots-IsPlan id slots _ (
      record_move-IsPlan (find_owner h new_masters id s old_masters) id s st
        (find_owner-IsOwner id s old_masters) p)

  feed_all-IsPlan :
      (m : List (Text × List Slot)) (st : Moves × ℕ)
      → IsPlan st
      → IsPlan (feed_all h new_masters old_masters m st)
  unfolding feed_all
  feed_all-IsPlan [] st p = p
  feed_all-IsPlan ((id, slots) ∷ m) st p = feed_all-IsPlan m _ (feed_slots-IsPlan id slots st p)

-- Every planned move takes a slot from a node that owns it to a node with another ID, or
-- gives a slot that no old master owns; and `NbslotsToMigrate` is the number of slots moved.
pub feed_mig_info-IsPlan :
    (h : Heap) (new_masters old_masters : Nodes) (nb_slots : ℕ)
    → AllMoves
        (IsSound h new_masters old_masters)
        (feed_mig_info h new_masters old_masters nb_slots).0
      × (moved (feed_mig_info h new_masters old_masters nb_slots).0
          ≡ (feed_mig_info h new_masters old_masters nb_slots).1)
unfolding feed_mig_info
feed_mig_info-IsPlan h new_masters old_masters nb_slots =
    feed_all-IsPlan h new_masters old_masters
      (build_slots_by_node h new_masters old_masters nb_slots) ([], 0) (tt, refl)
