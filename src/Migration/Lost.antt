-- ===== src/Migration/Lost.antt =====
-- retrieveLostSlots: the slots that no old master holds.
use k8s_cluster.Base.{
  All, List, [], ap, arith, false, leb, ltb, not, refl, suc, up_from, zero, ℕ, ◌&&◌, ◌++◌, ◌+◌, ◌-◌,
  ◌<◌, ◌||◌, ◌∙◌, ◌∷◌, ◌≡◌, Bool, if◌then◌else◌, ◌≤◌, ◌==◌, true,
}
use k8s_cluster.Base.Sort.{sort, SortedFrom, sort-SortedFrom, All-sort}
use k8s_cluster.Slot.{Slot, word, next, contains}
use k8s_cluster.Slot.Sets.{contains-append, contains-sort}
use k8s_cluster.Node.{Nodes, Heap}
use k8s_cluster.Migration.Plan.{
  full_range, first_lost, lost_loop, lost_slots_of, retrieve_lost_slots,
}

contains-up_from : (n s e : ℕ) → contains (up_from s n) e ≡ (leb s e && ltb e (s + n))
unfolding contains
contains-up_from zero s e = ground arith
contains-up_from (suc n) s e = ground (arith, contains-up_from n (suc s) e)

-- No slot below the least one is there.
contains-SortedFrom :
    (slots : List Slot) (lo e : ℕ) → SortedFrom lo slots → e < lo → contains slots e ≡ false
unfolding contains
contains-SortedFrom [] lo e s h = refl
contains-SortedFrom (x ∷ slots) lo e s h =
    ground (arith, contains-SortedFrom slots x e s.1 (omega arith))

-- One round: `lost` and `lost'` say whether `e` is among the lost slots before and after it, `rest`
-- whether it is among the slots still to come.
lost_step :
    (last slot nb_slots e : ℕ) (rest lost lost' : Bool)
    → last ≤ slot
    → slot < nb_slots
    → (e < slot → rest ≡ false)
    → lost' ≡ (lost || (ltb last e && ltb e slot))
    → (lost' || (ltb slot e && ltb e nb_slots && not rest))
      ≡ (lost || (ltb last e && ltb e nb_slots && not (if slot == e then true else rest)))
lost_step last slot nb_slots e true lost lost' l n below seen = ground arith
lost_step last slot nb_slots e false lost lost' l n below seen = ground arith

module _ (nb_slots e : ℕ) (small : nb_slots < word) where
  -- With the last loop of the function, from the state `last`, `lost` on.
  abbrev finish : Slot × List Slot → List Slot
  finish (last, lost) = lost ++ up_from (next last) (nb_slots - next last)

  contains-lost_loop :
      (slots : List Slot) (last : Slot) (lost : List Slot)
      → SortedFrom last slots
      → All (λ s. s < nb_slots) slots
      → last < nb_slots
      → contains (finish (lost_loop last lost slots)) e
        ≡ (contains lost e || (ltb last e && ltb e nb_slots && not (contains slots e)))
  unfolding lost_loop contains
  contains-lost_loop [] last lost s w h = ground (
    arith,
    contains-append lost (up_from (next last) (nb_slots - next last)) e,
    contains-up_from (nb_slots - next last) (next last) e,
  )
  contains-lost_loop (slot ∷ slots) last lost s w h =
      let ups = up_from (next last) (slot - next last) in
      let lost' = if ltb (next last) slot then lost ++ ups else lost in
      contains-lost_loop slots slot lost' s.1 w.1 w.0
      ∙ lost_step last slot nb_slots e (contains slots e) (contains lost e) (contains lost' e) s.0
          w.0 (contains-SortedFrom slots slot e s.1)
          (ground
            (arith, contains-append lost ups e, contains-up_from (slot - next last) (next last) e))

  contains-lost_slots_of :
      (slots : List Slot)
      → SortedFrom 0 slots
      → All (λ s. s < nb_slots) slots
      → 0 < nb_slots
      → contains (lost_slots_of slots nb_slots) e ≡ (ltb e nb_slots && not (contains slots e))
  unfolding lost_slots_of first_lost contains
  contains-lost_slots_of [] s w h = ground (arith, contains-lost_loop [] 0 (0 ∷ []) s w h)
  contains-lost_slots_of (x ∷ slots) s w h = ground (
    arith,
    contains-lost_loop (x ∷ slots) 0 (first_lost (x ∷ slots)) s w h,
    contains-SortedFrom slots x e s.1,
  )

-- For old masters whose slots are all below the number of slots, which is positive and below 2^64:
-- a slot is reported as lost exactly if it is below that number and no old master holds it.
pub contains-retrieve_lost_slots :
    (h : Heap) (old_master_nodes : Nodes) (nb_slots : ℕ) (e : Slot)
    → All (λ s. s < nb_slots) (full_range h old_master_nodes)
    → 0 < nb_slots
    → nb_slots < word
    → contains (retrieve_lost_slots h old_master_nodes nb_slots) e
      ≡ (ltb e nb_slots && not (contains (full_range h old_master_nodes) e))
unfolding retrieve_lost_slots
contains-retrieve_lost_slots h old nb_slots e w pos small =
    contains-lost_slots_of nb_slots e small (sort ltb (full_range h old))
      (sort-SortedFrom (full_range h old)) (All-sort ltb _ (full_range h old) w) pos
    ∙ ap (λ b. ltb e nb_slots && not b) (contains-sort (full_range h old) e)
