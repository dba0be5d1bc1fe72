-- ===== src/Rebalance/Tiles.antt =====
-- What AllocSlots assigns.
use mathlib.Core.Path.{ap₂}
use mathlib.Core.Bool.{false≢true}
use k8s_cluster.Base.{
  ==_refl, Bool-cases, List, [], ap, arith, elem, false, inl, inr, length, refl, suc, true, up_from,
  zero, ℕ, ◌++◌, ◌+◌, ◌-◌, ◌<◌, ◌==◌, ◌∙◌, ◌∷◌, ◌≡◌, ◌≤◌, subst, sym,
}
use k8s_cluster.Base.Int.{ℤ, pos_part}
use k8s_cluster.Slot.{Slot, word}
use k8s_cluster.Slot.Ranges.{build_slot_slice-up_from}
use k8s_cluster.Node.{ip_port, Ptr, Nodes, Heap, write}
use k8s_cluster.Admin.{Command, Log, Oracle}
use k8s_cluster.Rebalance.Alloc.{last_slot, slice_between, assign_slots, alloc_loop, alloc_slots}
use k8s_cluster.Rebalance.Lower.{Unique}

-- The slots of the masters, one after the other.
abbrev pub all_slots : Heap → Nodes → List Slot
all_slots h [] = []
all_slots h (p ∷ nodes) = (h p).slots ++ all_slots h nodes

-- The rounded sums leave a slot for each master that is still to come.
abbrev pub LeavesRoom : (ℕ → ℤ) → ℕ → ℕ → Type 0
LeavesRoom ends slots masters = (i : ℕ) → i + 1 < masters → pos_part (ends i) + masters ≤ slots + i

-- The last slot of a round, when there is a slot for each master from `i` on.
last_slot-bounds :
    (ends : ℕ → ℤ) (slots masters i first : ℕ)
    → LeavesRoom ends slots masters
    → i < masters
    → first + masters ≤ slots + i
    → (first ≤ pos_part (last_slot ends slots masters i first))
      × (pos_part (last_slot ends slots masters i first) + masters ≤ slots + i)
      × (i + 1 ≡ masters → pos_part (last_slot ends slots masters i first) + 1 ≡ slots)
unfolding last_slot
last_slot-bounds ends slots masters i first r l f = elim (Bool-cases (i + 1 == masters)) [
  | inl y ↦ (ground arith, ground arith, λ e. ground arith)
  | inr n ↦ let k = r i (ground arith) in (ground arith, ground arith, λ e. absurd (ground arith))
]

up_from-append : (a n m : ℕ) → up_from a n ++ up_from (a + n) m ≡ up_from a (n + m)
up_from-append a zero m = ap (λ x. up_from x m) (omega arith) ∙ ap (up_from a) (omega arith)
up_from-append a (suc n) m =
    let s : a + suc n ≡ suc a + n = omega arith in
    let l : suc (n + m) ≡ suc n + m = omega arith in
    ap (λ l. a ∷ l) (ap (λ x. up_from (suc a) n ++ up_from x m) s ∙ up_from-append (suc a) n m)
    ∙ ap (up_from a) l

module _ (o : Oracle) (ends : ℕ → ℤ) (slots masters : ℕ) where
  -- What the loop leaves in the slots of a node that it does not assign to.
  alloc_loop-other :
      (i first : ℕ) (nodes : Nodes) (h : Heap) (log : Log) (q : Ptr)
      → elem q nodes ≡ false
      → ((alloc_loop o ends slots masters i first nodes h log).heap q).slots ≡ (h q).slots
  unfolding alloc_loop assign_slots write
  alloc_loop-other i first [] h log q e = refl
  alloc_loop-other i first (p ∷ nodes) h log q e =
      let last = pos_part (last_slot ends slots masters i first) in
      let other : (p == q) ≡ false = ground arith in
      let kept : (assign_slots h p (slice_between first last) q).slots ≡ (h q).slots =
        rw other refl in
      elim (Bool-cases
        (o (log ++ Command.add_slots (ip_port (h p)) (slice_between first last) ∷ []))) [
          | inl y ↦ rw y (
              alloc_loop-other (i + 1) (last + 1) nodes
                (assign_slots h p (slice_between first last)) _ q (ground arith)
              ∙ kept)
          | inr n ↦ rw n kept
        ]

  slice_between-up_from :
      (first last : ℕ)
      → last + 1 < word
      → slice_between first last ≡ up_from first (last + 1 - first)
  slice_between-up_from first last b =
      rw (build_slot_slice-up_from first last b, slice_between) refl

  -- The round for `p` when its call succeeds.
  alloc_loop-cons :
      (i first : ℕ) (p : Ptr) (nodes : Nodes) (h : Heap) (log : Log)
      → (let slice = slice_between first (pos_part (last_slot ends slots masters i first)) in
          o (log ++ Command.add_slots (ip_port (h p)) slice ∷ []) ≡ true)
      → (let last = pos_part (last_slot ends slots masters i first) in
          let slice = slice_between first last in
          alloc_loop o ends slots masters i first (p ∷ nodes) h log
          ≡ alloc_loop o ends slots masters
              (i + 1)
              (last + 1)
              nodes
              (assign_slots h p slice)
              (log ++ Command.add_slots (ip_port (h p)) slice ∷ []))
  unfolding alloc_loop
  alloc_loop-cons i first p nodes h log y = rw y refl

  alloc_loop-up_from :
      (i first : ℕ) (nodes : Nodes) (h : Heap) (log : Log)
      → LeavesRoom ends slots masters
      → slots < word
      → Unique nodes
      → i + length nodes ≡ masters
      → first + masters ≤ slots + i
      → (length nodes ≡ 0 → first ≡ slots)
      → (alloc_loop o ends slots masters i first nodes h log).fine ≡ true
      → all_slots (alloc_loop o ends slots masters i first nodes h log).heap nodes
        ≡ up_from first (slots - first)
  unfolding alloc_loop assign_slots write
  alloc_loop-up_from i first [] h log r b u c f z e =
      ap (up_from first) (let k = z refl in let l : 0 ≡ slots - first = omega arith in l)
  alloc_loop-up_from i first (p ∷ nodes) h log r b u c f z e =
      let last = pos_part (last_slot ends slots masters i first) in
      let slice = slice_between first last in
      let h1 = assign_slots h p slice in
      let log1 = log ++ Command.add_slots (ip_port (h p)) slice ∷ [] in
      let (lo, hi, end) = last_slot-bounds ends slots masters i first r (omega arith) f in
      elim (Bool-cases (o log1)) [
        | inr n ↦ absurd (false≢true (rw n at e))
        | inl y ↦
            let e1 = rw y at e in
            let here : (h1 p).slots ≡ slice = rw (==_refl p) refl in
            let mine =
              alloc_loop-other (i + 1) (last + 1) nodes h1 log1 p u.0
              ∙ here
              ∙ slice_between-up_from first last (omega arith) in
            let others =
              alloc_loop-up_from (i + 1) (last + 1) nodes h1 log1 r b u.1 (omega arith)
                (omega arith) (λ l. end (omega arith)) e1 in
            let next_start : last + 1 ≡ first + (last + 1 - first) = omega arith in
            let total : last + 1 - first + (slots - (last + 1)) ≡ slots - first = omega arith in
            subst (λ run. all_slots run.heap (p ∷ nodes) ≡ up_from first (slots - first))
              (sym (alloc_loop-cons i first p nodes h log y))
              (ap₂ ◌++◌ mine others
                ∙ ap (λ x. up_from first (last + 1 - first) ++ up_from x (slots - (last + 1)))
                    next_start
                ∙ up_from-append first (last + 1 - first) (slots - (last + 1))
                ∙ ap (up_from first) total)
      ]

-- `AllocSlots` over distinct masters, at least one and no more than there are slots, the number of
-- slots below 2^64: if all its calls succeed, and the rounded sums leave a slot for each master that
-- is to come, then the slots of the masters, one after the other, are 0, 1, .., hash_max_slot.
pub alloc_slots-up_from :
    (o : Oracle) (ends : ℕ → ℤ) (hash_max_slot : ℕ) (new_masters : Nodes) (h : Heap) (log : Log)
    → LeavesRoom ends (hash_max_slot + 1) (length new_masters)
    → hash_max_slot + 1 < word
    → Unique new_masters
    → 0 < length new_masters
    → length new_masters ≤ hash_max_slot + 1
    → (alloc_slots o ends hash_max_slot new_masters h log).fine ≡ true
    → all_slots (alloc_slots o ends hash_max_slot new_masters h log).heap new_masters
      ≡ up_from 0 (hash_max_slot + 1)
unfolding alloc_slots
alloc_slots-up_from o ends hash_max_slot new_masters h log r b u z l e =
    alloc_loop-up_from o ends (hash_max_slot + 1) (length new_masters) 0 0 new_masters h log r b u
      (omega arith) (omega arith) (λ k. absurd (omega arith)) e
    ∙ ap (up_from 0) (omega arith)
