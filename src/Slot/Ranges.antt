-- ===== src/Slot/Ranges.antt =====
-- Range compression (SlotRangesFromSlots) and expansion (BuildSlotSlice).
use mathlib.Core.List.{append_assoc, append-nil}
use k8s_cluster.Base.{
  ℕ, zero, suc, ◌+◌, ◌-◌, ◌≤◌, ◌<◌, ◌≡◌, refl, ap, ◌∙◌, Bool, true, false, ◌&&◌, ◌||◌, List, [],
  ◌∷◌, ◌++◌, none, some, arith, ltb, leb, Bool-cases, inl, inr, All, up_from,
}
use k8s_cluster.Base.Sort.{sort, SortedFrom, sort-SortedFrom, All-sort}
use k8s_cluster.Slot.Defs.{
  Slot, SlotRange, word, next, contains, build_loop, build_slot_slice, ranges_loop, ranges_of,
  slot_ranges_from_slots,
}
use k8s_cluster.Slot.Sets.{contains-sort}

-- The slot lies in the range, ends included.
abbrev pub in_range : SlotRange → Slot → Bool
in_range r e = leb r.min e && leb e r.max

abbrev pub in_ranges : List SlotRange → Slot → Bool
in_ranges [] e = false
in_ranges (r ∷ rs) e = in_range r e || in_ranges rs e

-- Nonempty ranges in increasing order, none below `lo`, with a slot missing between any two.
abbrev pub SeparatedFrom : ℕ → List SlotRange → Type 0
SeparatedFrom lo [] = Unit {0}
SeparatedFrom lo (r ∷ rs) = (lo ≤ r.min) × (r.min ≤ r.max) × SeparatedFrom (r.max + 2) rs

ranges_loop-append :
    (slots : List Slot) (min max : Slot) (ranges : List SlotRange)
    → ranges_loop min max ranges slots ≡ ranges ++ ranges_loop min max [] slots
unfolding ranges_loop
ranges_loop-append [] min max ranges = refl
ranges_loop-append (slot ∷ slots) min max ranges = elim (Bool-cases (ltb (next max) slot)) [
  | inl gap ↦
      rw
        (
          gap,
          ranges_loop-append slots slot slot (ranges ++ record { min = min; max = max } ∷ []),
          ranges_loop-append slots slot slot (record { min = min; max = max } ∷ []),
          append_assoc,
        )
        refl
  | inr joined ↦ rw joined (ranges_loop-append slots min slot ranges)
]

in_ranges-loop :
    (slots : List Slot) (min max : Slot) (e : Slot)
    → min ≤ max
    → max < word
    → SortedFrom max slots
    → All (λ s. s < word) slots
    → in_ranges (ranges_loop min max [] slots) e
      ≡ (in_range (record { min = min; max = max }) e || contains slots e)
unfolding ranges_loop contains
in_ranges-loop [] min max e h b s w = refl
in_ranges-loop (slot ∷ slots) min max e h b s w = elim (Bool-cases (ltb (next max) slot)) [
  | inl gap ↦
      rw (gap, ranges_loop-append slots slot slot (record { min = min; max = max } ∷ []))
        (ground (arith, in_ranges-loop slots slot slot e (omega arith) w.0 s.1 w.1))
  | inr joined ↦
      rw joined (ground (arith, in_ranges-loop slots min slot e (ground arith) w.0 s.1 w.1))
]

SeparatedFrom-loop :
    (slots : List Slot) (lo min max : Slot)
    → lo ≤ min
    → min ≤ max
    → max + 1 < word
    → SortedFrom max slots
    → All (λ s. s + 1 < word) slots
    → SeparatedFrom lo (ranges_loop min max [] slots)
unfolding ranges_loop
SeparatedFrom-loop [] lo min max l h b s w = (l, h, tt)
SeparatedFrom-loop (slot ∷ slots) lo min max l h b s w = elim (Bool-cases (ltb (next max) slot)) [
  | inl gap ↦
      rw (gap, ranges_loop-append slots slot slot (record { min = min; max = max } ∷ []))
        (
          l,
          h,
          SeparatedFrom-loop slots (max + 2) slot slot (ground arith) (omega arith) w.0 s.1 w.1,
        )
  | inr joined ↦ rw joined (SeparatedFrom-loop slots lo min slot l (ground arith) w.0 s.1 w.1)
]

in_ranges-of :
    (slots : List Slot) (e : Slot)
    → SortedFrom 0 slots
    → All (λ s. s < word) slots
    → in_ranges (ranges_of slots) e ≡ contains slots e
unfolding ranges_of contains
in_ranges-of [] e s w = refl
in_ranges-of (slot ∷ slots) e s w =
    ground (arith, in_ranges-loop slots slot slot e (omega arith) w.0 s.1 w.1)

SeparatedFrom-of :
    (slots : List Slot)
    → SortedFrom 0 slots
    → All (λ s. s + 1 < word) slots
    → SeparatedFrom 0 (ranges_of slots)
unfolding ranges_of
SeparatedFrom-of [] s w = tt
SeparatedFrom-of (slot ∷ slots) s w =
    SeparatedFrom-loop slots 0 slot slot (omega arith) (omega arith) w.0 s.1 w.1

-- For any slots below 2^64, in any order and with repetitions: the ranges cover exactly these slots.
pub in_ranges-slot_ranges_from_slots :
    (slots : List Slot) (e : Slot)
    → All (λ s. s < word) slots
    → in_ranges (slot_ranges_from_slots slots).1 e ≡ contains slots e
unfolding slot_ranges_from_slots
in_ranges-slot_ranges_from_slots slots e w =
    in_ranges-of (sort ltb slots) e (sort-SortedFrom slots) (All-sort ltb (λ s. s < word) slots w)
    ∙ contains-sort slots e

-- For slots below the largest word: the ranges are nonempty, increasing, and cannot be joined.
pub slot_ranges_from_slots-SeparatedFrom :
    (slots : List Slot)
    → All (λ s. s + 1 < word) slots
    → SeparatedFrom 0 (slot_ranges_from_slots slots).1
unfolding slot_ranges_from_slots
slot_ranges_from_slots-SeparatedFrom slots w =
    SeparatedFrom-of (sort ltb slots) (sort-SortedFrom slots)
      (All-sort ltb (λ s. s + 1 < word) slots w)

leb-false : (a b : ℕ) → b < a → leb a b ≡ false
leb-false a b h = ground arith

leb-true : (a b : ℕ) → a ≤ b → leb a b ≡ true
leb-true a b h = ground arith

next_lem : (s : Slot) → s + 1 < word → next s ≡ suc s
next_lem s h = omega arith

build_loop-up_from :
    (k s max : ℕ) (slots : List Slot)
    → s + k ≡ max + 1
    → max + 1 < word
    → build_loop (suc k) s max slots ≡ some (slots ++ up_from s k)
unfolding build_loop
build_loop-up_from zero s max slots e b = rw (leb-false s max (omega arith), append-nil) refl
build_loop-up_from (suc k) s max slots e b =
    rw (leb-true s max (omega arith), next_lem s (omega arith))
      (build_loop-up_from k (suc s) max (slots ++ s ∷ []) (omega arith) b
        ∙ ap some (append_assoc slots (s ∷ []) (up_from (suc s) k)))

-- For `max` below the largest word the loop ends, with the slots from `min` to `max` in order and
-- none where `max < min`.
pub build_slot_slice-up_from :
    (min max : Slot)
    → max + 1 < word
    → build_slot_slice min max ≡ some (up_from min (max + 1 - min))
unfolding build_slot_slice build_loop
build_slot_slice-up_from min max b = elim (Bool-cases (leb min max)) [
  | inl some_slots ↦ build_loop-up_from (max + 1 - min) min max [] (ground arith) b
  | inr no_slots ↦ let z : max + 1 - min ≡ 0 = ground arith in rw (z, build_loop, no_slots) refl
]

-- With the largest word as `max` the loop never ends, whatever the fuel.
pub build_loop-eq-none :
    (fuel s : ℕ) (slots : List Slot) → s < word → build_loop fuel s (word - 1) slots ≡ none
unfolding build_loop
build_loop-eq-none zero s slots h = refl
build_loop-eq-none (suc fuel) s slots h =
    rw (leb-true s (word - 1) (omega arith))
      (build_loop-eq-none fuel (next s) (slots ++ s ∷ []) (omega arith))
