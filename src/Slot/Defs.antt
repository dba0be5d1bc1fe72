-- ===== src/Slot/Defs.antt =====
-- The definitions of pkg/redisutil/slot.go that do not touch text.
use k8s_cluster.Base.{
  ℕ, zero, suc, ◌+◌, ◌-◌, ◌%◌, ◌^◌, Bool, true, false, List, [], ◌∷◌, ◌++◌, Option, none, some, ltb,
  leb, ◌==◌, if◌then◌else◌,
}
use k8s_cluster.Base.Int.{ℤ, pos, negsuc}
use k8s_cluster.Base.Sort.{sort}

abbrev pub Slot : Type 0
Slot = ℕ

abbrev pub word : ℕ
word = 2 ^ 64

-- `s + 1` on a uint64.
abbrev pub next : Slot → Slot
next s = (s + 1) % word

pub record SlotRange : Type 0 where
  pub min : Slot
  pub max : Slot

-- `int(s.Max - s.Min + 1)`: a uint64 from 2^63 on is a negative int.
unfoldable pub total : SlotRange → ℤ
total r =
    let n = (r.max + word - r.min + 1) % word in
    if ltb n (2 ^ 63) then pos n else negsuc (word - 1 - n)

unfoldable pub contains : List Slot → Slot → Bool
contains [] e = false
contains (a ∷ s) e = if a == e then true else contains s e

-- One round of the outer loop removes the element under the index if a removed slot equals it, and
-- else goes on to the next.
unfoldable pub remove_slots : List Slot → List Slot → List Slot
remove_slots [] removed_slots = []
remove_slots (s ∷ slots) removed_slots =
    if contains removed_slots s
    then remove_slots slots removed_slots
    else s ∷ remove_slots slots removed_slots

unfoldable pub remove_slot : List Slot → Slot → List Slot
remove_slot [] removed_slot = []
remove_slot (s ∷ slots) removed_slot =
    if s == removed_slot then slots else s ∷ remove_slot slots removed_slot

unfoldable pub add_slots : List Slot → List Slot → List Slot
add_slots slots [] = slots
add_slots slots (s ∷ added_slots) =
    add_slots (if contains slots s then slots else slots ++ s ∷ []) added_slots

-- `for s := min; s <= max; s++`, on fuel: `none` means that the loop has not ended. On a uint64
-- the test `s <= max` never fails where `max` is the largest word.
unfoldable pub build_loop : ℕ → Slot → Slot → List Slot → Option (List Slot)
build_loop zero s max slots = none
build_loop (suc fuel) s max slots =
    let rest = build_loop fuel (next s) max (slots ++ s ∷ []) in
    if leb s max then rest else some slots

-- The fuel is one more than the rounds of a loop that ends.
unfoldable pub build_slot_slice : Slot → Slot → Option (List Slot)
unfolding build_loop
build_slot_slice min max = build_loop (suc (max + 1 - min)) min max []

-- The loop of `SlotRangesFromSlots` behind its first round.
unfoldable pub ranges_loop : Slot → Slot → List SlotRange → List Slot → List SlotRange
ranges_loop min max ranges [] = ranges ++ record { min = min; max = max } ∷ []
ranges_loop min max ranges (slot ∷ slots) =
    ranges_loop (if ltb (next max) slot then slot else min) slot
      (if ltb (next max) slot then ranges ++ record { min = min; max = max } ∷ [] else ranges) slots

-- The loop with `first` still set.
unfoldable pub ranges_of : List Slot → List SlotRange
unfolding ranges_loop
ranges_of [] = []
ranges_of (slot ∷ slots) = ranges_loop slot slot [] slots

-- The argument is sorted in place, so the caller's slice changes too: it is the first component.
unfoldable pub slot_ranges_from_slots : List Slot → List Slot × List SlotRange
unfolding ranges_of sort
slot_ranges_from_slots slots = let sorted = sort ltb slots in (sorted, ranges_of sorted)
