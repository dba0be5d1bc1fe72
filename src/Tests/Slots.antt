-- ===== src/Tests/Slots.antt =====
-- Slots, ranges, their text, and the setters of one node.
use k8s_cluster.Base.{
  List, [], arith, codes, none, not, some, text_eq, up_from, ◌&&◌, ◌++◌, ◌+◌, ◌-◌, ◌∷◌, ◌≡◌, any,
}
use k8s_cluster.Slot.{
  Slot, SlotRange, word, contains, remove_slots, build_loop, build_slot_slice,
  slot_ranges_from_slots,
}
use k8s_cluster.Slot.Sets.{contains-remove_slots}
use k8s_cluster.Slot.Ranges.{
  in_ranges, SeparatedFrom, in_ranges-slot_ranges_from_slots, slot_ranges_from_slots-SeparatedFrom,
  build_slot_slice-up_from, build_loop-eq-none,
}
use k8s_cluster.Slot.Codec.{
  ImportingSlot, MigratingSlot, Decoded, split, slot_string, slot_range_string,
  importing_slot_string, decode_slot_range,
}
use k8s_cluster.Slot.Codec.Roundtrip.{
  decode_slot_range-slot_string, decode_slot_range-slot_range_string,
  decode_slot_range-importing_slot_string,
}
use k8s_cluster.Node.{has_status, set_failure_status}
use k8s_cluster.Node.Roles.{failure_texts, has_status-set_failure_status}
use k8s_cluster.Tests.Samples.{node_a}

abbrev mixed : List Slot
mixed = 7 ∷ 3 ∷ 4 ∷ 3 ∷ []

abbrev range : SlotRange
range = record { min = 3; max = 5 }

abbrev importing : ImportingSlot
importing = record { slot_id = 42; from_node_id = codes "aaa" }

abbrev migrating : MigratingSlot
migrating = record { slot_id = 42; to_node_id = codes "bbb" }

in_ranges-slot_ranges_from_slots_example :
    in_ranges (slot_ranges_from_slots mixed).1 4 ≡ contains mixed 4
in_ranges-slot_ranges_from_slots_example =
    in_ranges-slot_ranges_from_slots mixed 4
      (omega arith, (omega arith, (omega arith, (omega arith, tt))))

slot_ranges_from_slots-SeparatedFrom_example : SeparatedFrom 0 (slot_ranges_from_slots mixed).1
slot_ranges_from_slots-SeparatedFrom_example =
    slot_ranges_from_slots-SeparatedFrom mixed
      (omega arith, (omega arith, (omega arith, (omega arith, tt))))

build_slot_slice-up_from_example : build_slot_slice 3 5 ≡ some (up_from 3 (5 + 1 - 3))
build_slot_slice-up_from_example = build_slot_slice-up_from 3 5 (omega arith)

build_loop-eq-none_example : build_loop 9 5 (word - 1) [] ≡ none
build_loop-eq-none_example = build_loop-eq-none 9 5 [] (omega arith)

decode_slot_range-slot_string_example :
    decode_slot_range (slot_string 16383) ≡ Decoded.slots (16383 ∷ [])
decode_slot_range-slot_string_example = decode_slot_range-slot_string 16383 (omega arith)

decode_slot_range-slot_range_string_example :
    decode_slot_range (slot_range_string range) ≡ Decoded.slots (up_from 3 (5 + 1 - 3))
decode_slot_range-slot_range_string_example =
    decode_slot_range-slot_range_string range (omega arith) (omega arith)

decode_slot_range-importing_slot_string_example :
    decode_slot_range (b'[' ∷ (importing_slot_string importing ++ b']' ∷ []))
    ≡ Decoded.importing importing
decode_slot_range-importing_slot_string_example =
    decode_slot_range-importing_slot_string importing (omega arith)
      ((λ e. omega (arith, e)), ((λ e. omega (arith, e)), ((λ e. omega (arith, e)), tt)))

contains-remove_slots_example :
    contains (remove_slots mixed (3 ∷ [])) 3 ≡ (contains mixed 3 && not (contains (3 ∷ []) 3))
contains-remove_slots_example = contains-remove_slots mixed (3 ∷ []) 3

has_status-set_failure_status_example :
    has_status (set_failure_status node_a (codes "master,fail")) (codes "fail") ≡ (
      any (text_eq (codes "fail")) failure_texts
      && any (λ s. text_eq s (codes "fail")) (split b',' (codes "master,fail")))
has_status-set_failure_status_example =
    has_status-set_failure_status node_a (codes "master,fail") (codes "fail")
