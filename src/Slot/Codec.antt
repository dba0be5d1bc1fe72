-- ===== src/Slot/Codec.antt =====
-- The text forms of slots and ranges: `String` and `DecodeSlot`, `DecodeSlotRange` of
-- pkg/redisutil/slot.go, with what they use of the packages strconv and strings.
-- Child `Roundtrip` relates printing and reading.
pub mod Roundtrip
use k8s_cluster.Base.{
  ℕ, zero, suc, ◌+◌, ◌-◌, ◌*◌, ◌/◌, ◌%◌, Bool, true, false, ◌&&◌, List, [], ◌∷◌, ◌++◌, Option, none,
  some, ltb, leb, ◌==◌, if◌then◌else◌, Text, codes, text_eq, length,
}
use k8s_cluster.Slot.Defs.{Slot, SlotRange, word, build_slot_slice}

-- `strconv.FormatUint(n, 10)`, on fuel: a digit for each division by ten.
unfoldable pub digits_loop : ℕ → ℕ → Text → Text
digits_loop zero n out = out
digits_loop (suc fuel) n out =
    let rest = digits_loop fuel (n / 10) ((b'0' + n % 10) ∷ out) in
    if ltb n 10 then (b'0' + n) ∷ out else rest

unfoldable pub format_uint : ℕ → Text
unfolding digits_loop
format_uint n = digits_loop (suc n) n []

-- `strconv.ParseUint(s, 10, 64)`: refuses the empty text, what is no digit, and a value that does
-- not fit a uint64.
unfoldable pub parse_digits : ℕ → Text → Option ℕ
parse_digits n [] = some n
parse_digits n (c ∷ s) =
    let n' = n * 10 + (c - b'0') in
    if leb b'0' c && leb c b'9' && ltb n' word then parse_digits n' s else none

unfoldable pub parse_uint : Text → Option ℕ
unfolding parse_digits
parse_uint [] = none
parse_uint (c ∷ s) = parse_digits 0 (c ∷ s)

-- `strings.Split(s, sep)` with a separator of one byte: always at least one part.
unfoldable pub split_first : ℕ → Text → Text × List Text
split_first sep [] = ([], [])
split_first sep (c ∷ s) =
    let (part, parts) = split_first sep s in
    if c == sep then ([], part ∷ parts) else (c ∷ part, parts)

unfoldable pub split : ℕ → Text → List Text
unfolding split_first
split sep s = let (part, parts) = split_first sep s in part ∷ parts

-- `strings.TrimPrefix` and `strings.TrimSuffix` with a text of one byte.
unfoldable pub trim_prefix : ℕ → Text → Text
trim_prefix b [] = []
trim_prefix b (c ∷ s) = if c == b then s else c ∷ s

unfoldable pub trim_suffix : ℕ → Text → Text
trim_suffix b [] = []
trim_suffix b (c ∷ []) = if c == b then [] else c ∷ []
trim_suffix b (c ∷ d ∷ s) = c ∷ trim_suffix b (d ∷ s)

-- `Slot.String` and `SlotRange.String`
unfoldable pub slot_string : Slot → Text
unfolding format_uint
slot_string s = format_uint s

unfoldable pub slot_range_string : SlotRange → Text
unfolding slot_string
slot_range_string r = slot_string r.min ++ b'-' ∷ slot_string r.max

unfoldable pub decode_slot : Text → Option Slot
unfolding parse_uint
decode_slot s = parse_uint s

pub record ImportingSlot : Type 0 where
  pub slot_id : Slot
  pub from_node_id : Text

pub record MigratingSlot : Type 0 where
  pub slot_id : Slot
  pub to_node_id : Text

unfoldable pub importing_slot_string : ImportingSlot → Text
unfolding slot_string
importing_slot_string s = slot_string s.slot_id ++ codes "-<-" ++ s.from_node_id

unfoldable pub migrating_slot_string : MigratingSlot → Text
unfolding slot_string
migrating_slot_string s = slot_string s.slot_id ++ codes "->-" ++ s.to_node_id

-- What `DecodeSlotRange` returns. `diverges` is the call that never returns.
pub data Decoded : Type 0 where
  slots : List Slot → Decoded
  importing : ImportingSlot → Decoded
  migrating : MigratingSlot → Decoded
  failed : Decoded
  diverges : Decoded

abbrev decode_special : Option Slot → Text → Text → Decoded
decode_special none mid last = failed
decode_special (some slot) mid last =
    let node_id = trim_suffix b']' last in
    if text_eq mid (codes "<")
    then importing (record { slot_id = slot; from_node_id = node_id })
    else if text_eq mid (codes ">")
    then migrating (record { slot_id = slot; to_node_id = node_id })
    else failed

abbrev built : Option (List Slot) → Decoded
built none = diverges
built (some s) = slots s

abbrev decode_range : Option Slot → Option Slot → Decoded
decode_range (some min) (some max) = built (build_slot_slice min max)
decode_range _ _ = failed

-- `val := strings.Split(str, "-")` and the branches on `len(val)`. The separator `"-" + val[1] +
-- "-"` equals `"-<-"` exactly where the middle part is `"<"`.
unfoldable pub decode_parts : List Text → Decoded
unfolding decode_slot trim_prefix trim_suffix text_eq build_slot_slice
decode_parts [] = failed
decode_parts (v0 ∷ []) = decode_range (decode_slot v0) (decode_slot v0)
decode_parts (v0 ∷ v1 ∷ v2 ∷ []) = decode_special (decode_slot (trim_prefix b'[' v0)) v1 v2
decode_parts (v0 ∷ v1 ∷ vs) = decode_range (decode_slot v0) (decode_slot v1)

unfoldable pub decode_slot_range : Text → Decoded
unfolding decode_parts split
decode_slot_range str = decode_parts (split b'-' str)
