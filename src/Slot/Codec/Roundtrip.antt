-- ===== src/Slot/Codec/Roundtrip.antt =====
-- Printing numbers, ranges and markers, and reading them.
use mathlib.Core.List.{append_assoc}
use k8s_cluster.Slot.Ranges.{build_slot_slice-up_from}
use k8s_cluster.Base.{
  ◌≢◌, up_from, All-map, ℕ, zero, suc, ◌+◌, ◌-◌, ◌*◌, ◌/◌, ◌%◌, ◌≤◌, ◌<◌, ◌≡◌, refl, ap, ◌∙◌, [],
  ◌∷◌, some, ltb, Text, All, Bool-cases, inl, inr, ltb→lt, arith, ◌++◌, All-append,
}
use k8s_cluster.Slot.Defs.{SlotRange, word}
use k8s_cluster.Slot.Codec.{
  ImportingSlot, MigratingSlot, importing_slot_string, migrating_slot_string, slot_range_string,
  slot_string, decode_slot_range, decode_slot, decode_parts, split, split_first, Decoded,
  parse_uint, trim_suffix, digits_loop, format_uint, parse_digits, parse_uint, Slot,
}

abbrev IsDigit : ℕ → Type 0
IsDigit c = (b'0' ≤ c) × (c ≤ b'9')

digits_loop-IsDigit :
    (fuel n : ℕ) (out : Text) → All IsDigit out → All IsDigit (digits_loop fuel n out)
unfolding digits_loop
digits_loop-IsDigit zero n out h = h
digits_loop-IsDigit (suc fuel) n out h = elim (Bool-cases (ltb n 10)) [
  | inl last ↦ rw last (let b = ltb→lt n 10 last in ((omega arith, omega arith), h))
  | inr more ↦ rw more (digits_loop-IsDigit fuel (n / 10) _ ((omega arith, omega arith), h))
]

parse_digits-cons :
    (m d : ℕ) (out : Text)
    → d < 10
    → m * 10 + d < word
    → parse_digits m ((b'0' + d) ∷ out) ≡ parse_digits (m * 10 + d) out
unfolding parse_digits
parse_digits-cons m d out h w = let e : b'0' + d - b'0' ≡ d = omega arith in rw e (ground arith)

-- Reading the digits of `n` in front of `out` is reading `out` from `n` on.
parse_digits-loop :
    (fuel n : ℕ) (out : Text)
    → n < fuel
    → n < word
    → parse_digits 0 (digits_loop fuel n out) ≡ parse_digits n out
unfolding digits_loop
parse_digits-loop zero n out h w = elim h [ ]
parse_digits-loop (suc fuel) n out h w = elim (Bool-cases (ltb n 10)) [
  | inl last ↦ rw last (
      parse_digits-cons 0 n out (ltb→lt n 10 last) (omega arith)
      ∙ ap (λ k. parse_digits k out) (omega arith))
  | inr more ↦ rw more (
      parse_digits-loop fuel (n / 10) _ (ground arith) (omega arith)
      ∙ parse_digits-cons (n / 10) (n % 10) out (omega arith) (omega arith)
      ∙ ap (λ k. parse_digits k out) (omega arith))
]

digits_loop-cons :
    (fuel n c : ℕ) (out : Text) → (d : ℕ) × (s : Text) × (digits_loop fuel n (c ∷ out) ≡ d ∷ s)
unfolding digits_loop
digits_loop-cons zero n c out = (c, out, refl)
digits_loop-cons (suc fuel) n c out = elim (Bool-cases (ltb n 10)) [
  | inl last ↦ (b'0' + n, c ∷ out, rw last)
  | inr more ↦ rw more (digits_loop-cons fuel (n / 10) (b'0' + n % 10) (c ∷ out))
]

format_uint-cons : (n : ℕ) → (d : ℕ) × (s : Text) × (format_uint n ≡ d ∷ s)
unfolding format_uint
format_uint-cons n = elim (Bool-cases (ltb n 10)) [
  | inl last ↦ (b'0' + n, [], rw last)
  | inr more ↦ rw more (digits_loop-cons n (n / 10) (b'0' + n % 10) [])
]

format_uint-IsDigit : (n : ℕ) → All IsDigit (format_uint n)
unfolding format_uint
format_uint-IsDigit n = digits_loop-IsDigit (suc n) n [] tt

parse_uint_of_cons : (s t : Text) (d : ℕ) → s ≡ d ∷ t → parse_uint s ≡ parse_digits 0 s
unfolding parse_uint
parse_uint_of_cons s t d e = rw e refl

-- What FormatUint prints, ParseUint reads back.
parse_uint-format_uint : (n : ℕ) → n < word → parse_uint (format_uint n) ≡ some n
unfolding format_uint parse_digits
parse_uint-format_uint n w =
    let (d, s, e) = format_uint-cons n in
    parse_uint_of_cons (format_uint n) s d e ∙ parse_digits-loop (suc n) n [] (omega arith) w

abbrev pub Lacks : ℕ → Text → Type 0
Lacks sep = All (λ c. c ≢ sep)

split-none : (sep : ℕ) (p : Text) → Lacks sep p → split_first sep p ≡ (p, [])
unfolding split_first
split-none sep [] h = refl
split-none sep (c ∷ p) h = ground (arith, split-none sep p h.1)

split_first-append :
    (sep : ℕ) (p s : Text) → Lacks sep p → split_first sep (p ++ sep ∷ s) ≡ (p, split sep s)
unfolding split_first split
split_first-append sep [] s h = ground arith
split_first-append sep (c ∷ p) s h = ground (arith, split_first-append sep p s h.1)

split-append : (sep : ℕ) (p s : Text) → Lacks sep p → split sep (p ++ sep ∷ s) ≡ p ∷ split sep s
unfolding split
split-append sep p s h = rw (split_first-append sep p s h)

split_of_Lacks : (sep : ℕ) (p : Text) → Lacks sep p → split sep p ≡ p ∷ []
unfolding split
split_of_Lacks sep p h = rw (split-none sep p h)

format_uint-Lacks : (n : ℕ) → Lacks b'-' (format_uint n)
format_uint-Lacks n = All-map IsDigit _ (λ x h. omega arith) (format_uint n) (format_uint-IsDigit n)

-- A printed range whose lower bound is below 2^64 and whose upper bound is below 2^64 - 1 is read
-- back as the slots of the range.
pub decode_slot_range-slot_range_string :
    (r : SlotRange)
    → r.min < word
    → r.max + 1 < word
    → decode_slot_range (slot_range_string r) ≡ Decoded.slots (up_from r.min (r.max + 1 - r.min))
unfolding decode_slot_range decode_parts slot_range_string decode_slot slot_string
decode_slot_range-slot_range_string r a b =
    rw
      (
        split-append b'-' (format_uint r.min) (format_uint r.max) (format_uint-Lacks r.min),
        split_of_Lacks b'-' (format_uint r.max) (format_uint-Lacks r.max),
        parse_uint-format_uint r.min a,
        parse_uint-format_uint r.max (omega arith),
        build_slot_slice-up_from r.min r.max b,
      )
      refl

-- One printed slot below 2^64 - 1, as Redis prints a range of one slot, is read back as this slot.
pub decode_slot_range-slot_string :
    (s : Slot) → s + 1 < word → decode_slot_range (slot_string s) ≡ Decoded.slots (s ∷ [])
unfolding decode_slot_range decode_parts decode_slot slot_string
decode_slot_range-slot_string s b =
    let one : s + 1 - s ≡ 1 = omega arith in
    rw
      (
        split_of_Lacks b'-' (format_uint s) (format_uint-Lacks s),
        parse_uint-format_uint s (omega arith),
        build_slot_slice-up_from s s b,
        one,
      )
      refl

trim_suffix-append : (b : ℕ) (s : Text) → trim_suffix b (s ++ b ∷ []) ≡ s
unfolding trim_suffix
trim_suffix-append b [] = ground arith
trim_suffix-append b (c ∷ []) = ground arith
trim_suffix-append b (c ∷ d ∷ s) = ap (◌∷◌ c) (trim_suffix-append b (d ∷ s))

split-three :
    (sep : ℕ) (p q r : Text)
    → Lacks sep p
    → Lacks sep q
    → Lacks sep r
    → split sep (p ++ sep ∷ (q ++ sep ∷ r)) ≡ p ∷ q ∷ r ∷ []
split-three sep p q r hp hq hr =
    rw (split-append sep p (q ++ sep ∷ r) hp, split-append sep q r hq, split_of_Lacks sep r hr) refl

-- `[slot-<-id]` and `[slot->-id]`, split at the dashes.
split-marker :
    (n m : ℕ) (id : Text)
    → m ≢ b'-'
    → Lacks b'-' id
    → split b'-' (b'[' ∷ ((format_uint n ++ (b'-' ∷ m ∷ b'-' ∷ []) ++ id) ++ b']' ∷ []))
      ≡ (b'[' ∷ format_uint n) ∷ (m ∷ []) ∷ (id ++ b']' ∷ []) ∷ []
split-marker n m id h l = simp append_assoc (
    split-three b'-' (b'[' ∷ format_uint n) (m ∷ []) (id ++ b']' ∷ [])
      (omega arith, format_uint-Lacks n) (h, tt) (All-append _ id (b']' ∷ []) l (omega arith, tt)))

-- The marker of an importing slot below 2^64, in brackets as Redis prints it, is read back if the
-- ID of the node has no dash.
pub decode_slot_range-importing_slot_string :
    (s : ImportingSlot)
    → s.slot_id < word
    → Lacks b'-' s.from_node_id
    → decode_slot_range (b'[' ∷ (importing_slot_string s ++ b']' ∷ [])) ≡ Decoded.importing s
unfolding importing_slot_string decode_slot_range
decode_slot_range-importing_slot_string s a l =
    rw
      (
        split-marker s.slot_id b'<' s.from_node_id (omega arith) l,
        parse_uint-format_uint s.slot_id a,
        trim_suffix-append b']' s.from_node_id,
      )
      refl

-- The marker of a migrating slot below 2^64, in brackets as Redis prints it, is read back if the
-- ID of the node has no dash.
pub decode_slot_range-migrating_slot_string :
    (s : MigratingSlot)
    → s.slot_id < word
    → Lacks b'-' s.to_node_id
    → decode_slot_range (b'[' ∷ (migrating_slot_string s ++ b']' ∷ [])) ≡ Decoded.migrating s
unfolding migrating_slot_string decode_slot_range
decode_slot_range-migrating_slot_string s a l =
    rw
      (
        split-marker s.slot_id b'>' s.to_node_id (omega arith) l,
        parse_uint-format_uint s.slot_id a,
        trim_suffix-append b']' s.to_node_id,
      )
      refl
