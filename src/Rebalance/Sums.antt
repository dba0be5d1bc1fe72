-- ===== src/Rebalance/Sums.antt =====
-- Sums of the balances at the ends of a window.
use k8s_cluster.Base.{ap, arith, ◌≡◌, ◌⊎◌}
use k8s_cluster.Base.Int.{
  ℤ, pos, pos_part, neg_part, ◌+ℤ◌, ◌-ℤ◌, abs, +ℤ_parts, -ℤ_parts, eq_of_parts,
}
use k8s_cluster.Rebalance.Loop.{num_slots}

-- The balances of the two ends after a round.
abbrev pub after_dst : ℤ → ℤ → ℤ
after_dst d s = d +ℤ pos (num_slots d s)

abbrev pub after_src : ℤ → ℤ → ℤ
after_src d s = s -ℤ pos (num_slots d s)

pub shifted :
    (d s : ℤ)
    → pos_part d ≡ 0
    → neg_part s ≡ 0
    → (pos_part (after_dst d s) ≡ 0)
      × (neg_part (after_src d s) ≡ 0)
      × ((abs (after_dst d s) ≡ 0) ⊎ (abs (after_src d s) ≡ 0))
      × (after_dst d s +ℤ after_src d s ≡ d +ℤ s)
shifted d s a b =
    let k = +ℤ_parts d (pos (num_slots d s)) in
    let l = -ℤ_parts s (pos (num_slots d s)) in
    ground (
      arith,
      +ℤ_parts (after_dst d s) (after_src d s),
      +ℤ_parts d s,
      eq_of_parts (after_dst d s +ℤ after_src d s) (d +ℤ s),
    )

pub abs-zero : (a : ℤ) → abs a ≡ 0 → a ≡ pos 0
abs-zero a e = ground (arith, eq_of_parts a (pos 0))

pub sum_moved : (a b c d t : ℤ) → a +ℤ b ≡ c +ℤ d → c +ℤ (t +ℤ d) ≡ pos 0 → a +ℤ (t +ℤ b) ≡ pos 0
sum_moved a b c d t e f =
    let e1 = ap pos_part e in
    let e2 = ap neg_part e in
    let f1 = ap pos_part f in
    let f2 = ap neg_part f in
    eq_of_parts (a +ℤ (t +ℤ b)) (pos 0) (
      omega (
        arith,
        +ℤ_parts a b,
        +ℤ_parts c d,
        +ℤ_parts t d,
        +ℤ_parts t b,
        +ℤ_parts c (t +ℤ d),
        +ℤ_parts a (t +ℤ b),
      ))

pub sum_one : (a : ℤ) → a +ℤ pos 0 ≡ pos 0 → a ≡ pos 0
sum_one a f =
    let f1 = ap pos_part f in
    let f2 = ap neg_part f in eq_of_parts a (pos 0) (omega (arith, +ℤ_parts a (pos 0)))

pub sum_ends : (a b t : ℤ) → a ≡ pos 0 → b ≡ pos 0 → a +ℤ (t +ℤ b) ≡ pos 0 → t ≡ pos 0
sum_ends a b t d e f =
    let d1 = ap pos_part d in
    let d2 = ap neg_part d in
    let e1 = ap pos_part e in
    let e2 = ap neg_part e in
    let f1 = ap pos_part f in
    let f2 = ap neg_part f in
    eq_of_parts t (pos 0) (omega (arith, +ℤ_parts t b, +ℤ_parts a (t +ℤ b)))

pub sum_end : (a b t : ℤ) → b ≡ pos 0 → a +ℤ (t +ℤ b) ≡ pos 0 → a +ℤ t ≡ pos 0
sum_end a b t e f =
    let e1 = ap pos_part e in
    let e2 = ap neg_part e in
    let f1 = ap pos_part f in
    let f2 = ap neg_part f in
    eq_of_parts (a +ℤ t) (pos 0) (omega (arith, +ℤ_parts a t, +ℤ_parts t b, +ℤ_parts a (t +ℤ b)))

pub sum_start : (a b t : ℤ) → a ≡ pos 0 → a +ℤ (t +ℤ b) ≡ pos 0 → t +ℤ b ≡ pos 0
sum_start a b t d f =
    let d1 = ap pos_part d in
    let d2 = ap neg_part d in
    let f1 = ap pos_part f in
    let f2 = ap neg_part f in eq_of_parts (t +ℤ b) (pos 0) (omega (arith, +ℤ_parts a (t +ℤ b)))
