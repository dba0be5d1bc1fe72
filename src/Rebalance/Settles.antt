-- ===== src/Rebalance/Settles.antt =====
-- The rounds that take the surplus off, where some master lacks slots.
use k8s_cluster.Base.{
  All, zero, Bool, Bool-cases, [], arith, elem, false, inl, inr, refl, true, ℕ, ◌&&◌, ◌-◌, ◌<◌,
  ◌==◌, ◌∙◌, ◌∷◌, ◌≡◌, ◌≤◌, any, any-elim, some, any-intro, suc, All-elem, ap, subst, if◌then◌else◌,
  sym,
}
use k8s_cluster.Base.Int.{ℤ, pos, ◌-ℤ◌, ltb_ℤ, int_laws, -ℤ_parts}
use k8s_cluster.Node.{Ptr, Nodes, Heap}
use k8s_cluster.Rebalance.Balance.{total_balance, lower_round, lower_loop}
use k8s_cluster.Rebalance.Lower.{
  ltb_ℤ-pos, is_negative, Unique, with_balance, balance-with_balance, total_balance-with_balance,
}

-- Some master lacks slots.
abbrev pub some_negative : Heap → Nodes → Bool
some_negative h nodes = any (is_negative h) nodes

abbrev StaysNegative : Heap → Heap → Type 0
StaysNegative h h' = (q : Ptr) → is_negative h q ≡ true → is_negative h' q ≡ true

-- What a round over `nodes` leaves, of a total `n` over all masters.
abbrev RoundOf : Nodes → Nodes → Heap → ℕ → Heap × ℤ → Type 0
RoundOf all nodes h n r =
    (n' : ℕ) × (r.1 ≡ pos n')
    × (n' ≤ n)
    × (total_balance r.0 all ≡ pos n')
    × StaysNegative h r.0
    × (some_negative h nodes ≡ true → 0 < n → n' < n)

lowered-StaysNegative :
    (h : Heap) (p : Ptr)
    → is_negative h p ≡ true
    → StaysNegative h (with_balance h p ((h p).balance -ℤ pos 1))
lowered-StaysNegative h p e q f = elim (Bool-cases (p == q)) [
  | inl y ↦
      rw (balance-with_balance h p q ((h p).balance -ℤ pos 1), y)
        (let k = -ℤ_parts (h p).balance (pos 1) in ground arith)
  | inr n ↦ rw (balance-with_balance h p q ((h p).balance -ℤ pos 1), n) f
]

lowered-total :
    (all : Nodes) (h : Heap) (p : Ptr) (n : ℕ)
    → Unique all
    → elem p all ≡ true
    → total_balance h all ≡ pos n
    → 0 < n
    → total_balance (with_balance h p ((h p).balance -ℤ pos 1)) all ≡ pos (n - 1)
lowered-total all h p n u e t l =
    total_balance-with_balance all h p ((h p).balance -ℤ pos 1) u e ∙ rw t (omega int_laws)

pos_pred : (n : ℕ) → 0 < n → pos n -ℤ pos 1 ≡ pos (n - 1)
pos_pred n l = omega int_laws

lower_round-cons :
    (p : Ptr) (nodes : Nodes) (h : Heap) (total : ℤ) (b : Bool)
    → (is_negative h p && ltb_ℤ (pos 0) total) ≡ b
    → lower_round (p ∷ nodes) (h, total)
      ≡ lower_round nodes
          (if b then (with_balance h p ((h p).balance -ℤ pos 1), total -ℤ pos 1) else (h, total))
unfolding lower_round
lower_round-cons p nodes h total b e =
    ap
      (λ b.
        lower_round nodes
          (if b then (with_balance h p ((h p).balance -ℤ pos 1), total -ℤ pos 1) else (h, total)))
      e

lower_round-RoundOf :
    (all nodes : Nodes) (h : Heap) (n : ℕ)
    → Unique all
    → All (λ p. elem p all ≡ true) nodes
    → total_balance h all ≡ pos n
    → RoundOf all nodes h n (lower_round nodes (h, pos n))
unfolding lower_round
lower_round-RoundOf all [] h n u e t =
    (n, refl, omega arith, t, (λ q f. f), λ s l. absurd (ground arith))
lower_round-RoundOf all (p ∷ nodes) h n u e t = elim (Bool-cases (ltb_ℤ (pos 0) (pos n))) [
  | inl y ↦ elim (Bool-cases (is_negative h p)) [
    | inl g ↦
        let l : 0 < n = ground arith in
        let h1 = with_balance h p ((h p).balance -ℤ pos 1) in
        let (n', a, b, c, d, f) =
          lower_round-RoundOf all nodes h1 (n - 1) u e.1 (lowered-total all h p n u e.0 t l) in
        let on : (is_negative h p && ltb_ℤ (pos 0) (pos n)) ≡ true = ground arith in
        subst (RoundOf all (p ∷ nodes) h n)
          (sym (
            lower_round-cons p nodes h (pos n) true on
            ∙ ap (λ t. lower_round nodes (h1, t)) (pos_pred n l)))
          (
            n',
            a,
            omega arith,
            c,
            (λ q k. d q (lowered-StaysNegative h p g q k)),
            λ s l. omega arith,
          )
    | inr g ↦
        let (n', a, b, c, d, f) = lower_round-RoundOf all nodes h n u e.1 t in
        let off : (is_negative h p && ltb_ℤ (pos 0) (pos n)) ≡ false = ground arith in
        subst (RoundOf all (p ∷ nodes) h n) (sym (lower_round-cons p nodes h (pos n) false off))
          (n', a, b, c, d, λ s l. f (rw g at s) l)
  ]
  | inr y ↦
      let (n', a, b, c, d, f) = lower_round-RoundOf all nodes h n u e.1 t in
      let off : (is_negative h p && ltb_ℤ (pos 0) (pos n)) ≡ false = ground arith in
      subst (RoundOf all (p ∷ nodes) h n) (sym (lower_round-cons p nodes h (pos n) false off))
        (n', a, b, c, d, λ s l. absurd (ground arith))
]

some_negative-StaysNegative :
    (h h' : Heap) (nodes : Nodes)
    → StaysNegative h h'
    → some_negative h nodes ≡ true
    → some_negative h' nodes ≡ true
some_negative-StaysNegative h h' nodes f e =
    let (p, m, g) = any-elim (is_negative h) nodes e in any-intro (is_negative h') p nodes m (f p g)

-- Where the balances of distinct masters add up to `n` and some master lacks slots, the loop ends within
-- `n + 1` tests of its condition, with a total of 0 that is again the sum of the balances.
pub lower_loop-settles :
    (fuel : ℕ) (nodes : Nodes) (h : Heap) (n : ℕ)
    → Unique nodes
    → total_balance h nodes ≡ pos n
    → some_negative h nodes ≡ true
    → n < fuel
    → (h' : Heap) × (lower_loop fuel nodes (h, pos n) ≡ some (h', pos 0))
      × (total_balance h' nodes ≡ pos 0)
unfolding lower_loop
lower_loop-settles zero nodes h n u t s l = absurd (omega arith)
lower_loop-settles (suc fuel) nodes h zero u t s l = (h, refl, t)
lower_loop-settles (suc fuel) nodes h (suc n) u t s l =
    let r = lower_round nodes (h, pos (suc n)) in
    let (n', a, b, c, d, f) = lower_round-RoundOf nodes nodes h (suc n) u (All-elem nodes) t in
    let k : n' < suc n = f s (omega arith) in
    let (h', e, g) =
      lower_loop-settles fuel nodes r.0 n' u c (some_negative-StaysNegative h r.0 nodes d s)
        (omega arith) in
    (h', rw (ltb_ℤ-pos (suc n) (omega arith)) (ap (λ x. lower_loop fuel nodes (r.0, x)) a ∙ e), g)
