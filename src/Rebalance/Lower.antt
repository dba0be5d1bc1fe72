-- ===== src/Rebalance/Lower.antt =====
-- The loop that takes a positive total off the masters that lack slots, and the total of balances
-- when one of them is set.
use mathlib.Core.Path.{ap₂}
use k8s_cluster.Base.{
  ==_iff, Bool, Bool-cases, [], ap, arith, elem, false, if◌then◌else◌, inl, inr, none, refl, subst,
  suc, sym, true, zero, ℕ, ◌<◌, ◌==◌, ◌∷◌, ◌≡◌,
}
use k8s_cluster.Base.{elem}
use k8s_cluster.Base.Int.{ℤ, pos, ◌+ℤ◌, ◌-ℤ◌, ltb_ℤ, int_laws}
use k8s_cluster.Node.{Ptr, Nodes, Heap, write, set_balance}
use k8s_cluster.Rebalance.Balance.{total_balance, lower_round, lower_loop}

abbrev pub is_negative : Heap → Ptr → Bool
is_negative h p = ltb_ℤ (h p).balance (pos 0)

-- No master lacks slots.
abbrev pub NoneNegative : Heap → Nodes → Type 0
NoneNegative h [] = Unit {0}
NoneNegative h (p ∷ nodes) = (is_negative h p ≡ false) × NoneNegative h nodes

lower_round-eq :
    (nodes : Nodes) (h : Heap) (total : ℤ)
    → NoneNegative h nodes
    → lower_round nodes (h, total) ≡ (h, total)
unfolding lower_round
lower_round-eq [] h total g = refl
lower_round-eq (p ∷ nodes) h total g = rw g.0 (lower_round-eq nodes h total g.1)

pub ltb_ℤ-pos : (n : ℕ) → 0 < n → ltb_ℤ (pos 0) (pos n) ≡ true
ltb_ℤ-pos n h = ground arith

-- With a positive total and no master that lacks slots the loop never ends, whatever the fuel.
pub lower_loop-eq-none :
    (fuel : ℕ) (nodes : Nodes) (h : Heap) (n : ℕ)
    → 0 < n
    → NoneNegative h nodes
    → lower_loop fuel nodes (h, pos n) ≡ none
unfolding lower_loop
lower_loop-eq-none zero nodes h n l g = refl
lower_loop-eq-none (suc fuel) nodes h n l g =
    rw (ltb_ℤ-pos n l, lower_round-eq nodes h (pos n) g) (lower_loop-eq-none fuel nodes h n l g)

-- No pointer stands twice.
abbrev pub Unique : Nodes → Type 0
Unique [] = Unit {0}
Unique (p ∷ nodes) = (elem p nodes ≡ false) × Unique nodes

-- The heap after a balance is set.
abbrev pub with_balance : Heap → Ptr → ℤ → Heap
with_balance h p b = write h p (set_balance (h p) b)

pub balance-with_balance :
    (h : Heap) (p q : Ptr) (b : ℤ)
    → (with_balance h p b q).balance ≡ (if p == q then b else (h q).balance)
unfolding write set_balance
balance-with_balance h p q b = elim (Bool-cases (p == q)) [
  | inl same ↦ rw same refl
  | inr other ↦ rw other refl
]

pub total_balance-with_balance_other :
    (nodes : Nodes) (h : Heap) (p : Ptr) (b : ℤ)
    → elem p nodes ≡ false
    → total_balance (with_balance h p b) nodes ≡ total_balance h nodes
unfolding total_balance
total_balance-with_balance_other [] h p b e = refl
total_balance-with_balance_other (q ∷ nodes) h p b e =
    ap₂ ◌+ℤ◌ (ground (arith, balance-with_balance h p q b))
      (total_balance-with_balance_other nodes h p b (ground arith))

-- The balance of one master, replaced in the total.
pub total_balance-with_balance :
    (nodes : Nodes) (h : Heap) (p : Ptr) (b : ℤ)
    → Unique nodes
    → elem p nodes ≡ true
    → total_balance (with_balance h p b) nodes ≡ total_balance h nodes -ℤ (h p).balance +ℤ b
unfolding total_balance
total_balance-with_balance [] h p b u e = absurd (ground arith)
total_balance-with_balance (q ∷ nodes) h p b u e = elim (Bool-cases (p == q)) [
  | inl same ↦
      let pq = (==_iff p q).0 same in
      let here : (with_balance h p b q).balance ≡ b =
        ground (arith, balance-with_balance h p q b) in
      let rest =
        total_balance-with_balance_other nodes h p b
          (subst (λ x. elem x nodes ≡ false) (sym pq) u.0) in
      rw (here, rest, ap (λ x. (h x).balance) pq) (omega int_laws)
  | inr other ↦
      let here : (with_balance h p b q).balance ≡ (h q).balance =
        ground (arith, balance-with_balance h p q b) in
      rw (here, total_balance-with_balance nodes h p b u.1 (ground arith)) (omega int_laws)
]
