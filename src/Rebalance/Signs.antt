-- ===== src/Rebalance/Signs.antt =====
-- Masters ordered by the sign of their balance, and sums of balances.
use k8s_cluster.Base.{
  All, Bool-cases, [], ap, arith, inl, inr, ltb, ltb→lt, refl, subst, ◌++◌, ◌<◌, ◌∙◌, ◌∷◌, ◌≡◌, ◌≢◌,
}
use k8s_cluster.Base.Int.{pos, pos_part, neg_part, +ℤ_parts}
use k8s_cluster.Node.{Ptr, Nodes, Heap}
use k8s_cluster.Rebalance.Balance.{total_balance}

abbrev pub NonNegative : Heap → Ptr → Type 0
NonNegative h p = neg_part (h p).balance ≡ 0

abbrev pub NonPositive : Heap → Ptr → Type 0
NonPositive h p = pos_part (h p).balance ≡ 0

-- No master with a surplus stands in front of one that lacks slots.
abbrev pub Signed : Heap → Nodes → Type 0
Signed h [] = Unit {0}
Signed h (p ∷ nodes) = (0 < pos_part (h p).balance → All (NonNegative h) nodes) × Signed h nodes

total-NonNegative :
    (h : Heap) (nodes : Nodes) → All (NonNegative h) nodes → neg_part (total_balance h nodes) ≡ 0
unfolding total_balance
total-NonNegative h [] a = refl
total-NonNegative h (p ∷ nodes) a =
    let k = total-NonNegative h nodes a.1 in
    let e = a.0 in let s = +ℤ_parts (h p).balance (total_balance h nodes) in ground arith

total-NonPositive :
    (h : Heap) (nodes : Nodes) → All (NonPositive h) nodes → pos_part (total_balance h nodes) ≡ 0
unfolding total_balance
total-NonPositive h [] a = refl
total-NonPositive h (p ∷ nodes) a =
    let k = total-NonPositive h nodes a.1 in
    let e = a.0 in let s = +ℤ_parts (h p).balance (total_balance h nodes) in ground arith

-- With a sum of zero the first lacks slots or is settled.
pub first-NonPositive :
    (h : Heap) (p : Ptr) (nodes : Nodes)
    → Signed h (p ∷ nodes)
    → total_balance h (p ∷ nodes) ≡ pos 0
    → NonPositive h p
unfolding total_balance
first-NonPositive h p nodes s t = elim (Bool-cases (ltb 0 (pos_part (h p).balance))) [
  | inl y ↦
      let k = total-NonNegative h nodes (s.0 (ltb→lt 0 (pos_part (h p).balance) y)) in
      let f = +ℤ_parts (h p).balance (total_balance h nodes) in
      let t1 = ap pos_part t in let t2 = ap neg_part t in ground arith
  | inr n ↦ ground arith
]

last_of :
    (h : Heap) (nodes : Nodes) (src : Ptr)
    → All (NonNegative h) (nodes ++ src ∷ [])
    → NonNegative h src
last_of h [] src a = a.0
last_of h (p ∷ nodes) src a = last_of h nodes src a.1

before-NonPositive :
    (h : Heap) (nodes : Nodes) (src : Ptr)
    → Signed h (nodes ++ src ∷ [])
    → 0 < neg_part (h src).balance
    → All (NonPositive h) (nodes ++ src ∷ [])
before-NonPositive h [] src s l = (ground arith, tt)
before-NonPositive h (p ∷ nodes) src s l = (
  elim (Bool-cases (ltb 0 (pos_part (h p).balance))) [
    | inl y ↦
        let z = last_of h nodes src (s.0 (ltb→lt 0 (pos_part (h p).balance) y)) in
        absurd (omega arith)
    | inr n ↦ ground arith
  ],
  before-NonPositive h nodes src s.1 l,
)

negative_part :
    (h : Heap) (nodes : Nodes) (src : Ptr)
    → All (NonPositive h) (nodes ++ src ∷ [])
    → 0 < neg_part (h src).balance
    → 0 < neg_part (total_balance h (nodes ++ src ∷ []))
unfolding total_balance
negative_part h [] src a l = let s = +ℤ_parts (h src).balance (pos 0) in let e = a.0 in ground arith
negative_part h (p ∷ nodes) src a l =
    let k = negative_part h nodes src a.1 l in
    let e = a.0 in
    let z = total-NonPositive h (nodes ++ src ∷ []) a.1 in
    let s = +ℤ_parts (h p).balance (total_balance h (nodes ++ src ∷ [])) in ground arith

negative_total :
    (h : Heap) (nodes : Nodes) (src : Ptr)
    → All (NonPositive h) (nodes ++ src ∷ [])
    → 0 < neg_part (h src).balance
    → (total_balance h (nodes ++ src ∷ []) ≢ pos 0)
negative_total h nodes src a l t =
    let k = negative_part h nodes src a l in let t2 = ap neg_part t in absurd (omega arith)

-- With a sum of zero the last has a surplus or is settled.
pub last-NonNegative :
    (h : Heap) (nodes : Nodes) (src : Ptr)
    → Signed h (nodes ++ src ∷ [])
    → total_balance h (nodes ++ src ∷ []) ≡ pos 0
    → NonNegative h src
last-NonNegative h nodes src s t = elim (Bool-cases (ltb 0 (neg_part (h src).balance))) [
  | inl y ↦
      let l = ltb→lt 0 (neg_part (h src).balance) y in
      absurd (negative_total h nodes src (before-NonPositive h nodes src s l) l t)
  | inr n ↦ ground arith
]

change_last :
    (h h' : Heap) (nodes : Nodes) (src : Ptr)
    → All (λ p. (h' p).balance ≡ (h p).balance) nodes
    → NonNegative h' src
    → All (NonNegative h) (nodes ++ src ∷ [])
    → All (NonNegative h') (nodes ++ src ∷ [])
change_last h h' [] src e m a = (m, tt)
change_last h h' (p ∷ nodes) src e m a =
    (ap neg_part e.0 ∙ a.0, change_last h h' nodes src e.1 m a.1)

All-init : (P : Ptr → Type 0) (nodes : Nodes) (src : Ptr) → All P (nodes ++ src ∷ []) → All P nodes
All-init P [] src a = tt
All-init P (p ∷ nodes) src a = (a.0, All-init P nodes src a.1)

-- The last balance may change to any other that is not negative, and masters before it stay.
pub Signed-change_last :
    (h h' : Heap) (nodes : Nodes) (src : Ptr)
    → All (λ p. (h' p).balance ≡ (h p).balance) nodes
    → NonNegative h src
    → NonNegative h' src
    → Signed h (nodes ++ src ∷ [])
    → Signed h' (nodes ++ src ∷ [])
Signed-change_last h h' [] src e n m s = ((λ l. tt), tt)
Signed-change_last h h' (p ∷ nodes) src e n m s = (
  (λ l. change_last h h' nodes src e.1 m (s.0 (subst (λ b. 0 < pos_part b) e.0 l))),
  Signed-change_last h h' nodes src e.1 n m s.1,
)

pub Signed-init :
    (h : Heap) (nodes : Nodes) (src : Ptr) → Signed h (nodes ++ src ∷ []) → Signed h nodes
Signed-init h [] src s = tt
Signed-init h (p ∷ nodes) src s =
    ((λ l. All-init (NonNegative h) nodes src (s.0 l)), Signed-init h nodes src s.1)
