-- ===== src/Rebalance/Whole.antt =====
-- RebalancedCluster as a whole: the balances, the surplus, the sort and the main loop.
use k8s_cluster.Base.{
  ==_iff, All, Bool, Bool-cases, [], ap, arith, elem, false, if◌then◌else◌, inl, inr, length, refl,
  subst, true, ℕ, ◌<◌, ◌==◌, ◌||◌, ◌∙◌, ◌∷◌, ◌≡◌, sym,
}
use k8s_cluster.Base.Sort.{sort, insert_sorted, length-sort, All-insert_sorted}
use k8s_cluster.Base.Int.{pos, ◌+ℤ◌, int_laws, ltb_ℤ}
use k8s_cluster.Node.{Ptr, Nodes, Heap, sort_by_func}
use k8s_cluster.Admin.{Log, Oracle}
use k8s_cluster.Rebalance.Balance.{expected_slots, set_balances, total_balance, lower_loop}
use k8s_cluster.Rebalance.Move.{Share}
use k8s_cluster.Rebalance.Loop.{
  Ended, returned, panicked, out_of_fuel, balance_loop, rebalanced_cluster,
}
use k8s_cluster.Rebalance.Lower.{Unique}
use k8s_cluster.Rebalance.Settles.{some_negative, lower_loop-settles}
use k8s_cluster.Rebalance.Signs.{NonNegative, Signed}
use k8s_cluster.Rebalance.Windows.{Settled}
use k8s_cluster.Rebalance.Ends.{balance_loop-Settled}

module _ (h : Heap) where
  -- The order of the sort.
  abbrev less : Ptr → Ptr → Bool
  less p q = ltb_ℤ (h p).balance (h q).balance

  elem-insert_sorted :
      (q a : Ptr) (nodes : Nodes) → elem q (insert_sorted less a nodes) ≡ (a == q || elem q nodes)
  unfolding insert_sorted
  elem-insert_sorted q a [] = ground arith
  elem-insert_sorted q a (x ∷ nodes) = elim (Bool-cases (less x a)) [
    | inl y ↦ rw y (let k = elem-insert_sorted q a nodes in ground arith)
    | inr n ↦ rw n (ground arith)
  ]

  Unique-insert_sorted :
      (a : Ptr) (nodes : Nodes)
      → elem a nodes ≡ false
      → Unique nodes
      → Unique (insert_sorted less a nodes)
  unfolding insert_sorted
  Unique-insert_sorted a [] e u = (refl, tt)
  Unique-insert_sorted a (x ∷ nodes) e u = elim (Bool-cases (less x a)) [
    | inl y ↦ rw y (
      (let k = elem-insert_sorted x a nodes in
          let z = u.0 in ground (arith, ==_iff a x, ==_iff x a)),
      Unique-insert_sorted a nodes (ground arith) u.1,
    )
    | inr n ↦ rw n (e, u)
  ]

  elem-sort : (q : Ptr) (nodes : Nodes) → elem q (sort less nodes) ≡ elem q nodes
  unfolding sort
  elem-sort q [] = refl
  elem-sort q (p ∷ nodes) =
      let k = elem-insert_sorted q p (sort less nodes) in let l = elem-sort q nodes in ground arith

  Unique-sort : (nodes : Nodes) → Unique nodes → Unique (sort less nodes)
  unfolding sort
  Unique-sort [] u = tt
  Unique-sort (p ∷ nodes) u =
      Unique-insert_sorted p (sort less nodes) (elem-sort p nodes ∙ u.0) (Unique-sort nodes u.1)

  total-insert_sorted :
      (a : Ptr) (nodes : Nodes)
      → total_balance h (insert_sorted less a nodes) ≡ (h a).balance +ℤ total_balance h nodes
  unfolding insert_sorted total_balance
  total-insert_sorted a [] = refl
  total-insert_sorted a (x ∷ nodes) = elim (Bool-cases (less x a)) [
    | inl y ↦ rw (y, total-insert_sorted a nodes) (omega int_laws)
    | inr n ↦ rw n refl
  ]

  total-sort : (nodes : Nodes) → total_balance h (sort less nodes) ≡ total_balance h nodes
  unfolding sort total_balance
  total-sort [] = refl
  total-sort (p ∷ nodes) =
      total-insert_sorted p (sort less nodes) ∙ ap (λ t. (h p).balance +ℤ t) (total-sort nodes)

  Signed-insert_sorted :
      (a : Ptr) (nodes : Nodes) → Signed h nodes → Signed h (insert_sorted less a nodes)
  unfolding insert_sorted
  Signed-insert_sorted a [] s = ((λ l. tt), tt)
  Signed-insert_sorted a (x ∷ nodes) s = elim (Bool-cases (less x a)) [
    | inl y ↦ rw y (
      (λ l. All-insert_sorted less (NonNegative h) a nodes (ground arith) (s.0 l)),
      Signed-insert_sorted a nodes s.1,
    )
    | inr n ↦ rw n ((λ l. ((ground arith), s.0 (ground arith))), s)
  ]

  Signed-sort : (nodes : Nodes) → Signed h (sort less nodes)
  unfolding sort
  Signed-sort [] = tt
  Signed-sort (p ∷ nodes) = Signed-insert_sorted p (sort less nodes) (Signed-sort nodes)

  All-of_insert_sorted :
      (P : Ptr → Type 0) (a : Ptr) (nodes : Nodes)
      → All P (insert_sorted less a nodes)
      → P a × All P nodes
  unfolding insert_sorted
  All-of_insert_sorted P a [] k = k
  All-of_insert_sorted P a (x ∷ nodes) k = elim (Bool-cases (less x a)) [
    | inl y ↦
        let m =
          subst (λ b. All P (if b then x ∷ insert_sorted less a nodes else a ∷ x ∷ nodes)) y k in
        let (r, t) = All-of_insert_sorted P a nodes m.1 in (r, (m.0, t))
    | inr n ↦ subst (λ b. All P (if b then x ∷ insert_sorted less a nodes else a ∷ x ∷ nodes)) n k
  ]

  All-of_sort : (P : Ptr → Type 0) (nodes : Nodes) → All P (sort less nodes) → All P nodes
  unfolding sort
  All-of_sort P [] k = tt
  All-of_sort P (p ∷ nodes) k =
      let (a, t) = All-of_insert_sorted P p (sort less nodes) k in (a, All-of_sort P nodes t)

-- How a call ends: not for want of fuel, and without an error every balance is zero.
abbrev pub AllZero : Nodes → Ended → Type 0
AllZero masters out_of_fuel = ⊥
AllZero masters panicked = Unit {0}
AllZero masters (returned run) = run.fine ≡ true → All (λ p. (run.heap p).balance ≡ pos 0) masters

Settled-AllZero :
    (h : Heap) (masters : Nodes) (r : Ended)
    → Settled (sort (less h) masters) h r
    → AllZero masters r
Settled-AllZero h masters out_of_fuel k = k
Settled-AllZero h masters panicked k = k
Settled-AllZero h masters (returned run) k =
    λ f. All-of_sort h (λ p. (run.heap p).balance ≡ pos 0) masters (k.1 f)

-- `RebalancedCluster` over distinct masters that together hold `n` slots more than the expected ones, while
-- some master lacks slots: with fuel above `n` and above the number of masters it ends, and if it ends
-- without a panic and without an error, every balance is zero.
pub rebalanced_cluster-AllZero :
    (fuel : ℕ) (share : Share) (o : Oracle) (hash_max_slot : ℕ) (new_masters : Nodes) (h : Heap)
    (log : Log) (n : ℕ)
    → (let h1 = set_balances (expected_slots hash_max_slot (length new_masters)) new_masters h in
        total_balance h1 new_masters ≡ pos n)
    → (let h1 = set_balances (expected_slots hash_max_slot (length new_masters)) new_masters h in
        some_negative h1 new_masters ≡ true)
    → Unique new_masters
    → n < fuel
    → length new_masters < fuel
    → AllZero new_masters (rebalanced_cluster fuel share o hash_max_slot new_masters h log)
unfolding rebalanced_cluster sort_by_func
rebalanced_cluster-AllZero fuel share o hash_max_slot new_masters h log n t s u l m =
    let h1 = set_balances (expected_slots hash_max_slot (length new_masters)) new_masters h in
    let (h2, e, z) = lower_loop-settles fuel new_masters h1 n u t s l in
    let sn = sort (less h2) new_masters in
    let done =
      balance_loop-Settled fuel share o sn h2 log
        (let k = length-sort (less h2) new_masters in omega arith) (Unique-sort h2 new_masters u)
        (Signed-sort h2 new_masters) (total-sort h2 new_masters ∙ z) in
    let e1 = ap (λ x. lower_loop fuel new_masters (h1, x)) t ∙ e in
    let same : rebalanced_cluster fuel share o hash_max_slot new_masters h log
        ≡ balance_loop fuel share o sn h2 log =
      rw (e1, rebalanced_cluster) refl in
    subst (AllZero new_masters) (sym same)
      (Settled-AllZero h2 new_masters (balance_loop fuel share o sn h2 log) done)
