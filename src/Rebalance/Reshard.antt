-- ===== src/Rebalance/Reshard.antt =====
-- What reshard and the update of the balances do to the balances.
use k8s_cluster.Base.{
  ==_iff, Bool-cases, List, Option, Option-cases, [], ap, arith, false, if◌then◌else◌, inl, inr,
  ltb, none, refl, some, sym, ℕ, ◌==◌, ◌∙◌, ◌∷◌, ◌≡◌,
}
use k8s_cluster.Base.Int.{pos, ◌+ℤ◌, ◌-ℤ◌}
use k8s_cluster.Node.{Ptr, Heap, write, set_balance}
use k8s_cluster.Admin.{Log, Oracle}
use k8s_cluster.Rebalance.Move.{
  Share, Run, MovedNode, lose_slot, move_slot, move_table, compute_reshard_table,
}
use k8s_cluster.Rebalance.Loop.{reshard, shift_balance}

-- The balances stay as they are.
abbrev pub SameBalances : Heap → Heap → Type 0
SameBalances h h' = (q : Ptr) → (h' q).balance ≡ (h q).balance

lose_slot-SameBalances : (h : Heap) (p : Ptr) (s : ℕ) → SameBalances h (lose_slot h p s)
unfolding lose_slot write
lose_slot-SameBalances h p s q = elim (Bool-cases (p == q)) [
  | inl y ↦ let e = ap (λ x. (h x).balance) ((==_iff p q).0 y) in rw y e
  | inr n ↦ rw n refl
]

move_slot-SameBalances :
    (o : Oracle) (e : MovedNode) (target : Ptr) (h : Heap) (log : Log)
    → SameBalances h (move_slot o e target h log).heap
unfolding move_slot
move_slot-SameBalances o e target h log q =
    ground (arith, lose_slot-SameBalances h e.source e.slot q)

move_table-SameBalances :
    (o : Oracle) (table : List MovedNode) (target : Ptr) (h : Heap) (log : Log)
    → SameBalances h (move_table o table target h log).heap
unfolding move_table
move_table-SameBalances o [] target h log q = refl
move_table-SameBalances o (e ∷ table) target h log q =
    let run = move_slot o e target h log in
    let first = move_slot-SameBalances o e target h log q in
    elim (Bool-cases run.fine) [
      | inl y ↦
          rw (y, move_table) (move_table-SameBalances o table target run.heap run.log q ∙ first)
      | inr n ↦ rw (n, move_table) first
    ]

abbrev run_or : Run → Option Run → Run
run_or r none = r
run_or r (some s) = s

pub reshard-SameBalances :
    (share : Share) (o : Oracle) (n : ℕ) (dst src : Ptr) (h : Heap) (log : Log) (run : Run)
    → reshard share o n dst src h log ≡ some run
    → SameBalances h run.heap
unfolding reshard
reshard-SameBalances share o n dst src h log run e q = elim (Bool-cases (ltb 0 n)) [
  | inl y ↦ elim (Option-cases (compute_reshard_table share h (src ∷ []) n)) [
    | inl c ↦ absurd (let k = rw (y, c) at e in ground arith)
    | inr (table, c) ↦
        let e1 = ap (λ r. (run_or run r).heap q) (rw (y, c) at e) in
        ap (λ m. m.balance) (sym e1) ∙ move_table-SameBalances o table dst h log q
  ]
  | inr n ↦ let e1 = ap (λ r. (run_or run r).heap q) (rw n at e) in ap (λ m. m.balance) (sym e1)
]

-- What the two assignments leave.
pub shift_balance-balance :
    (dst src : Ptr) (n : ℕ) (h : Heap) (q : Ptr)
    → (dst == src) ≡ false
    → (shift_balance dst src n h q).balance ≡ (
        if src == q
        then (h src).balance -ℤ pos n
        else if dst == q
        then (h dst).balance +ℤ pos n
        else (h q).balance)
unfolding shift_balance write set_balance
shift_balance-balance dst src n h q d = elim (Bool-cases (src == q)) [
  | inl y ↦ rw (y, d) refl
  | inr m ↦ elim (Bool-cases (dst == q)) [ inl y ↦ rw (m, y) refl | inr k ↦ rw (m, k) refl ]
]
