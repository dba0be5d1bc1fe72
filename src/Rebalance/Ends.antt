-- ===== src/Rebalance/Ends.antt =====
-- The main loop of RebalancedCluster: how it ends, and the balances that it leaves.
use k8s_cluster.Rebalance.Sums.{
  sum_one, sum_moved, sum_ends, after_dst, after_src, sum_end, sum_start,
}
use k8s_cluster.Rebalance.Sums.{shifted}
use k8s_cluster.Rebalance.Sums.{abs-zero}
use k8s_cluster.Rebalance.Windows.{
  total_snoc, Unique-init, Settled-heap, total-same, init_last-append, shrink-by, Settled-cons,
  Settled-snoc,
}
use k8s_cluster.Rebalance.Windows.{elem_snoc}
use k8s_cluster.Rebalance.Windows.{Settled}
use k8s_cluster.Rebalance.Reshard.{SameBalances, reshard-SameBalances, shift_balance-balance}
use mathlib.Core.Bool.{false≢true}
use mathlib.Core.Path.{ap₂}
use k8s_cluster.Base.{
  zero, ==_iff, ==_refl, All, Bool, Bool-cases, Option, Option-cases, [], ap, arith, elem, false,
  if◌then◌else◌, inl, inr, none, refl, some, sym, true, ℕ, ◌++◌, ◌==◌, ◌∙◌, ◌∷◌, ◌≡◌, ◌⊎◌, length,
  ◌<◌, length-append, subst, suc,
}
use k8s_cluster.Base.Int.{pos, pos_part, neg_part, ◌+ℤ◌, ◌-ℤ◌, abs}
use k8s_cluster.Node.{Ptr, Nodes, Heap}
use k8s_cluster.Admin.{Log, Oracle}
use k8s_cluster.Rebalance.Balance.{total_balance}
use k8s_cluster.Rebalance.Move.{Share, Run}
use k8s_cluster.Rebalance.Loop.{
  Ended, returned, panicked, num_slots, reshard, shift_balance, is_zero, shrink, init_last,
  balance_loop,
}
use k8s_cluster.Rebalance.Lower.{Unique}
use k8s_cluster.Rebalance.Signs.{
  NonNegative, NonPositive, Signed, Signed-change_last, last-NonNegative, Signed-init,
  first-NonPositive,
}

-- What a round leaves: the ends keep their signs, one of them is settled, the sum and the other
-- balances stay.
record Round (dst : Ptr) (mid : Nodes) (src : Ptr) (h h' : Heap) : Type 0 where
  lacks : NonPositive h' dst
  surplus : NonNegative h' src
  one_settled : (abs (h' dst).balance ≡ 0) ⊎ (abs (h' src).balance ≡ 0)
  sum : (h' dst).balance +ℤ (h' src).balance ≡ (h dst).balance +ℤ (h src).balance
  others : (q : Ptr) → (dst == q) ≡ false → (src == q) ≡ false → (h' q).balance ≡ (h q).balance

others-All :
    (dst src : Ptr) (mid : Nodes) (h h' : Heap)
    → ((q : Ptr) → (dst == q) ≡ false → (src == q) ≡ false → (h' q).balance ≡ (h q).balance)
    → elem dst mid ≡ false
    → elem src mid ≡ false
    → All (λ p. (h' p).balance ≡ (h p).balance) mid
others-All dst src [] h h' f d s = tt
others-All dst src (p ∷ mid) h h' f d s =
    (f p (ground arith) (ground arith), others-All dst src mid h h' f (ground arith) (ground arith))

shift_balance-Round :
    (dst : Ptr) (mid : Nodes) (src : Ptr) (h hr : Heap)
    → (dst == src) ≡ false
    → NonPositive h dst
    → NonNegative h src
    → SameBalances h hr
    → Round dst mid src h (shift_balance dst src (num_slots (h dst).balance (h src).balance) hr)
shift_balance-Round dst mid src h hr d a b same =
    let n = num_slots (h dst).balance (h src).balance in
    let h' = shift_balance dst src n hr in
    let (lo, hi, one, total) = shifted (h dst).balance (h src).balance a b in
    let flip : (src == dst) ≡ false = ground arith in
    let at_dst : (h' dst).balance ≡ after_dst (h dst).balance (h src).balance =
      shift_balance-balance dst src n hr dst d
      ∙ (let z = ==_refl dst in rw (flip, z) (ap (λ x. x +ℤ pos n) (same dst))) in
    let at_src : (h' src).balance ≡ after_src (h dst).balance (h src).balance =
      shift_balance-balance dst src n hr src d
      ∙ (let z = ==_refl src in rw z (ap (λ x. x -ℤ pos n) (same src))) in
    record {
      lacks = ap pos_part at_dst ∙ lo;
      surplus = ap neg_part at_src ∙ hi;
      one_settled = elim one [ inl z ↦ inl (ap abs at_dst ∙ z) | inr z ↦ inr (ap abs at_src ∙ z) ];
      sum = ap₂ ◌+ℤ◌ at_dst at_src ∙ total;
      others = λ q x y. shift_balance-balance dst src n hr q d ∙ rw (x, y) (same q);
    }

module _ (dst src : Ptr) (mid : Nodes) (h h' : Heap) (round : Round dst mid src h h')
    (u : Unique (dst ∷ mid ++ src ∷ [])) (signs : Signed h (dst ∷ mid ++ src ∷ []))
    (zero_sum : total_balance h (dst ∷ mid ++ src ∷ []) ≡ pos 0) where
  mid-same : All (λ p. (h' p).balance ≡ (h p).balance) mid
  mid-same =
      others-All dst src mid h h' round.others
        (let k = elem_snoc dst mid src in let e = u.0 in ground arith) (Unique-init mid src u.1).1

  total_after : (h' dst).balance +ℤ (total_balance h' mid +ℤ (h' src).balance) ≡ pos 0
  unfolding total_balance
  total_after =
      let before : (h dst).balance +ℤ (total_balance h mid +ℤ (h src).balance) ≡ pos 0 =
        ap (λ t. (h dst).balance +ℤ t) (sym (total_snoc h mid src)) ∙ zero_sum in
      ap (λ t. (h' dst).balance +ℤ (t +ℤ (h' src).balance)) (total-same h h' mid mid-same)
      ∙ sum_moved (h' dst).balance (h' src).balance (h dst).balance (h src).balance
          (total_balance h mid) round.sum before

  signs_after : Signed h' (mid ++ src ∷ [])
  signs_after =
      Signed-change_last h h' mid src mid-same (last-NonNegative h (dst ∷ mid) src signs zero_sum)
        round.surplus signs.1

  frame : (q : Ptr) → elem q (dst ∷ mid ++ src ∷ []) ≡ false → (h' q).balance ≡ (h q).balance
  frame q e = round.others q (ground arith) (let k = elem_snoc q mid src in ground arith)

  abbrev whole : Nodes
  whole = dst ∷ mid ++ src ∷ []

  abbrev left : Bool → Bool → Nodes
  left d s =
      if d then (if s then mid else mid ++ src ∷ []) else dst ∷ (if s then mid else mid ++ src ∷ [])

  dst-apart : elem dst mid ≡ false
  dst-apart = let k = elem_snoc dst mid src in let e = u.0 in ground arith

  src-apart : elem src (dst ∷ mid) ≡ false
  src-apart =
      let k = elem_snoc dst mid src in
      let e = u.0 in let m = (Unique-init mid src u.1).1 in ground arith

  left-Settled :
      (d s : Bool)
      → is_zero (h' dst).balance ≡ d
      → is_zero (h' src).balance ≡ s
      → (r : Nodes → Ended)
      → ((w : Nodes)
          → length w < length whole
          → Unique w
          → Signed h' w
          → total_balance h' w ≡ pos 0
          → Settled w h' (r w))
      → Settled whole h' (r (left d s))
  unfolding total_balance
  left-Settled true true e f r next =
      let zd = abs-zero (h' dst).balance ((==_iff _ 0).0 e) in
      let zs = abs-zero (h' src).balance ((==_iff _ 0).0 f) in
      let k = length-append mid (src ∷ []) in
      let t = sum_ends (h' dst).balance (h' src).balance (total_balance h' mid) zd zs total_after in
      Settled-cons dst (mid ++ src ∷ []) h' (r mid) u.0 zd (
        Settled-snoc mid src h' (r mid) (Unique-init mid src u.1).1 zs (
          next mid (omega arith) (Unique-init mid src u.1).0 (Signed-init h' mid src signs_after)
            t))
  left-Settled false true e f r next =
      let zs = abs-zero (h' src).balance ((==_iff _ 0).0 f) in
      let k = length-append mid (src ∷ []) in
      let t = sum_end (h' dst).balance (h' src).balance (total_balance h' mid) zs total_after in
      Settled-snoc (dst ∷ mid) src h' (r (dst ∷ mid)) src-apart zs (
        next (dst ∷ mid) (omega arith) (dst-apart, (Unique-init mid src u.1).0)
          ((λ l. absurd (let z = round.lacks in omega arith)), Signed-init h' mid src signs_after)
          t)
  left-Settled true false e f r next =
      let zd = abs-zero (h' dst).balance ((==_iff _ 0).0 e) in
      let k = length-append mid (src ∷ []) in
      let t = sum_start (h' dst).balance (h' src).balance (total_balance h' mid) zd total_after in
      Settled-cons dst (mid ++ src ∷ []) h' (r (mid ++ src ∷ [])) u.0 zd
        (next (mid ++ src ∷ []) (omega arith) u.1 signs_after (total_snoc h' mid src ∙ t))
  left-Settled false false e f r next = absurd (let z = round.one_settled in ground arith)

  -- The rest of the loop on the whole that is left settles the whole whole.
  shrink-Settled :
      (r : Nodes → Ended)
      → ((w : Nodes)
          → length w < length whole
          → Unique w
          → Signed h' w
          → total_balance h' w ≡ pos 0
          → Settled w h' (r w))
      → Settled whole h (r (shrink h' dst mid src))
  shrink-Settled r next =
      let d = is_zero (h' dst).balance in
      let s = is_zero (h' src).balance in
      Settled-heap whole h h' (r (shrink h' dst mid src)) frame (
        subst (λ w. Settled whole h' (r w)) (sym (shrink-by h' dst mid src d s refl refl))
          (left-Settled d s refl refl r next))

-- The rest of a round, by what the moves of the round return.
abbrev after_reshard : ℕ → Share → Oracle → Ptr → Nodes → Ptr → ℕ → Option Run → Ended
after_reshard fuel share o dst mid src n none = panicked
after_reshard fuel share o dst mid src n (some run) =
    let h' = shift_balance dst src n run.heap in
    let next_round = balance_loop fuel share o (shrink h' dst mid src) h' run.log in
    if run.fine then next_round else returned run

balance_loop-cons :
    (fuel : ℕ) (share : Share) (o : Oracle) (dst q : Ptr) (rest : Nodes) (h : Heap) (log : Log)
    → (let mid = (init_last q rest).0 in
        let src = (init_last q rest).1 in
        let n = num_slots (h dst).balance (h src).balance in
        balance_loop (suc fuel) share o (dst ∷ q ∷ rest) h log
        ≡ after_reshard fuel share o dst mid src n (reshard share o n dst src h log))
unfolding balance_loop
balance_loop-cons fuel share o dst q rest h log =
    elim (Option-cases (
      reshard share o (num_slots (h dst).balance (h (init_last q rest).1).balance) dst
        (init_last q rest).1 h log)) [
          | inl e ↦ rw (e, balance_loop) refl
          | inr (run, e) ↦ rw (e, balance_loop) refl
        ]

-- The loop over distinct masters whose balances add up to zero, no surplus in front of a lack, as after
-- the sort: with fuel for each master and one more it ends, masters outside keep their balance, and
-- if it ends without a panic and without an error every balance is zero.
pub balance_loop-Settled :
    (fuel : ℕ) (share : Share) (o : Oracle) (window : Nodes) (h : Heap) (log : Log)
    → length window < fuel
    → Unique window
    → Signed h window
    → total_balance h window ≡ pos 0
    → Settled window h (balance_loop fuel share o window h log)
unfolding balance_loop total_balance
balance_loop-Settled zero share o window h log l u s t = absurd (omega arith)
balance_loop-Settled (suc fuel) share o [] h log l u s t = ((λ q e. refl), λ f. tt)
balance_loop-Settled (suc fuel) share o (p ∷ []) h log l u s t =
    ((λ q e. refl), λ f. (sum_one (h p).balance t, tt))
balance_loop-Settled (suc fuel) share o (dst ∷ q ∷ rest) h log l u s t =
    let mid = (init_last q rest).0 in
    let src = (init_last q rest).1 in
    let eq = init_last-append q rest in
    let n = num_slots (h dst).balance (h src).balance in
    let u' = subst (λ w. Unique (dst ∷ w)) (sym eq) u in
    let s' = subst (λ w. Signed h (dst ∷ w)) (sym eq) s in
    let t' = subst (λ w. total_balance h (dst ∷ w) ≡ pos 0) (sym eq) t in
    let l' : length (dst ∷ mid ++ src ∷ []) < suc fuel =
      subst (λ w. length (dst ∷ w) < suc fuel) (sym eq) l in
    subst (λ w. Settled (dst ∷ w) h (balance_loop (suc fuel) share o (dst ∷ q ∷ rest) h log)) eq
      (subst (Settled (dst ∷ mid ++ src ∷ []) h)
        (sym (balance_loop-cons fuel share o dst q rest h log))
        (elim (Option-cases (reshard share o n dst src h log)) [
          | inl e ↦
              subst
                (λ r.
                  Settled (dst ∷ mid ++ src ∷ []) h (after_reshard fuel share o dst mid src n r))
                (sym e) tt
          | inr (run, e) ↦
              let same = reshard-SameBalances share o n dst src h log run e in
              let h' = shift_balance dst src n run.heap in
              let round =
                shift_balance-Round dst mid src h run.heap
                  (let k = elem_snoc dst mid src in
                    let z = u'.0 in ground (arith, ==_iff dst src, ==_iff src dst))
                  (first-NonPositive h dst (mid ++ src ∷ []) s' t')
                  (last-NonNegative h (dst ∷ mid) src s' t') same in
              let rest_of =
                shrink-Settled dst src mid h h' round u' s' t'
                  (λ w. balance_loop fuel share o w h' run.log)
                  (λ w k uw sw tw.
                    balance_loop-Settled fuel share o w h' run.log (omega arith) uw sw tw) in
              subst
                (λ r.
                  Settled (dst ∷ mid ++ src ∷ []) h (after_reshard fuel share o dst mid src n r))
                (sym e)
                (elim (Bool-cases run.fine) [
                  | inl y ↦
                      subst
                        (λ b. Settled (dst ∷ mid ++ src ∷ []) h (
                          if b
                          then balance_loop fuel share o (shrink h' dst mid src) h' run.log
                          else returned run))
                        (sym y) rest_of
                  | inr x ↦
                      subst
                        (λ b. Settled (dst ∷ mid ++ src ∷ []) h (
                          if b
                          then balance_loop fuel share o (shrink h' dst mid src) h' run.log
                          else returned run))
                        (sym x) ((λ q _. same q), λ f. absurd (false≢true (sym x ∙ f)))
                ])
        ]))
