-- ===== src/Tests/Masters.antt =====
-- The choice of masters and slaves, and the first slots of masters.
use k8s_cluster.Base.{
  Bool, List, Text, [], arith, codes, false, none, refl, some, suc, up_from, zero, ℕ, ◌+◌, ◌<◌, ◌∷◌,
  ◌≡◌, ◌≤◌, any,
}
use k8s_cluster.Base.Int.{ℤ, pos, ◌+ℤ◌, pos_part}
use k8s_cluster.Node.{Nodes, Heap}
use k8s_cluster.Admin.{always}
use k8s_cluster.Placement.{Ctx, dispatch_masters, place_slaves, pick_loop}
use k8s_cluster.Placement.Masters.{Dispatch, dispatch_masters-Dispatch}
use k8s_cluster.Placement.Slaves.{EndsBy, lacks_master, place_slaves-EndsBy}
use k8s_cluster.Placement.Select.{candidates, pick_loop-some}
use k8s_cluster.Rebalance.{
  rebalanced_cluster, set_balances, expected_slots, Share, balance_loop, total_balance, lower_loop,
  alloc_slots,
}
use k8s_cluster.Rebalance.Lower.{lower_loop-eq-none}
use k8s_cluster.Rebalance.Settles.{lower_loop-settles}
use k8s_cluster.Rebalance.Windows.{Settled}
use k8s_cluster.Rebalance.Ends.{balance_loop-Settled}
use k8s_cluster.Rebalance.Whole.{AllZero, rebalanced_cluster-AllZero}
use k8s_cluster.Rebalance.Tiles.{all_slots, alloc_slots-up_from}
use k8s_cluster.Tests.Samples.{heap, cluster}

abbrev nodes_by_sts : List (Text × Nodes)
nodes_by_sts = (codes "drc-c-0", 0 ∷ 2 ∷ []) ∷ (codes "drc-c-1", 1 ∷ []) ∷ []

abbrev ctx : Ctx
ctx = record {
  expected_master_num = 2;
  cluster_name = codes "c";
  cluster = cluster;
  nodes = nodes_by_sts;
  current_masters = 0 ∷ 1 ∷ [];
  new_masters_by_sts = [];
  slaves_by_master = [];
  best_effort = false;
}

-- The last slot of each of two rounds over four slots.
abbrev ends : ℕ → ℤ
ends zero = pos 1
ends (suc i) = pos 3

ends-LeavesRoom : (i : ℕ) → i + 1 < 2 → pos_part (ends i) + 2 ≤ 4 + i
ends-LeavesRoom zero l = omega arith
ends-LeavesRoom (suc i) l = omega arith

dispatch_masters-Dispatch_example : Dispatch 0 2 (dispatch_masters heap ctx)
dispatch_masters-Dispatch_example = dispatch_masters-Dispatch heap ctx refl

place_slaves-EndsBy_example : EndsBy (any (lacks_master []) nodes_by_sts) (place_slaves heap ctx)
place_slaves-EndsBy_example = place_slaves-EndsBy heap ctx

pick_loop-some_example :
    (r : Nodes × Bool × Bool) × (pick_loop
        (suc (suc (candidates nodes_by_sts)))
        []
        2
        false
        nodes_by_sts
        []
      ≡ some r)
pick_loop-some_example = pick_loop-some [] 2 false nodes_by_sts []

lower_loop-settles_example :
    (h : Heap) × (lower_loop 9 (0 ∷ 1 ∷ 2 ∷ []) (heap, pos 1) ≡ some (h, pos 0))
    × (total_balance h (0 ∷ 1 ∷ 2 ∷ []) ≡ pos 0)
unfolding total_balance ◌+ℤ◌
lower_loop-settles_example =
    lower_loop-settles 9 (0 ∷ 1 ∷ 2 ∷ []) heap 1 (refl, (refl, (refl, tt))) refl refl (omega arith)

-- All slots that are asked for come from the one source.
abbrev all_of_source : Share
all_of_source first num_slots total node = num_slots

balance_loop-Settled_example :
    Settled (2 ∷ 0 ∷ []) heap (balance_loop 3 all_of_source always (2 ∷ 0 ∷ []) heap [])
unfolding total_balance ◌+ℤ◌
balance_loop-Settled_example =
    balance_loop-Settled 3 all_of_source always (2 ∷ 0 ∷ []) heap [] (omega arith)
      (refl, (refl, tt)) ((λ l. absurd (omega (arith, l))), ((λ l. tt), tt)) refl

rebalanced_cluster-AllZero_example :
    AllZero (0 ∷ 1 ∷ 2 ∷ []) (rebalanced_cluster 9 all_of_source always 8 (0 ∷ 1 ∷ 2 ∷ []) heap [])
unfolding total_balance set_balances ◌+ℤ◌ expected_slots
rebalanced_cluster-AllZero_example =
    rebalanced_cluster-AllZero 9 all_of_source always 8 (0 ∷ 1 ∷ 2 ∷ []) heap [] 2 refl refl
      (refl, (refl, (refl, tt))) (omega arith) (omega arith)

lower_loop-eq-none_example : lower_loop 100 (0 ∷ 1 ∷ []) (heap, pos 3) ≡ none
lower_loop-eq-none_example =
    lower_loop-eq-none 100 (0 ∷ 1 ∷ []) heap 3 (omega arith) (refl, (refl, tt))

alloc_slots-up_from_example :
    all_slots (alloc_slots always ends 3 (0 ∷ 2 ∷ []) heap []).heap (0 ∷ 2 ∷ []) ≡ up_from 0 (3 + 1)
unfolding alloc_slots
alloc_slots-up_from_example =
    alloc_slots-up_from always ends 3 (0 ∷ 2 ∷ []) heap [] ends-LeavesRoom (omega arith)
      (refl, (refl, tt)) (omega arith) (omega arith) refl
