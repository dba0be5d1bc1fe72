-- ===== src/Placement/Select.antt =====
-- The loop of PlaceMasters of placement.go, and the fuel that it takes.
use k8s_cluster.Base.{
  Bool, Bool-cases, List, Text, [], arith, if◌then◌else◌, inl, inr, leb, length, not, refl, some,
  suc, true, zero, ℕ, ◌&&◌, ◌++◌, ◌+◌, ◌<◌, ◌∷◌, ◌≡◌, ◌≤◌,
}
use k8s_cluster.Node.{Nodes}
use k8s_cluster.Placement.ByVm.{pick_round, pick_loop, has_key}

-- The candidates that are left.
abbrev pub candidates : List (Text × Nodes) → ℕ
candidates [] = 0
candidates ((vm, nodes) ∷ m) = length nodes + candidates m

pick_round-shrinks :
    (taken : List (Text × Nodes)) (nb_master : ℕ) (best_effort : Bool) (m : List (Text × Nodes))
    (selection : Nodes)
    → (candidates (pick_round taken nb_master best_effort m selection).master_by_vm
          + (if (pick_round taken nb_master best_effort m selection).progress then 1 else 0)
        ≤ candidates m)
unfolding pick_round
pick_round-shrinks taken nb_master best_effort [] selection = omega arith
pick_round-shrinks taken nb_master best_effort ((vm, []) ∷ m) selection =
    omega (arith, pick_round-shrinks taken nb_master best_effort m selection)
pick_round-shrinks taken nb_master best_effort ((vm, p ∷ nodes) ∷ m) selection =
    elim (Bool-cases (not best_effort && has_key vm taken)) [
      | inl s ↦
          rw s (let k = pick_round-shrinks taken nb_master best_effort m selection in omega arith)
      | inr s ↦ elim (Bool-cases (leb nb_master (length (selection ++ p ∷ [])))) [
        | inl f ↦ rw (s, f) (omega arith)
        | inr f ↦
            rw (s, f)
              (let k = pick_round-shrinks taken nb_master best_effort m (selection ++ p ∷ []) in
                ground arith)
      ]
    ]

pick_loop-best_effort :
    (fuel : ℕ) (taken : List (Text × Nodes)) (nb_master : ℕ) (m : List (Text × Nodes))
    (selection : Nodes)
    → candidates m < fuel
    → (r : Nodes × Bool × Bool) × (pick_loop fuel taken nb_master true m selection ≡ some r)
unfolding pick_loop
pick_loop-best_effort zero taken nb_master m selection l = absurd (omega arith)
pick_loop-best_effort (suc fuel) taken nb_master m selection l =
    elim (Bool-cases (leb nb_master (length selection))) [
      | inl e ↦ rw e (_, refl)
      | inr e ↦
          let round = pick_round taken nb_master true m selection in
          elim (Bool-cases round.full) [
            | inl f ↦ rw (e, f) (_, refl)
            | inr f ↦ elim (Bool-cases round.progress) [
              | inr g ↦ rw (e, f, g) (_, refl)
              | inl g ↦
                  rw (e, f, g)
                    (pick_loop-best_effort fuel taken nb_master round.master_by_vm round.selection (
                      let k = pick_round-shrinks taken nb_master true m selection in
                      let k' = rw g at k in omega arith))
            ]
          ]
    ]

-- `PlaceMasters` ends: with fuel for one round more than there are candidates, and one for the round
-- that is not best effort, the loop has a result.
pub pick_loop-some :
    (taken : List (Text × Nodes)) (nb_master : ℕ) (best_effort : Bool) (m : List (Text × Nodes))
    (selection : Nodes)
    → (r : Nodes × Bool × Bool) × (pick_loop
          (suc (suc (candidates m)))
          taken
          nb_master
          best_effort
          m
          selection
        ≡ some r)
unfolding pick_loop
pick_loop-some taken nb_master best_effort m selection =
    elim (Bool-cases (leb nb_master (length selection))) [
      | inl e ↦ rw e (_, refl)
      | inr e ↦
          let round = pick_round taken nb_master best_effort m selection in
          elim (Bool-cases round.full) [
            | inl f ↦ rw (e, f) (_, refl)
            | inr f ↦ elim (Bool-cases (best_effort && not round.progress)) [
              | inl g ↦ rw (e, f, g) (_, refl)
              | inr g ↦
                  rw (e, f, g)
                    (pick_loop-best_effort (suc (candidates m)) taken nb_master round.master_by_vm
                      round.selection
                      (let k = pick_round-shrinks taken nb_master best_effort m selection in
                        ground arith))
            ]
          ]
    ]
