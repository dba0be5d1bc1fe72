-- ===== src/Heal/SplitLaws.antt =====
-- The choice of the main cluster in FixClusterSplit.
use k8s_cluster.Base.{
  All, All-map, Bool, Bool-cases, List, Option, [], ap, arith, false, inl, inr, length, ltb, ltb→lt,
  none, refl, some, suc, zero, ℕ, ◌+◌, ◌<◌, ◌∙◌, ◌∷◌, ◌≡◌, ◌≤◌, ◌⊎◌, subst, sym, if◌then◌else◌,
}
use k8s_cluster.Heal.{Addrs, largest, nth, without, split_main_cluster}

-- What the search for the largest cluster may answer from index `i` on.
abbrev IsLargest : ℕ → ℕ → Option ℕ → List Addrs → Option ℕ → Type 0
IsLargest i max_size found clusters answer =
    ((answer ≡ found) × All (λ c. length c ≤ max_size) clusters)
    ⊎ ((k : ℕ) × (answer ≡ some (i + k))
        × (k < length clusters)
        × (max_size < length (nth clusters k))
        × All (λ c. length c ≤ length (nth clusters k)) clusters)

All-le :
    (clusters : List Addrs) (a b : ℕ)
    → a ≤ b
    → All (λ c. length c ≤ a) clusters
    → All (λ c. length c ≤ b) clusters
All-le clusters a b l h =
    All-map (λ c. length c ≤ a) (λ c. length c ≤ b) (λ c m. omega arith) clusters h

largest-IsLargest :
    (i max_size : ℕ) (found : Option ℕ) (clusters : List Addrs)
    → IsLargest i max_size found clusters (largest i max_size found clusters)
unfolding largest
largest-IsLargest i max_size found [] = inl (refl, tt)
largest-IsLargest i max_size found (c ∷ clusters) = elim (Bool-cases (ltb max_size (length c))) [
  | inl more ↦ rw more (elim (largest-IsLargest (i + 1) (length c) (some i) clusters) [
    | inl (e, a) ↦ inr (
      0,
      e ∙ ap some (omega arith),
      omega arith,
      ltb→lt max_size (length c) more,
      (omega arith, a),
    )
    | inr (k, e, l, m, a) ↦ inr (
      suc k,
      e ∙ ap some (omega arith),
      omega arith,
      (let q = ltb→lt max_size (length c) more in omega arith),
      (omega arith, a),
    )
  ])
  | inr less ↦ rw less (elim (largest-IsLargest (i + 1) max_size found clusters) [
    | inl (e, a) ↦ inl (e, (ground arith, a))
    | inr (k, e, l, m, a) ↦ inr (
      suc k,
      e ∙ ap some (omega arith),
      omega arith,
      m,
      ((let q : length c ≤ max_size = ground arith in omega arith), a),
    )
  ])
]

-- How many of the clusters pass a test.
abbrev pub number_of : (Addrs → Bool) → List Addrs → ℕ
number_of f [] = 0
number_of f (c ∷ clusters) = (if f c then 1 else 0) + number_of f clusters

number_of-without :
    (f : Addrs → Bool) (clusters : List Addrs) (k : ℕ)
    → k < length clusters
    → number_of f clusters
      ≡ (if f (nth clusters k) then 1 else 0) + number_of f (without clusters k)
unfolding without
number_of-without f [] k l = absurd (omega arith)
number_of-without f (c ∷ clusters) zero l = refl
number_of-without f (c ∷ clusters) (suc k) l =
    let ih = number_of-without f clusters k (omega arith) in omega (arith, ih)

number_of-empty :
    (f : Addrs → Bool) (clusters : List Addrs)
    → f [] ≡ false
    → All (λ c. length c ≤ 0) clusters
    → number_of f clusters ≡ 0
number_of-empty f [] e a = refl
number_of-empty f ([] ∷ clusters) e a =
    (let ih = number_of-empty f clusters e a.1 in rw e (omega (arith, ih)))
number_of-empty f ((x ∷ c) ∷ clusters) e a = absurd (let l = a.0 in omega arith)

abbrev split_by : List Addrs → Addrs → Option ℕ → Addrs × List Addrs
split_by clusters c none = (c, [])
split_by clusters c (some i) = (nth clusters i, without clusters i)

split_main_cluster-split_by :
    (c : Addrs) (clusters : List Addrs) (a : Option ℕ)
    → largest 0 0 none (c ∷ clusters) ≡ a
    → split_main_cluster (c ∷ clusters) ≡ split_by (c ∷ clusters) c a
unfolding split_main_cluster
split_main_cluster-split_by c clusters none e = rw (e, split_main_cluster) refl
split_main_cluster-split_by c clusters (some i) e = rw (e, split_main_cluster) refl

-- No cluster is larger than the main one.
pub split_main_cluster-largest :
    (clusters : List Addrs) → All (λ c. length c ≤ length (split_main_cluster clusters).0) clusters
split_main_cluster-largest [] = tt
split_main_cluster-largest (c ∷ clusters) = elim (largest-IsLargest 0 0 none (c ∷ clusters)) [
  | inl (e, a) ↦
      subst (λ r. All (λ d. length d ≤ length r.0) (c ∷ clusters))
        (sym (split_main_cluster-split_by c clusters none e))
        (All-le (c ∷ clusters) 0 (length c) (omega arith) a)
  | inr (k, e, l, m, a) ↦
      subst (λ r. All (λ d. length d ≤ length r.0) (c ∷ clusters))
        (sym (split_main_cluster-split_by c clusters (some k) (e ∙ ap some (omega arith)))) a
]

-- The main cluster and the others are together exactly the clusters that were found, each as often
-- as it was found, but for empty ones: for every test that the empty cluster does not pass, the
-- number of clusters that pass it is that of the main cluster and of the others together.
pub number_of-split_main_cluster :
    (f : Addrs → Bool) (clusters : List Addrs)
    → f [] ≡ false
    → number_of f clusters
      ≡ (if f (split_main_cluster clusters).0 then 1 else 0)
        + number_of f (split_main_cluster clusters).1
unfolding split_main_cluster
number_of-split_main_cluster f [] e = rw e refl
number_of-split_main_cluster f (c ∷ clusters) e =
    let Splits : Addrs × List Addrs → Type 0 =
      λ r. number_of f (c ∷ clusters) ≡ (if f r.0 then 1 else 0) + number_of f r.1 in
    elim (largest-IsLargest 0 0 none (c ∷ clusters)) [
      | inl (q, a) ↦
          subst Splits (sym (split_main_cluster-split_by c clusters none q))
            (let r = number_of-empty f clusters e a.1 in omega arith)
      | inr (k, q, l, m, a) ↦
          subst Splits
            (sym (split_main_cluster-split_by c clusters (some k) (q ∙ ap some (omega arith))))
            (number_of-without f (c ∷ clusters) k l)
    ]
