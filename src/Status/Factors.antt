-- ===== src/Status/Factors.antt =====
-- The replication factors of `buildClusterStatus`.
use k8s_cluster.Base.{All, List, Text, [], arith, if◌then◌else◌, ltb, ℕ, ◌∷◌, ◌≤◌}
use k8s_cluster.Status.{factors, replication_factors, max_int32}

-- A counter lies between two bounds.
abbrev pub Between : ℕ → ℕ → Text × ℕ → Type 0
Between lo hi e = (lo ≤ e.1) × (e.1 ≤ hi)

factors-start :
    (m : List (Text × ℕ)) (lo hi : ℕ)
    → ((factors (lo, hi) m).0 ≤ lo) × (hi ≤ (factors (lo, hi) m).1)
unfolding factors
factors-start [] lo hi = (omega arith, omega arith)
factors-start ((k, n) ∷ m) lo hi =
    let (a, b) = factors-start m (if ltb n lo then n else lo) (if ltb hi n then n else hi) in
    (ground arith, ground arith)

factors-Between :
    (m : List (Text × ℕ)) (lo hi : ℕ)
    → All (Between (factors (lo, hi) m).0 (factors (lo, hi) m).1) m
unfolding factors
factors-Between [] lo hi = tt
factors-Between ((k, n) ∷ m) lo hi =
    let (a, b) = factors-start m (if ltb n lo then n else lo) (if ltb hi n then n else hi) in
    (
      (ground arith, ground arith),
      factors-Between m (if ltb n lo then n else lo) (if ltb hi n then n else hi),
    )

-- Every master's number of slaves lies between the two replication factors.
pub replication_factors-Between :
    (m : List (Text × ℕ)) → All (Between (replication_factors m).0 (replication_factors m).1) m
unfolding replication_factors
replication_factors-Between [] = tt
replication_factors-Between (e ∷ m) = factors-Between (e ∷ m) max_int32 0
