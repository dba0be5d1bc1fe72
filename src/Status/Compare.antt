-- ===== src/Status/Compare.antt =====
-- What `compareStatus` sees.
use mathlib.Core.Bool.{false≢true}
use k8s_cluster.Base.{
  All, Bool, Bool-cases, List, [], arith, false, inl, inr, length, not, text_eq, text_eq_sound,
  true, ◌&&◌, ◌||◌, ◌∷◌, ◌≡◌, any, sym,
}
use k8s_cluster.Node.{RedisClusterNode}
use k8s_cluster.Status.{
  RedisClusterStatus, compare_nodes, compare_with, compare_lists, compare_status, status_text,
  phase_text, compare_string_value, compare_int32,
}

-- A node with the same ID that does not differ in what is compared.
abbrev pub matches : RedisClusterNode → RedisClusterNode → Bool
matches a b = text_eq a.id b.id && not (compare_nodes a b)

or_false : (b : Bool) → (b || false) ≡ b
or_false b = ground arith

compare_with-false :
    (a : RedisClusterNode) (new : List RedisClusterNode) (found : Bool)
    → compare_with a new found ≡ false
    → (found || any (matches a) new) ≡ true
unfolding compare_with
compare_with-false a [] found e = ground arith
compare_with-false a (b ∷ new) found e = elim (Bool-cases (text_eq a.id b.id)) [
  | inl same ↦ elim (Bool-cases (compare_nodes a b)) [
    | inl differ ↦ absurd (false≢true (sym (rw (same, differ) at e)))
    | inr equal ↦ rw (same, equal) (ground arith)
  ]
  | inr other ↦
      let k = compare_with-false a new found (rw (other, or_false found) at e) in rw other k
]

-- Every old node has a matching new one.
pub compare_lists-matched :
    (old new : List RedisClusterNode)
    → compare_lists old new ≡ false
    → All (λ a. any (matches a) new ≡ true) old
unfolding compare_lists
compare_lists-matched [] new e = tt
compare_lists-matched (a ∷ old) new e = elim (Bool-cases (compare_with a new false)) [
  | inl y ↦ absurd (ground arith)
  | inr n ↦ (compare_with-false a new false n, compare_lists-matched old new (rw n at e))
]

-- Where `compareStatus` finds no difference, the two statuses have the same status and reason, the
-- same number of masters and of nodes, the same restore phase, and each old node has a new node
-- with the same ID that `compareNodes` does not tell from it.
pub compare_status-same :
    (old new : RedisClusterStatus)
    → compare_status old new ≡ false
    → (status_text old.status ≡ status_text new.status)
      × (old.reason ≡ new.reason)
      × (old.number_of_master ≡ new.number_of_master)
      × (length old.nodes ≡ length new.nodes)
      × (phase_text old.restore_phase ≡ phase_text new.restore_phase)
      × All (λ a. any (matches a) new.nodes ≡ true) old.nodes
unfolding compare_status compare_string_value compare_int32
compare_status-same old new e = (
  text_eq_sound _ _ (ground arith),
  text_eq_sound _ _ (ground arith),
  ground arith,
  ground arith,
  text_eq_sound _ _ (ground arith),
  compare_lists-matched old.nodes new.nodes (ground arith),
)
