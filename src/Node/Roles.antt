-- ===== src/Node/Roles.antt =====
-- The setters that read the flags of CLUSTER NODES.
use k8s_cluster.Base.{
  Bool, Bool-cases, codes, sym, List, Text, [], ap, arith, inl, inr, not, refl, text_eq,
  text_eq_sound, ◌&&◌, ◌||◌, ◌∷◌, ◌≡◌, any,
}
use k8s_cluster.Slot.Codec.{split}
use k8s_cluster.Node.Defs.{
  Node, role_of_flags, set_role, is_failure_flag, failure_flags, set_failure_status, has_status,
  redis_master_role, redis_slave_role,
}

abbrev pub is_role_flag : Text → Bool
is_role_flag val = text_eq val redis_master_role || text_eq val redis_slave_role

role_of_flags-empty :
    (role : Text) (vals : List Text)
    → text_eq (role_of_flags role vals) [] ≡ (text_eq role [] && not (any is_role_flag vals))
unfolding role_of_flags text_eq
role_of_flags-empty role [] = ground arith
role_of_flags-empty role (val ∷ vals) = elim (Bool-cases (text_eq val redis_master_role)) [
  | inl m ↦ rw (m, role_of_flags-empty redis_master_role vals) (ground arith)
  | inr o ↦ elim (Bool-cases (text_eq val redis_slave_role)) [
    | inl s ↦ rw (o, s, role_of_flags-empty redis_slave_role vals) (ground arith)
    | inr t ↦ rw (o, t, role_of_flags-empty role vals) refl
  ]
]

-- `SetRole` succeeds exactly when one of the flags between the commas is master or slave.
pub set_role-success :
    (n : Node) (flags : Text) → (set_role n flags).1 ≡ any is_role_flag (split b',' flags)
unfolding set_role text_eq
set_role-success n flags = ground (arith, role_of_flags-empty [] (split b',' flags))

has_flag-failure_flags :
    (flag : Text) (vals : List Text)
    → any (λ s. text_eq s flag) (failure_flags vals)
      ≡ (is_failure_flag flag && any (λ s. text_eq s flag) vals)
unfolding failure_flags
has_flag-failure_flags flag [] = ground arith
has_flag-failure_flags flag (val ∷ vals) = elim (Bool-cases (text_eq val flag)) [
  | inl same ↦ elim (Bool-cases (is_failure_flag flag)) [
    | inl k ↦ rw (ap is_failure_flag (text_eq_sound val flag same), k, same) refl
    | inr d ↦
        rw
          (ap is_failure_flag (text_eq_sound val flag same), d, has_flag-failure_flags flag vals, d)
          refl
  ]
  | inr other ↦ elim (Bool-cases (is_failure_flag val)) [
    | inl k ↦ rw (k, other) (has_flag-failure_flags flag vals)
    | inr d ↦ rw (d, other) (has_flag-failure_flags flag vals)
  ]
]

-- The failure flags of CLUSTER NODES.
abbrev pub failure_texts : List Text
failure_texts =
    codes "fail?" ∷ codes "fail" ∷ codes "handshake" ∷ codes "noaddr" ∷ codes "noflags" ∷ []

is_failure_flag-any : (flag : Text) → is_failure_flag flag ≡ any (text_eq flag) failure_texts
unfolding is_failure_flag
is_failure_flag-any flag = ground arith

-- After `SetFailureStatus`, `HasStatus` answers for a text that it is one of the flags fail?, fail,
-- handshake, noaddr and noflags, and stands between the commas of the flags.
pub has_status-set_failure_status :
    (n : Node) (flags flag : Text)
    → has_status (set_failure_status n flags) flag
      ≡ (any (text_eq flag) failure_texts && any (λ s. text_eq s flag) (split b',' flags))
unfolding has_status set_failure_status
has_status-set_failure_status n flags flag =
    rw (sym (is_failure_flag-any flag)) (has_flag-failure_flags flag (split b',' flags))
