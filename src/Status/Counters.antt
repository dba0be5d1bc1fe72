-- ===== src/Status/Counters.antt =====
-- The counters of `buildClusterStatus`, in the map from the IDs of masters to numbers of slaves.
use k8s_cluster.Base.{
  All, subst, Bool, Bool-cases, List, Option, Text, [], ap, arith, false, if◌then◌else◌, inl, inr,
  none, not, refl, some, sym, text_eq, text_eq_sound, true, ℕ, ◌&&◌, ◌+◌, ◌||◌, ◌∷◌, ◌≡◌, ◌∙◌,
}
use k8s_cluster.Base.Assoc.{insert, lookup, lookup-insert}
use k8s_cluster.Node.{Node, is_master_with_slot, is_slave}
use k8s_cluster.Status.Build.{Building, number_at, start_counter, count_master, count_slave}
use k8s_cluster.Status.Tally.{
  is_serving, follows, serves_as, one_if, is_some, is_master_with_slot-is_serving, is_slave-follows,
}

-- The counters that a map has.
abbrev pub has_counter : Text → List (Text × ℕ) → Bool
has_counter k m = is_some (lookup k m)

-- The counter that a lookup finds.
abbrev pub value : Option ℕ → ℕ
value o = elim o as (λ _. ℕ) [ none ↦ 0 | some n ↦ n ]

number_at_same :
    (id k : Text) (m : List (Text × ℕ)) → text_eq id k ≡ true → number_at k m ≡ number_at id m
number_at_same id k m same = ap (λ t. number_at t m) (sym (text_eq_sound id k same))

number_at-put :
    (id k : Text) (n : ℕ) (m : List (Text × ℕ))
    → number_at k (insert id n m) ≡ (if text_eq id k then n else number_at k m)
number_at-put id k n m =
    ap value (lookup-insert id k n m)
    ∙ elim (Bool-cases (text_eq id k)) [ inl same ↦ rw same refl | inr other ↦ rw other refl ]

if_same : {A : Type 0} → (b : Bool) (x y : A) → (b ≡ true → x ≡ y) → (if b then x else y) ≡ y
if_same true x y e = e refl
if_same false x y e = refl

-- `start_counter`, by what the lookup finds.
abbrev start_by : Text → List (Text × ℕ) → Option ℕ → List (Text × ℕ)
start_by id m o = elim o [ none ↦ insert id 0 m | some _ ↦ m ]

start_by-same :
    (id k : Text) (m : List (Text × ℕ)) (o : Option ℕ)
    → lookup id m ≡ o
    → number_at k (start_by id m o) ≡ number_at k m
start_by-same id k m (some n) e = refl
start_by-same id k m none e =
    number_at-put id k 0 m
    ∙ if_same (text_eq id k) 0 (number_at k m)
        (λ same. sym (number_at_same id k m same ∙ ap value e))

start_counter-same :
    (id k : Text) (m : List (Text × ℕ)) → number_at k (start_counter id m) ≡ number_at k m
start_counter-same id k m = start_by-same id k m (lookup id m) refl

has_counter-insert :
    (id k : Text) (n : ℕ) (m : List (Text × ℕ))
    → has_counter k (insert id n m) ≡ (text_eq id k || has_counter k m)
has_counter-insert id k n m = elim (Bool-cases (text_eq id k)) [
  | inl same ↦ rw (lookup-insert id k n m, same) refl
  | inr other ↦ rw (lookup-insert id k n m, other) refl
]

has_counter-start_by :
    (id k : Text) (m : List (Text × ℕ)) (o : Option ℕ)
    → lookup id m ≡ o
    → has_counter k (start_by id m o) ≡ (text_eq id k || has_counter k m)
has_counter-start_by id k m none e = has_counter-insert id k 0 m
has_counter-start_by id k m (some n) e = elim (Bool-cases (text_eq id k)) [
  | inl same ↦ rw same (ap (λ t. has_counter t m) (sym (text_eq_sound id k same)) ∙ ap is_some e)
  | inr other ↦ rw other refl
]

has_counter-start :
    (id k : Text) (m : List (Text × ℕ))
    → has_counter k (start_counter id m) ≡ (text_eq id k || has_counter k m)
has_counter-start id k m = has_counter-start_by id k m (lookup id m) refl

number_at-insert :
    (id k : Text) (m : List (Text × ℕ))
    → number_at k (insert id (number_at id m + 1) m) ≡ one_if (text_eq id k) + number_at k m
number_at-insert id k m =
    number_at-put id k (number_at id m + 1) m ∙ elim (Bool-cases (text_eq id k)) [
      | inl same ↦ let e = number_at_same id k m same in rw same (omega (arith, e))
      | inr other ↦ rw other (omega arith)
    ]

module _ (n : Node) (b : Building) where
  pub nb_master-count :
      (count_slave n (count_master n b)).nb_master ≡ one_if (is_serving n) + b.nb_master
  unfolding count_master count_slave
  nb_master-count = let e = is_master_with_slot-is_serving n in ground arith

  number_at-count_master :
      (k : Text)
      → number_at k (count_master n b).nb_slave_by_master ≡ number_at k b.nb_slave_by_master
  unfolding count_master
  number_at-count_master k = elim (Bool-cases (is_master_with_slot n)) [
    | inl y ↦ rw y (start_counter-same n.id k b.nb_slave_by_master)
    | inr o ↦ rw o refl
  ]

  has_counter-count_master :
      (k : Text)
      → has_counter k (count_master n b).nb_slave_by_master
        ≡ (serves_as k n || has_counter k b.nb_slave_by_master)
  unfolding count_master
  has_counter-count_master k =
      let e = is_master_with_slot-is_serving n in
      elim (Bool-cases (is_master_with_slot n)) [
        | inl y ↦ rw (y, has_counter-start n.id k b.nb_slave_by_master) (ground arith)
        | inr o ↦ rw o (ground arith)
      ]

  number_at-count_slave :
      (k : Text)
      → number_at k (count_slave n b).nb_slave_by_master
        ≡ one_if (follows k n) + number_at k b.nb_slave_by_master
  unfolding count_slave
  number_at-count_slave k =
      let e = is_slave-follows n k in
      elim (Bool-cases (is_slave n && not (text_eq n.master_referent []))) [
        | inl y ↦
            rw (y, number_at-insert n.master_referent k b.nb_slave_by_master)
              (let g : text_eq n.master_referent k ≡ follows k n = ground arith in
                ap (λ t. one_if t + number_at k b.nb_slave_by_master) g)
        | inr o ↦ rw o (
            let g : follows k n ≡ false = ground arith in
            let z : one_if (follows k n) ≡ 0 = ap one_if g in omega (arith, z))
      ]

  has_counter-count_slave :
      (k : Text)
      → has_counter k b.nb_slave_by_master ≡ true
      → has_counter k (count_slave n b).nb_slave_by_master ≡ true
  unfolding count_slave
  has_counter-count_slave k e =
      elim (Bool-cases (is_slave n && not (text_eq n.master_referent []))) [
        | inl y ↦
            rw (y, has_counter-insert n.master_referent k _ b.nb_slave_by_master, e) (ground arith)
        | inr o ↦ rw o e
      ]

-- One counted node, as the loop counts it.
module _ (n : Node) (b : Building) (k : Text) where
  pub number_at-count :
      number_at k (count_slave n (count_master n b)).nb_slave_by_master
      ≡ one_if (follows k n) + number_at k b.nb_slave_by_master
  number_at-count =
      number_at-count_slave n (count_master n b) k
      ∙ ap (λ m. one_if (follows k n) + m) (number_at-count_master n b k)

  pub has_counter-count :
      (serves_as k n || has_counter k b.nb_slave_by_master) ≡ true
      → has_counter k (count_slave n (count_master n b)).nb_slave_by_master ≡ true
  has_counter-count e =
      has_counter-count_slave n (count_master n b) k (has_counter-count_master n b k ∙ e)

-- A counter that the map has is the one of some entry.
pub All-number_at :
    (P : ℕ → Type 0) (k : Text) (m : List (Text × ℕ))
    → All (λ e. P e.1) m
    → has_counter k m ≡ true
    → P (number_at k m)
unfolding lookup
All-number_at P k [] a e = absurd (ground arith)
All-number_at P k ((j, n) ∷ m) a e = elim (Bool-cases (text_eq j k)) [
  | inl same ↦ subst P (sym (ap value (ap (λ b. if b then some n else lookup k m) same))) a.0
  | inr other ↦
      let skip : lookup k ((j, n) ∷ m) ≡ lookup k m =
        ap (λ b. if b then some n else lookup k m) other in
      subst P (sym (ap value skip)) (All-number_at P k m a.1 (sym (ap is_some skip) ∙ e))
]
