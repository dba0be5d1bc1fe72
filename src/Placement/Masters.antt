-- ===== src/Placement/Masters.antt =====
-- The masters that DispatchMasters of placement_v2.go chooses.
use k8s_cluster.Base.{
  zero, All, Bool, Bool-cases, List, Option, Option-cases, Text, [], arith, elem, filter_b, inl,
  inr, map, none, refl, some, subst, sym, text_eq, text_eq_sound, true, ◌++◌, ◌∷◌, ◌≡◌, ◌∙◌, false,
  ℕ, ◌||◌, suc, ap, text_eq_refl, All-elem,
}
use k8s_cluster.Base.Assoc.{lookup, insert, slice_at, lookup-insert}
use k8s_cluster.Node.{Ptr, Nodes, Heap, filter_by_func, is_master_with_slot}
use k8s_cluster.Placement.Context.{
  ◌>>=◌, Ctx, Outcome, done, missing_stateful_set, split_brain, panics, first_free, place_masters,
  choose_master, dispatch_master, dispatch_from, dispatch_masters, cluster_stateful_set_name,
}

first_free-elem :
    (h : Heap) (all nodes : Nodes) (p : Ptr) → first_free h all nodes ≡ some p → elem p nodes ≡ true
unfolding first_free
first_free-elem h all [] p e = absurd (ground arith)
first_free-elem h all (q ∷ nodes) p e = ground (arith, first_free-elem h all nodes p)

-- The node stands among those of its stateful set.
abbrev pub Placed : List (Text × Nodes) → Text × Ptr → Type 0
Placed nodes e = elem e.1 (slice_at e.0 nodes) ≡ true

-- A choice leaves the context but for `bestEffort`, and is a node of the stateful set.
abbrev IsChoice : Ctx → Text → Outcome (Ctx × Ptr) → Type 0
IsChoice c sts (done (d, p)) =
    (d.nodes ≡ c.nodes)
    × (d.cluster_name ≡ c.cluster_name)
    × (d.new_masters_by_sts ≡ c.new_masters_by_sts)
    × Placed c.nodes (sts, p)
IsChoice c sts _ = Unit {0}

place_masters-IsChoice : (h : Heap) (c : Ctx) (sts : Text) → IsChoice c sts (place_masters h c sts)
unfolding place_masters
place_masters-IsChoice h c sts =
    go (first_free h all (slice_at sts c.nodes)) refl (slice_at sts c.nodes) refl
  where
    all : Nodes
    all = c.current_masters ++ map (λ e. e.1) c.new_masters_by_sts

    go :
        (o : Option Ptr)
        → first_free h all (slice_at sts c.nodes) ≡ o
        → (nodes : Nodes) → slice_at sts c.nodes ≡ nodes
        → IsChoice c sts (elim o [
          | some p ↦ done (c, p)
          | none ↦ elim nodes [ [] ↦ panics | p ∷ _ ↦ done (record c { best_effort = true }, p) ]
        ])
    go (some p) e nodes l = (refl, refl, refl, first_free-elem h all (slice_at sts c.nodes) p e)
    go none e [] l = tt
    go none e (p ∷ nodes) l = (refl, refl, refl, rw l (ground arith))

choose_master-IsChoice :
    (h : Heap) (c : Ctx) (sts : Text) (masters : Nodes)
    → All (λ p. elem p (slice_at sts c.nodes) ≡ true) masters
    → IsChoice c sts (choose_master h c sts masters)
unfolding choose_master
choose_master-IsChoice h c sts [] a = place_masters-IsChoice h c sts
choose_master-IsChoice h c sts (p ∷ []) a = (refl, refl, refl, a.0)
choose_master-IsChoice h c sts (p ∷ q ∷ ps) a = tt

All-elem-filter :
    (f : Ptr → Bool) (nodes all : Nodes)
    → All (λ p. elem p all ≡ true) nodes
    → All (λ p. elem p all ≡ true) (filter_b f nodes)
All-elem-filter f [] all a = tt
All-elem-filter f (p ∷ nodes) all a = elim (Bool-cases (f p)) [
  | inl y ↦ rw y (a.0, All-elem-filter f nodes all a.1)
  | inr n ↦ rw n (All-elem-filter f nodes all a.1)
]

All-filter_by_func :
    (h : Heap) (nodes : Nodes)
    → All (λ p. elem p nodes ≡ true) (filter_by_func h is_master_with_slot nodes)
unfolding filter_by_func
All-filter_by_func h nodes =
    All-elem-filter (λ p. is_master_with_slot (h p)) nodes nodes (All-elem nodes)

lookup-slice_at :
    (k : Text) (m : List (Text × Nodes)) (nodes : Nodes)
    → lookup k m ≡ some nodes
    → slice_at k m ≡ nodes
unfolding lookup slice_at
lookup-slice_at k [] nodes e = absurd (ground arith)
lookup-slice_at k ((j, v) ∷ m) nodes e = ground (arith, lookup-slice_at k m nodes)

insert-Placed :
    (nodes : List (Text × Nodes)) (k : Text) (p : Ptr) (m : List (Text × Ptr))
    → Placed nodes (k, p)
    → All (Placed nodes) m
    → All (Placed nodes) (insert k p m)
unfolding insert
insert-Placed nodes k p [] e a = (e, tt)
insert-Placed nodes k p ((j, q) ∷ m) e a = elim (Bool-cases (text_eq j k)) [
  | inl y ↦ rw y (subst (λ i. Placed nodes (i, p)) (sym (text_eq_sound j k y)) e, a.1)
  | inr n ↦ rw n (a.0, insert-Placed nodes k p m e a.1)
]

-- Every new master is a node of its stateful set.
abbrev pub AllPlaced : Ctx → Type 0
AllPlaced c = All (Placed c.nodes) c.new_masters_by_sts

-- The stateful set has a new master.
abbrev pub has_master : Text → Ctx → Bool
has_master sts c = elim (lookup sts c.new_masters_by_sts) [ none ↦ false | some _ ↦ true ]

-- What a step of the dispatch leaves, where it returns.
abbrev pub Kept : Ctx → Outcome Ctx → Type 0
Kept c (done d) =
    (d.nodes ≡ c.nodes)
    × (d.cluster_name ≡ c.cluster_name)
    × AllPlaced d
    × ((j : Text) → has_master j c ≡ true → has_master j d ≡ true)
Kept c _ = Unit {0}

-- The step gave the stateful set a new master, where it returns.
abbrev pub Reaches : Text → Outcome Ctx → Type 0
Reaches sts (done d) = has_master sts d ≡ true
Reaches sts _ = Unit {0}

or_true : (b : Bool) → (b || true) ≡ true
or_true b = ground arith

has_master-insert :
    (j k : Text) (p : Ptr) (m : List (Text × Ptr))
    → (elim (lookup j (insert k p m)) [ none ↦ false | some _ ↦ true ])
      ≡ (text_eq k j || elim (lookup j m) [ none ↦ false | some _ ↦ true ])
has_master-insert j k p m =
    rw (lookup-insert k j p m)
      (elim (Bool-cases (text_eq k j)) [ inl y ↦ rw y refl | inr n ↦ rw n refl ])

chosen-Kept :
    (c : Ctx) (sts : Text) (r : Outcome (Ctx × Ptr))
    → AllPlaced c
    → IsChoice c sts r
    → Kept c (
        r >>= λ (c', p).
        done (record c' { new_masters_by_sts = insert sts p c'.new_masters_by_sts }))
      × Reaches sts (
          r >>= λ (c', p).
          done (record c' { new_masters_by_sts = insert sts p c'.new_masters_by_sts }))
chosen-Kept c sts (done (d, p)) a (n, s, m, e) = (
  (
    n,
    s,
    rw (n, m) (insert-Placed c.nodes sts p c.new_masters_by_sts e a),
    λ j k.
        has_master-insert j sts p d.new_masters_by_sts
        ∙ ap (λ b. text_eq sts j || b)
            (ap
                (λ (l : List (Text × Ptr)). elim (lookup j l) as (λ _. Bool) [
                  | none ↦ false
                  | some _ ↦ true
                ])
                m
              ∙ k)
        ∙ or_true (text_eq sts j),
  ),
  has_master-insert sts sts p d.new_masters_by_sts
      ∙ ap (λ b. b || has_master sts d) (text_eq_refl sts),
)
chosen-Kept c sts (missing_stateful_set s) a e = (tt, tt)
chosen-Kept c sts (split_brain s) a e = (tt, tt)
chosen-Kept c sts panics a e = (tt, tt)

dispatch_master-Kept :
    (h : Heap) (c : Ctx) (sts : Text)
    → AllPlaced c
    → Kept c (dispatch_master h c sts) × Reaches sts (dispatch_master h c sts)
unfolding dispatch_master
dispatch_master-Kept h c sts a = elim (Option-cases (lookup sts c.nodes)) [
  | inl l ↦ rw (l, Kept, Reaches) (tt, tt)
  | inr (nodes, l) ↦
      let at_sts =
        subst (λ ns. All (λ p. elem p ns ≡ true) (filter_by_func h is_master_with_slot nodes))
          (sym (lookup-slice_at sts c.nodes nodes l)) (All-filter_by_func h nodes) in
      rw (l, Kept, Reaches)
        (chosen-Kept c sts _ a
          (choose_master-IsChoice h c sts (filter_by_func h is_master_with_slot nodes) at_sts))
]

-- The stateful sets from number `i` on, `k` of them, have new masters.
abbrev pub HaveMasters : ℕ → ℕ → Ctx → Type 0
HaveMasters i zero d = Unit {0}
HaveMasters i (suc k) d =
    (has_master (cluster_stateful_set_name d.cluster_name i) d ≡ true) × HaveMasters (suc i) k d

-- What the dispatch from stateful set `i` on leaves.
abbrev pub Dispatch : ℕ → ℕ → Outcome Ctx → Type 0
Dispatch i k (done d) = AllPlaced d × HaveMasters i k d
Dispatch i k _ = Unit {0}

after_done :
    (c d : Ctx) (i k : ℕ) (r : Outcome Ctx)
    → d.nodes ≡ c.nodes
    → d.cluster_name ≡ c.cluster_name
    → ((j : Text) → has_master j c ≡ true → has_master j d ≡ true)
    → has_master (cluster_stateful_set_name c.cluster_name i) d ≡ true
    → Kept d r × Dispatch (suc i) k r
    → Kept c r × Dispatch i (suc k) r
after_done c d i k (missing_stateful_set s) n s' g e f = (tt, tt)
after_done c d i k (split_brain s) n s' g e f = (tt, tt)
after_done c d i k panics n s' g e f = (tt, tt)
after_done c d i k (done r) n s g e ((n', s', a, g'), (b, m)) = (
  (n' ∙ n, s' ∙ s, a, λ j x. g' j (g j x)),
  (
    b,
    (subst (λ t. has_master (cluster_stateful_set_name t i) r ≡ true) (sym (s' ∙ s)) (g' _ e), m),
  ),
)

after :
    (h : Heap) (c : Ctx) (i k : ℕ) (r : Outcome Ctx)
    → Kept c r × Reaches (cluster_stateful_set_name c.cluster_name i) r
    → ((d : Ctx)
        → AllPlaced d
        → Kept d (dispatch_from h (suc i) k d) × Dispatch (suc i) k (dispatch_from h (suc i) k d))
    → Kept c (r >>= dispatch_from h (suc i) k)
      × Dispatch i (suc k) (r >>= dispatch_from h (suc i) k)
after h c i k (missing_stateful_set s) e f = (tt, tt)
after h c i k (split_brain s) e f = (tt, tt)
after h c i k panics e f = (tt, tt)
after h c i k (done d) ((n, s, a, g), r) f =
    after_done c d i k (dispatch_from h (suc i) k d) n s g r (f d a)

dispatch_from-Kept :
    (h : Heap) (i k : ℕ) (c : Ctx)
    → AllPlaced c
    → Kept c (dispatch_from h i k c) × Dispatch i k (dispatch_from h i k c)
unfolding dispatch_from
dispatch_from-Kept h i zero c a = ((refl, refl, a, λ j e. e), (a, tt))
dispatch_from-Kept h i (suc k) c a =
    after h c i k (dispatch_master h c (cluster_stateful_set_name c.cluster_name i))
      (dispatch_master-Kept h c (cluster_stateful_set_name c.cluster_name i) a)
      (λ d b. dispatch_from-Kept h (suc i) k d b)

-- On a context without new masters yet, as `NewCtx` makes it: where `DispatchMasters` returns without an
-- error, each of the expected stateful sets has a new master, and every new master is one of the
-- nodes of its stateful set.
pub dispatch_masters-Dispatch :
    (h : Heap) (c : Ctx)
    → c.new_masters_by_sts ≡ []
    → Dispatch 0 c.expected_master_num (dispatch_masters h c)
unfolding dispatch_masters
dispatch_masters-Dispatch h c e = (dispatch_from-Kept h 0 c.expected_master_num c (rw e tt)).1
