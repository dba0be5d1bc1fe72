-- ===== src/Placement/Slaves.antt =====
-- How PlaceSlaves of placement_v2.go ends.
use k8s_cluster.Base.{
  Bool, List, Option-cases, Text, [], arith, false, inl, inr, none, refl, some, true, ◌∙◌, ◌∷◌, ◌≡◌,
  any, sym, ap,
}
use k8s_cluster.Base.Assoc.{lookup}
use k8s_cluster.Node.{Ptr, Nodes, Heap}
use k8s_cluster.Placement.Context.{
  Ctx, Outcome, done, panics, place_slaves_of, place_slaves_loop, place_slaves,
}

-- The stateful set has nodes and no new master.
abbrev pub lacks_master : List (Text × Ptr) → Text × Nodes → Bool
lacks_master masters (ss_name, []) = false
lacks_master masters (ss_name, p ∷ nodes) = elim (lookup ss_name masters) [
  | none ↦ true
  | some _ ↦ false
]

-- The masters are those of the context, and the nodes too.
abbrev SameMasters : Ctx → Ctx → Type 0
SameMasters c d = (d.new_masters_by_sts ≡ c.new_masters_by_sts)

place_slaves_of-SameMasters :
    (h : Heap) (master : Ptr) (nodes : Nodes) (c : Ctx)
    → SameMasters c (place_slaves_of h master nodes c)
unfolding place_slaves_of
place_slaves_of-SameMasters h master [] c = refl
place_slaves_of-SameMasters h master (p ∷ nodes) c =
    place_slaves_of-SameMasters h master nodes _ ∙ ground arith

-- How the loop ends, by the test whether some stateful set lacks a master.
abbrev pub EndsBy : Bool → Outcome Ctx → Type 0
EndsBy true r = r ≡ panics
EndsBy false r = (d : Ctx) × (r ≡ done d)

place_slaves_loop-EndsBy :
    (h : Heap) (m : List (Text × Nodes)) (c : Ctx) (masters : List (Text × Ptr))
    → c.new_masters_by_sts ≡ masters
    → EndsBy (any (lacks_master masters) m) (place_slaves_loop h m c)
unfolding place_slaves_loop
place_slaves_loop-EndsBy h [] c masters e = (c, refl)
place_slaves_loop-EndsBy h ((ss_name, []) ∷ m) c masters e =
    elim (Option-cases (lookup ss_name c.new_masters_by_sts)) [
      | inl l ↦ rw (l, place_slaves_loop) (place_slaves_loop-EndsBy h m c masters e)
      | inr (p, l) ↦
          rw (l, place_slaves_loop)
            (place_slaves_loop-EndsBy h m (place_slaves_of h p [] c) masters
              (place_slaves_of-SameMasters h p [] c ∙ e))
    ]
place_slaves_loop-EndsBy h ((ss_name, q ∷ nodes) ∷ m) c masters e =
    elim (Option-cases (lookup ss_name c.new_masters_by_sts)) [
      | inl l ↦
          let here : lacks_master masters (ss_name, q ∷ nodes) ≡ true =
            rw (sym (ap (lookup ss_name) e) ∙ l, lacks_master) refl in
          rw (here, any) (rw (l, place_slaves_loop) refl)
      | inr (p, l) ↦
          let here : lacks_master masters (ss_name, q ∷ nodes) ≡ false =
            rw (sym (ap (lookup ss_name) e) ∙ l, lacks_master) refl in
          rw (here, any)
            (rw (l, place_slaves_loop)
              (place_slaves_loop-EndsBy h m (place_slaves_of h p (q ∷ nodes) c) masters
                (place_slaves_of-SameMasters h p (q ∷ nodes) c ∙ e)))
    ]

-- `PlaceSlaves` follows a nil pointer exactly when some stateful set has nodes and no new master; else
-- it returns.
pub place_slaves-EndsBy :
    (h : Heap) (c : Ctx)
    → EndsBy (any (lacks_master c.new_masters_by_sts) c.nodes) (place_slaves h c)
unfolding place_slaves
place_slaves-EndsBy h c = place_slaves_loop-EndsBy h c.nodes _ c.new_masters_by_sts refl
