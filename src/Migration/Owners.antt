-- ===== src/Migration/Owners.antt =====
-- Who owns the slots after a move and after the whole dispatch, whatever Redis answers.
use k8s_cluster.Base.{
  ==_iff, Bool, Bool-cases, List, Option-cases, [], any-elim, any-intro, ap, arith, elem,
  if◌then◌else◌, inl, inr, not, refl, true, ◌&&◌, ◌++◌, ◌==◌, ◌||◌, ◌∷◌, ◌≡◌, ◌≢◌, ◌⊎◌, any,
}
use k8s_cluster.Slot.{Slot, contains}
use k8s_cluster.Slot.Sets.{contains-remove_slots, contains-add_slots}
use k8s_cluster.Node.{Ptr, Nodes, Heap, write, ip_port}
use k8s_cluster.Admin.{Action, Command, Log, Oracle}
use k8s_cluster.Migration.Plan.{MigrationInfo, Moves}
use k8s_cluster.Migration.Dispatch.{
  drop_slots, gain_slots, hand_over, move_between, move_lost, dispatch_move, dispatch_moves,
}

abbrev pub owns : Heap → Slot → Ptr → Bool
owns h e p = contains (h p).slots e

owns-drop_slots :
    (h : Heap) (p q : Ptr) (slots : List Slot) (e : Slot)
    → owns (drop_slots h p slots) e q
      ≡ (if p == q then owns h e p && not (contains slots e) else owns h e q)
unfolding drop_slots write
owns-drop_slots h p q slots e = elim (Bool-cases (p == q)) [
  | inl same ↦ rw same (contains-remove_slots (h p).slots slots e)
  | inr other ↦ rw other refl
]

owns-gain_slots :
    (h : Heap) (p q : Ptr) (slots : List Slot) (e : Slot)
    → owns (gain_slots h p slots) e q
      ≡ (if p == q then owns h e p || contains slots e else owns h e q)
unfolding gain_slots write
owns-gain_slots h p q slots e = elim (Bool-cases (p == q)) [
  | inl same ↦ rw same (contains-add_slots (h p).slots slots e)
  | inr other ↦ rw other refl
]

module _ (o : Oracle) (all_masters : Nodes) where
  -- After a move between two different nodes the target owns the slots too, the source none of them,
  -- and every other node owns the same slots as before.
  pub owns-hand_over :
      (key : MigrationInfo) (from : Ptr) (slots : List Slot) (h : Heap) (log : Log) (q : Ptr)
      (e : Slot)
      → from ≢ key.to
      → owns (hand_over o all_masters key from slots h log).heap e q ≡ (
          if key.to == q
          then owns h e q || contains slots e
          else if from == q
          then owns h e q && not (contains slots e)
          else owns h e q)
  unfolding hand_over
  owns-hand_over key from slots h log q e apart = elim (Bool-cases (key.to == q)) [
    | inl same ↦ ground (
      arith,
      owns-gain_slots (drop_slots h from slots) key.to q slots e,
      owns-drop_slots h from key.to slots e,
      ap (owns h e) ((==_iff key.to q).0 same),
    )
    | inr other ↦ elim (Bool-cases (from == q)) [
      | inl source ↦ ground (
        arith,
        owns-gain_slots (drop_slots h from slots) key.to q slots e,
        owns-drop_slots h from q slots e,
        ap (owns h e) ((==_iff from q).0 source),
      )
      | inr third ↦ ground (
        arith,
        owns-gain_slots (drop_slots h from slots) key.to q slots e,
        owns-drop_slots h from q slots e,
      )
    ]
  ]

  -- A slot that a node owns stays with it or is with the target.
  Kept : Ptr → Slot → Ptr → Heap → Heap → Type 0
  Kept to e p h h' = owns h e p ≡ true → (owns h' e p ≡ true) ⊎ (owns h' e to ≡ true)

  Kept-same : (to : Ptr) (e : Slot) (p : Ptr) (h : Heap) → Kept to e p h h
  unfolding Kept
  Kept-same to e p h k = inl k

  Kept-gain_slots :
      (to p : Ptr) (slots : List Slot) (h : Heap) (e : Slot) → Kept to e p h (gain_slots h to slots)
  unfolding Kept
  Kept-gain_slots to p slots h e k = elim (Bool-cases (to == p)) [
    | inl same ↦
        inl (ground (arith, owns-gain_slots h to p slots e, ap (owns h e) ((==_iff to p).0 same)))
    | inr other ↦ inl (ground (arith, owns-gain_slots h to p slots e))
  ]

  Kept-hand_over :
      (key : MigrationInfo) (from p : Ptr) (slots : List Slot) (h : Heap) (log : Log) (e : Slot)
      → Kept key.to e p h (hand_over o all_masters key from slots h log).heap
  unfolding Kept hand_over
  Kept-hand_over key from p slots h log e k =
      let to_gains = owns-gain_slots (drop_slots h from slots) key.to key.to slots e in
      elim (Bool-cases (contains slots e)) [
        | inl moving ↦ inr (ground (arith, to_gains))
        | inr rests ↦ elim (Bool-cases (from == p)) [
          | inl source ↦ Kept-gain_slots key.to p slots (drop_slots h from slots) e (
              ground
                (arith, owns-drop_slots h from p slots e, ap (owns h e) ((==_iff from p).0 source)))
          | inr other ↦
              Kept-gain_slots key.to p slots (drop_slots h from slots) e
                (ground (arith, owns-drop_slots h from p slots e))
        ]
      ]

  Kept-move_between :
      (key : MigrationInfo) (from p : Ptr) (slots : List Slot) (h : Heap) (log : Log) (e : Slot)
      → Kept key.to e p h (move_between o all_masters key from slots h log).heap
  unfolding move_between
  Kept-move_between key from p slots h log e =
      let i = Command.set_slots (ip_port (h key.to)) Action.importing slots (h from).id in
      let m = Command.set_slots (ip_port (h from)) Action.migrating slots (h key.to).id in
      elim (Bool-cases (o (log ++ i ∷ []))) [
        | inr refused ↦ rw refused (Kept-same key.to e p h)
        | inl importing ↦ elim (Bool-cases (o ((log ++ i ∷ []) ++ m ∷ []))) [
          | inr refused ↦ rw (importing, refused) (Kept-same key.to e p h)
          | inl migrating ↦
              rw (importing, migrating)
                (Kept-hand_over key from p slots h ((log ++ i ∷ []) ++ m ∷ []) e)
        ]
      ]

  Kept-move_lost :
      (key : MigrationInfo) (p : Ptr) (slots : List Slot) (h : Heap) (log : Log) (e : Slot)
      → Kept key.to e p h (move_lost o key slots h log).heap
  unfolding move_lost
  Kept-move_lost key p slots h log e =
      elim (Bool-cases (o (log ++ Command.add_slots (ip_port (h key.to)) slots ∷ []))) [
        | inr refused ↦ rw refused (Kept-same key.to e p h)
        | inl added ↦ rw added (Kept-gain_slots key.to p slots h e)
      ]

  Kept-dispatch_move :
      (key : MigrationInfo) (p : Ptr) (slots : List Slot) (h : Heap) (log : Log) (e : Slot)
      → Kept key.to e p h (dispatch_move o all_masters key slots h log).heap
  unfolding dispatch_move
  Kept-dispatch_move key p slots h log e = elim (Option-cases key.from) [
    | inl lost ↦ rw (lost, dispatch_move) (Kept-move_lost key p slots h log e)
    | inr (from, known) ↦ rw (known, dispatch_move) (Kept-move_between key from p slots h log e)
  ]

  module _ (masters : Nodes) where
    -- Some of the masters owns the slot.
    abbrev pub owned : Heap → Slot → Bool
    owned h e = any (owns h e) masters

    -- Every target is one of the masters.
    abbrev pub TargetsIn : Moves → Type 0
    TargetsIn [] = Unit {0}
    TargetsIn ((key, _) ∷ moves) = (elem key.to masters ≡ true) × TargetsIn moves

    owned-dispatch_move :
        (key : MigrationInfo) (slots : List Slot) (h : Heap) (log : Log) (e : Slot)
        → elem key.to masters ≡ true
        → owned h e ≡ true
        → owned (dispatch_move o all_masters key slots h log).heap e ≡ true
    unfolding Kept
    owned-dispatch_move key slots h log e m k =
        let h' = (dispatch_move o all_masters key slots h log).heap in
        let (p, p_in, p_owns) = any-elim (owns h e) masters k in
        elim (Kept-dispatch_move key p slots h log e p_owns) [
          | inl stays ↦ any-intro (owns h' e) p masters p_in stays
          | inr goes ↦ any-intro (owns h' e) key.to masters m goes
        ]

    -- Whatever Redis answers, also where the dispatch ends with an error: a slot that one of the
    -- masters owns before is owned by one of them afterwards, if all targets are among them.
    pub owned-dispatch_moves :
        (moves : Moves) (h : Heap) (log : Log) (e : Slot)
        → TargetsIn moves
        → owned h e ≡ true
        → owned (dispatch_moves o all_masters moves h log).heap e ≡ true
    unfolding dispatch_moves
    owned-dispatch_moves [] h log e t k = k
    owned-dispatch_moves ((key, slots) ∷ moves) h log e t k =
        let run = dispatch_move o all_masters key slots h log in
        let kept = owned-dispatch_move key slots h log e t.0 k in
        elim (Bool-cases run.fine) [
          | inl fine ↦ rw fine (owned-dispatch_moves moves run.heap run.log e t.1 kept)
          | inr error ↦ rw error kept
        ]
