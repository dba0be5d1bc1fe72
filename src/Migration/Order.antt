-- ===== src/Migration/Order.antt =====
-- The order of the commands of a move between two nodes.
use mathlib.Core.List.{append_assoc}
use mathlib.Core.List.{append-nil}
use k8s_cluster.Base.{
  if◌then◌else◌, ==_iff, Bool-cases, List, [], ap, false, inl, inr, refl, sym, text_eq, ◌++◌, ◌==◌,
  ◌∙◌, ◌∷◌, ◌≡◌, map, text_eq_refl, Bool, arith, filter_b, not, ◌&&◌, length, if◌then◌else◌,
}
use k8s_cluster.Slot.{Slot}
use k8s_cluster.Node.{Ptr, Nodes, Heap, write, ip_port, total_slots}
use k8s_cluster.Admin.{Action, Command, Log, Oracle}
use k8s_cluster.Migration.Plan.{MigrationInfo}
use k8s_cluster.Migration.Dispatch.{drop_slots, tell_others, hand_over, move_between}

ip_port-drop_slots :
    (h : Heap) (p q : Ptr) (slots : List Slot) → ip_port (drop_slots h p slots q) ≡ ip_port (h q)
unfolding drop_slots write ip_port
ip_port-drop_slots h p q slots = elim (Bool-cases (p == q)) [
  | inl same ↦ rw same (ap (λ r. ip_port (h r)) ((==_iff p q).0 same))
  | inr other ↦ rw other refl
]

id-drop_slots : (h : Heap) (p q : Ptr) (slots : List Slot) → (drop_slots h p slots q).id ≡ (h q).id
unfolding drop_slots write
id-drop_slots h p q slots = elim (Bool-cases (p == q)) [
  | inl same ↦ rw same (ap (λ r. (h r).id) ((==_iff p q).0 same))
  | inr other ↦ rw other refl
]

-- A node at another address than the source keeps its slots.
total_slots-drop_slots :
    (h : Heap) (p q : Ptr) (slots : List Slot)
    → text_eq (ip_port (h q)) (ip_port (h p)) ≡ false
    → total_slots (drop_slots h p slots q) ≡ total_slots (h q)
unfolding drop_slots write
total_slots-drop_slots h p q slots e = elim (Bool-cases (p == q)) [
  | inl same ↦ absurd (
      let t = ap (λ r. text_eq (ip_port (h r)) (ip_port (h p))) ((==_iff p q).0 same) in
      let u = text_eq_refl (ip_port (h p)) in ground arith)
  | inr other ↦ rw other refl
]

module _ (h : Heap) (key : MigrationInfo) (from : Ptr) (slots : List Slot) where
  abbrev pub importing_command : Command
  importing_command = Command.set_slots (ip_port (h key.to)) Action.importing slots (h from).id

  abbrev pub migrating_command : Command
  migrating_command = Command.set_slots (ip_port (h from)) Action.migrating slots (h key.to).id

  abbrev pub migrate_command : Command
  migrate_command = Command.migrate_keys (ip_port (h from)) (h key.to).id slots

  -- The new owner is set on the node `p`.
  abbrev pub node_command : Ptr → Command
  node_command p = Command.set_slots (ip_port (h p)) Action.node slots (h key.to).id

  -- A master that is at neither end of the move and has slots.
  abbrev pub is_third : Ptr → Bool
  is_third p =
      not (text_eq (ip_port (h p)) (ip_port (h key.to)))
      && not (text_eq (ip_port (h p)) (ip_port (h from)))
      && not (length (h p).slots == 0)

  -- The five commands of a move between two nodes, in the order in which they are sent.
  abbrev pub move_commands : Log
  move_commands =
      importing_command
      ∷ migrating_command
      ∷ migrate_command
      ∷ node_command key.to
      ∷ node_command from
      ∷ []

  told_by :
      (o : Oracle) (masters : Nodes) (log : Log)
      → tell_others o (drop_slots h from slots) key from slots masters log
        ≡ log ++ map node_command (filter_b is_third masters)
  unfolding tell_others total_slots
  told_by o [] log = sym (append-nil log)
  told_by o (p ∷ masters) log =
      let a = ip_port-drop_slots h from p slots in
      let b = ip_port-drop_slots h from key.to slots in
      let c = ip_port-drop_slots h from from slots in
      let d = id-drop_slots h from key.to slots in
      elim (Bool-cases (text_eq (ip_port (h p)) (ip_port (h key.to)))) [
        | inl target ↦ rw (a, b, target) (told_by o masters log)
        | inr other ↦ elim (Bool-cases (text_eq (ip_port (h p)) (ip_port (h from)))) [
          | inl source ↦ rw (a, b, c, other, source) (told_by o masters log)
          | inr further ↦
              let same = total_slots-drop_slots h from p slots further in
              elim (Bool-cases (length (h p).slots == 0)) [
                | inl empty ↦ rw (a, b, c, other, further, same, empty) (told_by o masters log)
                | inr full ↦
                    rw (a, b, c, d, other, further, same, full)
                      (told_by o masters (log ++ node_command p ∷ []) ∙ append_assoc log _ _)
              ]
        ]
      ]

  -- The log after a move, by the answers to IMPORTING and to MIGRATING.
  abbrev pub log_by : Bool → Bool → Nodes → Log → Log
  log_by importing migrating all_masters log =
      if not importing
      then log ++ importing_command ∷ []
      else if not migrating
      then log ++ importing_command ∷ migrating_command ∷ []
      else log ++ move_commands ++ map node_command (filter_b is_third all_masters)

-- A move between two nodes, by what Redis answers to IMPORTING and to MIGRATING. It goes on exactly
-- when both succeed; else it changes no node. It has sent IMPORTING to the target alone where that
-- fails; then MIGRATING to the source too, and nothing else where that fails; and where both succeed
-- also the keys, the new owner to the target, to the source, and then once to each master that has
-- another address than these two and has slots, in their order, whatever the answers to these are.
pub move_between-log :
    (o : Oracle) (all_masters : Nodes) (key : MigrationInfo) (from : Ptr) (slots : List Slot)
    (h : Heap) (log : Log)
    → let importing = o (log ++ importing_command h key from slots ∷ []) in
      let migrating =
        o (log ++ importing_command h key from slots ∷ migrating_command h key from slots ∷ []) in
      let run = move_between o all_masters key from slots h log in
      (run.fine ≡ (importing && migrating))
      × (run.heap ≡ (if importing && migrating then run.heap else h))
      × (run.log ≡ log_by h key from slots importing migrating all_masters log)
unfolding move_between hand_over
move_between-log o all_masters key from slots h log =
    let i = importing_command h key from slots in
    let m = migrating_command h key from slots in
    let two = append_assoc log (i ∷ []) (m ∷ []) in
    elim (Bool-cases (o (log ++ i ∷ []))) [
      | inr refused ↦ rw refused (refl, refl, refl)
      | inl importing ↦ elim (Bool-cases (o (log ++ i ∷ m ∷ []))) [
        | inr refused ↦ rw (importing, two, refused) (refl, refl, refl)
        | inl migrating ↦
            rw (importing, two, migrating)
              (refl, refl, told_by h key from slots o all_masters _ ∙ simp append_assoc)
      ]
    ]
