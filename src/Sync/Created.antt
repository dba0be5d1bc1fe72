-- ===== src/Sync/Created.antt =====
-- The creation of a cluster when every call succeeds.
use k8s_cluster.Base.Int.{ℤ}
use k8s_cluster.Base.{
  Bool, List, Option, Text, [], ap, arith, codes, false, length, none, refl, some, subst, true,
  up_from, ℕ, ◌++◌, ◌+◌, ◌<◌, ◌∙◌, ◌∷◌, ◌≡◌, ◌≤◌, any,
}
use k8s_cluster.Slot.{word}
use k8s_cluster.Node.{Nodes, Heap, Ptr, Cluster, cluster_node_by_id, ip_port}
use k8s_cluster.Admin.{Command, Log, Oracle}
use k8s_cluster.Placement.{
  Ctx, place_slaves, attach_slaves, attach_slave_to_master, attaching_slaves_to_master, Attached,
  get_new_masters,
}
use k8s_cluster.Placement.Slaves.{EndsBy, lacks_master, place_slaves-EndsBy}
use k8s_cluster.Rebalance.{alloc_slots, alloc_loop}
use k8s_cluster.Rebalance.Tiles.{LeavesRoom, all_slots, alloc_slots-up_from}
use k8s_cluster.Rebalance.Lower.{Unique}
use k8s_cluster.Sync.Errors.{Error}
use k8s_cluster.Sync.Context.{World, Step, and_then}
use k8s_cluster.Sync.Objects.{Env}
use k8s_cluster.Sync.Cluster.{
  of_outcome, of_run, as_cluster, attach_placed, attach_all, alloc_all, create_cluster,
}

-- Every call succeeds.
abbrev pub AllSucceed : Oracle → Type 0
AllSucceed o = (log : Log) → o log ≡ true

module _ (o : Oracle) (y : AllSucceed o) where
  attach_slave_to_master-fine :
      (slave : Ptr) (id : Text) (st : Attached)
      → (attach_slave_to_master o slave id st).fine ≡ st.fine
  unfolding attach_slave_to_master
  attach_slave_to_master-fine slave id st =
      rw (y (st.log ++ Command.attach_slave_to_master (ip_port (st.heap slave)) id ∷ [])) refl

  attach_slaves-fine :
      (id : Text) (slaves : Nodes) (st : Attached) → (attach_slaves o id slaves st).fine ≡ st.fine
  unfolding attach_slaves
  attach_slaves-fine id [] st = refl
  attach_slaves-fine id (p ∷ slaves) st =
      attach_slaves-fine id slaves _ ∙ attach_slave_to_master-fine p id st

  attach_known-fine :
      (slaves : Nodes) (st : Attached) (known : Option Ptr)
      → (elim known as (λ x. Attached) [
        | none ↦ st
        | some p ↦ attach_slaves o (st.heap p).id slaves st
      ]).fine
        ≡ st.fine
  attach_known-fine slaves st none = refl
  attach_known-fine slaves st (some p) = attach_slaves-fine (st.heap p).id slaves st

  attaching_slaves_to_master-fine :
      (c : Cluster) (m : List (Text × Nodes)) (st : Attached)
      → (attaching_slaves_to_master o c m st).fine ≡ st.fine
  unfolding attaching_slaves_to_master
  attaching_slaves_to_master-fine c [] st = refl
  attaching_slaves_to_master-fine c ((id, slaves) ∷ m) st =
      attaching_slaves_to_master-fine c m _
      ∙ attach_known-fine slaves st (cluster_node_by_id st.heap c id)

  alloc_loop-fine :
      (ends : ℕ → ℤ) (slots masters i first : ℕ) (nodes : Nodes) (h : Heap) (log : Log)
      → (alloc_loop o ends slots masters i first nodes h log).fine ≡ true
  unfolding alloc_loop
  alloc_loop-fine ends slots masters i first [] h log = refl
  alloc_loop-fine ends slots masters i first (p ∷ nodes) h log =
      rw (y (log ++ _)) (alloc_loop-fine ends slots masters (i + 1) _ nodes _ _)

  alloc_slots-fine :
      (ends : ℕ → ℤ) (hash_max_slot : ℕ) (nodes : Nodes) (h : Heap) (log : Log)
      → (alloc_slots o ends hash_max_slot nodes h log).fine ≡ true
  unfolding alloc_slots
  alloc_slots-fine ends hash_max_slot nodes h log = alloc_loop-fine ends _ _ 0 0 nodes h log

-- The step returns, and the slots of the masters, one after the other, are 0, 1, .., hash_max_slot.
abbrev pub Tiled : Env → Nodes → Step Unit → Type 0
Tiled e masters s =
    (v : World) × (s ≡ Step.returns tt v)
    × (all_slots v.heap masters ≡ up_from 0 (e.hash_max_slot + 1))

of_run-fine :
    (e : Env) (f : Error → Error) (fine : Bool) (h : Heap) (log : Log) (w : World)
    → fine ≡ true
    → of_run e f fine h log w ≡ Step.returns tt (record w { heap = h; log = log })
of_run-fine e f true h log w y = refl
of_run-fine e f false h log w y = absurd (ground arith)

attach_all-returns :
    (e : Env) (ctx : Ctx) (w : World)
    → AllSucceed e.oracle
    → any (lacks_master ctx.new_masters_by_sts) ctx.nodes ≡ false
    → (v : World) × (attach_all e ctx w ≡ Step.returns tt v)
unfolding attach_all
attach_all-returns e ctx w y n =
    let (d, placed) =
      subst (λ b. EndsBy b (place_slaves w.heap ctx)) n (place_slaves-EndsBy w.heap ctx) in
    let a =
      attaching_slaves_to_master e.oracle d.cluster d.slaves_by_master
        (record { fine = true; heap = w.heap; log = w.log }) in
    (
      record w { heap = a.heap; log = a.log },
      ap (λ o. and_then (of_outcome (codes "PlaceSlaves") o w) (attach_placed e)) placed
          ∙ of_run-fine e (as_cluster (codes "AttachingSlavesToMaster")) a.fine a.heap a.log w
              (attaching_slaves_to_master-fine e.oracle y d.cluster d.slaves_by_master _),
    )

-- Where every call succeeds, each stateful set with nodes has a new master, the new masters are at
-- least one, distinct and no more than the slots, the number of slots is below 2^64, and the rounded
-- sums leave a slot for each master that is to come: creating a cluster returns, and the slots of the
-- masters, one after the other, are then 0, 1, .., hash_max_slot.
pub create_cluster-Tiled :
    (e : Env) (ctx : Ctx) (w : World)
    → AllSucceed e.oracle
    → any (lacks_master ctx.new_masters_by_sts) ctx.nodes ≡ false
    → LeavesRoom e.ends (e.hash_max_slot + 1) (length (get_new_masters ctx))
    → e.hash_max_slot + 1 < word
    → Unique (get_new_masters ctx)
    → 0 < length (get_new_masters ctx)
    → length (get_new_masters ctx) ≤ e.hash_max_slot + 1
    → Tiled e (get_new_masters ctx) (create_cluster e ctx w)
unfolding create_cluster
create_cluster-Tiled e ctx w y n r b u z l =
    let (v, attached) = attach_all-returns e ctx w y n in
    let masters = get_new_masters ctx in
    let run = alloc_slots e.oracle e.ends e.hash_max_slot masters v.heap v.log in
    let fine = alloc_slots-fine e.oracle y e.ends e.hash_max_slot masters v.heap v.log in
    (
      record v { heap = run.heap; log = run.log },
      ap (λ s. and_then s (λ a. alloc_all e masters)) attached
          ∙ of_run-fine e (as_cluster (codes "AllocSlots")) run.fine run.heap run.log v fine,
      alloc_slots-up_from e.oracle e.ends e.hash_max_slot masters v.heap v.log r b u z l fine,
    )
