-- ===== src/Sync/Operated.antt =====
-- syncCluster keeps the restore's order, and its errors are of types that Reconcile returns.
use k8s_cluster.Base.{Bool, Text, codes, false, length, true}
use k8s_cluster.Node.{Heap, Nodes}
use k8s_cluster.Admin.{Log}
use k8s_cluster.Placement.{Ctx, Outcome, place_slaves, get_new_masters, dispatch_masters}
use k8s_cluster.Rebalance.{Ended, rebalanced_cluster, alloc_slots}
use k8s_cluster.Heal.{ClusterInfos}
use k8s_cluster.Sync.Errors.{Error, wrap}
use k8s_cluster.Sync.Objects.{Env}
use k8s_cluster.Sync.Scaling.{scaling_down}
use k8s_cluster.Sync.Cluster.{
  new_redis_cluster, of_outcome, of_run, of_ended, as_cluster, attach_placed, attach_all, alloc_all,
  create_cluster, rebalance_all, scale_up, move_slots, scale_down, Operation, operate,
  operation_for, sync_ctx, sync_cluster,
}
use k8s_cluster.Sync.Phases.{Follows-same}
use k8s_cluster.Sync.Holds.{Holds-pure, Holds-then, Holds-next}
use k8s_cluster.Sync.Ends.{Holds, Ends-and_then}
use k8s_cluster.Sync.Synced.{IsLoud, scaling_down-Holds}

of_outcome-Holds : (msg : Text) (o : Outcome Ctx) → Holds IsLoud (of_outcome msg o)
unfolding wrap
of_outcome-Holds msg (Outcome.done c) = Holds-pure IsLoud c
of_outcome-Holds msg (Outcome.missing_stateful_set s) = record {
  at = λ w. (Follows-same w.instance, tt);
}
of_outcome-Holds msg (Outcome.split_brain s) = record { at = λ w. (Follows-same w.instance, tt) }
of_outcome-Holds msg Outcome.panics = record { at = λ w. tt }

of_run-Holds :
    (e : Env) (f : Error → Error) (fine : Bool) (h : Heap) (log : Log)
    → ((t : Text) → IsLoud (f (Error.plain t)))
    → Holds IsLoud (of_run e f fine h log)
of_run-Holds e f true h log k = record { at = λ w. Follows-same w.instance }
of_run-Holds e f false h log k = record { at = λ w. (Follows-same w.instance, k _) }

of_ended-Holds : (e : Env) (msg : Text) (r : Ended) → Holds IsLoud (of_ended e (as_cluster msg) r)
unfolding wrap
of_ended-Holds e msg (Ended.returned run) = record {
  at = λ w. (of_run-Holds e (as_cluster msg) run.fine run.heap run.log (λ t. tt)).at w;
}
of_ended-Holds e msg Ended.panicked = record { at = λ w. tt }
of_ended-Holds e msg Ended.out_of_fuel = record { at = λ w. tt }

attach_placed-Holds : (e : Env) (c : Ctx) → Holds IsLoud (attach_placed e c)
unfolding attach_placed wrap
attach_placed-Holds e c = record {
  at = λ w. (of_run-Holds e (as_cluster (codes "AttachingSlavesToMaster")) _ _ _ (λ t. tt)).at w;
}

attach_all-Holds : (e : Env) (ctx : Ctx) → Holds IsLoud (attach_all e ctx)
unfolding attach_all
attach_all-Holds e ctx = record {
  at = λ w.
      (Holds-then IsLoud (of_outcome (codes "PlaceSlaves") (place_slaves w.heap ctx))
          (attach_placed e) (of_outcome-Holds (codes "PlaceSlaves") (place_slaves w.heap ctx))
          (attach_placed-Holds e)).at
        w;
}

alloc_all-Holds : (e : Env) (masters : Nodes) → Holds IsLoud (alloc_all e masters)
unfolding alloc_all wrap
alloc_all-Holds e masters = record {
  at = λ w.
      let run = alloc_slots e.oracle e.ends e.hash_max_slot masters w.heap w.log in
      (of_run-Holds e (as_cluster (codes "AllocSlots")) run.fine run.heap run.log (λ t. tt)).at w;
}

rebalance_all-Holds : (e : Env) (masters : Nodes) → Holds IsLoud (rebalance_all e masters)
unfolding rebalance_all
rebalance_all-Holds e masters = record {
  at = λ w.
      (of_ended-Holds e (codes "RebalancedCluster")
          (rebalanced_cluster e.fuel e.share e.oracle e.hash_max_slot masters w.heap w.log)).at
        w;
}

move_slots-Holds : (e : Env) (ctx : Ctx) → Holds IsLoud (move_slots e ctx)
unfolding move_slots
move_slots-Holds e ctx = record { at = λ w. (of_run-Holds e (λ err. err) _ _ _ (λ t. tt)).at w }

operate-Holds : (e : Env) (ctx : Ctx) (o : Operation) → Holds IsLoud (operate e ctx o)
unfolding operate create_cluster scale_up scale_down
operate-Holds e ctx Operation.creating =
    Holds-next IsLoud (attach_all e ctx) (alloc_all e (get_new_masters ctx))
      (attach_all-Holds e ctx) (alloc_all-Holds e (get_new_masters ctx))
operate-Holds e ctx Operation.scaling_up =
    Holds-next IsLoud (attach_all e ctx) (rebalance_all e (get_new_masters ctx))
      (attach_all-Holds e ctx) (rebalance_all-Holds e (get_new_masters ctx))
operate-Holds e ctx Operation.scaling_slaves = attach_all-Holds e ctx
operate-Holds e ctx Operation.scaling_masters_down =
    Holds-next IsLoud (move_slots e ctx) (scaling_down e (length ctx.current_masters) ctx.nodes)
      (move_slots-Holds e ctx) (scaling_down-Holds e (length ctx.current_masters) ctx.nodes)
operate-Holds e ctx Operation.idle = Holds-pure IsLoud tt

pub sync_cluster-Holds : (e : Env) (infos : ClusterInfos) → Holds IsLoud (sync_cluster e infos)
unfolding sync_cluster
sync_cluster-Holds e infos = record {
  at = λ w.
      let v = record w { heap = (new_redis_cluster w.heap infos w.instance).1 } in
      let dispatched = dispatch_masters v.heap (sync_ctx w.heap infos w.instance) in
      Ends-and_then IsLoud v (of_outcome (codes "DispatchMasters") dispatched v)
        (λ ctx u. operate e ctx (operation_for ctx u.instance) u)
        ((of_outcome-Holds (codes "DispatchMasters") dispatched).at v)
        (λ ctx. record { at = λ u. (operate-Holds e ctx (operation_for ctx u.instance)).at u });
}
