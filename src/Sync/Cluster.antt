-- ===== src/Sync/Cluster.antt =====
-- syncCluster of pkg/controller/distributedrediscluster/sync_handler.go, and newRedisCluster of helper.go.
use k8s_cluster.Base.{
  List, Text, [], codes, if◌then◌else◌, length, ltb, none, some, true, ℕ, ◌++◌, ◌==◌, ◌∷◌, Bool,
}
use k8s_cluster.Base.Assoc.{insert, lookup}
use k8s_cluster.Node.{
  Nodes, Heap, Ptr, Cluster, ClusterStatus, NodesPlacementInfo, RedisClusterNode, write,
}
use k8s_cluster.Admin.{Log}
use k8s_cluster.Migration.{dispatch_slot_to_new_masters}
use k8s_cluster.Placement.{
  Ctx, Outcome, new_ctx, dispatch_masters, place_slaves, attaching_slaves_to_master,
  get_new_masters,
}
use k8s_cluster.Rebalance.{Ended, rebalanced_cluster, alloc_slots}
use k8s_cluster.Heal.{ClusterInfos, get_nodes}
use k8s_cluster.Sync.Errors.{Error, ErrorType, wrap}
use k8s_cluster.Sync.Context.{Step, Act, and_then, ◌>>◌, returns, fails}
use k8s_cluster.Sync.Objects.{Resource, Env}
use k8s_cluster.Sync.Scaling.{scaling_down}
use k8s_cluster.Status.{RedisClusterStatus}

unfoldable pub nodes_by_id : Heap → Nodes → List (Text × Ptr) → List (Text × Ptr)
unfolding insert
nodes_by_id h [] m = m
nodes_by_id h (p ∷ nodes) m = nodes_by_id h nodes (insert (h p).id p m)

-- The names that the status keeps for a node are written to its record.
unfoldable pub name_nodes : List RedisClusterNode → List (Text × Ptr) → Heap → Heap
unfolding lookup write
name_nodes [] m h = h
name_nodes (n ∷ known) m h = name_nodes known m (elim (lookup n.id m) [
  | none ↦ h
  | some p ↦ write h p (record (h p) {
    pod_name = n.pod_name;
    node_name = n.node_name;
    stateful_set = n.stateful_set;
  })
])

-- The namespace is left out.
unfoldable pub new_redis_cluster : Heap → ClusterInfos → Resource → Cluster × Heap
unfolding get_nodes nodes_by_id name_nodes
new_redis_cluster h infos c =
    let m = nodes_by_id h (get_nodes infos) [] in
    (
      record {
        name = c.name;
        namespace = [];
        nodes = m;
        status = ClusterStatus.unset;
        nodes_placement = NodesPlacementInfo.unset;
        nb_slots_to_migrate = 0;
      },
      name_nodes c.status.nodes m h,
    )

-- An error of `clustering` with its message.
abbrev pub of_outcome : Text → Outcome Ctx → Act Ctx
of_outcome msg (Outcome.done c) w = returns c w
of_outcome msg (Outcome.missing_stateful_set s) w =
    fails (wrap ErrorType.cluster (Error.plain (codes "missing statefulset " ++ s)) msg) w
of_outcome msg (Outcome.split_brain s) w =
    fails (wrap ErrorType.cluster (Error.plain (codes "split brain: " ++ s)) msg) w
of_outcome msg Outcome.panics w = Step.panics

-- What a run over Redis has left, whether it succeeded, the nodes and the log; `f` passes its error on.
abbrev pub of_run : Env → (Error → Error) → Bool → Heap → Log → Act Unit
of_run e f fine h log w =
    let v = record w { heap = h; log = log } in
    if fine then returns tt v else fails (f (Error.plain (e.said log))) v

abbrev pub of_ended : Env → (Error → Error) → Ended → Act Unit
of_ended e f (Ended.returned run) w = of_run e f run.fine run.heap run.log w
of_ended e f Ended.panicked w = Step.panics
of_ended e f Ended.out_of_fuel w = Step.out_of_fuel

abbrev pub as_cluster : Text → Error → Error
as_cluster msg err = wrap ErrorType.cluster err msg

unfoldable pub attach_placed : Env → Ctx → Act Unit
unfolding attaching_slaves_to_master wrap
attach_placed e c v =
    let a =
      attaching_slaves_to_master e.oracle c.cluster c.slaves_by_master
        (record { fine = true; heap = v.heap; log = v.log }) in
    of_run e (as_cluster (codes "AttachingSlavesToMaster")) a.fine a.heap a.log v

-- PlaceSlaves and AttachingSlavesToMaster, which three of the branches start with.
unfoldable pub attach_all : Env → Ctx → Act Unit
unfolding place_slaves attach_placed wrap
attach_all e ctx w =
    and_then (of_outcome (codes "PlaceSlaves") (place_slaves w.heap ctx) w) (attach_placed e)

unfoldable pub alloc_all : Env → Nodes → Act Unit
unfolding alloc_slots wrap
alloc_all e masters v =
    let run = alloc_slots e.oracle e.ends e.hash_max_slot masters v.heap v.log in
    of_run e (as_cluster (codes "AllocSlots")) run.fine run.heap run.log v

unfoldable pub create_cluster : Env → Ctx → Act Unit
unfolding attach_all alloc_all get_new_masters
create_cluster e ctx = attach_all e ctx >> alloc_all e (get_new_masters ctx)

unfoldable pub rebalance_all : Env → Nodes → Act Unit
unfolding rebalanced_cluster wrap
rebalance_all e masters v =
    of_ended e (as_cluster (codes "RebalancedCluster"))
      (rebalanced_cluster e.fuel e.share e.oracle e.hash_max_slot masters v.heap v.log) v

unfoldable pub scale_up : Env → Ctx → Act Unit
unfolding attach_all rebalance_all get_new_masters
scale_up e ctx = attach_all e ctx >> rebalance_all e (get_new_masters ctx)

-- An error of the moves is passed on as it is.
unfoldable pub move_slots : Env → Ctx → Act Unit
unfolding dispatch_slot_to_new_masters get_new_masters
move_slots e ctx w =
    let new_masters = get_new_masters ctx in
    let (_, run) =
      dispatch_slot_to_new_masters e.oracle e.hash_max_slot new_masters ctx.current_masters
        (new_masters ++ ctx.current_masters) ctx.cluster w.heap w.log in
    of_run e (λ err. err) run.fine run.heap run.log w

unfoldable pub scale_down : Env → Ctx → Act Unit
unfolding move_slots scaling_down
scale_down e ctx = move_slots e ctx >> scaling_down e (length ctx.current_masters) ctx.nodes

-- What the numbers of masters and slaves ask for.
pub data Operation : Type 0 where
  creating scaling_up scaling_slaves scaling_masters_down idle : Operation

unfoldable pub operation : ℕ → ℕ → RedisClusterStatus → ℕ → ℕ → Operation
operation current new status master_size cluster_replicas =
    if current == 0
    then Operation.creating
    else if ltb current new
    then Operation.scaling_up
    else if ltb status.min_replication_factor cluster_replicas
    then Operation.scaling_slaves
    else if ltb master_size current
    then Operation.scaling_masters_down
    else Operation.idle

unfoldable pub operate : Env → Ctx → Operation → Act Unit
unfolding create_cluster scale_up attach_all scale_down
operate e ctx Operation.creating w = create_cluster e ctx w
operate e ctx Operation.scaling_up w = scale_up e ctx w
operate e ctx Operation.scaling_slaves w = attach_all e ctx w
operate e ctx Operation.scaling_masters_down w = scale_down e ctx w
operate e ctx Operation.idle w = returns tt w

-- The operation for a context after `DispatchMasters`.
unfoldable pub operation_for : Ctx → Resource → Operation
unfolding operation get_new_masters
operation_for ctx c =
    operation (length ctx.current_masters) (length (get_new_masters ctx)) c.status c.master_size
      c.cluster_replicas

-- The context that `syncCluster` builds from what the nodes report.
unfoldable pub sync_ctx : Heap → ClusterInfos → Resource → Ctx
unfolding new_redis_cluster new_ctx get_nodes
sync_ctx h infos c =
    let (r_cluster, h1) = new_redis_cluster h infos c in
    new_ctx h1 r_cluster (get_nodes infos) c.master_size c.name

unfoldable pub sync_cluster : Env → ClusterInfos → Act Unit
unfolding new_redis_cluster sync_ctx dispatch_masters operation_for operate wrap
sync_cluster e infos w =
    let v = record w { heap = (new_redis_cluster w.heap infos w.instance).1 } in
    and_then
      (of_outcome (codes "DispatchMasters")
        (dispatch_masters v.heap (sync_ctx w.heap infos w.instance)) v)
      (λ ctx u. operate e ctx (operation_for ctx u.instance) u)
