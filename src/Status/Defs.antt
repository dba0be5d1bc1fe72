-- ===== src/Status/Defs.antt =====
-- The status record, its setters and comparisons.
use k8s_cluster.Base.{
  Bool, List, Option, Text, [], codes, false, if◌then◌else◌, length, none, not, some, text_eq, true,
  ℕ, ◌&&◌, ◌==◌, ◌||◌, ◌∷◌,
}
use k8s_cluster.Node.{ClusterStatus, NodesPlacementInfo, RedisRole, RedisClusterNode}

-- `RestorePhase` of pkg/apis/redis/v1alpha1; `unset` is the empty string.
pub data RestorePhase : Type 0 where
  unset running restart succeeded : RestorePhase

-- `DistributedRedisClusterStatus`; of `Restore` the phase, not the backup.
pub record RedisClusterStatus : Type 0 where
  pub status : ClusterStatus
  pub reason : Text
  pub number_of_master : ℕ
  pub min_replication_factor : ℕ
  pub max_replication_factor : ℕ
  pub nodes_placement : NodesPlacementInfo
  pub nodes : List RedisClusterNode
  pub restore_phase : RestorePhase

module _ (status : RedisClusterStatus) (reason : Text) where
  unfoldable pub set_cluster_failed : RedisClusterStatus
  set_cluster_failed = record status { status = ClusterStatus.ko; reason = reason }

  unfoldable pub set_cluster_ok : RedisClusterStatus
  set_cluster_ok = record status { status = ClusterStatus.ok; reason = reason }

  unfoldable pub set_cluster_rebalancing : RedisClusterStatus
  set_cluster_rebalancing = record status { status = ClusterStatus.rebalancing; reason = reason }

  unfoldable pub set_cluster_scaling : RedisClusterStatus
  set_cluster_scaling = record status { status = ClusterStatus.scaling; reason = reason }

  unfoldable pub set_cluster_updating : RedisClusterStatus
  set_cluster_updating = record status { status = ClusterStatus.rolling_update; reason = reason }

  unfoldable pub set_cluster_reset_password : RedisClusterStatus
  set_cluster_reset_password = record status {
    status = ClusterStatus.reset_password;
    reason = reason;
  }

-- The texts of the API.
abbrev pub status_text : ClusterStatus → Text
status_text ClusterStatus.unset = []
status_text ClusterStatus.ok = codes "Healthy"
status_text ClusterStatus.ko = codes "Failed"
status_text ClusterStatus.creating = codes "Creating"
status_text ClusterStatus.scaling = codes "Scaling"
status_text ClusterStatus.calculating_rebalancing = codes "Calculating Rebalancing"
status_text ClusterStatus.rebalancing = codes "Rebalancing"
status_text ClusterStatus.rolling_update = codes "RollingUpdate"
status_text ClusterStatus.reset_password = codes "ResetPassword"

abbrev pub role_text : RedisRole → Text
role_text RedisRole.master = codes "Master"
role_text RedisRole.slave = codes "Slave"
role_text RedisRole.none = codes "None"
role_text RedisRole.unset = []

abbrev pub phase_text : RestorePhase → Text
phase_text RestorePhase.unset = []
phase_text RestorePhase.running = codes "Running"
phase_text RestorePhase.restart = codes "Restart"
phase_text RestorePhase.succeeded = codes "Succeeded"

-- The comparisons return true on a difference. A nil pointer is `none`.
unfoldable pub compare_int_value : Option ℕ → Option ℕ → Bool
compare_int_value none none = true
compare_int_value (some old) (some new) = not (old == new)
compare_int_value _ _ = false

unfoldable pub compare_int32 : ℕ → ℕ → Bool
compare_int32 old new = not (old == new)

unfoldable pub compare_string_value : Text → Text → Bool
compare_string_value old new = not (text_eq old new)

-- `reflect.DeepEqual` on two slices of text.
unfoldable pub texts_eq : List Text → List Text → Bool
texts_eq [] [] = true
texts_eq (x ∷ xs) (y ∷ ys) = text_eq x y && texts_eq xs ys
texts_eq _ _ = false

unfoldable pub compare_nodes : RedisClusterNode → RedisClusterNode → Bool
unfolding compare_string_value texts_eq
compare_nodes a b =
    if compare_string_value a.ip b.ip
    then true
    else if compare_string_value a.master_ref b.master_ref
    then true
    else if compare_string_value a.pod_name b.pod_name
    then true
    else if compare_string_value a.port b.port
    then true
    else if compare_string_value (role_text a.role) (role_text b.role)
    then true
    else if not (length a.slots == length b.slots)
    then true
    else not (length a.slots == 0) && not (texts_eq a.slots b.slots)

-- The inner loop of `compareStatus`: `found` so far. The result is true where the function
-- returns true from here.
unfoldable pub compare_with : RedisClusterNode → List RedisClusterNode → Bool → Bool
unfolding compare_nodes
compare_with a [] found = not found
compare_with a (b ∷ new) found =
    let differ = compare_nodes a b in
    let rest = compare_with a new (found || text_eq a.id b.id) in
    if text_eq a.id b.id && differ then true else rest

unfoldable pub compare_lists : List RedisClusterNode → List RedisClusterNode → Bool
unfolding compare_with
compare_lists [] new = false
compare_lists (a ∷ old) new = if compare_with a new false then true else compare_lists old new

unfoldable pub compare_status : RedisClusterStatus → RedisClusterStatus → Bool
unfolding compare_string_value compare_int32 compare_lists
compare_status old new =
    if compare_string_value (status_text old.status) (status_text new.status)
    then true
    else if compare_string_value old.reason new.reason
    then true
    else if compare_int32 old.number_of_master new.number_of_master
    then true
    else if compare_int32 (length old.nodes) (length new.nodes)
    then true
    else if compare_string_value (phase_text old.restore_phase) (phase_text new.restore_phase)
    then true
    else compare_lists old.nodes new.nodes

-- `updateClusterIfNeed`: the stored status, and whether it is sent to the API.
unfoldable pub update_cluster_if_need :
    RedisClusterStatus → RedisClusterStatus → RedisClusterStatus × Bool
unfolding compare_status
update_cluster_if_need old new = if compare_status old new then (new, true) else (old, false)

-- `needClusterOperation` of helper.go, from the status and the two sizes of the specification.
unfoldable pub need_cluster_operation : RedisClusterStatus → ℕ → ℕ → Bool
unfolding compare_int_value
need_cluster_operation status master_size cluster_replicas =
    if compare_int_value (some status.number_of_master) (some master_size)
    then true
    else if compare_int_value (some status.min_replication_factor) (some cluster_replicas)
    then true
    else compare_int_value (some status.max_replication_factor) (some cluster_replicas)
