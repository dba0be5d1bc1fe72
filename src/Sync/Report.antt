-- ===== src/Sync/Report.antt =====
-- The status that Reconcile publishes, and isScalingDown, of
-- pkg/controller/distributedrediscluster/distributedrediscluster_controller.go.
use k8s_cluster.Base.{
  Bool, List, Text, codes, false, if◌then◌else◌, length, ltb, map, none, not, some, true, ℕ, ◌&&◌,
}
use k8s_cluster.Admin.{Command}
use k8s_cluster.Heal.{ClusterInfos, InfosStatus}
use k8s_cluster.Status.{
  RedisClusterStatus, set_cluster_failed, set_cluster_rebalancing, set_cluster_ok,
  update_cluster_if_need, build_cluster_status,
}
use k8s_cluster.Sync.Errors.{Error, ErrorType, wrap, error_text}
use k8s_cluster.Sync.Context.{
  World, Act, pure, fail, ◌>>=◌, ◌>>◌, ignoring, logged, set_status, update_cr_status, returns,
  fails,
}
use k8s_cluster.Sync.Objects.{ClusterPod, Env}
use k8s_cluster.Sync.Ensure.{get_cluster_infos}

-- `reconcile.Result`, in seconds.
pub record Result : Type 0 where
  pub requeue : Bool
  pub requeue_after : ℕ

abbrev pub after : ℕ → Result
after seconds = record { requeue = false; requeue_after = seconds }

abbrev pub requeue_after : Result
requeue_after = after 10

-- What the operations of one call share: the pods and what the nodes report.
pub record Shared : Type 0 where
  pub pods : List ClusterPod
  pub infos : ClusterInfos

-- `updateClusterIfNeed`: an error of the API is dropped.
unfoldable pub publish : Env → RedisClusterStatus → Act Unit
unfolding update_cluster_if_need set_status update_cr_status
publish e new w =
    let (stored, changed) = update_cluster_if_need w.instance.status new in
    let rest = (set_status (λ s. stored) >> ignoring (update_cr_status e)) w in
    if changed then rest else returns tt w

-- Publishes the status in memory with a new state and reason.
unfoldable pub report : Env → (RedisClusterStatus → Text → RedisClusterStatus) → Error → Act Unit
unfolding publish error_text
report e f err w = publish e (f w.instance.status (error_text err)) w

abbrev pub redis_error : Text → Error → Error
unfolding wrap
redis_error msg err = wrap ErrorType.redis err msg

-- `isScalingDown`: there are more stateful sets than masters are wanted. An error counts as no.
unfoldable pub is_scaling_down : Env → World → Bool
is_scaling_down e w = elim (e.ready_replicas (logged Command.list_stateful_sets w).log) [
  | none ↦ false
  | some sets ↦ ltb w.instance.master_size (length sets)
]

-- Where the infos are only partial an error of GetClusterInfos ends the call; it goes on otherwise.
abbrev pub is_partial : InfosStatus → Bool
is_partial InfosStatus.partial = true
is_partial _ = false

unfoldable pub require_infos : Env → InfosStatus → ClusterInfos × Bool → Act ClusterInfos
unfolding wrap
require_infos e status (infos, fine) w =
    if not fine && is_partial status
    then fails (redis_error (codes "GetClusterInfos") (Error.plain (e.said w.log))) w
    else returns infos w

-- The status after the operations: `Healthy`.
unfoldable pub final_status : Shared → ClusterInfos → World → RedisClusterStatus
unfolding build_cluster_status set_cluster_ok
final_status s infos w =
    set_cluster_ok (build_cluster_status w.heap infos (map (λ p. p.shown) s.pods) w.instance.status)
      (codes "OK")

unfoldable pub publish_ok : Env → Shared → ClusterInfos → Act Unit
unfolding final_status publish
publish_ok e s infos w = publish e (final_status s infos w) w

unfoldable pub finish : Env → Shared → Act Result
unfolding get_cluster_infos require_infos publish_ok
finish e s = do
  answered ← get_cluster_infos e
  infos ← require_infos e s.infos.status answered
  publish_ok e s infos
  pure (after e.reconcile_time)

-- An error of the operations is stored in the status, and returned.
unfoldable pub failed_with : {A : Type 0} → Env → Error → Act A
unfolding report set_cluster_failed
failed_with e err = report e set_cluster_failed err >> fail err

-- The status that the nodes show, after the stateful sets have been listed.
unfoldable pub shown_status : Env → Shared → World → RedisClusterStatus
unfolding build_cluster_status is_scaling_down set_cluster_rebalancing
shown_status e s w =
    let built = build_cluster_status w.heap s.infos (map (λ p. p.shown) s.pods) w.instance.status in
    if is_scaling_down e w then set_cluster_rebalancing built (codes "scaling down") else built

unfoldable pub show_status : Env → Shared → Act Unit
unfolding shown_status publish set_status
show_status e s w =
    let status = shown_status e s w in
    (publish e status >> set_status (λ old. status)) (logged Command.list_stateful_sets w)
