-- ===== src/Sync/Reconcile.antt =====
-- Reconcile and isScalingDown of
-- pkg/controller/distributedrediscluster/distributedrediscluster_controller.go.
use k8s_cluster.Sync.Report.{
  Result, after, requeue_after, Shared, report, redis_error, require_infos, finish, failed_with,
  show_status,
}
use k8s_cluster.Base.{
  List, Option, [], codes, false, if◌then◌else◌, map, none, not, some, true, ℕ, ◌&&◌,
}
use k8s_cluster.Admin.{Command}
use k8s_cluster.Heal.{heal}
use k8s_cluster.Status.{RestorePhase, set_cluster_scaling, need_cluster_operation}
use k8s_cluster.Sync.Errors.{Error, ErrorType, wrap, get_type}
use k8s_cluster.Sync.Context.{
  Step, Act, pure, fail, ◌>>=◌, ◌>>◌, wrapped, handle, ask_for, fetch, ask, update_cr_status,
  waiting, returns, fails,
}
use k8s_cluster.Sync.Objects.{Backup, ClusterPod, Env}
use k8s_cluster.Sync.Defaults.{
  set_resource, with_phase, is_restore_from_backup, is_restore_running, is_restore_restarting,
}
use k8s_cluster.Sync.Ensurer.{update_redis_statefulsets}
use k8s_cluster.Sync.Scaling.{stateful_sets_updating}
use k8s_cluster.Sync.Cluster.{sync_cluster}
use k8s_cluster.Sync.Ensure.{
  get_cluster_infos, cluster_pods, kubernetes_error, get_password, secret_name, ensure_cluster,
  wait_pod_ready, wait_for_cluster_join,
}

unfoldable pub operate_if_needed : Env → Shared → Act Unit
unfolding need_cluster_operation sync_cluster failed_with
operate_if_needed e s w =
    let rest = handle (sync_cluster e s.infos w) (failed_with e) (λ u. pure tt) in
    if need_cluster_operation w.instance.status w.instance.master_size w.instance.cluster_replicas
    then rest
    else returns tt w

-- Publishes the status of the cluster and acts on it.
unfoldable pub update_and_operate : Env → Shared → Act Result
unfolding ask show_status operate_if_needed finish wrap
update_and_operate e s = do
  wrapped (redis_error (codes "SetConfigIfNeed")) (ask e Command.set_config)
  show_status e s
  operate_if_needed e s
  finish e s

-- The restore has loaded its data: the masters are restarted.
unfoldable pub restart_masters : Env → Act Result
unfolding update_cr_status update_redis_statefulsets waiting stateful_sets_updating
restart_masters e = do
  set_resource (with_phase RestorePhase.restart)
  update_cr_status e
  update_redis_statefulsets e
  (λ w.
      waiting (codes "waitMasterNodeRestarting") 60
        (stateful_sets_updating e w.instance.cluster_replicas) w)
  pure (record { requeue = true; requeue_after = 0 })

abbrev pub backup_replicas : Option Backup → Act ℕ
backup_replicas none w = Step.panics
backup_replicas (some b) w = returns b.cluster_replicas w

-- The restore has succeeded: the slaves may start.
unfoldable pub end_restore : Env → Act Result
unfolding update_cr_status ask
end_restore e = do
  set_resource (with_phase RestorePhase.succeeded)
  update_cr_status e
  replicas ← λ w. backup_replicas w.instance.restore_backup w
  set_resource (λ c. record c { cluster_replicas = replicas })
  ask e Command.update_cr
  pure (after 0)

unfoldable pub restore_or_operate : Env → Shared → Act Result
unfolding is_restore_from_backup is_restore_running is_restore_restarting restart_masters
    end_restore update_and_operate
restore_or_operate e s w =
    let restarting = restart_masters e w in
    let ending = end_restore e w in
    let operating = update_and_operate e s w in
    if is_restore_from_backup w.instance && is_restore_running w.instance
    then restarting
    else if is_restore_from_backup w.instance && is_restore_restarting w.instance
    then ending
    else operating

-- An error of waitForClusterJoin: only the wait for the join itself is tried again quietly.
unfoldable pub not_joined : Env → Error → Act Result
unfolding get_type failed_with
not_joined e err = elim (get_type err) [
  | ErrorType.requeue ↦ pure requeue_after
  | _ ↦ failed_with e err
]

-- Heals, and goes on where there was nothing to heal.
unfoldable pub heal_and_join : Env → Shared → Act Result
unfolding heal wait_for_cluster_join not_joined restore_or_operate wrap
heal_and_join e s w =
    let healed =
      heal e.oracle false w.heap w.instance.status.nodes s.infos (map (λ p. p.healed) s.pods)
        w.log in
    let v = record w { log = healed.log } in
    let rest =
      handle (wait_for_cluster_join e s.infos v) (not_joined e) (λ u. restore_or_operate e s) in
    if not healed.fine
    then fails (redis_error (codes "Heal") (Error.plain (e.said v.log))) v
    else if healed.acted
    then returns requeue_after v
    else rest

-- Connects to the pods and asks them for their infos.
unfoldable pub connect_and_look : Env → List ClusterPod → Act Result
unfolding get_password get_cluster_infos require_infos heal_and_join
connect_and_look e pods w =
    (do
      wrapped (kubernetes_error (codes "getClusterPassword"))
          (get_password e (secret_name w.instance.password_secret))
      answered ← get_cluster_infos e
      infos ← require_infos e answered.0.status answered
      heal_and_join e (record { pods = pods; infos = infos }))
      w

-- An error before the cluster is complete is shown as `Scaling`, and the call is repeated.
unfoldable pub scaling_with : Env → Error → Act Result
unfolding report set_cluster_scaling
scaling_with e err = report e set_cluster_scaling err >> pure requeue_after

unfoldable pub not_ensured : Env → Error → Act Result
unfolding get_type scaling_with
not_ensured e err = elim (get_type err) [
  | ErrorType.stop_retry ↦ pure (after 0)
  | _ ↦ scaling_with e err
]

unfoldable pub not_ready : Env → Error → Act Result
unfolding get_type scaling_with
not_ready e err = elim (get_type err) [ ErrorType.kubernetes ↦ fail err | _ ↦ scaling_with e err ]

unfoldable pub with_pods : Env → Act Result
unfolding ask_for cluster_pods wait_pod_ready not_ready connect_and_look
with_pods e = do
  listed ←
      wrapped (kubernetes_error (codes "GetStatefulSetPods"))
        (ask_for e e.pods (Command.list_pods []))
  λ w.
      handle (wait_pod_ready e (cluster_pods listed) w) (not_ready e)
        (λ u. connect_and_look e (cluster_pods listed))

-- A resource that is gone needs nothing.
unfoldable pub reconcile_found : Env → Option (Unit {0}) → Act Result
unfolding ensure_cluster not_ensured with_pods
reconcile_found e none w = returns (after 0) w
reconcile_found e (some u) w = handle (ensure_cluster e w) (not_ensured e) (λ u. with_pods e)

unfoldable pub reconcile : Env → Act Result
unfolding fetch reconcile_found
reconcile e = fetch e e.exists Command.get_cluster >>= reconcile_found e
