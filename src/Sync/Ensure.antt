-- ===== src/Sync/Ensure.antt =====
-- ensureCluster, waitPodReady, resetClusterPassword and waitForClusterJoin of sync_handler.go.
use k8s_cluster.Base.{
  Bool, List, Option, Text, [], codes, false, filter_b, if◌then◌else◌, map, none, some, text_eq,
  true, ◌*◌, ◌++◌, ◌+◌, ◌∷◌,
}
use k8s_cluster.Node.{ip_port}
use k8s_cluster.Admin.{Command}
use k8s_cluster.Placement.{cluster_stateful_set_name}
use k8s_cluster.Heal.{ClusterInfos, NodeInfos, fix_terminating_pods}
use k8s_cluster.Status.{set_cluster_updating, set_cluster_reset_password}
use k8s_cluster.Sync.Errors.{Error, ErrorType, wrap}
use k8s_cluster.Sync.Context.{
  Step, Act, pure, ◌>>=◌, ◌>>◌, wrapped, ignoring, handle, logged, ask_for, get, ask, set_status,
  update_cr_status, waiting, fails, returns,
}
use k8s_cluster.Sync.Objects.{StatefulSet, ClusterPod, Env}
use k8s_cluster.Sync.Defaults.{
  validate_and_set_default, set_resource, db_loaded_from_disk_when_restore,
}
use k8s_cluster.Sync.Ensurer.{
  password_env, get_secret_key_ref_by_key, is_password_changed, ensure_redis_statefulsets,
  ensure_redis_head_less_svcs, ensure_redis_svc, check_node_num,
}
use k8s_cluster.Sync.ConfigMap.{ensure_redis_config_map, ensure_redis_r_clone_secret}
use k8s_cluster.Sync.Scaling.{stateful_sets_updating}

-- `GetClusterInfos`: what it finds, and whether it has no error.
unfoldable pub get_cluster_infos : Env → Act (ClusterInfos × Bool)
get_cluster_infos e w =
    let v = logged Command.get_cluster_infos w in
    let (h, infos, fine) = e.views v.heap v.log in returns (infos, fine) (record v { heap = h })

-- The pods that run, of those that are listed.
unfoldable pub cluster_pods : List ClusterPod → List ClusterPod
cluster_pods pods = filter_b (λ p. p.running) pods

abbrev pub kubernetes_error : Text → Error → Error
unfolding wrap
kubernetes_error msg err = wrap ErrorType.kubernetes err msg

-- An error that may pass is one of Kubernetes, another one ends the retries.
abbrev pub retry_or_stop : Env → Text → Error → Error
unfolding wrap
retry_or_stop e msg err =
    if e.retryable err
    then wrap ErrorType.kubernetes err msg
    else wrap ErrorType.stop_retry err (codes "stop retry")

-- The secret is read where the specification or the old stateful set names one.
unfoldable pub get_password : Env → Text → Act Unit
unfolding ask
get_password e name = if text_eq name [] then pure tt else ask e (Command.get_secret name)

abbrev pub secret_name : Option Text → Text
secret_name none = []
secret_name (some name) = name

-- The part of `resetClusterPassword` behind the test for a changed password. The texts of the
-- passwords are those of the secrets, which stand for them.
unfoldable pub change_password : Env → StatefulSet → Act Unit
unfolding set_status set_cluster_reset_password update_cr_status ask_for get_password
    get_secret_key_ref_by_key ask
change_password e sts w =
    let new_secret = secret_name w.instance.password_secret in
    (do
      set_status (λ s. set_cluster_reset_password s (codes "updating cluster's password"))
      ignoring (update_cr_status e)
      ask_for e e.pods (Command.list_pods [])
      get_password e (get_secret_key_ref_by_key password_env sts.env)
      get_password e new_secret
      ask e (Command.exec_in_pods new_secret)
      ask e (Command.reset_password new_secret))
      w

unfoldable pub change_if_needed : Env → StatefulSet → Act Unit
unfolding is_password_changed change_password
change_if_needed e sts w =
    let rest = change_password e sts w in
    if is_password_changed w.instance sts then rest else returns tt w

-- Only a cluster with all its nodes has its password reset.
unfoldable pub reset_cluster_password : Env → Act Unit
unfolding check_node_num get change_if_needed cluster_stateful_set_name
reset_cluster_password e w =
    handle (check_node_num e w) (λ err. pure tt)
      (λ u v.
        (get e e.stateful_set
              (Command.get_stateful_set (cluster_stateful_set_name v.instance.name 0))
            >>= change_if_needed e)
          v)

-- What follows an update of a stateful set.
unfoldable pub wait_for_update : Env → Bool → Act Unit
unfolding set_status set_cluster_updating update_cr_status waiting stateful_sets_updating
wait_for_update e updated w =
    let rest =
      (set_status (λ s. set_cluster_updating s (codes "cluster spec updated"))
          >> ignoring (update_cr_status e)
          >> waiting (codes "waitStatefulSetUpdating") (30 * (w.instance.cluster_replicas + 2))
              (stateful_sets_updating e w.instance.cluster_replicas))
        w in
    if updated then rest else returns tt w

unfoldable pub ensure_cluster : Env → Act Unit
unfolding validate_and_set_default db_loaded_from_disk_when_restore ensure_redis_config_map
    reset_cluster_password ensure_redis_statefulsets wait_for_update ensure_redis_head_less_svcs
    ensure_redis_svc ensure_redis_r_clone_secret wrap
ensure_cluster e = do
  wrapped (retry_or_stop e (codes "Validate")) (validate_and_set_default e)
  set_resource db_loaded_from_disk_when_restore
  wrapped (kubernetes_error (codes "EnsureRedisConfigMap")) (ensure_redis_config_map e)
  wrapped (λ err. wrap ErrorType.cluster err (codes "ResetPassword")) (reset_cluster_password e)
  updated ←
      wrapped (kubernetes_error (codes "EnsureRedisStatefulSets")) (ensure_redis_statefulsets e)
  wait_for_update e updated
  wrapped (kubernetes_error (codes "EnsureRedisHeadLessSvcs")) (ensure_redis_head_less_svcs e)
  wrapped (kubernetes_error (codes "EnsureRedisSvc")) (ensure_redis_svc e)
  wrapped (retry_or_stop e (codes "EnsureRedisRCloneSecret")) (ensure_redis_r_clone_secret e)

-- Pods that have been terminating for five minutes are deleted, before the nodes are counted.
unfoldable pub wait_pod_ready : Env → List ClusterPod → Act Unit
unfolding fix_terminating_pods check_node_num wrap
wait_pod_ready e pods w =
    let healed = fix_terminating_pods e.oracle false e.now (map (λ p. p.healed) pods) 300 w.log in
    let v = record w { log = healed.log } in
    let rest =
      wrapped (λ err. wrap ErrorType.requeue err (codes "CheckRedisNodeNum")) (check_node_num e)
        v in
    if healed.fine
    then rest
    else fails (kubernetes_error (codes "FixTerminatingPods") (Error.plain (e.said v.log))) v

-- The first node that the map of infos gives; without one the source follows a nil pointer.
unfoldable pub meet_first : Env → List (Text × NodeInfos) → Act Unit
unfolding ask ip_port wrap
meet_first e [] w = Step.panics
meet_first e ((addr, i) ∷ infos) w =
    wrapped (λ err. wrap ErrorType.redis err (codes "AttachNodeToCluster"))
      (ask e (Command.attach_node_to_cluster (ip_port (w.heap i.node)))) w

abbrev pub joined : Env → ClusterInfos × Bool → Act Unit
joined e (infos, true) w = returns tt w
joined e (infos, false) w =
    fails (Error.custom ErrorType.requeue (codes "wait for cluster join: " ++ e.said w.log)) w

unfoldable pub meet_and_look : Env → ClusterInfos → ClusterInfos × Bool → Act Unit
unfolding meet_first get_cluster_infos
meet_and_look e known (infos, true) w = returns tt w
meet_and_look e known (infos, false) w =
    (meet_first e known.infos >> (get_cluster_infos e >>= joined e)) w

unfoldable pub wait_for_cluster_join : Env → ClusterInfos → Act Unit
unfolding get_cluster_infos meet_and_look
wait_for_cluster_join e known = get_cluster_infos e >>= meet_and_look e known
