-- ===== src/Sync/Ordered.antt =====
-- ensureCluster, waitPodReady and waitForClusterJoin keep the restore's order; the last has no error
-- that ends the retries.
use k8s_cluster.Base.{Bool, List, Text, codes, false, map, refl, ℕ, ◌*◌, ◌+◌}
use k8s_cluster.Admin.{Command}
use k8s_cluster.Placement.{cluster_stateful_set_name}
use k8s_cluster.Heal.{fix_terminating_pods}
use k8s_cluster.Status.{set_cluster_updating}
use k8s_cluster.Sync.Errors.{Error, ErrorType, wrap}
use k8s_cluster.Sync.Context.{
  Act, pure, fail, ◌>>=◌, ◌>>◌, wrapped, ignoring, ask_for, get, set_status, update_cr_status,
  waiting,
}
use k8s_cluster.Sync.Objects.{StatefulSet, ClusterPod, Env}
use k8s_cluster.Sync.Ensurer.{is_password_changed, check_node_num}
use k8s_cluster.Sync.Scaling.{stateful_sets_updating}
use k8s_cluster.Sync.Ensure.{
  change_password, change_if_needed, reset_cluster_password, wait_for_update, ensure_cluster,
  wait_pod_ready,
}
use k8s_cluster.Sync.Phases.{Follows-same}
use k8s_cluster.Sync.Holds.{
  Holds-pure, Holds-fail, Holds-then, Holds-next, Holds-wrapped, Holds-handle, Holds-ask_for,
  Holds-if, Holds-branch, Holds-ignoring, Holds-get, Holds-set_status, Holds-update_cr_status,
  Holds-waiting,
}
use k8s_cluster.Sync.Ends.{Holds, Any, Ends-if}
use k8s_cluster.Sync.Keeps.{
  ensure_redis_statefulsets-Holds, ensure_redis_head_less_svcs-Holds, ensure_redis_svc-Holds,
  check_node_num-Holds,
}
use k8s_cluster.Sync.Ready.{
  ensure_redis_config_map-Holds, ensure_redis_r_clone_secret-Holds, change_password-Holds,
}
use k8s_cluster.Sync.Restored.{validate_and_set_default-Holds, load_from_disk-Holds}

-- Any error will do.
plain-Any : (t : Text) → Any (Error.plain t)
plain-Any t = tt

pub stateful_sets_updating-Holds :
    (e : Env) (replicas : ℕ) → Holds Any (stateful_sets_updating e replicas)
unfolding stateful_sets_updating
stateful_sets_updating-Holds e replicas =
    Holds-then Any (ask_for e e.ready_replicas Command.list_stateful_sets) _
      (Holds-ask_for Any e e.ready_replicas Command.list_stateful_sets plain-Any)
      (λ sets. Holds-branch Any _ (pure tt) (fail _) (Holds-pure Any tt) (Holds-fail Any _ tt))

change_if_needed-Holds : (e : Env) (sts : StatefulSet) → Holds Any (change_if_needed e sts)
unfolding change_if_needed
change_if_needed-Holds e sts = record {
  at = λ w.
      (Holds-if Any (is_password_changed w.instance sts) (change_password e sts) (pure tt)
          (change_password-Holds Any plain-Any e sts) (Holds-pure Any tt)).at
        w;
}

reset_from-Holds :
    (e : Env) (name : Text)
    → Holds Any (get e e.stateful_set (Command.get_stateful_set name) >>= change_if_needed e)
reset_from-Holds e name =
    Holds-then Any (get e e.stateful_set (Command.get_stateful_set name)) (change_if_needed e)
      (Holds-get Any e e.stateful_set (Command.get_stateful_set name) plain-Any)
      (change_if_needed-Holds e)

reset_cluster_password-Holds : (e : Env) → Holds Any (reset_cluster_password e)
unfolding reset_cluster_password
reset_cluster_password-Holds e =
    Holds-handle Any Any (check_node_num e) (λ err. pure tt)
      (λ u v.
        (get e e.stateful_set
              (Command.get_stateful_set (cluster_stateful_set_name v.instance.name 0))
            >>= change_if_needed e)
          v)
      (check_node_num-Holds Any plain-Any e) (λ err k. Holds-pure Any tt)
      (λ u. record {
        at = λ v. (reset_from-Holds e (cluster_stateful_set_name v.instance.name 0)).at v;
      })

wait_for_update-Holds : (e : Env) (updated : Bool) → Holds Any (wait_for_update e updated)
unfolding wait_for_update
wait_for_update-Holds e updated = record {
  at = λ w.
      let announce = set_status (λ s. set_cluster_updating s (codes "cluster spec updated")) in
      let send = ignoring (update_cr_status e) in
      let wait =
        waiting (codes "waitStatefulSetUpdating") (30 * (w.instance.cluster_replicas + 2))
          (stateful_sets_updating e w.instance.cluster_replicas) in
      (Holds-if Any updated (announce >> send >> wait) (pure tt)
          (Holds-next Any (announce >> send) wait
            (Holds-next Any announce send
              (Holds-set_status Any (λ s. set_cluster_updating s (codes "cluster spec updated"))
                (λ s. refl))
              (Holds-ignoring Any Any (update_cr_status e)
                (Holds-update_cr_status Any e plain-Any)))
            (Holds-waiting Any (codes "waitStatefulSetUpdating")
              (30 * (w.instance.cluster_replicas + 2))
              (stateful_sets_updating e w.instance.cluster_replicas) plain-Any
              (stateful_sets_updating-Holds e w.instance.cluster_replicas)))
          (Holds-pure Any tt)).at
        w;
}

-- Whatever the wrapping does to the error.
relabelled : {A : Type 0} (f : Error → Error) (m : Act A) → Holds Any m → Holds Any (wrapped f m)
relabelled f m g = Holds-wrapped Any Any f m (λ err k. tt) g

pub ensure_cluster-Holds : (e : Env) → Holds Any (ensure_cluster e)
unfolding ensure_cluster
ensure_cluster-Holds e =
    Holds-next Any _ _ (relabelled _ _ (validate_and_set_default-Holds Any plain-Any e)) (
      Holds-next Any _ _ (load_from_disk-Holds Any plain-Any) (
        Holds-next Any _ _ (relabelled _ _ (ensure_redis_config_map-Holds Any plain-Any e)) (
          Holds-next Any _ _ (relabelled _ _ (reset_cluster_password-Holds e)) (
            Holds-then Any _ _ (relabelled _ _ (ensure_redis_statefulsets-Holds Any plain-Any e))
              (λ updated. Holds-next Any _ _ (wait_for_update-Holds e updated) (
                Holds-next Any _ _
                  (relabelled _ _ (ensure_redis_head_less_svcs-Holds Any plain-Any e))
                  (Holds-next Any _ _ (relabelled _ _ (ensure_redis_svc-Holds Any plain-Any e))
                    (relabelled _ _ (ensure_redis_r_clone_secret-Holds Any plain-Any e)))))))))

pub wait_pod_ready-Holds : (e : Env) (pods : List ClusterPod) → Holds Any (wait_pod_ready e pods)
unfolding wait_pod_ready
wait_pod_ready-Holds e pods = record {
  at = λ w.
      let healed = fix_terminating_pods e.oracle false e.now (map (λ p. p.healed) pods) 300 w.log in
      let v = record w { log = healed.log } in
      Ends-if Any w healed.fine _ _
        (λ y.
          (relabelled (λ err. wrap ErrorType.requeue err (codes "CheckRedisNodeNum"))
              (check_node_num e) (check_node_num-Holds Any plain-Any e)).at
            v)
        (λ n. (Follows-same w.instance, tt));
}
