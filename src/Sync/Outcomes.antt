-- ===== src/Sync/Outcomes.antt =====
-- How a call of Reconcile ends.
use k8s_cluster.Base.{&&-elim, List, Option, [], codes, false, map, none, not, refl, some, ◌&&◌}
use k8s_cluster.Admin.{Command}
use k8s_cluster.Heal.{heal}
use k8s_cluster.Status.{set_cluster_scaling}
use k8s_cluster.Sync.Errors.{Error, ErrorType, wrap, get_type}
use k8s_cluster.Sync.Context.{World, pure, ask_for, fetch}
use k8s_cluster.Sync.Objects.{ClusterPod, Env}
use k8s_cluster.Sync.Defaults.{is_restore_from_backup, is_restore_running, is_restore_restarting}
use k8s_cluster.Sync.Ensure.{
  cluster_pods, kubernetes_error, get_password, secret_name, ensure_cluster, wait_pod_ready,
  wait_for_cluster_join,
}
use k8s_cluster.Sync.Reconcile.{
  restore_or_operate, not_joined, heal_and_join, connect_and_look, scaling_with, not_ensured,
  not_ready, with_pods, reconcile_found, reconcile,
}
use k8s_cluster.Sync.Report.{after, Shared, report, requeue_after}
use k8s_cluster.Sync.Phases.{Follows-same}
use k8s_cluster.Sync.Holds.{
  Holds-pure, Holds-fail, Holds-then, Holds-next, Holds-handle, Holds-ask_for, Holds-fetch,
}
use k8s_cluster.Sync.Ends.{Ends, Holds, Any, Ends-if}
use k8s_cluster.Sync.Ready.{get_password-Holds}
use k8s_cluster.Sync.Ordered.{ensure_cluster-Holds, wait_pod_ready-Holds}
use k8s_cluster.Sync.Synced.{
  IsLoud, IsRepeated, loud, get_cluster_infos-Holds, wait_for_cluster_join-Holds,
}
use k8s_cluster.Sync.Published.{report-Holds}
use k8s_cluster.Sync.Advanced.{
  plain-Any, wrapped-Holds, failed_with-Holds, require_infos-Holds, update_and_operate-Holds,
  running_phase, restart_phase, restart_masters-Ends, end_restore-Ends,
}

restore_or_operate-Holds : (e : Env) (s : Shared) → Holds IsLoud (restore_or_operate e s)
unfolding restore_or_operate is_restore_running is_restore_restarting
restore_or_operate-Holds e s = record {
  at = λ w.
      Ends-if IsLoud w (is_restore_from_backup w.instance && is_restore_running w.instance) _ _
        (λ y.
          restart_masters-Ends e w
            (running_phase w.instance.status.restore_phase (&&-elim _ _ y).1))
        (λ n.
          Ends-if IsLoud w (is_restore_from_backup w.instance && is_restore_restarting w.instance) _
            _
            (λ y.
              end_restore-Ends e w
                (restart_phase w.instance.status.restore_phase (&&-elim _ _ y).1))
            (λ m. (update_and_operate-Holds e s).at w));
}

not_joined-Holds : (e : Env) (err : Error) → IsRepeated err → Holds IsLoud (not_joined e err)
unfolding not_joined get_type
not_joined-Holds e (Error.plain m) k = failed_with-Holds e (Error.plain m) tt
not_joined-Holds e (Error.custom ErrorType.no_type m) k =
    failed_with-Holds e (Error.custom ErrorType.no_type m) tt
not_joined-Holds e (Error.custom ErrorType.requeue m) k = Holds-pure IsLoud requeue_after
not_joined-Holds e (Error.custom ErrorType.kubernetes m) k =
    failed_with-Holds e (Error.custom ErrorType.kubernetes m) tt
not_joined-Holds e (Error.custom ErrorType.redis m) k =
    failed_with-Holds e (Error.custom ErrorType.redis m) tt
not_joined-Holds e (Error.custom ErrorType.cluster m) k =
    failed_with-Holds e (Error.custom ErrorType.cluster m) tt
not_joined-Holds e (Error.custom ErrorType.stop_retry m) k = absurd k

heal_and_join-Holds : (e : Env) (s : Shared) → Holds IsLoud (heal_and_join e s)
unfolding heal_and_join wrap
heal_and_join-Holds e s = record {
  at = λ w.
      let healed =
        heal e.oracle false w.heap w.instance.status.nodes s.infos (map (λ p. p.healed) s.pods)
          w.log in
      let v = record w { log = healed.log } in
      Ends-if IsLoud w (not healed.fine) _ _ (λ y. (Follows-same w.instance, tt))
        (λ n.
          Ends-if IsLoud w healed.acted _ _ (λ y. Follows-same w.instance)
            (λ m.
              (Holds-handle IsLoud IsRepeated (wait_for_cluster_join e s.infos) (not_joined e)
                  (λ u. restore_or_operate e s) (wait_for_cluster_join-Holds e s.infos)
                  (not_joined-Holds e) (λ u. restore_or_operate-Holds e s)).at
                v));
}

connect_and_look-Holds : (e : Env) (pods : List ClusterPod) → Holds IsLoud (connect_and_look e pods)
unfolding connect_and_look wrap
connect_and_look-Holds e pods = record {
  at = λ w.
      (Holds-next IsLoud _ _
          (wrapped-Holds (kubernetes_error (codes "getClusterPassword"))
            (get_password e (secret_name w.instance.password_secret)) (λ err. tt)
            (get_password-Holds Any plain-Any e (secret_name w.instance.password_secret)))
          (Holds-then IsLoud _ _ (get_cluster_infos-Holds IsLoud e) (λ answered.
            Holds-then IsLoud _ _ (require_infos-Holds e answered.0.status answered)
              (λ infos. heal_and_join-Holds e (record { pods = pods; infos = infos }))))).at
        w;
}

scaling_with-Holds : (e : Env) (err : Error) → Holds IsLoud (scaling_with e err)
unfolding scaling_with set_cluster_scaling
scaling_with-Holds e err =
    Holds-next IsLoud (report e set_cluster_scaling err) (pure requeue_after)
      (report-Holds IsLoud e set_cluster_scaling err (λ s t. refl))
      (Holds-pure IsLoud requeue_after)

not_ensured-Holds : (e : Env) (err : Error) → Holds IsLoud (not_ensured e err)
unfolding not_ensured get_type
not_ensured-Holds e (Error.plain m) = scaling_with-Holds e (Error.plain m)
not_ensured-Holds e (Error.custom ErrorType.stop_retry m) = Holds-pure IsLoud (after 0)
not_ensured-Holds e (Error.custom ErrorType.no_type m) =
    scaling_with-Holds e (Error.custom ErrorType.no_type m)
not_ensured-Holds e (Error.custom ErrorType.requeue m) =
    scaling_with-Holds e (Error.custom ErrorType.requeue m)
not_ensured-Holds e (Error.custom ErrorType.kubernetes m) =
    scaling_with-Holds e (Error.custom ErrorType.kubernetes m)
not_ensured-Holds e (Error.custom ErrorType.redis m) =
    scaling_with-Holds e (Error.custom ErrorType.redis m)
not_ensured-Holds e (Error.custom ErrorType.cluster m) =
    scaling_with-Holds e (Error.custom ErrorType.cluster m)

not_ready-Holds : (e : Env) (err : Error) → Holds IsLoud (not_ready e err)
unfolding not_ready get_type
not_ready-Holds e (Error.plain m) = scaling_with-Holds e (Error.plain m)
not_ready-Holds e (Error.custom ErrorType.kubernetes m) =
    Holds-fail IsLoud (Error.custom ErrorType.kubernetes m) tt
not_ready-Holds e (Error.custom ErrorType.no_type m) =
    scaling_with-Holds e (Error.custom ErrorType.no_type m)
not_ready-Holds e (Error.custom ErrorType.requeue m) =
    scaling_with-Holds e (Error.custom ErrorType.requeue m)
not_ready-Holds e (Error.custom ErrorType.stop_retry m) =
    scaling_with-Holds e (Error.custom ErrorType.stop_retry m)
not_ready-Holds e (Error.custom ErrorType.redis m) =
    scaling_with-Holds e (Error.custom ErrorType.redis m)
not_ready-Holds e (Error.custom ErrorType.cluster m) =
    scaling_with-Holds e (Error.custom ErrorType.cluster m)

with_pods-Holds : (e : Env) → Holds IsLoud (with_pods e)
unfolding with_pods wrap
with_pods-Holds e =
    Holds-then IsLoud _ _
      (wrapped-Holds (kubernetes_error (codes "GetStatefulSetPods"))
        (ask_for e e.pods (Command.list_pods [])) (λ err. tt)
        (Holds-ask_for Any e e.pods (Command.list_pods []) plain-Any))
      (λ listed.
        Holds-handle IsLoud Any (wait_pod_ready e (cluster_pods listed)) (not_ready e)
          (λ u. connect_and_look e (cluster_pods listed))
          (wait_pod_ready-Holds e (cluster_pods listed)) (λ err k. not_ready-Holds e err)
          (λ u. connect_and_look-Holds e (cluster_pods listed)))

reconcile_found-Holds : (e : Env) (o : Option (Unit {0})) → Holds IsLoud (reconcile_found e o)
unfolding reconcile_found
reconcile_found-Holds e none = record { at = λ w. Follows-same w.instance }
reconcile_found-Holds e (some u) =
    Holds-handle IsLoud Any (ensure_cluster e) (not_ensured e) (λ u. with_pods e)
      (ensure_cluster-Holds e) (λ err k. not_ensured-Holds e err) (λ u. with_pods-Holds e)

-- `Reconcile`, where it returns, has moved the phase of the restore along the steps unset, Running,
-- Restart, Succeeded only, and if a restore that had started had a backup that succeeded, so it is
-- then. An error that it returns is not of the types Requeue and StopRetry.
pub reconcile-Ends : (e : Env) (w : World) → Ends IsLoud w (reconcile e w)
unfolding reconcile
reconcile-Ends e w =
    (Holds-then IsLoud (fetch e e.exists Command.get_cluster) (reconcile_found e)
        (Holds-fetch IsLoud e e.exists Command.get_cluster loud) (reconcile_found-Holds e)).at
      w
