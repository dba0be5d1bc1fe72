-- ===== src/Sync/Advanced.antt =====
-- The last parts of Reconcile: the steps of a restore, and the operations with their status.
use k8s_cluster.Base.{
  Bool, Option, Text, arith, codes, false, none, not, refl, some, true, ◌&&◌, ◌≡◌,
}
use k8s_cluster.Admin.{Command}
use k8s_cluster.Heal.{ClusterInfos, InfosStatus}
use k8s_cluster.Status.{RestorePhase, set_cluster_failed, need_cluster_operation}
use k8s_cluster.Sync.Errors.{Error, wrap}
use k8s_cluster.Sync.Context.{World, Act, pure, fail, ◌>>◌, wrapped, handle, ask}
use k8s_cluster.Sync.Objects.{Backup, Env}
use k8s_cluster.Sync.Defaults.{set_resource, with_phase}
use k8s_cluster.Sync.Scaling.{stateful_sets_updating}
use k8s_cluster.Sync.Cluster.{sync_cluster}
use k8s_cluster.Sync.Ensure.{get_cluster_infos}
use k8s_cluster.Sync.Reconcile.{
  operate_if_needed, update_and_operate, restart_masters, backup_replicas, end_restore,
}
use k8s_cluster.Sync.Report.{
  Result, after, Shared, report, redis_error, is_partial, require_infos, publish_ok, finish,
  failed_with, show_status,
}
use k8s_cluster.Sync.Phases.{◌⟶◌, Backed, Follows-same, succeeds, restarts}
use k8s_cluster.Sync.Holds.{
  Holds-pure, Holds-fail, Holds-then, Holds-next, Holds-wrapped, Holds-handle, Holds-if, Holds-ask,
  Holds-update_cr_status, Holds-waiting,
}
use k8s_cluster.Sync.Ends.{Ends, Holds, Ends-after, Any, Ends-if}
use k8s_cluster.Sync.Keeps.{update_redis_statefulsets-Holds}
use k8s_cluster.Sync.Ordered.{stateful_sets_updating-Holds}
use k8s_cluster.Sync.Synced.{IsLoud, loud, get_cluster_infos-Holds}
use k8s_cluster.Sync.Published.{
  report-Holds, show_status-Holds, publish_ok-Holds, with_phase-Follows,
}
use k8s_cluster.Sync.Operated.{sync_cluster-Holds}

pub plain-Any : (t : Text) → Any (Error.plain t)
plain-Any t = tt

-- An error wrapped with a type that is returned.
pub wrapped-Holds :
    {A : Type 0} (f : Error → Error) (m : Act A)
    → ((err : Error) → IsLoud (f err))
    → Holds Any m
    → Holds IsLoud (wrapped f m)
wrapped-Holds f m k g = Holds-wrapped IsLoud Any f m (λ err u. k err) g

pub failed_with-Holds :
    {A : Type 0} (e : Env) (err : Error) → IsLoud err → Holds {A = A} IsLoud (failed_with e err)
unfolding failed_with set_cluster_failed
failed_with-Holds e err k =
    Holds-next IsLoud (report e set_cluster_failed err) (fail err)
      (report-Holds IsLoud e set_cluster_failed err (λ s t. refl)) (Holds-fail IsLoud err k)

pub require_infos-Holds :
    (e : Env) (status : InfosStatus) (o : ClusterInfos × Bool)
    → Holds IsLoud (require_infos e status o)
unfolding require_infos wrap
require_infos-Holds e status (infos, fine) = record {
  at = λ w.
      Ends-if IsLoud w (not fine && is_partial status) _ _ (λ y. (Follows-same w.instance, tt))
        (λ n. Follows-same w.instance);
}

finish-Holds : (e : Env) (s : Shared) → Holds IsLoud (finish e s)
unfolding finish
finish-Holds e s =
    Holds-then IsLoud (get_cluster_infos e) _ (get_cluster_infos-Holds IsLoud e) (λ answered.
      Holds-then IsLoud (require_infos e s.infos.status answered) _
        (require_infos-Holds e s.infos.status answered)
        (λ infos.
          Holds-next IsLoud (publish_ok e s infos) (pure (after e.reconcile_time))
            (publish_ok-Holds IsLoud e s infos) (Holds-pure IsLoud (after e.reconcile_time))))

operate_if_needed-Holds : (e : Env) (s : Shared) → Holds IsLoud (operate_if_needed e s)
unfolding operate_if_needed
operate_if_needed-Holds e s = record {
  at = λ w.
      (Holds-if IsLoud
          (need_cluster_operation w.instance.status w.instance.master_size
            w.instance.cluster_replicas)
          (λ v. handle (sync_cluster e s.infos v) (failed_with e) (λ u. pure tt)) (pure tt)
          (Holds-handle IsLoud IsLoud (sync_cluster e s.infos) (failed_with e) (λ u. pure tt)
            (sync_cluster-Holds e s.infos) (failed_with-Holds e) (λ u. Holds-pure IsLoud tt))
          (Holds-pure IsLoud tt)).at
        w;
}

pub update_and_operate-Holds : (e : Env) (s : Shared) → Holds IsLoud (update_and_operate e s)
unfolding update_and_operate wrap
update_and_operate-Holds e s =
    Holds-next IsLoud _ _
      (wrapped-Holds (redis_error (codes "SetConfigIfNeed")) (ask e Command.set_config) (λ err. tt)
        (Holds-ask Any e Command.set_config plain-Any))
      (Holds-next IsLoud (show_status e s) _ (show_status-Holds IsLoud e s) (
        Holds-next IsLoud (operate_if_needed e s) (finish e s) (operate_if_needed-Holds e s)
          (finish-Holds e s)))

pub running_phase :
    (p : RestorePhase)
    → (elim p as (λ x. Bool) [ RestorePhase.running ↦ true | _ ↦ false ]) ≡ true
    → p ≡ RestorePhase.running
running_phase RestorePhase.running h = refl
running_phase RestorePhase.unset h = absurd (ground arith)
running_phase RestorePhase.restart h = absurd (ground arith)
running_phase RestorePhase.succeeded h = absurd (ground arith)

pub restart_phase :
    (p : RestorePhase)
    → (elim p as (λ x. Bool) [ RestorePhase.restart ↦ true | _ ↦ false ]) ≡ true
    → p ≡ RestorePhase.restart
restart_phase RestorePhase.restart h = refl
restart_phase RestorePhase.unset h = absurd (ground arith)
restart_phase RestorePhase.running h = absurd (ground arith)
restart_phase RestorePhase.succeeded h = absurd (ground arith)

running-Backed : (b : Option Backup) → Backed RestorePhase.running b → Backed RestorePhase.restart b
running-Backed none k = k
running-Backed (some b) k = k

restart-Backed :
    (b : Option Backup) → Backed RestorePhase.restart b → Backed RestorePhase.succeeded b
restart-Backed none k = k
restart-Backed (some b) k = k

-- A restore's step, and what follows it.
step-Ends :
    (p q : RestorePhase) (m : Act Result) (w : World)
    → w.instance.status.restore_phase ≡ p
    → p ⟶ q
    → ((b : Option Backup) → Backed p b → Backed q b)
    → Holds IsLoud m
    → Ends IsLoud w ((set_resource (with_phase q) >> m) w)
step-Ends p q m w h s k g =
    Ends-after IsLoud w (record w { instance = with_phase q w.instance }) _
      (with_phase-Follows w.instance p q h s k)
      (g.at (record w { instance = with_phase q w.instance }))

pub restart_masters-Ends :
    (e : Env) (w : World)
    → w.instance.status.restore_phase ≡ RestorePhase.running
    → Ends IsLoud w (restart_masters e w)
unfolding restart_masters
restart_masters-Ends e w h =
    step-Ends RestorePhase.running RestorePhase.restart _ w h restarts running-Backed (
      Holds-next IsLoud _ _ (Holds-update_cr_status IsLoud e loud) (
        Holds-next IsLoud _ _ (update_redis_statefulsets-Holds IsLoud loud e) (
          Holds-next IsLoud _ _
            (record {
              at = λ v.
                  (Holds-waiting IsLoud (codes "waitMasterNodeRestarting") 60
                      (stateful_sets_updating e v.instance.cluster_replicas) loud
                      (stateful_sets_updating-Holds e v.instance.cluster_replicas)).at
                    v;
            })
            (Holds-pure IsLoud _))))

backup_replicas-Holds : (o : Option Backup) → Holds IsLoud (backup_replicas o)
backup_replicas-Holds none = record { at = λ w. tt }
backup_replicas-Holds (some b) = record { at = λ w. Follows-same w.instance }

pub end_restore-Ends :
    (e : Env) (w : World)
    → w.instance.status.restore_phase ≡ RestorePhase.restart
    → Ends IsLoud w (end_restore e w)
unfolding end_restore
end_restore-Ends e w h =
    step-Ends RestorePhase.restart RestorePhase.succeeded _ w h succeeds restart-Backed (
      Holds-next IsLoud _ _ (Holds-update_cr_status IsLoud e loud) (
        Holds-then IsLoud _ _
          (record { at = λ v. (backup_replicas-Holds v.instance.restore_backup).at v })
          (λ replicas.
            Holds-next IsLoud (set_resource (λ c. record c { cluster_replicas = replicas })) _
              (record { at = λ v. Follows-same v.instance })
              (Holds-next IsLoud _ _ (Holds-ask IsLoud e Command.update_cr loud)
                (Holds-pure IsLoud (after 0))))))
