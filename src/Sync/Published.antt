-- ===== src/Sync/Published.antt =====
-- Publishing a status, and the steps of a restore in Reconcile.
use k8s_cluster.Base.{
  Bool, Bool-cases, Option, Text, false, if◌then◌else◌, inl, inr, refl, subst, sym, true, ◌≡◌,
}
use k8s_cluster.Admin.{Command}
use k8s_cluster.Status.{
  RedisClusterStatus, RestorePhase, status_text, update_cluster_if_need, compare_status,
  build_cluster_status,
}
use k8s_cluster.Heal.{ClusterInfos}
use k8s_cluster.Sync.Errors.{Error, error_text}
use k8s_cluster.Sync.Context.{
  World, Step, and_then, forgive, ignoring, logged, answer, success, ask_for, ask, set_status,
  update_cr_status,
}
use k8s_cluster.Sync.Objects.{Backup, Resource, Env}
use k8s_cluster.Sync.Defaults.{with_phase}
use k8s_cluster.Sync.Report.{
  Shared, publish, report, is_scaling_down, final_status, publish_ok, shown_status, show_status,
}
use k8s_cluster.Sync.Phases.{◌⟶◌, ◌⟶*◌, Backed, Follows, Follows-phase, steps, stays}
use k8s_cluster.Sync.Ends.{Ends, Holds}

-- What the API is told where a status is sent.
abbrev told : World → World
told w =
    logged (Command.update_status (status_text w.instance.status.status) w.instance.status.reason) w

forgive-answer :
    (e : Env) (b : Bool) (w : World) → forgive (answer e (success b) w) ≡ Step.returns tt w
forgive-answer e true w = refl
forgive-answer e false w = refl

send_status-returns :
    (e : Env) (w : World) → ignoring (update_cr_status e) w ≡ Step.returns tt (told w)
unfolding update_cr_status ask ask_for
send_status-returns e w = forgive-answer e (e.oracle (told w).log) (told w)

abbrev published : RedisClusterStatus → World → World
published new w =
    if compare_status w.instance.status new
    then told (record w { instance = record w.instance { status = new } })
    else w

publish-returns :
    (e : Env) (new : RedisClusterStatus) (w : World)
    → publish e new w ≡ Step.returns tt (published new w)
unfolding publish update_cluster_if_need set_status
publish-returns e new w = elim (Bool-cases (compare_status w.instance.status new)) [
  | inl y ↦
      rw y (send_status-returns e (record w { instance = record w.instance { status = new } }))
  | inr n ↦ rw n refl
]

-- A published status with the phase that there was.
published-phase :
    (new : RedisClusterStatus) (w : World)
    → new.restore_phase ≡ w.instance.status.restore_phase
    → ((published new w).instance.status.restore_phase ≡ w.instance.status.restore_phase)
      × ((published new w).instance.restore_backup ≡ w.instance.restore_backup)
published-phase new w h = elim (Bool-cases (compare_status w.instance.status new)) [
  | inl y ↦ rw y (h, refl)
  | inr n ↦ rw n (refl, refl)
]

pub publish-Ends :
    (P : Error → Type 0) (e : Env) (new : RedisClusterStatus) (w : World)
    → new.restore_phase ≡ w.instance.status.restore_phase
    → Ends P w (publish e new w)
publish-Ends P e new w h =
    let (k, b) = published-phase new w h in
    subst (λ s. Ends P w s) (sym (publish-returns e new w))
      (Follows-phase w.instance (published new w).instance k b)

pub report-Holds :
    (P : Error → Type 0) (e : Env) (f : RedisClusterStatus → Text → RedisClusterStatus)
    (err : Error)
    → ((s : RedisClusterStatus) (t : Text) → (f s t).restore_phase ≡ s.restore_phase)
    → Holds P (report e f err)
unfolding report
report-Holds P e f err k = record {
  at = λ w.
      publish-Ends P e (f w.instance.status (error_text err)) w
        (k w.instance.status (error_text err));
}

shown_status-phase :
    (e : Env) (s : Shared) (w : World)
    → (shown_status e s w).restore_phase ≡ w.instance.status.restore_phase
unfolding shown_status build_cluster_status
shown_status-phase e s w = elim (Bool-cases (is_scaling_down e w)) [
  | inl y ↦ rw y refl
  | inr n ↦ rw n refl
]

pub show_status-Holds : (P : Error → Type 0) (e : Env) (s : Shared) → Holds P (show_status e s)
unfolding show_status set_status
show_status-Holds P e s = record {
  at = λ w.
      let v = logged Command.list_stateful_sets w in
      let status = shown_status e s w in
      let phase = shown_status-phase e s w in
      subst (λ t. Ends P w (and_then t (λ a. set_status (λ old. status))))
        (sym (publish-returns e status v))
        (Follows-phase w.instance (record (published status v).instance { status = status }) phase
          (published-phase status v phase).1);
}

pub publish_ok-Holds :
    (P : Error → Type 0) (e : Env) (s : Shared) (infos : ClusterInfos)
    → Holds P (publish_ok e s infos)
unfolding publish_ok final_status build_cluster_status
publish_ok-Holds P e s infos = record { at = λ w. publish-Ends P e (final_status s infos w) w refl }

-- A step of the restore.
pub with_phase-Follows :
    (c : Resource) (p q : RestorePhase)
    → c.status.restore_phase ≡ p
    → p ⟶ q
    → ((b : Option Backup) → Backed p b → Backed q b)
    → Follows c (with_phase q c)
with_phase-Follows c p q h s k = (
  subst (λ r. r ⟶* q) (sym h) (steps s stays),
  λ b. k c.restore_backup (subst (λ r. Backed r c.restore_backup) h b),
)
