-- ===== src/Backups/Create.antt =====
-- create and ValidateBackup of sync_handler.go, isBackupRunning of helper.go, and Validate of
-- pkg/apis/redis/v1alpha1/default.go.
use k8s_cluster.Base.{
  Bool, Option, Text, codes, false, none, some, true, ◌&&◌, ◌||◌, text_eq, not, ltb, ◌++◌, ℕ,
  if◌then◌else◌,
}
use k8s_cluster.Sync.{Error, error_text}
use k8s_cluster.Backups.Objects.{
  BackupPhase, Storage, RedisClusterBackup, ClusterSpec, Call, Surroundings, State, Ending,
  and_next, anyway, answered_by, send_call, update_backup_status, update_backup,
}
use k8s_cluster.Backups.Handling.{mark_as_failed_backup, drop_label, handle_backup_job}

abbrev missing : Storage → Bool
missing t = not t.s3 && (not t.gcs && (not t.azure && (not t.swift && not t.local)))

unfoldable pub validate : RedisClusterBackup → Option Error
validate b =
    if text_eq b.redis_cluster_name (codes "")
    then some (Error.plain (codes "bakcup [RedisClusterName] is missing"))
    else if missing b.storage
    then some (Error.plain (codes "no storage provider is configured"))
    else if (b.storage.azure || b.storage.swift) && text_eq b.storage.secret_name (codes "")
    then some (Error.plain (codes "bakcup [SecretName] is missing"))
    else none

unfoldable pub validate_backup : Surroundings → State → Ending
unfolding validate send_call
validate_backup e s = and_next (answered_by (validate s.backup) s) (send_call e Call.get_cluster)

-- Marks the backup as failed and drops the error of doing so: no retry.
unfoldable pub give_up : Surroundings → Text → State → Ending
unfolding mark_as_failed_backup
give_up e msg s = anyway (mark_as_failed_backup e msg s) Ending.fine

unfoldable pub is_completed : BackupPhase → Bool
is_completed BackupPhase.unset = false
is_completed BackupPhase.running = false
is_completed BackupPhase.succeeded = true
is_completed BackupPhase.failed = true
is_completed BackupPhase.ignored = true

unfoldable pub start_at : Surroundings → Option ℕ → State → Ending
unfolding update_backup_status
start_at e none s =
    update_backup_status e
      (record s { backup = record s.backup { start_time = some (e.time s.calls) } })
start_at e (some t) s = Ending.fine s

unfoldable pub ensure_started : Surroundings → State → Ending
unfolding start_at
ensure_started e s = start_at e s.backup.start_time s

-- Goes on in one of two ways.
unfoldable pub recovering : Ending → (Error → State → Ending) → (State → Ending) → Ending
recovering (Ending.fine s) bad good = good s
recovering (Ending.error err s) bad good = bad err s
recovering (Ending.panics s) bad good = Ending.panics s

unfoldable pub fail_for_good : Surroundings → Error → State → Ending
unfolding give_up error_text
fail_for_good e err s = give_up e (error_text err) s

unfoldable pub not_valid : Surroundings → Error → State → Ending
unfolding fail_for_good
not_valid e err s =
    let rest = fail_for_good e err s in if e.retryable err then Ending.error err s else rest

-- `isBackupRunning`, going on in one of two ways.
unfoldable pub is_backup_running :
    Surroundings → State → (State → Ending) → (State → Ending) → Ending
unfolding send_call and_next
is_backup_running e s go_on begin = and_next (send_call e Call.list_backups s) (λ s1.
    and_next (send_call e Call.list_jobs s1)
      (λ s2. if ltb 0 (e.count s1.calls) && ltb 0 (e.count s2.calls) then go_on s2 else begin s2))

unfoldable pub recorded : ClusterSpec → State → State
recorded c s = record s {
  backup = record s.backup {
    phase = BackupPhase.running;
    master_size = c.master_size;
    cluster_replicas = c.cluster_replicas;
    cluster_image = c.image;
  };
}

unfoldable pub labelled : State → State
labelled s = record s {
  backup = record s.backup {
    label_cluster_name = some s.backup.redis_cluster_name;
    label_backup_status = some (codes "Running");
  };
}

-- The status is stored before the labels, and both before the job is created.
unfoldable pub run_backup : Surroundings → ClusterSpec → State → Ending
unfolding recorded labelled update_backup_status update_backup send_call and_next
run_backup e c s =
    and_next (update_backup_status e (recorded c s))
      (λ s1. and_next (update_backup e (labelled s1)) (send_call e Call.create_job))

unfoldable pub with_job : Surroundings → ClusterSpec → Option Error → State → Ending
unfolding run_backup mark_as_failed_backup error_text
with_job e c none s = run_backup e c s
with_job e c (some err) s =
    let rest =
      mark_as_failed_backup e (codes "Failed to create Backup Job. Reason: " ++ error_text err) s in
    if e.retryable err then Ending.error err s else rest

-- The bucket is not looked at for a local storage.
unfoldable pub check_bucket_access : Surroundings → State → Ending
unfolding send_call
check_bucket_access e s =
    if s.backup.storage.local then Ending.fine s else send_call e Call.check_bucket s

unfoldable pub check_and_run : Surroundings → ClusterSpec → State → Ending
unfolding recovering check_bucket_access fail_for_good with_job
check_and_run e c s =
    recovering (check_bucket_access e s) (fail_for_good e)
      (λ s1. with_job e c (e.job_refused s1.backup c) s1)

unfoldable pub with_secret : Surroundings → ClusterSpec → Option Error → State → Ending
unfolding and_next send_call check_and_run give_up error_text
with_secret e c none s = and_next (send_call e Call.create_secret s) (check_and_run e c)
with_secret e c (some err) s =
    give_up e (codes "Failed to generate rclone secret. Reason: " ++ error_text err) s

unfoldable pub start_backup : Surroundings → State → Ending
unfolding and_next send_call with_secret
start_backup e s =
    and_next (send_call e Call.get_cluster s)
      (λ s1. with_secret e (e.cluster s1.calls) (e.secret_refused s1.backup) s1)

unfoldable pub create_valid : Surroundings → State → Ending
unfolding is_backup_running handle_backup_job start_backup
create_valid e s = is_backup_running e s (handle_backup_job e) (start_backup e)

unfoldable pub create_started : Surroundings → State → Ending
unfolding is_completed drop_label recovering validate_backup not_valid create_valid
create_started e s =
    let done = drop_label e s in
    let rest = recovering (validate_backup e s) (not_valid e) (create_valid e) in
    if is_completed s.backup.phase then done else rest

unfoldable pub create : Surroundings → State → Ending
unfolding and_next ensure_started create_started
create e s = and_next (ensure_started e s) (create_started e)
