-- ===== src/Backups/Handling.antt =====
-- handleBackupJob of sync_handler.go, with helper.go.
use k8s_cluster.Base.{
  Bool, List, Text, [], codes, false, none, some, true, ◌&&◌, ◌||◌, ◌∷◌, text_eq, not,
  if◌then◌else◌,
}
use k8s_cluster.Sync.{Error}
use k8s_cluster.Backups.Objects.{
  BackupPhase, JobConditionType, Condition, Owner, Job, Call, FetchedJob, Surroundings, State,
  Ending, and_next, anyway, called, send_call, update_backup_status, update_backup,
}

abbrev completed_at : Surroundings → BackupPhase → Text → State → State
completed_at e phase reason s = record s {
  backup = record s.backup {
    completion_time = some (e.time s.calls);
    phase = phase;
    reason = reason;
  };
}

unfoldable pub mark_as_failed_backup : Surroundings → Text → State → Ending
unfolding update_backup_status
mark_as_failed_backup e reason s =
    update_backup_status e (completed_at e BackupPhase.failed reason s)

unfoldable pub mark_as_ignored_backup : Surroundings → Text → State → Ending
unfolding update_backup_status
mark_as_ignored_backup e reason s =
    update_backup_status e (completed_at e BackupPhase.ignored reason s)

unfoldable pub is_completion : JobConditionType → Bool
is_completion JobConditionType.job_complete = true
is_completion JobConditionType.job_failed = true
is_completion JobConditionType.job_other = false

unfoldable pub is_job_finished : List Condition → Bool
unfolding is_completion
is_job_finished [] = false
is_job_finished (c ∷ cs) = (is_completion c.condition_type && c.status_true) || is_job_finished cs

-- Takes the label of the status off and sends the resource.
unfoldable pub drop_label : Surroundings → State → Ending
unfolding update_backup
drop_label e s =
    update_backup e (record s { backup = record s.backup { label_backup_status = none } })

-- The error of `markAsIgnoredBackup` is dropped.
unfoldable pub ignore_backup : Surroundings → Text → State → Ending
unfolding mark_as_ignored_backup drop_label
ignore_backup e msg s = anyway (mark_as_ignored_backup e msg s) (drop_label e)

unfoldable pub job_succeeded : JobConditionType → Bool
job_succeeded JobConditionType.job_complete = true
job_succeeded JobConditionType.job_failed = false
job_succeeded JobConditionType.job_other = false

-- The phase for the result of a job, and its time.
unfoldable pub result_backup : Surroundings → Bool → State → State
result_backup e true s = completed_at e BackupPhase.succeeded s.backup.reason s
result_backup e false s = completed_at e BackupPhase.failed (codes "run batch job failed") s

unfoldable pub finish_backup : Surroundings → JobConditionType → State → Ending
unfolding job_succeeded result_backup update_backup_status drop_label
finish_backup e t s =
    and_next (update_backup_status e (result_backup e (job_succeeded t) s)) (drop_label e)

-- The loop over the owners stops at the first one that is a backup.
unfoldable pub settle_owner : Surroundings → JobConditionType → List Owner → State → Ending
unfolding finish_backup ignore_backup
settle_owner e t [] s = Ending.fine s
settle_owner e t (o ∷ owners) s =
    let rest = settle_owner e t owners s in
    let mine = finish_backup e t s in
    let other = ignore_backup e (codes "One Backup is already Running") s in
    if not o.is_backup then rest else if text_eq o.name s.backup.name then mine else other

-- `Conditions[0]` panics on an empty list.
unfoldable pub settle_job : Surroundings → List Owner → List Condition → State → Ending
unfolding settle_owner
settle_job e owners [] s = Ending.panics s
settle_job e owners (c ∷ cs) s = settle_owner e c.condition_type owners s

unfoldable pub handle_found : Surroundings → Job → State → Ending
unfolding is_job_finished settle_job send_call
handle_found e j s =
    let rest = and_next (send_call e Call.get_cluster s) (settle_job e j.owners j.conditions) in
    if is_job_finished j.conditions
    then rest
    else Ending.error (Error.plain (codes "wait for job Succeeded or Failed")) s

unfoldable pub handle_fetched : Surroundings → FetchedJob → State → Ending
unfolding handle_found ignore_backup
handle_fetched e (FetchedJob.job_found j) s = handle_found e j s
handle_fetched e FetchedJob.job_not_found s =
    ignore_backup e (codes "One Backup is already Running, Job not found") s
handle_fetched e (FetchedJob.job_error err) s = Ending.error err s

unfoldable pub handle_backup_job : Surroundings → State → Ending
unfolding handle_fetched
handle_backup_job e s =
    handle_fetched e (e.job (called Call.get_job s).calls) (called Call.get_job s)
