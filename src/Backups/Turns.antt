-- ===== src/Backups/Turns.antt =====
-- What create does to the phase of a backup, method by method.
use k8s_cluster.Base.{
  Bool, List, Option, Text, [], false, none, some, true, ◌∷◌, ◌≡◌, refl, codes, text_eq, not, ltb,
  ◌&&◌, ℕ, subst, if◌then◌else◌,
}
use k8s_cluster.Sync.{Error}
use k8s_cluster.Backups.Objects.{
  BackupPhase, ClusterSpec, JobConditionType, Condition, Owner, Job, Call, Calls, FetchedJob,
  Surroundings, State, Ending, and_next, called, answered_by, send_call, update_backup_status,
  update_backup,
}
use k8s_cluster.Backups.Handling.{
  mark_as_failed_backup, mark_as_ignored_backup, drop_label, ignore_backup, job_succeeded,
  result_backup, finish_backup, settle_owner, settle_job, handle_found, handle_fetched,
  handle_backup_job,
}
use k8s_cluster.Backups.Create.{
  validate, validate_backup, give_up, is_completed, start_at, ensure_started, recovering,
  fail_for_good, not_valid, is_backup_running, recorded, labelled, run_backup, with_job,
  check_bucket_access, check_and_run, with_secret, start_backup, create_valid, create_started,
  create,
}
use k8s_cluster.Backups.Leaves.{
  state_after, Turn, Turned, Leaves, answered_by-Leaves, send_call-Leaves, and_next-Leaves,
  anyway-Leaves, recovering-Leaves, if-Leaves,
}

module _ (e : Surroundings) (p : BackupPhase) (open_p : is_completed p ≡ false) where
  drop_label-Leaves : (s : State) → Turned e p s.backup → Leaves e p (drop_label e s)
  unfolding drop_label update_backup
  drop_label-Leaves s q = send_call-Leaves (Call.update_labels none) _ q

  ignore_backup-Leaves : (msg : Text) (s : State) → Leaves e p (ignore_backup e msg s)
  unfolding ignore_backup mark_as_ignored_backup update_backup_status
  ignore_backup-Leaves msg s =
      anyway-Leaves _ (drop_label e)
        (send_call-Leaves (Call.update_status BackupPhase.ignored) _ (Turn.ignores open_p))
        drop_label-Leaves

  mark_as_failed_backup-Leaves :
      (msg : Text) (s : State) → Leaves e p (mark_as_failed_backup e msg s)
  unfolding mark_as_failed_backup update_backup_status
  mark_as_failed_backup-Leaves msg s =
      send_call-Leaves (Call.update_status BackupPhase.failed) _ (Turn.fails open_p)

  give_up-Leaves : (msg : Text) (s : State) → Leaves e p (give_up e msg s)
  unfolding give_up state_after
  give_up-Leaves msg s =
      anyway-Leaves _ Ending.fine (mark_as_failed_backup-Leaves msg s)
        (λ s1 q. record { turned = q })

  result_backup-Turned :
      (b : Bool) (s : State)
      → (b ≡ true → Turn e p BackupPhase.succeeded)
      → Turned e p (result_backup e b s).backup
  unfolding result_backup
  result_backup-Turned true s k = k refl
  result_backup-Turned false s k = Turn.fails open_p

  finish_backup-Leaves :
      (t : JobConditionType) (s : State)
      → (job_succeeded t ≡ true → Turn e p BackupPhase.succeeded)
      → Leaves e p (finish_backup e t s)
  unfolding finish_backup update_backup_status
  finish_backup-Leaves t s k =
      and_next-Leaves _ (drop_label e)
        (send_call-Leaves _ _ (result_backup-Turned (job_succeeded t) s k)) drop_label-Leaves

  settle_owner-Leaves :
      (t : JobConditionType) (owners : List Owner) (s : State)
      → (job_succeeded t ≡ true → Turn e p BackupPhase.succeeded)
      → Turned e p s.backup
      → Leaves e p (settle_owner e t owners s)
  unfolding settle_owner state_after
  settle_owner-Leaves t [] s k q = record { turned = q }
  settle_owner-Leaves t (o ∷ owners) s k q =
      let msg = codes "One Backup is already Running" in
      let same = text_eq o.name s.backup.name in
      if-Leaves (not o.is_backup) (settle_owner e t owners s)
        (if same then finish_backup e t s else ignore_backup e msg s)
        (λ z. settle_owner-Leaves t owners s k q)
        (λ z.
          if-Leaves same _ _ (λ y. finish_backup-Leaves t s k) (λ y. ignore_backup-Leaves msg s))

  settle_job-Leaves :
      (owners : List Owner) (conditions : List Condition) (s : State)
      → ((c : Condition) (cs : List Condition)
          → conditions ≡ c ∷ cs
          → job_succeeded c.condition_type ≡ true
          → Turn e p BackupPhase.succeeded)
      → Turned e p s.backup
      → Leaves e p (settle_job e owners conditions s)
  unfolding settle_job state_after
  settle_job-Leaves owners [] s k q = record { turned = q }
  settle_job-Leaves owners (c ∷ cs) s k q =
      settle_owner-Leaves c.condition_type owners s (k c cs refl) q

  handle_found-Leaves :
      (calls : Calls) (j : Job) (s : State)
      → e.job calls ≡ FetchedJob.job_found j
      → Turned e p s.backup
      → Leaves e p (handle_found e j s)
  unfolding handle_found state_after
  handle_found-Leaves calls j s found q =
      if-Leaves _ _ _
        (λ over. and_next-Leaves _ _ (send_call-Leaves Call.get_cluster s q) (λ s1.
          settle_job-Leaves j.owners j.conditions s1
            (λ c cs same complete. Turn.succeeds calls j c cs open_p found same complete over)))
        (λ unfinished. record { turned = q })

  handle_fetched-Leaves :
      (calls : Calls) (x : FetchedJob) (s : State)
      → e.job calls ≡ x
      → Turned e p s.backup
      → Leaves e p (handle_fetched e x s)
  unfolding state_after handle_fetched
  handle_fetched-Leaves calls (FetchedJob.job_found j) s same q =
      handle_found-Leaves calls j s same q
  handle_fetched-Leaves calls FetchedJob.job_not_found s same q = ignore_backup-Leaves _ s
  handle_fetched-Leaves calls (FetchedJob.job_error err) s same q = record { turned = q }

  handle_backup_job-Leaves : (s : State) → Turned e p s.backup → Leaves e p (handle_backup_job e s)
  unfolding handle_backup_job
  handle_backup_job-Leaves s q =
      handle_fetched-Leaves (called Call.get_job s).calls _ (called Call.get_job s) refl q

  run_backup-Leaves : (c : ClusterSpec) (s : State) → Leaves e p (run_backup e c s)
  unfolding run_backup update_backup_status update_backup recorded labelled
  run_backup-Leaves c s =
      and_next-Leaves _ _ (send_call-Leaves _ (recorded c s) (Turn.runs open_p)) (λ s1 q1.
        and_next-Leaves _ _ (send_call-Leaves _ (labelled s1) q1)
          (send_call-Leaves Call.create_job))

  with_job-Leaves :
      (c : ClusterSpec) (x : Option Error) (s : State)
      → Turned e p s.backup
      → Leaves e p (with_job e c x s)
  unfolding state_after with_job
  with_job-Leaves c none s q = run_backup-Leaves c s
  with_job-Leaves c (some err) s q =
      if-Leaves (e.retryable err) (Ending.error err s) _ (λ z. record { turned = q })
        (λ z. mark_as_failed_backup-Leaves _ s)

  fail_for_good-Leaves : (err : Error) (s : State) → Leaves e p (fail_for_good e err s)
  unfolding fail_for_good
  fail_for_good-Leaves err s = give_up-Leaves _ s

  check_bucket_access-Leaves :
      (s : State) → Turned e p s.backup → Leaves e p (check_bucket_access e s)
  unfolding check_bucket_access state_after
  check_bucket_access-Leaves s q =
      if-Leaves s.backup.storage.local (Ending.fine s) _ (λ z. record { turned = q })
        (λ z. send_call-Leaves Call.check_bucket s q)

  with_secret-Leaves :
      (c : ClusterSpec) (x : Option Error) (s : State)
      → Turned e p s.backup
      → Leaves e p (with_secret e c x s)
  unfolding with_secret check_and_run
  with_secret-Leaves c (some err) s q = give_up-Leaves _ s
  with_secret-Leaves c none s q =
      and_next-Leaves _ _ (send_call-Leaves Call.create_secret s q) (λ s1 q1.
        recovering-Leaves _ _ _ (check_bucket_access-Leaves s1 q1)
          (λ err s2 q2. fail_for_good-Leaves err s2)
          (λ s2 q2. with_job-Leaves c (e.job_refused s2.backup c) s2 q2))

  start_backup-Leaves : (s : State) → Turned e p s.backup → Leaves e p (start_backup e s)
  unfolding start_backup
  start_backup-Leaves s q =
      and_next-Leaves _ _ (send_call-Leaves Call.get_cluster s q)
        (λ s1. with_secret-Leaves (e.cluster s1.calls) (e.secret_refused s1.backup) s1)

  create_valid-Leaves : (s : State) → Turned e p s.backup → Leaves e p (create_valid e s)
  unfolding create_valid is_backup_running
  create_valid-Leaves s q = and_next-Leaves _ _ (send_call-Leaves Call.list_backups s q) (λ s1 q1.
      and_next-Leaves _ _ (send_call-Leaves Call.list_jobs s1 q1) (λ s2 q2.
        if-Leaves (ltb 0 (e.count s1.calls) && ltb 0 (e.count s2.calls)) (handle_backup_job e s2) _
          (λ z. handle_backup_job-Leaves s2 q2) (λ z. start_backup-Leaves s2 q2)))

  create_open-Leaves :
      (s : State)
      → Turned e p s.backup
      → Leaves e p (recovering (validate_backup e s) (not_valid e) (create_valid e))
  unfolding validate_backup not_valid state_after
  create_open-Leaves s q =
      recovering-Leaves _ _ _
        (and_next-Leaves _ _ (answered_by-Leaves (validate s.backup) s q)
          (send_call-Leaves Call.get_cluster))
        (λ err s1 q1.
          if-Leaves (e.retryable err) (Ending.error err s1) _ (λ z. record { turned = q1 })
            (λ z. fail_for_good-Leaves err s1))
        create_valid-Leaves

module _ (e : Surroundings) where
  drop_label-same :
      (p : BackupPhase) (s : State) → Turned e p s.backup → Leaves e p (drop_label e s)
  unfolding drop_label update_backup
  drop_label-same p s q = send_call-Leaves (Call.update_labels none) _ q

  create_started-Leaves : (s : State) → Leaves e s.backup.phase (create_started e s)
  unfolding create_started
  create_started-Leaves s =
      if-Leaves (is_completed s.backup.phase) (drop_label e s) _
        (λ z. drop_label-same s.backup.phase s Turn.stays)
        (λ z. create_open-Leaves e s.backup.phase z s Turn.stays)

  answered_by-phase :
      (x : Option Error) (s : State) → (state_after (answered_by x s)).backup.phase ≡ s.backup.phase
  unfolding state_after
  answered_by-phase none s = refl
  answered_by-phase (some err) s = refl

  send_call-phase :
      (c : Call) (s : State) → (state_after (send_call e c s)).backup.phase ≡ s.backup.phase
  unfolding send_call
  send_call-phase c s = answered_by-phase (e.refused (called c s).calls) (called c s)

  start_at-phase :
      (x : Option ℕ) (s : State) → (state_after (start_at e x s)).backup.phase ≡ s.backup.phase
  unfolding start_at update_backup_status state_after
  start_at-phase none s =
      send_call-phase (Call.update_status s.backup.phase)
        (record s { backup = record s.backup { start_time = some (e.time s.calls) } })
  start_at-phase (some t) s = refl

  create_from-Leaves :
      (m : Ending) (p : BackupPhase)
      → (state_after m).backup.phase ≡ p
      → Leaves e p (and_next m (create_started e))
  unfolding state_after and_next
  create_from-Leaves (Ending.fine s) p same =
      subst (λ x. Leaves e x (create_started e s)) same (create_started-Leaves s)
  create_from-Leaves (Ending.error err s) p same = record {
    turned = subst (λ x. Turn e x s.backup.phase) same Turn.stays;
  }
  create_from-Leaves (Ending.panics s) p same = record {
    turned = subst (λ x. Turn e x s.backup.phase) same Turn.stays;
  }

  -- However create ends, and whatever its calls answer: a completed backup keeps its phase; another
  -- one keeps its phase too or becomes running, failed or ignored; and it becomes succeeded only when
  -- Kubernetes has answered with a finished job whose first condition is Complete.
  pub create-Turn : (s : State) → Turn e s.backup.phase (state_after (create e s)).backup.phase
  unfolding create ensure_started
  create-Turn s =
      (create_from-Leaves (start_at e s.backup.start_time s) _
        (start_at-phase s.backup.start_time s)).turned
