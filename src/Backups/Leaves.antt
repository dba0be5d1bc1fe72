-- ===== src/Backups/Leaves.antt =====
-- How the phase of a backup may change, and the methods that respect it, by how they are put together.
use k8s_cluster.Base.{Bool, List, Option, false, none, some, true, ◌∷◌, ◌≡◌, refl, if◌then◌else◌}
use k8s_cluster.Sync.{Error}
use k8s_cluster.Backups.Objects.{
  BackupPhase, RedisClusterBackup, Condition, Job, Call, Calls, FetchedJob, Surroundings, State,
  Ending, and_next, anyway, called, answered_by, send_call,
}
use k8s_cluster.Backups.Handling.{is_job_finished, job_succeeded}
use k8s_cluster.Backups.Create.{is_completed, recovering}

-- The state in which a method ends.
unfoldable pub state_after : Ending → State
state_after (Ending.fine s) = s
state_after (Ending.error err s) = s
state_after (Ending.panics s) = s

-- How a phase may change: a completed backup keeps its phase, and another one succeeds only when its
-- job is finished and the job's first condition says that it is complete.
pub data Turn (e : Surroundings) : BackupPhase → BackupPhase → Type 0 where
  stays : {p : BackupPhase} → Turn e p p
  runs : {p : BackupPhase} → is_completed p ≡ false → Turn e p BackupPhase.running
  fails : {p : BackupPhase} → is_completed p ≡ false → Turn e p BackupPhase.failed
  ignores : {p : BackupPhase} → is_completed p ≡ false → Turn e p BackupPhase.ignored
  succeeds :
      {p : BackupPhase} (calls : Calls) (j : Job) (c : Condition) (cs : List Condition)
      → is_completed p ≡ false
      → e.job calls ≡ FetchedJob.job_found j
      → j.conditions ≡ c ∷ cs
      → job_succeeded c.condition_type ≡ true
      → is_job_finished j.conditions ≡ true
      → Turn e p BackupPhase.succeeded

abbrev pub Turned : Surroundings → BackupPhase → RedisClusterBackup → Type 0
Turned e p b = Turn e p b.phase

-- A method leaves the backup in such a phase, with an error or without one.
pub record Leaves (e : Surroundings) (p : BackupPhase) (m : Ending) : Type 0 where
  pub turned : Turned e p (state_after m).backup

module _ {e : Surroundings} {p : BackupPhase} where
  pub answered_by-Leaves :
      (x : Option Error) (s : State) → Turned e p s.backup → Leaves e p (answered_by x s)
  unfolding state_after
  answered_by-Leaves none s q = record { turned = q }
  answered_by-Leaves (some err) s q = record { turned = q }

  pub send_call-Leaves : (c : Call) (s : State) → Turned e p s.backup → Leaves e p (send_call e c s)
  unfolding send_call
  send_call-Leaves c s q = answered_by-Leaves (e.refused (called c s).calls) (called c s) q

  pub and_next-Leaves :
      (m : Ending) (f : State → Ending)
      → Leaves e p m
      → ((s : State) → Turned e p s.backup → Leaves e p (f s))
      → Leaves e p (and_next m f)
  unfolding and_next state_after
  and_next-Leaves (Ending.fine s) f q k = k s q.turned
  and_next-Leaves (Ending.error err s) f q k = q
  and_next-Leaves (Ending.panics s) f q k = q

  pub anyway-Leaves :
      (m : Ending) (f : State → Ending)
      → Leaves e p m
      → ((s : State) → Turned e p s.backup → Leaves e p (f s))
      → Leaves e p (anyway m f)
  unfolding anyway state_after
  anyway-Leaves (Ending.fine s) f q k = k s q.turned
  anyway-Leaves (Ending.error err s) f q k = k s q.turned
  anyway-Leaves (Ending.panics s) f q k = q

  pub recovering-Leaves :
      (m : Ending) (bad : Error → State → Ending) (good : State → Ending)
      → Leaves e p m
      → ((err : Error) (s : State) → Turned e p s.backup → Leaves e p (bad err s))
      → ((s : State) → Turned e p s.backup → Leaves e p (good s))
      → Leaves e p (recovering m bad good)
  unfolding recovering state_after
  recovering-Leaves (Ending.fine s) bad good q b k = k s q.turned
  recovering-Leaves (Ending.error err s) bad good q b k = b err s q.turned
  recovering-Leaves (Ending.panics s) bad good q b k = q

  pub if-Leaves :
      (b : Bool) (x y : Ending)
      → (b ≡ true → Leaves e p x)
      → (b ≡ false → Leaves e p y)
      → Leaves e p (if b then x else y)
  if-Leaves true x y p q = p refl
  if-Leaves false x y p q = q refl
