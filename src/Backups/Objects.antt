-- ===== src/Backups/Objects.antt =====
-- The resource RedisClusterBackup, its job, and what comes from outside.
use k8s_cluster.Base.{Bool, List, Option, Text, [], none, some, ℕ, ◌++◌, ◌∷◌}
use k8s_cluster.Sync.{Error}

pub data BackupPhase : Type 0 where
  unset running succeeded failed ignored : BackupPhase

-- `RedisClusterBackup`. `storage` says for S3, GCS, Azure, Swift and Local whether the pointer is
-- set; the labels are those for the cluster's name and for the status.
pub record Storage : Type 0 where
  pub s3 : Bool
  pub gcs : Bool
  pub azure : Bool
  pub swift : Bool
  pub local : Bool
  pub secret_name : Text

pub record RedisClusterBackup : Type 0 where
  pub name : Text
  pub redis_cluster_name : Text
  pub storage : Storage
  pub label_cluster_name : Option Text
  pub label_backup_status : Option Text
  pub start_time : Option ℕ
  pub completion_time : Option ℕ
  pub phase : BackupPhase
  pub reason : Text
  pub master_size : ℕ
  pub cluster_replicas : ℕ
  pub cluster_image : Text

-- The cluster's specification, as far as a backup records it.
pub record ClusterSpec : Type 0 where
  pub master_size : ℕ
  pub cluster_replicas : ℕ
  pub image : Text

pub data JobConditionType : Type 0 where
  job_complete job_failed job_other : JobConditionType

pub record Condition : Type 0 where
  pub condition_type : JobConditionType
  pub status_true : Bool

-- A job's owner: whether its kind is RedisClusterBackup, and its name.
pub record Owner : Type 0 where
  pub is_backup : Bool
  pub name : Text

pub record Job : Type 0 where
  pub conditions : List Condition
  pub owners : List Owner

-- The calls to Kubernetes, those that send_call the resource with what is sent.
pub data Call : Type 0 where
  update_status : BackupPhase → Call
  update_labels : Option Text → Call
  list_backups list_jobs get_cluster get_job create_secret check_bucket create_job : Call

abbrev pub Calls : Type 0
Calls = List Call

pub data FetchedJob : Type 0 where
  job_found : Job → FetchedJob
  job_not_found : FetchedJob
  job_error : Error → FetchedJob

-- What comes from outside: the errors of calls, what a Get or a List answers, the time, and whether
-- the secret and the job can be built from the resource.
pub record Surroundings : Type 0 where
  pub refused : Calls → Option Error
  pub job : Calls → FetchedJob
  pub cluster : Calls → ClusterSpec
  pub count : Calls → ℕ
  pub retryable : Error → Bool
  pub time : Calls → ℕ
  pub secret_refused : RedisClusterBackup → Option Error
  pub job_refused : RedisClusterBackup → ClusterSpec → Option Error

pub record State : Type 0 where
  pub backup : RedisClusterBackup
  pub calls : Calls

-- How a method ends: with or without an error, or with a panic.
pub data Ending : Type 0 where
  fine : State → Ending
  error : Error → State → Ending
  panics : State → Ending

-- Goes on where a call has no error.
unfoldable pub and_next : Ending → (State → Ending) → Ending
and_next (Ending.fine s) f = f s
and_next (Ending.error err s) f = Ending.error err s
and_next (Ending.panics s) f = Ending.panics s

-- Goes on whether or not a call has an error.
unfoldable pub anyway : Ending → (State → Ending) → Ending
anyway (Ending.fine s) f = f s
anyway (Ending.error err s) f = f s
anyway (Ending.panics s) f = Ending.panics s

abbrev pub called : Call → State → State
called c s = record s { calls = s.calls ++ c ∷ [] }

abbrev pub answered_by : Option Error → State → Ending
answered_by none s = Ending.fine s
answered_by (some err) s = Ending.error err s

unfoldable pub send_call : Surroundings → Call → State → Ending
send_call e c s = answered_by (e.refused (called c s).calls) (called c s)

unfoldable pub update_backup_status : Surroundings → State → Ending
unfolding send_call
update_backup_status e s = send_call e (Call.update_status s.backup.phase) s

unfoldable pub update_backup : Surroundings → State → Ending
unfolding send_call
update_backup e s = send_call e (Call.update_labels s.backup.label_backup_status) s
