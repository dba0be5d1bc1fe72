-- ===== src/Tests/Stores.antt =====
-- A run of create on a backup whose job is complete.
use k8s_cluster.Base.{[], codes, false, none, some, true, ◌∷◌}
use k8s_cluster.Backups.{
  BackupPhase, Storage, RedisClusterBackup, ClusterSpec, JobConditionType, Job, FetchedJob,
  Surroundings, State, create,
}
use k8s_cluster.Backups.Leaves.{state_after, Turn}
use k8s_cluster.Backups.Turns.{create-Turn}

abbrev storage : Storage
storage = record {
  s3 = true;
  gcs = false;
  azure = false;
  swift = false;
  local = false;
  secret_name = [];
}

abbrev backup : RedisClusterBackup
backup = record {
  name = codes "b";
  redis_cluster_name = codes "c";
  storage = storage;
  label_cluster_name = some (codes "c");
  label_backup_status = some (codes "Running");
  start_time = some 1;
  completion_time = none;
  phase = BackupPhase.running;
  reason = [];
  master_size = 3;
  cluster_replicas = 1;
  cluster_image = codes "redis";
}

abbrev cluster : ClusterSpec
cluster = record { master_size = 3; cluster_replicas = 1; image = codes "redis" }

abbrev job : Job
job = record {
  conditions = (record { condition_type = JobConditionType.job_complete; status_true = true }) ∷ [];
  owners = (record { is_backup = true; name = codes "b" }) ∷ [];
}

abbrev around : Surroundings
around = record {
  refused = λ calls. none;
  job = λ calls. FetchedJob.job_found job;
  cluster = λ calls. cluster;
  count = λ calls. 1;
  retryable = λ err. false;
  time = λ calls. 9;
  secret_refused = λ b. none;
  job_refused = λ b c. none;
}

abbrev before : State
before = record { backup = backup; calls = [] }

create-Turn_example :
    Turn around BackupPhase.running (state_after (create around before)).backup.phase
create-Turn_example = create-Turn around before
