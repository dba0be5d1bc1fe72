-- ===== src/Sync/Objects.antt =====
-- The resource DistributedRedisCluster, the objects of Kubernetes that its reconciliation reads, and what
-- comes from outside.
use k8s_cluster.Base.Int.{ℤ}
use k8s_cluster.Base.{Bool, List, Option, Text, ℕ}
use k8s_cluster.Node.{Heap}
use k8s_cluster.Admin.{Log, Oracle}
use k8s_cluster.Rebalance.{Share}
use k8s_cluster.Heal as Heal
use k8s_cluster.Heal.{ClusterInfos}
use k8s_cluster.Status as Status
use k8s_cluster.Status.{RedisClusterStatus, status_text}
use k8s_cluster.Sync.Errors.{Error}

-- What a restore reads of a RedisClusterBackup.
pub record Backup : Type 0 where
  pub succeeded : Bool
  pub cluster_image : Text
  pub master_size : ℕ
  pub cluster_replicas : ℕ

-- Requests and limits: memory in bytes, processors in thousandths.
pub record Quantities : Type 0 where
  pub request_memory : ℕ
  pub request_cpu : ℕ
  pub limit_memory : ℕ
  pub limit_cpu : ℕ

-- `DistributedRedisCluster`. `resources` is `none` where `Resources` is nil or empty; `monitor` is
-- `none` without a monitor, and `some none` where its `Prometheus` is nil, else its port;
-- `backup_source` is the namespace and name of `Spec.Init.BackupSource`; `restore_backup` is
-- `Status.Restore.Backup`.
pub record Resource : Type 0 where
  pub name : Text
  pub image : Text
  pub service_name : Text
  pub master_size : ℕ
  pub cluster_replicas : ℕ
  pub resources : Option Quantities
  pub monitor : Option (Option ℕ)
  pub annotations : Option (List (Text × Text))
  pub config : Option (List (Text × Text))
  pub password_secret : Option Text
  pub backup_source : Option (Text × Text)
  pub status : RedisClusterStatus
  pub restore_backup : Option Backup

-- An environment variable, with the name of the secret that it refers to.
pub record EnvVar : Type 0 where
  pub name : Text
  pub secret : Option Text

-- A StatefulSet, with its first container.
pub record StatefulSet : Type 0 where
  pub replicas : ℕ
  pub ready_replicas : ℕ
  pub current_replicas : ℕ
  pub image : Text
  pub env : List EnvVar
  pub resources : Quantities

-- What a Get of Kubernetes answers.
pub data Fetched (A : Type 0) : Type 0 where
  found : A → Fetched A
  not_found : Fetched A
  failed : Fetched A

-- A pod, as the repairs and as the status look at it.
pub record ClusterPod : Type 0 where
  pub healed : Heal.Pod
  pub shown : Status.Pod
  pub running : Bool

-- What comes from outside: which calls succeed, the text of an error, what Kubernetes answers to
-- a Get or a List, which errors may be tried again, the time, whether a StatefulSet can be built from the specification, what the nodes report, and
-- how the floats of the rebalancing are computed; and the fuel of its loops.
pub record Env : Type 0 where
  pub oracle : Oracle
  pub said : Log → Text
  pub exists : Log → Fetched Unit
  pub stateful_set : Log → Fetched StatefulSet
  pub config_map : Log → Fetched Text
  pub backup : Log → Option Backup
  pub retryable : Error → Bool
  pub views : Heap → Log → Heap × ClusterInfos × Bool
  pub pods : Log → Option (List ClusterPod)
  pub now : ℕ
  pub reconcile_time : ℕ
  pub pods_running : Log → Option (List Bool)
  pub ready_replicas : Log → Option (List ℕ)
  pub buildable : Resource → Bool
  pub share : Share
  pub ends : ℕ → ℤ
  pub fuel : ℕ
  pub hash_max_slot : ℕ
