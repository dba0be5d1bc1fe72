-- ===== src/Tests/Syncs.antt =====
-- The reconciliation.
use k8s_cluster.Base.{
  List, Text, [], arith, codes, false, none, refl, some, suc, text_eq, true, zero, ℕ, ◌+◌, ◌<◌, ◌∷◌,
  ◌≤◌,
}
use k8s_cluster.Base.Assoc.{lookup}
use k8s_cluster.Base.Int.{ℤ, pos, pos_part}
use k8s_cluster.Node.{Nodes, ClusterStatus, NodesPlacementInfo}
use k8s_cluster.Admin.{always}
use k8s_cluster.Placement.{Ctx, get_new_masters}
use k8s_cluster.Heal.{InfosStatus}
use k8s_cluster.Status.{RestorePhase}
use k8s_cluster.Sync.{
  Env, World, Backup, Quantities, Fetched, reconcile, scaling_down, create_cluster,
}
use k8s_cluster.Sync.Ends.{Ends}
use k8s_cluster.Sync.Synced.{IsLoud}
use k8s_cluster.Sync.Outcomes.{reconcile-Ends}
use k8s_cluster.Sync.Removal.{OnlyRemoves, scaling_down-OnlyRemoves}
use k8s_cluster.Sync.Created.{Tiled, create_cluster-Tiled}
use k8s_cluster.Tests.Samples.{heap, cluster}

abbrev ends : ℕ → ℤ
ends zero = pos 1
ends (suc i) = pos 3

abbrev quantities : Quantities
quantities = record { request_memory = 1; request_cpu = 1; limit_memory = 1; limit_cpu = 1 }

abbrev finished_backup : Backup
finished_backup = record {
  succeeded = true;
  cluster_image = codes "redis";
  master_size = 3;
  cluster_replicas = 1;
}

-- All calls succeed, and the nodes have agreed.
abbrev env : Env
env = record {
  oracle = always;
  said = λ log. [];
  exists = λ log. Fetched.found tt;
  stateful_set = λ log. Fetched.found (record {
    replicas = 1;
    ready_replicas = 1;
    current_replicas = 1;
    image = codes "redis";
    env = [];
    resources = quantities;
  });
  config_map = λ log. Fetched.found [];
  backup = λ log. some finished_backup;
  retryable = λ err. true;
  views = λ h log. (h, record { infos = []; status = InfosStatus.consistent }, true);
  pods = λ log. some [];
  now = 100;
  reconcile_time = 60;
  pods_running = λ log. some [];
  ready_replicas = λ log. some (0 ∷ []);
  buildable = λ c. true;
  share = λ first num_slots total node. 1;
  ends = ends;
  fuel = 10;
  hash_max_slot = 3;
}

abbrev world : World
world = record {
  heap = heap;
  log = [];
  instance = record {
    name = codes "c";
    image = codes "redis";
    service_name = codes "svc";
    master_size = 1;
    cluster_replicas = 0;
    resources = some quantities;
    monitor = none;
    annotations = none;
    config = none;
    password_secret = none;
    backup_source = some (codes "default", codes "b");
    status = record {
      status = ClusterStatus.ok;
      reason = [];
      number_of_master = 2;
      min_replication_factor = 0;
      max_replication_factor = 0;
      nodes_placement = NodesPlacementInfo.unset;
      nodes = [];
      restore_phase = RestorePhase.unset;
    };
    restore_backup = none;
  };
}

-- Node 2 has no slots and belongs to the second stateful set.
abbrev sets : List (Text × Nodes)
sets = (codes "drc-c-0", 0 ∷ []) ∷ (codes "drc-c-1", 2 ∷ []) ∷ []

abbrev ctx : Ctx
ctx = record {
  expected_master_num = 2;
  cluster_name = codes "c";
  cluster = cluster;
  nodes = (codes "drc-c-0", 0 ∷ 2 ∷ []) ∷ (codes "drc-c-1", 1 ∷ []) ∷ [];
  current_masters = [];
  new_masters_by_sts = (codes "drc-c-0", 0) ∷ (codes "drc-c-1", 1) ∷ [];
  slaves_by_master = [];
  best_effort = false;
}

ends-LeavesRoom : (i : ℕ) → i + 1 < 2 → pos_part (ends i) + 2 ≤ 4 + i
ends-LeavesRoom zero l = omega arith
ends-LeavesRoom (suc i) l = omega arith

reconcile-Ends_example : Ends IsLoud world (reconcile env world)
reconcile-Ends_example = reconcile-Ends env world

scaling_down-OnlyRemoves_example :
    OnlyRemoves heap (codes "c") sets 1 2 [] (scaling_down env 2 sets world)
scaling_down-OnlyRemoves_example = scaling_down-OnlyRemoves env 2 sets world

create_cluster-Tiled_example : Tiled env (0 ∷ 1 ∷ []) (create_cluster env ctx world)
unfolding get_new_masters text_eq lookup
create_cluster-Tiled_example =
    create_cluster-Tiled env ctx world (λ log. refl) refl ends-LeavesRoom (omega arith)
      (refl, (refl, tt)) (omega arith) (omega arith)
