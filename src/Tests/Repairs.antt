-- ===== src/Tests/Repairs.antt =====
-- Healing and the status.
use k8s_cluster.Base.{
  ◌+◌, All, Bool, List, [], codes, false, if◌then◌else◌, length, none, refl, some, suc, true, zero,
  ◌++◌, ◌==◌, ◌∷◌, ◌≡◌, ◌≤◌, any, text_eq,
}
use k8s_cluster.Base.Assoc.{lookup}
use k8s_cluster.Node.{Node, Heap, ClusterStatus, NodesPlacementInfo}
use k8s_cluster.Admin.{always}
use k8s_cluster.Heal.{
  Addrs, get_nodes, NodeInfos, ClusterInfos, InfosStatus, split_main_cluster, list_ghost_nodes,
  fix_failed_nodes, fix_terminating_pods,
}
use k8s_cluster.Heal.SplitLaws.{split_main_cluster-largest, number_of, number_of-split_main_cluster}
use k8s_cluster.Heal.ForgetLaws.{reported, forgets, list_ghost_nodes-lookup, fix_failed_nodes-log}
use k8s_cluster.Status.{
  RestorePhase, RedisClusterStatus, build_cluster_status, need_cluster_operation,
  replication_factors, compare_status, status_text, phase_text,
}
use k8s_cluster.Status.Counts.{
  slaves_of_master, pods_with, build_cluster_status-counts, need_cluster_operation-settled,
}
use k8s_cluster.Status.Tally.{is_serving, reached}
use k8s_cluster.Status.Compare.{matches, compare_status-same}
use k8s_cluster.Heal as Heal
use k8s_cluster.Status as Status
use k8s_cluster.Tests.Samples.{node_c, heap, known_a}

-- The third node as it looks when it has no address.
abbrev gone : Node
gone = record node_c { fail_status = codes "noaddr" ∷ [] }

abbrev failing : Heap
failing zero = heap 0
failing (suc zero) = heap 1
failing (suc (suc n)) = gone

abbrev infos : ClusterInfos
infos = record {
  infos = (codes "10.0.0.1:6379", record { node = 0; friends = 1 ∷ 2 ∷ [] }) ∷ [];
  status = InfosStatus.unset;
}

abbrev two_clusters : List Addrs
two_clusters = (codes "x" ∷ []) ∷ (codes "y" ∷ codes "z" ∷ []) ∷ []

abbrev has_two : Addrs → Bool
has_two c = length c == 2

abbrev stuck_pod : Heal.Pod
stuck_pod = record { name = codes "p"; pod_ip = codes "10.0.0.9"; deletion_timestamp = some 5 }

abbrev pod_a : Status.Pod
pod_a = record {
  name = codes "drc-c-0-0";
  node_name = codes "vm-1";
  pod_ip = codes "10.0.0.1";
  owner = some (codes "StatefulSet", codes "drc-c-0");
}

abbrev stored : RedisClusterStatus
stored = record {
  status = ClusterStatus.ok;
  reason = [];
  number_of_master = 1;
  min_replication_factor = 0;
  max_replication_factor = 0;
  nodes_placement = NodesPlacementInfo.unset;
  nodes = known_a ∷ [];
  restore_phase = RestorePhase.unset;
}

split_main_cluster-largest_example :
    All (λ c. length c ≤ length (split_main_cluster two_clusters).0) two_clusters
split_main_cluster-largest_example = split_main_cluster-largest two_clusters

number_of-split_main_cluster_example :
    number_of has_two two_clusters
    ≡ (if has_two (split_main_cluster two_clusters).0 then 1 else 0)
      + number_of has_two (split_main_cluster two_clusters).1
number_of-split_main_cluster_example = number_of-split_main_cluster has_two two_clusters refl

list_ghost_nodes-lookup_example :
    lookup (codes "ccc") (list_ghost_nodes failing (known_a ∷ []) infos)
    ≡ (if reported failing (known_a ∷ []) (codes "ccc") infos.infos then some true else none)
list_ghost_nodes-lookup_example = list_ghost_nodes-lookup failing (known_a ∷ []) infos (codes "ccc")

fix_failed_nodes-log_example :
    (fix_failed_nodes always false failing (known_a ∷ []) infos []).log
    ≡ (if false then [] else [] ++ forgets (list_ghost_nodes failing (known_a ∷ []) infos))
fix_failed_nodes-log_example = fix_failed_nodes-log always false failing (known_a ∷ []) infos []

need_cluster_operation-settled_example :
    (pods_with heap infos (pod_a ∷ []) is_serving ≡ 1)
    × (slaves_of_master heap infos (pod_a ∷ []) (codes "aaa") 0 ≡ 0)
unfolding need_cluster_operation build_cluster_status text_eq
need_cluster_operation-settled_example =
    need_cluster_operation-settled heap infos (pod_a ∷ []) stored 1 0 (codes "aaa") refl

build_cluster_status-counts_example :
    let s = build_cluster_status heap infos (pod_a ∷ []) stored in
    (s.number_of_master ≡ pods_with heap infos (pod_a ∷ []) is_serving)
    × (length s.nodes ≡ reached heap (get_nodes infos) (pod_a ∷ []))
    × (s.min_replication_factor
        ≤ slaves_of_master heap infos (pod_a ∷ []) (codes "aaa") s.min_replication_factor)
    × (slaves_of_master heap infos (pod_a ∷ []) (codes "aaa") s.max_replication_factor
        ≤ s.max_replication_factor)
build_cluster_status-counts_example =
    build_cluster_status-counts heap infos (pod_a ∷ []) stored (codes "aaa")

compare_status-same_example :
    (status_text stored.status ≡ status_text stored.status)
    × (stored.reason ≡ stored.reason)
    × (stored.number_of_master ≡ stored.number_of_master)
    × (length stored.nodes ≡ length stored.nodes)
    × (phase_text stored.restore_phase ≡ phase_text stored.restore_phase)
    × All (λ a. any (matches a) stored.nodes ≡ true) stored.nodes
unfolding compare_status text_eq
compare_status-same_example = compare_status-same stored stored refl
