-- ===== src/Tests/Samples.antt =====
-- Concrete nodes, pods and views that the tests share.
use k8s_cluster.Base.{[], codes, suc, zero, ◌∷◌}
use k8s_cluster.Base.Int.{pos, negsuc}
use k8s_cluster.Node.{
  Node, Heap, Cluster, ClusterStatus, NodesPlacementInfo, RedisClusterNode, RedisRole,
  new_default_node,
}

-- Three masters of a cluster with twelve slots; slot 11 is lost.
abbrev pub node_a : Node
node_a = record new_default_node {
  id = codes "aaa";
  ip = codes "10.0.0.1";
  role = codes "master";
  slots = 0 ∷ 1 ∷ 2 ∷ 3 ∷ 4 ∷ 5 ∷ [];
  balance = pos 2;
  node_name = codes "vm-1";
  stateful_set = codes "drc-c-0";
}

abbrev pub node_b : Node
node_b = record new_default_node {
  id = codes "bbb";
  ip = codes "10.0.0.2";
  role = codes "master";
  slots = 6 ∷ 7 ∷ 8 ∷ 9 ∷ 10 ∷ [];
  balance = pos 1;
  node_name = codes "vm-2";
  stateful_set = codes "drc-c-1";
}

abbrev pub node_c : Node
node_c = record new_default_node {
  id = codes "ccc";
  ip = codes "10.0.0.3";
  role = codes "slave";
  master_referent = codes "aaa";
  balance = negsuc 1;
  node_name = codes "vm-2";
  stateful_set = codes "drc-c-0";
}

abbrev pub heap : Heap
heap zero = node_a
heap (suc zero) = node_b
heap (suc (suc n)) = node_c

abbrev pub cluster : Cluster
cluster = record {
  name = codes "c";
  namespace = codes "default";
  nodes = (codes "aaa", 0) ∷ (codes "bbb", 1) ∷ (codes "ccc", 2) ∷ [];
  status = ClusterStatus.ok;
  nodes_placement = NodesPlacementInfo.unset;
  nb_slots_to_migrate = 0;
}

abbrev pub known_a : RedisClusterNode
known_a = record {
  id = codes "aaa";
  role = RedisRole.master;
  ip = codes "10.0.0.1";
  port = codes "6379";
  slots = codes "0-5" ∷ [];
  master_ref = [];
  pod_name = codes "drc-c-0-0";
  node_name = codes "vm-1";
  stateful_set = codes "drc-c-0";
}
