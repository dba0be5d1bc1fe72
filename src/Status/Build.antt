-- ===== src/Status/Build.antt =====
-- `buildClusterStatus`.
use k8s_cluster.Base.{
  List, Option, Text, [], codes, if◌then◌else◌, ltb, map, none, not, some, text_eq, ℕ, ◌&&◌, ◌++◌,
  ◌+◌, ◌-◌, ◌^◌, ◌∷◌,
}
use k8s_cluster.Base.Assoc.{insert, lookup}
use k8s_cluster.Slot.{slot_ranges_from_slots}
use k8s_cluster.Slot.Codec.{slot_range_string}
use k8s_cluster.Node.{
  Node, Nodes, Heap, NodesPlacementInfo, RedisRole, RedisClusterNode, get_nodes_by_func, get_role,
  is_master_with_slot, is_slave,
}
use k8s_cluster.Heal.{ClusterInfos, get_nodes}
use k8s_cluster.Status.Defs.{RedisClusterStatus}

-- A pod with its first owner, as kind and name.
pub record Pod : Type 0 where
  pub name : Text
  pub node_name : Text
  pub pod_ip : Text
  pub owner : Option (Text × Text)

abbrev pub owner_stateful_set : Option (Text × Text) → Text
owner_stateful_set none = []
owner_stateful_set (some (kind, name)) = if text_eq kind (codes "StatefulSet") then name else []

abbrev pub node_of_pod : Pod → RedisClusterNode
node_of_pod pod = record {
  id = [];
  role = RedisRole.unset;
  ip = pod.pod_ip;
  port = [];
  slots = [];
  master_ref = [];
  pod_name = pod.name;
  node_name = pod.node_name;
  stateful_set = owner_stateful_set pod.owner;
}

-- What the loop over the pods builds: the nodes, the number of masters with slots, and the
-- slaves of each master.
pub record Building : Type 0 where
  pub nodes : List RedisClusterNode
  pub nb_master : ℕ
  pub nb_slave_by_master : List (Text × ℕ)

abbrev pub number_at : Text → List (Text × ℕ) → ℕ
number_at k m = elim (lookup k m) [ none ↦ 0 | some n ↦ n ]

-- `if _, ok := m[id]; !ok { m[id] = 0 }`
abbrev pub start_counter : Text → List (Text × ℕ) → List (Text × ℕ)
start_counter id m = elim (lookup id m) [ none ↦ insert id 0 m | some _ ↦ m ]

unfoldable pub count_master : Node → Building → Building
unfolding is_master_with_slot lookup insert
count_master n b =
    if is_master_with_slot n
    then record b {
      nb_master = b.nb_master + 1;
      nb_slave_by_master = start_counter n.id b.nb_slave_by_master;
    }
    else b

unfoldable pub count_slave : Node → Building → Building
unfolding is_slave lookup insert
count_slave n b =
    if is_slave n && not (text_eq n.master_referent [])
    then record b {
      nb_slave_by_master =
          insert n.master_referent (number_at n.master_referent b.nb_slave_by_master + 1)
            b.nb_slave_by_master;
    }
    else b

unfoldable pub describe : Pod → Node → RedisClusterNode
unfolding get_role is_slave slot_ranges_from_slots slot_range_string
describe pod n = record (node_of_pod pod) {
  id = n.id;
  role = get_role n;
  port = n.port;
  master_ref = if is_slave n then n.master_referent else [];
  slots = map slot_range_string (slot_ranges_from_slots n.slots).1;
}

-- One pod, by the Redis nodes that have its address. With none the pod is passed over; with more
-- than one only the pod's own data are kept.
unfoldable pub add_pod : Heap → Pod → Option Nodes → Building → Building
unfolding count_master count_slave describe
add_pod h pod none b = b
add_pod h pod (some (p ∷ [])) b =
    let counted = count_slave (h p) (count_master (h p) b) in
    record counted { nodes = b.nodes ++ describe pod (h p) ∷ [] }
add_pod h pod (some _) b = record b { nodes = b.nodes ++ node_of_pod pod ∷ [] }

unfoldable pub add_pods : Heap → Nodes → List Pod → Building → Building
unfolding add_pod get_nodes_by_func
add_pods h nodes [] b = b
add_pods h nodes (pod ∷ pods) b =
    add_pods h nodes pods
      (add_pod h pod (get_nodes_by_func h (λ n. text_eq n.ip pod.pod_ip) nodes) b)

abbrev pub max_int32 : ℕ
max_int32 = 2 ^ 31 - 1

-- The smallest and the largest counter.
unfoldable pub factors : ℕ × ℕ → List (Text × ℕ) → ℕ × ℕ
factors f [] = f
factors (lo, hi) ((_, counter) ∷ m) =
    factors (if ltb counter lo then counter else lo, if ltb hi counter then counter else hi) m

unfoldable pub replication_factors : List (Text × ℕ) → ℕ × ℕ
unfolding factors
replication_factors [] = (0, 0)
replication_factors (e ∷ m) = factors (max_int32, 0) (e ∷ m)

unfoldable pub build_cluster_status :
    Heap → ClusterInfos → List Pod → RedisClusterStatus → RedisClusterStatus
unfolding add_pods replication_factors get_nodes
build_cluster_status h infos pods old =
    let b =
      add_pods h (get_nodes infos) pods
        (record { nodes = []; nb_master = 0; nb_slave_by_master = [] }) in
    let (lo, hi) = replication_factors b.nb_slave_by_master in
    record {
      status = old.status;
      reason = old.reason;
      number_of_master = b.nb_master;
      min_replication_factor = lo;
      max_replication_factor = hi;
      nodes_placement = NodesPlacementInfo.unset;
      nodes = b.nodes;
      restore_phase = old.restore_phase;
    }
