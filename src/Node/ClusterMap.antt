-- ===== src/Node/ClusterMap.antt =====
-- The record `Cluster` of pkg/redisutil/cluster.go: nodes by ID.
use k8s_cluster.Base.{ℕ, Bool, List, [], ◌∷◌, Option, none, some, if◌then◌else◌, Text, text_eq, map}
use k8s_cluster.Base.Assoc.{lookup, insert}
use k8s_cluster.Node.Defs.{Node}
use k8s_cluster.Node.Lists.{Ptr, Nodes, Heap, get_nodes_by_func}

-- `ClusterStatus` of pkg/apis/redis/v1alpha1/constants.go; `unset` is the empty string.
pub data ClusterStatus : Type 0 where
  unset ok ko creating scaling calculating_rebalancing rebalancing rolling_update reset_password :
      ClusterStatus

pub data NodesPlacementInfo : Type 0 where
  unset best_effort optimal : NodesPlacementInfo

-- `nb_slots_to_migrate` is the one field of `ClusterActionsInfo`.
pub record Cluster : Type 0 where
  pub name : Text
  pub namespace : Text
  pub nodes : List (Text × Ptr)
  pub status : ClusterStatus
  pub nodes_placement : NodesPlacementInfo
  pub nb_slots_to_migrate : ℕ

unfoldable pub new_cluster : Text → Text → Cluster
new_cluster name namespace = record {
  name = name;
  namespace = namespace;
  nodes = [];
  status = ClusterStatus.unset;
  nodes_placement = NodesPlacementInfo.unset;
  nb_slots_to_migrate = 0;
}

module _ (h : Heap) where
  -- A node with the same ID is replaced; `Clear` does nothing.
  unfoldable pub add_node : Ptr → Cluster → Cluster
  unfolding insert
  add_node p c = record c { nodes = insert (h p).id p c.nodes }

  unfoldable pub cluster_node_by_id : Cluster → Text → Option Ptr
  unfolding lookup
  cluster_node_by_id c id = lookup id c.nodes

  unfoldable pub first_node : (Node → Bool) → List (Text × Ptr) → Option Ptr
  first_node f [] = none
  first_node f ((_, p) ∷ nodes) = if f (h p) then some p else first_node f nodes

  unfoldable pub cluster_node_by_func : Cluster → (Node → Bool) → Option Ptr
  unfolding first_node
  cluster_node_by_func c f = first_node f c.nodes

  unfoldable pub cluster_node_by_ip : Cluster → Text → Option Ptr
  unfolding cluster_node_by_func
  cluster_node_by_ip c ip = cluster_node_by_func c (λ n. text_eq n.ip ip)

  unfoldable pub cluster_node_by_pod_name : Cluster → Text → Option Ptr
  unfolding cluster_node_by_func
  cluster_node_by_pod_name c name = cluster_node_by_func c (λ n. text_eq n.pod_name name)

  unfoldable pub cluster_nodes_by_func : Cluster → (Node → Bool) → Option Nodes
  unfolding get_nodes_by_func
  cluster_nodes_by_func c f = get_nodes_by_func h f (map (λ e. e.1) c.nodes)
