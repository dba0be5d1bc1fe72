-- ===== src/Node.antt =====
-- Redis nodes: the record and its methods, lists of node pointers, and the cluster's map of
-- nodes, as in 23-redis-cluster-operator-0.2.3/pkg/redisutil/node.go and cluster.go.
-- `Defs` has one node, `Lists` the slices of pointers, `ClusterMap` the map; `Roles` is about the
-- role and status setters.
mod Defs
mod Lists
mod ClusterMap
pub mod Roles
unfoldable pub use Defs.*
unfoldable pub use Lists.*
unfoldable pub use ClusterMap.*
