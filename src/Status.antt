-- ===== src/Status.antt =====
-- The status of a cluster resource: building it from what Redis reports, and comparing it with the
-- stored one. 23-redis-cluster-operator-0.2.3/pkg/controller/distributedrediscluster/status.go,
-- with the comparisons of pkg/utils/compare.go and needClusterOperation of helper.go.
-- `Defs` and `Build` have the definitions. `Tally` describes what is counted by the pods and their
-- nodes; `Counters` and `Factors` lead to `Counts`, and `Compare` is about the comparison.
mod Defs
mod Build
pub mod Compare
pub mod Tally
mod Counters
mod Factors
pub mod Counts
unfoldable pub use Defs.*
unfoldable pub use Build.*
