-- ===== src/Placement.antt =====
-- Which node of each stateful set becomes a master, and which nodes become its slaves:
-- 23-redis-cluster-operator-0.2.3/pkg/controller/clustering/placement_v2.go and roles.go.
-- `Context` has the context and its operations, `Attach` the attaching of slaves, `ByVm` the older
-- selection by machine, placement.go. `Masters`, `Slaves` and `Select` are about their outcomes.
mod Context
mod Attach
mod ByVm
pub mod Masters
pub mod Slaves
pub mod Select
unfoldable pub use Context.*
unfoldable pub use Attach.*
unfoldable pub use ByVm.*
