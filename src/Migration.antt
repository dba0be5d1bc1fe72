-- ===== src/Migration.antt =====
-- Moving slots when the set of masters shrinks:
-- 23-redis-cluster-operator-0.2.3/pkg/controller/clustering/migration.go.
-- `Plan` computes which slots move where, `Dispatch` sends the commands. `Lost`, `Balance`, `Named`,
-- `Removed` and `Moves` are about the plan, `Owners` and `Order` about the nodes and commands of the dispatch.
mod Plan
mod Dispatch
pub mod Lost
pub mod Balance
pub mod Named
pub mod Moves
pub mod Owners
pub mod Order
pub mod Removed
unfoldable pub use Plan.*
unfoldable pub use Dispatch.*
