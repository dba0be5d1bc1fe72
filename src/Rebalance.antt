-- ===== src/Rebalance.antt =====
-- Spreading slots over masters when a cluster is created or grows:
-- 23-redis-cluster-operator-0.2.3/pkg/controller/clustering/rebalance.go.
-- `Balance` sets the balances, `Move` moves slots, `Loop` is the main loop, `Alloc` the first
-- allocation. `Lower` and `Settles` are about the loop that takes the surplus off, `Tiles` is about
-- the first allocation, `Ends` about the main loop, with the lemmas of `Signs`, `Sums`, `Reshard` and
-- `Windows`, and `Whole` about the whole call.
mod Balance
mod Move
mod Loop
mod Alloc
pub mod Lower
pub mod Settles
pub mod Tiles
mod Signs
mod Sums
mod Reshard
pub mod Windows
pub mod Ends
pub mod Whole
unfoldable pub use Balance.*
unfoldable pub use Move.*
unfoldable pub use Loop.*
unfoldable pub use Alloc.*
