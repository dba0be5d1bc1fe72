-- ===== src/Heal.antt =====
-- Healing of a cluster: 23-redis-cluster-operator-0.2.3/pkg/controller/heal, with the order of the
-- steps from pkg/controller/manager/healer.go. `Infos` has what the nodes report, `Split` the
-- repair of a split cluster, `Forget` failed and untrusted nodes, `Terminating` stuck pods.
mod Infos
mod Split
mod Forget
mod Terminating
pub mod SplitLaws
pub mod ForgetLaws
unfoldable pub use Infos.*
unfoldable pub use Split.*
unfoldable pub use Forget.*
unfoldable pub use Terminating.*
