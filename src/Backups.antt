-- ===== src/Backups.antt =====
-- The reconciliation of a backup: pkg/controller/redisclusterbackup. `Objects` has the resource and what
-- comes from outside, `Handling` the handler of a job, `Create` the method create, `Leaves` how a
-- phase may change, and `Turns` the theorems about the phases.
mod Objects
mod Handling
mod Create
pub mod Leaves
pub mod Turns
unfoldable pub use Objects.*
unfoldable pub use Handling.*
unfoldable pub use Create.*
