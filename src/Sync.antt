-- ===== src/Sync.antt =====
-- The reconciliation of a cluster: pkg/controller/distributedrediscluster, with what it calls of
-- pkg/controller/manager and pkg/apis/redis/v1alpha1/default.go.
-- `Errors` has the types of errors, `Objects` the resource and the objects, `Context` the calls and their composition,
-- `Defaults` the defaults and the start of a restore, `Ensurer` and `ConfigMap` the Kubernetes objects,
-- `Scaling` scalingDown, `Cluster` syncCluster, `Ensure` ensureCluster and the waiting, `Report` the
-- status that is published, `Reconcile`
-- the whole. `Sends` and `Removal` are about the commands of scalingDown, `Created` about the
-- creation, and the other files about the restore's phases and the errors of Reconcile, which
-- `Outcomes` puts together.
mod Errors
mod Objects
mod Context
mod Defaults
mod Ensurer
mod ConfigMap
mod Scaling
mod Cluster
mod Ensure
mod Report
mod Reconcile
pub mod Sends
pub mod Removal
pub mod Created
pub mod Phases
pub mod Ends
mod Holds
mod Keeps
mod Restored
mod Ready
mod Ordered
pub mod Synced
mod Published
mod Operated
mod Advanced
pub mod Outcomes
unfoldable pub use Errors.*
unfoldable pub use Objects.*
unfoldable pub use Context.*
unfoldable pub use Defaults.*
unfoldable pub use Ensurer.*
unfoldable pub use ConfigMap.*
unfoldable pub use Scaling.*
unfoldable pub use Cluster.*
unfoldable pub use Ensure.*
unfoldable pub use Report.*
unfoldable pub use Reconcile.*
