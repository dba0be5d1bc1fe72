-- ===== src/Lib.antt =====
-- The Redis cluster operator of 23-redis-cluster-operator-0.2.3: a Kubernetes controller that keeps a
-- Redis cluster in the shape that a resource asks for. Paths below are relative to that directory.
--
-- Each round the operator reads what every Redis node reports, builds the nodes and the status of
-- the cluster from it, heals what is broken, chooses a master for each stateful set and slaves for
-- each master, and moves hash slots until the masters share them. Redis itself is reached through
-- the interface IAdmin.
--
-- Parts and files:
--   Base       Boolean tests, lists, integers, strings as bytes, association lists for Go maps, and
--              the sort of the standard library.
--   Slot       pkg/redisutil/slot.go: slots are uint64, so `word` is 2^64 and `next` wraps around.
--   Node       pkg/redisutil/node.go and cluster.go. Nodes are shared and mutated, so a `Nodes` is a
--              list of pointers into a heap; an assignment through a pointer is `write`.
--   Admin      the interface IAdmin of pkg/redisutil/admin.go. Each call that changes something is a
--              command appended to a log; an oracle, which is any function of the log, says whether
--              it succeeds. Statements hold for every oracle.
--   Connections pkg/redisutil/connections.go: the map of connections; the network is a function of its
--              events so far.
--   Migration  pkg/controller/clustering/migration.go: the plan that says which slot goes where, and
--              DispatchSlotToNewMasters, which carries it out command by command.
--   Placement  placement_v2.go and roles.go of the same directory (the context Ctx), and placement.go
--              (the older selection by machine that DispatchMasters uses).
--   Rebalance  rebalance.go: RebalancedCluster, computeReshardTable, moveSlot, AllocSlots.
--   Heal       pkg/controller/heal, with Heal of pkg/controller/manager/healer.go and what the
--              repairs read from pkg/redisutil/clusterinfo.go.
--   Status     pkg/controller/distributedrediscluster/status.go, pkg/utils/compare.go and
--              needClusterOperation of helper.go.
--   Sync       the rest of that directory: sync_handler.go, helper.go, errors.go and Reconcile of
--              distributedrediscluster_controller.go, with pkg/controller/manager (ensurer.go,
--              checker.go), DefaultSpec of pkg/apis/redis/v1alpha1/default.go and the text of
--              redis.conf. A call is a function from the world (nodes, log, resource) to a step that
--              returns, fails, panics or has run out of fuel; `Env` holds what comes from outside.
--   Backups    pkg/controller/redisclusterbackup: create and handleBackupJob, with the phases of a backup.
--              `Surroundings` holds what Kubernetes answers and whether getBackupJob fails.
--   Tests      runs on concrete data.
--
-- Heal, Placement, Migration and Rebalance share the heap of Node and the log of Admin. Functions have
-- the names of the source in lower case; an inner loop of the source is a function of its own.
--
-- Conventions. A Go map is an association list whose order stands for the order in which a range
-- meets the keys, which Go leaves open: statements hold for every list. Logging is left out. A nil
-- pointer is `none`; a panic is a result of its own (`panics`, `panicked`). What float64 computes is a
-- parameter (`Share`, `ends`) except for quotients of small numbers, which it computes exactly.
-- Loops over slices are structural. Three loops run on fuel: build_loop (its caller gives one round
-- more than there are slots), pick_loop (two rounds more than there are candidates) and lower_loop
-- (one test more than the total balance). balance_loop is on fuel too (one more than the masters),
-- and answers out_of_fuel where it has not ended. Waiting asks once for each second of its timeout.
-- connect has one unit of fuel for each reconnection within it, and different_loop one for each round.
--
-- Not modelled: the network client's pipeline, the contents of the Kubernetes objects and their
-- clients, labels, the job of a backup, the webhook, the reader of CLUSTER NODES, and PlaceSlaves of
-- placement.go, which nothing calls.
pub mod Base
pub mod Slot
pub mod Node
pub mod Admin
pub mod Connections
pub mod Migration
pub mod Placement
pub mod Rebalance
pub mod Heal
pub mod Status
pub mod Sync
pub mod Backups
pub mod Tests
