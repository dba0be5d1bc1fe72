-- ===== src/Placement/Attach.antt =====
-- AttachingSlavesToMaster of pkg/controller/clustering/roles.go, with AttachSlaveToMaster of
-- pkg/redisutil/admin.go.
use k8s_cluster.Base.{Bool, List, Text, [], false, if◌then◌else◌, none, some, ◌∷◌}
use k8s_cluster.Node.{
  Ptr, Nodes, Heap, Cluster, write, cluster_node_by_id, ip_port, set_referent_master, set_role,
  redis_slave_role,
}
use k8s_cluster.Admin.{Command, Log, Oracle, send}

-- The nodes, the log, and whether no call has failed so far.
pub record Attached : Type 0 where
  pub fine : Bool
  pub heap : Heap
  pub log : Log

-- The connection and the answer to REPLICATE are the oracle's; on success the node's record
-- becomes that of a slave.
unfoldable pub attach_slave_to_master : Oracle → Ptr → Text → Attached → Attached
unfolding set_referent_master set_role ip_port write
attach_slave_to_master o slave master_id st =
    let n = st.heap slave in
    let (success, log) = send o (Command.attach_slave_to_master (ip_port n) master_id) st.log in
    if success
    then record {
      fine = st.fine;
      heap = write st.heap slave (set_role (set_referent_master n master_id) redis_slave_role).0;
      log = log;
    }
    else record { fine = false; heap = st.heap; log = log }

unfoldable pub attach_slaves : Oracle → Text → Nodes → Attached → Attached
unfolding attach_slave_to_master
attach_slaves o master_id [] st = st
attach_slaves o master_id (slave ∷ slaves) st =
    attach_slaves o master_id slaves (attach_slave_to_master o slave master_id st)

-- The loop over `slavesByMaster`; a master that the cluster does not know is passed over.
unfoldable pub attaching_slaves_to_master :
    Oracle → Cluster → List (Text × Nodes) → Attached → Attached
unfolding attach_slaves cluster_node_by_id
attaching_slaves_to_master o c [] st = st
attaching_slaves_to_master o c ((master_id, slaves) ∷ m) st =
    attaching_slaves_to_master o c m (elim (cluster_node_by_id st.heap c master_id) [
      | none ↦ st
      | some p ↦ attach_slaves o (st.heap p).id slaves st
    ])
