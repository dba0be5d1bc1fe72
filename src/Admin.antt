-- ===== src/Admin.antt =====
-- The interface `IAdmin` of 23-redis-cluster-operator-0.2.3/pkg/redisutil/admin.go, as the
-- controllers use it: commands that Redis answers, and the calls to Kubernetes. What they answer is not in the repository, so
-- an oracle decides it from all the commands sent so far; statements hold for every oracle.
use k8s_cluster.Base.{Bool, List, Text, [], false, true, ◌++◌, ◌∷◌}
use k8s_cluster.Slot.{Slot}

-- The second argument of CLUSTER SETSLOT that the controllers use.
pub data Action : Type 0 where
  importing migrating node : Action

-- A call of a method of `IAdmin` that changes something, or of the controllers' interfaces to
-- Kubernetes that the reconciliation makes.
pub data Command : Type 0 where
  add_slots : (addr : Text) (slots : List Slot) → Command
  set_slots : (addr : Text) (action : Action) (slots : List Slot) (node_id : Text) → Command
  set_slot : (addr : Text) (action : Action) (slot : Slot) (node_id : Text) → Command
  migrate_keys : (addr dest_id : Text) (slots : List Slot) → Command
  migrate_keys_in_slot : (addr dest_id : Text) (slot : Slot) → Command
  attach_slave_to_master : (addr master_id : Text) → Command
  attach_node_to_cluster : (addr : Text) → Command
  forget_node : (id : Text) → Command
  flush_and_reset : (addr : Text) → Command
  delete_pod : (name : Text) → Command
  replace_connections : (addrs : List Text) → Command
  remove_connection : (addr : Text) → Command
  get_cluster_infos : Command
  set_config : Command
  get_stateful_set : (name : Text) → Command
  create_stateful_set : (name : Text) → Command
  update_stateful_set : (name : Text) → Command
  delete_stateful_set : (name : Text) → Command
  list_stateful_sets : Command
  list_pods : (stateful_set : Text) → Command
  get_service : (name : Text) → Command
  create_service : (name : Text) → Command
  delete_service : (name : Text) → Command
  get_pod_disruption_budget : (name : Text) → Command
  create_pod_disruption_budget : (name : Text) → Command
  delete_pod_disruption_budget : (name : Text) → Command
  delete_pvcs : (stateful_set : Text) → Command
  get_config_map : (name : Text) → Command
  create_config_map : (name : Text) → Command
  update_config_map : (name : Text) → Command
  create_secret : Command
  exec_in_pods : (script : Text) → Command
  reset_password : (password : Text) → Command
  get_cluster : Command
  get_backup : (namespace name : Text) → Command
  get_secret : (name : Text) → Command
  update_status : (status reason : Text) → Command
  update_cr : Command

-- The commands sent so far, the first one first.
abbrev pub Log : Type 0
Log = List Command

-- Whether the last command of a log succeeds.
abbrev pub Oracle : Type 0
Oracle = Log → Bool

-- Sends a command: whether there is no error, and the new log.
abbrev pub send : Oracle → Command → Log → Bool × Log
send o c log = (o (log ++ c ∷ []), log ++ c ∷ [])

-- Every command succeeds.
abbrev pub always : Oracle
always log = true

-- No command succeeds.
abbrev pub never : Oracle
never log = false
