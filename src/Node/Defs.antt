-- ===== src/Node/Defs.antt =====
-- The record `Node` of pkg/redisutil/node.go and the methods of one node.
use k8s_cluster.Base.{
  ℕ, Bool, true, false, ◌&&◌, List, [], ◌∷◌, ◌++◌, ltb, ◌==◌, if◌then◌else◌, Text, codes, text_eq,
  length, any,
}
use k8s_cluster.Base.Int.{ℤ, pos}
use k8s_cluster.Slot.{Slot}
use k8s_cluster.Slot.Codec.{split}

-- The port of a node is text; times are numbers, 0 for the zero time.
pub record Node : Type 0 where
  pub id : Text
  pub ip : Text
  pub port : Text
  pub role : Text
  pub link_state : Text
  pub master_referent : Text
  pub fail_status : List Text
  pub ping_sent : ℤ
  pub pong_recv : ℤ
  pub config_epoch : ℤ
  pub slots : List Slot
  pub balance : ℤ
  pub migrating_slots : List (Slot × Text)
  pub importing_slots : List (Slot × Text)
  pub server_start_time : ℕ
  pub node_name : Text
  pub pod_name : Text
  pub stateful_set : Text

-- `RedisRole` of pkg/apis/redis/v1alpha1/constants.go; `unset` is the empty string.
pub data RedisRole : Type 0 where
  master slave none unset : RedisRole

abbrev pub default_redis_port : Text
default_redis_port = codes "6379"

abbrev pub redis_master_role : Text
redis_master_role = codes "master"

abbrev pub redis_slave_role : Text
redis_slave_role = codes "slave"

abbrev pub link_state_connected : Text
link_state_connected = codes "connected"

abbrev pub link_state_disconnected : Text
link_state_disconnected = codes "disconnected"

abbrev pub node_status_pfail : Text
node_status_pfail = codes "fail?"

abbrev pub node_status_fail : Text
node_status_fail = codes "fail"

abbrev pub node_status_handshake : Text
node_status_handshake = codes "handshake"

abbrev pub node_status_no_addr : Text
node_status_no_addr = codes "noaddr"

abbrev pub node_status_no_flags : Text
node_status_no_flags = codes "noflags"

abbrev pub new_default_node : Node
new_default_node = record {
  id = [];
  ip = [];
  port = default_redis_port;
  role = [];
  link_state = [];
  master_referent = [];
  fail_status = [];
  ping_sent = pos 0;
  pong_recv = pos 0;
  config_epoch = pos 0;
  slots = [];
  balance = pos 0;
  migrating_slots = [];
  importing_slots = [];
  server_start_time = 0;
  node_name = [];
  pod_name = [];
  stateful_set = [];
}

-- A pod is given by its name and the name of the machine that it runs on.
unfoldable pub new_node : Text → Text → Text → Text → Node
new_node id ip pod_name node_name = record new_default_node {
  id = id;
  ip = ip;
  pod_name = pod_name;
  node_name = node_name;
}

-- The loop of `SetRole`: the last role among the flags counts.
unfoldable pub role_of_flags : Text → List Text → Text
role_of_flags role [] = role
role_of_flags role (val ∷ vals) =
    role_of_flags
      (if text_eq val redis_master_role
        then redis_master_role
        else if text_eq val redis_slave_role
        then redis_slave_role
        else role)
      vals

-- The second component is false where the source returns an error.
unfoldable pub set_role : Node → Text → Node × Bool
unfolding role_of_flags split
set_role n flags =
    let role = role_of_flags [] (split b',' flags) in
    (record n { role = role }, if text_eq role [] then false else true)

unfoldable pub get_role : Node → RedisRole
get_role n =
    if text_eq n.role redis_master_role
    then master
    else if text_eq n.role redis_slave_role
    then slave
    else if text_eq n.master_referent []
    then (if ltb 0 (length n.slots) then master else none)
    else slave

-- `net.JoinHostPort`: brackets round a host with a colon.
unfoldable pub join_host_port : Text → Text → Text
join_host_port host port =
    if any (λ c. c == b':') host
    then b'[' ∷ (host ++ (b']' ∷ b':' ∷ port))
    else host ++ (b':' ∷ port)

unfoldable pub ip_port : Node → Text
unfolding join_host_port
ip_port n = join_host_port n.ip n.port

unfoldable pub set_balance : Node → ℤ → Node
set_balance n balance = record n { balance = balance }

unfoldable pub set_link_status : Node → Text → Node × Bool
set_link_status n status =
    if text_eq status link_state_connected
    then (record n { link_state = link_state_connected }, true)
    else if text_eq status link_state_disconnected
    then (record n { link_state = link_state_disconnected }, true)
    else (record n { link_state = [] }, false)

-- The `switch` of `SetFailureStatus`: the flags that are kept.
unfoldable pub is_failure_flag : Text → Bool
is_failure_flag val =
    if text_eq val node_status_fail
    then true
    else if text_eq val node_status_pfail
    then true
    else if text_eq val node_status_handshake
    then true
    else if text_eq val node_status_no_addr
    then true
    else text_eq val node_status_no_flags

unfoldable pub failure_flags : List Text → List Text
unfolding is_failure_flag
failure_flags [] = []
failure_flags (val ∷ vals) =
    if is_failure_flag val then val ∷ failure_flags vals else failure_flags vals

unfoldable pub set_failure_status : Node → Text → Node
unfolding failure_flags split
set_failure_status n flags = record n { fail_status = failure_flags (split b',' flags) }

unfoldable pub set_referent_master : Node → Text → Node
set_referent_master n ref =
    if text_eq ref (codes "-")
    then record n { master_referent = [] }
    else record n { master_referent = ref }

unfoldable pub total_slots : Node → ℕ
total_slots n = length n.slots

unfoldable pub has_status : Node → Text → Bool
has_status n flag = any (λ status. text_eq status flag) n.fail_status

abbrev is_role : RedisRole → RedisRole → Bool
is_role master master = true
is_role slave slave = true
is_role none none = true
is_role _ _ = false

unfoldable pub is_master : Node → Bool
unfolding get_role
is_master n = is_role (get_role n) master

unfoldable pub is_master_with_no_slot : Node → Bool
unfolding is_master total_slots
is_master_with_no_slot n = is_master n && total_slots n == 0

unfoldable pub is_master_with_slot : Node → Bool
unfolding is_master total_slots
is_master_with_slot n = is_master n && ltb 0 (total_slots n)

unfoldable pub is_slave : Node → Bool
unfolding get_role
is_slave n = is_role (get_role n) slave

-- `ToAPINode`: the node as pkg/apis/redis/v1alpha1 stores it.
pub record RedisClusterNode : Type 0 where
  pub id : Text
  pub role : RedisRole
  pub ip : Text
  pub port : Text
  pub slots : List Text
  pub master_ref : Text
  pub pod_name : Text
  pub node_name : Text
  pub stateful_set : Text

unfoldable pub to_api_node : Node → RedisClusterNode
unfolding get_role
to_api_node n = record {
  id = n.id;
  role = get_role n;
  ip = n.ip;
  port = [];
  slots = [];
  master_ref = [];
  pod_name = n.pod_name;
  node_name = [];
  stateful_set = [];
}
