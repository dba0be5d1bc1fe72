-- ===== src/Heal/Forget.antt =====
-- FixFailedNodes and FixUntrustedNodes of pkg/controller/heal, and `Heal` of
-- pkg/controller/manager/healer.go.
use k8s_cluster.Base.{
  Bool, List, Option, Text, [], false, if◌then◌else◌, none, not, some, text_eq, true, ℕ, ◌&&◌, ◌||◌,
  ◌∷◌,
}
use k8s_cluster.Base.Assoc.{insert, lookup}
use k8s_cluster.Node.{
  Node, Ptr, Nodes, Heap, RedisClusterNode, has_status, get_nodes_by_func, node_status_no_addr,
  node_status_fail, node_status_pfail, node_status_handshake,
}
use k8s_cluster.Admin.{Command, Log, Oracle, send}
use k8s_cluster.Heal.Infos.{NodeInfos, ClusterInfos, get_nodes}
use k8s_cluster.Heal.Split.{Healed}

-- A pod, as far as the repairs look at it. `deletion_timestamp` is in seconds.
pub record Pod : Type 0 where
  pub name : Text
  pub pod_ip : Text
  pub deletion_timestamp : Option ℕ

unfoldable pub is_known : List RedisClusterNode → Text → Bool
is_known [] id = false
is_known (n ∷ nodes) id = if text_eq n.id id then true else is_known nodes id

-- The two tests of `listGhostNodes`.
unfoldable pub is_ghost : List RedisClusterNode → Node → Bool
unfolding has_status is_known
is_ghost status_nodes n =
    has_status n node_status_no_addr
    || (has_status n node_status_fail || has_status n node_status_pfail)
      && not (is_known status_nodes n.id)

-- The set of ghosts is a map with the value true; its keys are the IDs.
unfoldable pub ghosts_among :
    Heap → List RedisClusterNode → Nodes → List (Text × Bool) → List (Text × Bool)
unfolding is_ghost insert
ghosts_among h status_nodes [] m = m
ghosts_among h status_nodes (p ∷ friends) m =
    ghosts_among h status_nodes friends
      (if is_ghost status_nodes (h p) then insert (h p).id true m else m)

unfoldable pub ghosts_of :
    Heap → List RedisClusterNode → List (Text × NodeInfos) → List (Text × Bool) → List (Text × Bool)
unfolding ghosts_among
ghosts_of h status_nodes [] m = m
ghosts_of h status_nodes ((_, i) ∷ infos) m =
    ghosts_of h status_nodes infos (ghosts_among h status_nodes i.friends m)

unfoldable pub list_ghost_nodes : Heap → List RedisClusterNode → ClusterInfos → List (Text × Bool)
unfolding ghosts_of
list_ghost_nodes h status_nodes infos = ghosts_of h status_nodes infos.infos []

unfoldable pub forget_loop : Oracle → Bool → List (Text × Bool) → Healed → Healed
forget_loop o dry_run [] st = st
forget_loop o dry_run ((id, _) ∷ m) st =
    let (success, log) = send o (Command.forget_node id) st.log in
    forget_loop o dry_run m (
      if dry_run
      then record st { acted = true }
      else record { acted = true; log = log; fine = st.fine && success })

abbrev pub untouched : Log → Healed
untouched log = record { acted = false; log = log; fine = true }

unfoldable pub fix_failed_nodes :
    Oracle → Bool → Heap → List RedisClusterNode → ClusterInfos → Log → Healed
unfolding list_ghost_nodes forget_loop
fix_failed_nodes o dry_run h status_nodes infos log =
    forget_loop o dry_run (list_ghost_nodes h status_nodes infos) (untouched log)

-- Nodes in handshake, by ID; the first one seen stays.
unfoldable pub untrusted_among : Heap → Nodes → List (Text × Ptr) → List (Text × Ptr)
unfolding has_status insert lookup
untrusted_among h [] m = m
untrusted_among h (p ∷ friends) m = untrusted_among h friends (
    if has_status (h p) node_status_handshake
    then elim (lookup (h p).id m) [ none ↦ insert (h p).id p m | some _ ↦ m ]
    else m)

unfoldable pub untrusted_of : Heap → List (Text × NodeInfos) → List (Text × Ptr) → List (Text × Ptr)
unfolding untrusted_among
untrusted_of h [] m = m
untrusted_of h ((_, i) ∷ infos) m = untrusted_of h infos (untrusted_among h i.friends m)

unfoldable pub list_untrusted_nodes : Heap → ClusterInfos → List (Text × Ptr)
unfolding untrusted_of
list_untrusted_nodes h infos = untrusted_of h infos.infos []

-- The loop of `checkIfPodNameExistAndIsReused`: whether the pod exists, and whether it is reused.
unfoldable pub pod_loop : Node → List Pod → Bool → Bool × Bool
pod_loop n [] exist = (exist, false)
pod_loop n (p ∷ pods) exist =
    let rest = pod_loop n pods (exist || text_eq p.name n.pod_name) in
    if text_eq p.name n.pod_name && text_eq p.pod_ip n.ip then (true, true) else rest

unfoldable pub check_if_pod_name_exist_and_is_reused : Node → List Pod → Bool × Bool
unfolding pod_loop
check_if_pod_name_exist_and_is_reused n pods =
    if text_eq n.pod_name [] then (false, false) else pod_loop n pods false

-- Another node of the cluster has the address of the untrusted one.
unfoldable pub ip_is_taken : Heap → ClusterInfos → Node → Bool
unfolding get_nodes_by_func get_nodes
ip_is_taken h infos u =
    elim (get_nodes_by_func h (λ n. text_eq n.ip u.ip && not (text_eq n.id u.id))
      (get_nodes infos)) [ none ↦ false | some _ ↦ true ]

-- The pod of an untrusted node is deleted, in a dry run too.
unfoldable pub delete_ghost_pod : Oracle → Node → List Pod → Healed → Healed
unfolding check_if_pod_name_exist_and_is_reused
delete_ghost_pod o u pods st =
    let (exist, reused) = check_if_pod_name_exist_and_is_reused u pods in
    let (success, log) = send o (Command.delete_pod u.pod_name) st.log in
    if exist && not reused
    then record { acted = true; log = log; fine = st.fine && success }
    else record st { acted = true }

unfoldable pub forget_untrusted : Oracle → Bool → Text → Healed → Healed
forget_untrusted o dry_run id st =
    let (success, log) = send o (Command.forget_node id) st.log in
    if dry_run then st else record { acted = st.acted; log = log; fine = st.fine && success }

unfoldable pub untrusted_loop :
    Oracle → Bool → Heap → ClusterInfos → List Pod → List (Text × Ptr) → Healed → Healed
unfolding ip_is_taken delete_ghost_pod forget_untrusted
untrusted_loop o dry_run h infos pods [] st = st
untrusted_loop o dry_run h infos pods ((id, p) ∷ m) st = untrusted_loop o dry_run h infos pods m (
    if ip_is_taken h infos (h p)
    then st
    else forget_untrusted o dry_run id (delete_ghost_pod o (h p) pods st))

unfoldable pub fix_untrusted_nodes : Oracle → Bool → Heap → ClusterInfos → List Pod → Log → Healed
unfolding list_untrusted_nodes untrusted_loop
fix_untrusted_nodes o dry_run h infos pods log =
    untrusted_loop o dry_run h infos pods (list_untrusted_nodes h infos) (untouched log)

-- `Heal`: untrusted nodes are looked at only if there were no failed ones.
unfoldable pub heal :
    Oracle → Bool → Heap → List RedisClusterNode → ClusterInfos → List Pod → Log → Healed
unfolding fix_failed_nodes fix_untrusted_nodes
heal o dry_run h status_nodes infos pods log =
    let failed = fix_failed_nodes o dry_run h status_nodes infos log in
    let untrusted = fix_untrusted_nodes o dry_run h infos pods failed.log in
    if not failed.fine then failed else if failed.acted then failed else untrusted
