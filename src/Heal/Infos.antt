-- ===== src/Heal/Infos.antt =====
-- `NodeInfos` and `ClusterInfos` of pkg/redisutil/clusterinfo.go, with GetNodes, ComputeStatus
-- and the signature that it compares.
use k8s_cluster.Base.{
  Bool, List, Text, [], false, if◌then◌else◌, map, none, some, text_eq, true, ◌&&◌, ◌++◌, ◌==◌, ◌∷◌,
}
use k8s_cluster.Base.Assoc.{insert, lookup}
use k8s_cluster.Slot.{Slot}
use k8s_cluster.Node.{Ptr, Nodes, Heap, ip_port, sort_by_func, less_by_id, redis_master_role}

-- A node's view: itself, and the other nodes as it sees them.
pub record NodeInfos : Type 0 where
  pub node : Ptr
  pub friends : Nodes

pub data InfosStatus : Type 0 where
  unset partial inconsistent consistent : InfosStatus

pub record ClusterInfos : Type 0 where
  pub infos : List (Text × NodeInfos)
  pub status : InfosStatus

unfoldable pub get_nodes : ClusterInfos → Nodes
get_nodes c = map (λ e. e.1.node) c.infos

-- The slots of each master by address, `getConfigSignature`.
unfoldable pub config_signature : Heap → Nodes → List (Text × List Slot) → List (Text × List Slot)
unfolding ip_port insert
config_signature h [] m = m
config_signature h (p ∷ nodes) m =
    config_signature h nodes
      (if text_eq (h p).role redis_master_role then insert (ip_port (h p)) (h p).slots m else m)

unfoldable pub slots_eq : List Slot → List Slot → Bool
slots_eq [] [] = true
slots_eq (x ∷ xs) (y ∷ ys) = x == y && slots_eq xs ys
slots_eq _ _ = false

unfoldable pub slots_at : Text → List Slot → List (Text × List Slot) → Bool
unfolding slots_eq lookup
slots_at k slots m = elim (lookup k m) [ none ↦ false | some s ↦ slots_eq s slots ]

unfoldable pub within : List (Text × List Slot) → List (Text × List Slot) → Bool
unfolding slots_at
within [] m = true
within ((k, slots) ∷ l) m = slots_at k slots m && within l m

-- `reflect.DeepEqual` on two signatures: the same keys, with the same slots in the same order.
unfoldable pub signatures_eq : List (Text × List Slot) → List (Text × List Slot) → Bool
unfolding within
signatures_eq a b = within a b && within b a

abbrev pub view_of : Heap → NodeInfos → Nodes
view_of h i = sort_by_func h less_by_id (i.friends ++ i.node ∷ [])

unfoldable pub all_agree : Heap → List (Text × List Slot) → List (Text × NodeInfos) → Bool
unfolding config_signature signatures_eq sort_by_func less_by_id
all_agree h signature [] = true
all_agree h signature ((_, i) ∷ infos) =
    signatures_eq signature (config_signature h (view_of h i) []) && all_agree h signature infos

-- The new status, and the result.
unfoldable pub compute_status : Heap → ClusterInfos → ClusterInfos × Bool
unfolding all_agree get_nodes
compute_status h c = elim c.status [
  | InfosStatus.unset ↦
      if all_agree h (config_signature h (sort_by_func h less_by_id (get_nodes c)) []) c.infos
      then (record c { status = InfosStatus.consistent }, true)
      else (record c { status = InfosStatus.inconsistent }, false)
  | _ ↦ (c, false)
]
