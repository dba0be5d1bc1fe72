-- ===== src/Status/Tally.antt =====
-- What `buildClusterStatus` counts, described by the pods and their Redis nodes.
use k8s_cluster.Base.{
  Bool, List, Option, Text, [], arith, codes, false, filter_b, if◌then◌else◌, length, none, not,
  refl, some, text_eq, true, ℕ, ◌&&◌, ◌+◌, ◌==◌, ◌||◌, ◌∷◌, ◌≡◌,
}
use k8s_cluster.Node.{
  Node, Nodes, Heap, get_nodes_by_func, get_role, is_master, is_master_with_slot, is_slave,
  total_slots,
}
use k8s_cluster.Status.Build.{Pod}

-- A master with slots: its role is master, or it has no role, neither is a slave of some node.
abbrev pub is_serving : Node → Bool
is_serving n =
    not (length n.slots == 0)
    && (text_eq n.role (codes "master")
        || not (text_eq n.role (codes "slave")) && text_eq n.master_referent [])

-- A node that is a slave of the node with the ID `k`.
abbrev pub follows : Text → Node → Bool
follows k n =
    not (text_eq n.role (codes "master"))
    && not (text_eq n.master_referent [])
    && text_eq n.master_referent k

abbrev pub serves_as : Text → Node → Bool
serves_as k n = is_serving n && text_eq n.id k

-- There is exactly one node, and it passes the test.
abbrev pub sole : Heap → (Node → Bool) → Nodes → Bool
sole h f [] = false
sole h f (p ∷ []) = f (h p)
sole h f (p ∷ q ∷ ps) = false

-- The nodes with the pod's address.
abbrev pub nodes_at : Heap → Nodes → Pod → Nodes
nodes_at h nodes pod = filter_b (λ p. text_eq (h p).ip pod.pod_ip) nodes

abbrev pub one_if : Bool → ℕ
one_if b = if b then 1 else 0

-- How many pods have exactly one Redis node at their address, which passes the test.
abbrev pub tally : Heap → Nodes → (Node → Bool) → List Pod → ℕ
tally h nodes f [] = 0
tally h nodes f (pod ∷ pods) = one_if (sole h f (nodes_at h nodes pod)) + tally h nodes f pods

abbrev pub is_some : {A : Type 0} → Option A → Bool
is_some none = false
is_some (some a) = true

abbrev pub has_any : Nodes → Bool
has_any [] = false
has_any (p ∷ ps) = true

-- How many pods have a Redis node at their address.
abbrev pub reached : Heap → Nodes → List Pod → ℕ
reached h nodes [] = 0
reached h nodes (pod ∷ pods) = one_if (has_any (nodes_at h nodes pod)) + reached h nodes pods

abbrev pub of_list : Nodes → Option Nodes
of_list [] = none
of_list (p ∷ ps) = some (p ∷ ps)

pub get_nodes_by_func-of_list :
    (h : Heap) (f : Node → Bool) (nodes : Nodes)
    → get_nodes_by_func h f nodes ≡ of_list (filter_b (λ p. f (h p)) nodes)
unfolding get_nodes_by_func
get_nodes_by_func-of_list h f nodes = by_list (filter_b (λ p. f (h p)) nodes)
  where
    by_list :
        (l : Nodes)
        → elim l as (λ _. Option Nodes) [ [] ↦ none | p ∷ ps ↦ some (p ∷ ps) ] ≡ of_list l
    by_list [] = refl
    by_list (p ∷ ps) = refl

pub is_master_with_slot-is_serving : (n : Node) → is_master_with_slot n ≡ is_serving n
unfolding is_master_with_slot is_master get_role total_slots
is_master_with_slot-is_serving n = ground arith

pub is_slave-follows :
    (n : Node) (k : Text)
    → ((is_slave n && not (text_eq n.master_referent [])) && text_eq n.master_referent k)
      ≡ follows k n
unfolding is_slave get_role
is_slave-follows n k = ground arith
