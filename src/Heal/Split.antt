-- ===== src/Heal/Split.antt =====
-- FixClusterSplit of pkg/controller/heal/clustersplit.go.
use k8s_cluster.Base.{
  Bool, List, Option, Text, [], false, if◌then◌else◌, length, ltb, none, some, suc, text_eq, true,
  zero, ℕ, ◌&&◌, ◌++◌, ◌+◌, ◌==◌, ◌∷◌,
}
use k8s_cluster.Node.{Nodes, Heap, ip_port}
use k8s_cluster.Admin.{Command, Log, Oracle, send}
use k8s_cluster.Heal.Infos.{NodeInfos, ClusterInfos}

-- A cluster is the list of its nodes' addresses.
abbrev pub Addrs : Type 0
Addrs = List Text

unfoldable pub find_in : Text → Addrs → Bool
find_in addr [] = false
find_in addr (a ∷ addrs) = if text_eq addr a then true else find_in addr addrs

unfoldable pub find_in_cluster : Text → List Addrs → Bool
unfolding find_in
find_in_cluster addr [] = false
find_in_cluster addr (c ∷ clusters) = if find_in addr c then true else find_in_cluster addr clusters

-- The addresses of the nodes that have not failed.
unfoldable pub live_addrs : Heap → Nodes → Addrs
unfolding ip_port
live_addrs h [] = []
live_addrs h (p ∷ nodes) =
    if length (h p).fail_status == 0 then ip_port (h p) ∷ live_addrs h nodes else live_addrs h nodes

unfoldable pub overlaps : Addrs → List Addrs → Bool
unfolding find_in_cluster
overlaps [] clusters = false
overlaps (a ∷ c) clusters = if find_in_cluster a clusters then true else overlaps c clusters

unfoldable pub build_clusters : Heap → List (Text × NodeInfos) → List Addrs → List Addrs
unfolding live_addrs overlaps
build_clusters h [] clusters = clusters
build_clusters h ((_, i) ∷ infos) clusters =
    let c = live_addrs h (i.friends ++ i.node ∷ []) in
    build_clusters h infos (if overlaps c clusters then clusters else clusters ++ c ∷ [])

unfoldable pub build_clusters_lists : Heap → ClusterInfos → List Addrs
unfolding build_clusters
build_clusters_lists h infos = build_clusters h infos.infos []

-- The index of the first largest cluster, from index `i` on, among those larger than `max_size`;
-- `found` is the answer so far.
unfoldable pub largest : ℕ → ℕ → Option ℕ → List Addrs → Option ℕ
largest i max_size found [] = found
largest i max_size found (c ∷ clusters) =
    largest (i + 1) (if ltb max_size (length c) then length c else max_size)
      (if ltb max_size (length c) then some i else found) clusters

abbrev pub nth : List Addrs → ℕ → Addrs
nth [] i = []
nth (c ∷ clusters) zero = c
nth (c ∷ clusters) (suc i) = nth clusters i

-- `append(clusters[:i], clusters[i+1:]...)`
unfoldable pub without : List Addrs → ℕ → List Addrs
without [] i = []
without (c ∷ clusters) zero = clusters
without (c ∷ clusters) (suc i) = c ∷ without clusters i

-- `main := clusters[maincluster]` copies the slice header before the append shifts the others.
unfoldable pub split_main_cluster : List Addrs → Addrs × List Addrs
unfolding largest without
split_main_cluster [] = ([], [])
split_main_cluster (c ∷ clusters) = elim (largest 0 0 none (c ∷ clusters)) [
  | none ↦ (c, [])
  | some i ↦ (nth (c ∷ clusters) i, without (c ∷ clusters) i)
]

-- For each node of a lost cluster: flush it, then attach it to the main cluster. The second
-- component is false if any command failed.
unfoldable pub reassign_nodes : Oracle → Addrs → Log × Bool → Log × Bool
reassign_nodes o [] st = st
reassign_nodes o (addr ∷ addrs) (log, fine) =
    let (flushed, log1) = send o (Command.flush_and_reset addr) log in
    let (attached, log2) = send o (Command.attach_node_to_cluster addr) log1 in
    reassign_nodes o addrs (log2, fine && flushed && attached)

unfoldable pub reassign_bad : Oracle → List Addrs → Log × Bool → Log × Bool
unfolding reassign_nodes
reassign_bad o [] st = st
reassign_bad o (c ∷ clusters) st = reassign_bad o clusters (reassign_nodes o c st)

unfoldable pub reassign_clusters : Oracle → List Addrs → Log → Log × Bool
unfolding split_main_cluster reassign_bad
reassign_clusters o clusters log =
    let (main, bad) = split_main_cluster clusters in
    if length main == 0
    then (log, false)
    else reassign_bad o bad (log ++ Command.replace_connections main ∷ [], true)

-- Whether something was to be done, the log, and whether there was no error.
pub record Healed : Type 0 where
  pub acted : Bool
  pub log : Log
  pub fine : Bool

unfoldable pub fix_cluster_split : Oracle → Bool → Heap → ClusterInfos → Log → Healed
unfolding build_clusters_lists reassign_clusters
fix_cluster_split o dry_run h infos log =
    let clusters = build_clusters_lists h infos in
    let (log', fine) = reassign_clusters o clusters log in
    if ltb 1 (length clusters)
    then (if dry_run
        then record { acted = true; log = log; fine = true }
        else record { acted = true; log = log'; fine = fine })
    else record { acted = false; log = log; fine = true }
