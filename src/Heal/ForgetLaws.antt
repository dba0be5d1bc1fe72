-- ===== src/Heal/ForgetLaws.antt =====
-- The list of ghost nodes, and the commands of FixFailedNodes and FixTerminatingPods.
use k8s_cluster.Base.{
  Bool, codes, ◌||◌, Bool-cases, List, Text, [], ap, arith, false, if◌then◌else◌, inl, inr, none,
  not, refl, some, sym, text_eq, true, ℕ, ◌&&◌, ◌++◌, ◌∙◌, ◌∷◌, ◌≡◌, any,
}
use k8s_cluster.Base.Assoc.{lookup, insert, lookup-insert}
use k8s_cluster.Node.{Node, has_status, Ptr, Nodes, Heap, RedisClusterNode}
use k8s_cluster.Admin.{Command, Log, Oracle}
use k8s_cluster.Heal.{
  NodeInfos, ClusterInfos, Healed, Pod, untouched, is_known, is_ghost, ghosts_among, ghosts_of,
  list_ghost_nodes, is_overdue, forget_loop, fix_failed_nodes, terminating_loop,
  fix_terminating_pods,
}

-- One of the node's failure flags is `flag`.
abbrev flagged : Text → Node → Bool
flagged flag n = any (λ s. text_eq s flag) n.fail_status

-- The node has no address, or it failed, perhaps, and no node of the status has its ID.
abbrev pub is_lost : List RedisClusterNode → Node → Bool
is_lost status_nodes n =
    flagged (codes "noaddr") n
    || (flagged (codes "fail") n || flagged (codes "fail?") n)
      && not (any (λ s. text_eq s.id n.id) status_nodes)

is_known-any :
    (status_nodes : List RedisClusterNode) (id : Text)
    → is_known status_nodes id ≡ any (λ s. text_eq s.id id) status_nodes
unfolding is_known
is_known-any [] id = refl
is_known-any (s ∷ status_nodes) id = rw (is_known-any status_nodes id) refl

is_ghost-is_lost :
    (status_nodes : List RedisClusterNode) (n : Node)
    → is_ghost status_nodes n ≡ is_lost status_nodes n
unfolding is_ghost has_status
is_ghost-is_lost status_nodes n = rw (is_known-any status_nodes n.id) refl

-- The node is lost and has the ID.
abbrev pub ghost_with : Heap → List RedisClusterNode → Text → Ptr → Bool
ghost_with h status_nodes id p = is_lost status_nodes (h p) && text_eq (h p).id id

ghosts_among-lookup :
    (h : Heap) (status_nodes : List RedisClusterNode) (id : Text) (friends : Nodes)
    (m : List (Text × Bool))
    → lookup id (ghosts_among h status_nodes friends m)
      ≡ (if any (ghost_with h status_nodes id) friends then some true else lookup id m)
unfolding ghosts_among
ghosts_among-lookup h status_nodes id [] m = refl
ghosts_among-lookup h status_nodes id (p ∷ friends) m =
    elim (Bool-cases (is_lost status_nodes (h p))) [
      | inl g ↦
          rw
            (
              is_ghost-is_lost status_nodes (h p),
              g,
              ghosts_among-lookup h status_nodes id friends (insert (h p).id true m),
              lookup-insert (h p).id id true m,
            )
            (ground arith)
      | inr g ↦
          rw
            (
              is_ghost-is_lost status_nodes (h p),
              g,
              ghosts_among-lookup h status_nodes id friends m,
            )
            refl
    ]

-- Some node of the views is lost and has the ID.
abbrev pub reported : Heap → List RedisClusterNode → Text → List (Text × NodeInfos) → Bool
reported h status_nodes id infos = any (λ e. any (ghost_with h status_nodes id) e.1.friends) infos

ghosts_of-lookup :
    (h : Heap) (status_nodes : List RedisClusterNode) (id : Text) (infos : List (Text × NodeInfos))
    (m : List (Text × Bool))
    → lookup id (ghosts_of h status_nodes infos m)
      ≡ (if reported h status_nodes id infos then some true else lookup id m)
unfolding ghosts_of
ghosts_of-lookup h status_nodes id [] m = refl
ghosts_of-lookup h status_nodes id ((a, i) ∷ infos) m =
    rw
      (
        ghosts_of-lookup h status_nodes id infos (ghosts_among h status_nodes i.friends m),
        ghosts_among-lookup h status_nodes id i.friends m,
      )
      (ground arith)

-- `listGhostNodes` holds an ID exactly when some node's view has a node with that ID that has
-- the flag noaddr, or the flag fail or fail? while no node of the cluster's status has its ID.
pub list_ghost_nodes-lookup :
    (h : Heap) (status_nodes : List RedisClusterNode) (infos : ClusterInfos) (id : Text)
    → lookup id (list_ghost_nodes h status_nodes infos)
      ≡ (if reported h status_nodes id infos.infos then some true else none)
unfolding list_ghost_nodes lookup
list_ghost_nodes-lookup h status_nodes infos id = ghosts_of-lookup h status_nodes id infos.infos []

abbrev pub forgets : List (Text × Bool) → Log
forgets [] = []
forgets ((id, _) ∷ m) = Command.forget_node id ∷ forgets m

forget_loop-dry :
    (o : Oracle) (m : List (Text × Bool)) (st : Healed) → (forget_loop o true m st).log ≡ st.log
unfolding forget_loop
forget_loop-dry o [] st = refl
forget_loop-dry o (e ∷ m) st = forget_loop-dry o m (record st { acted = true })

append_assoc : (xs ys zs : Log) → (xs ++ ys) ++ zs ≡ xs ++ (ys ++ zs)
append_assoc [] ys zs = refl
append_assoc (x ∷ xs) ys zs = ap (λ l. x ∷ l) (append_assoc xs ys zs)

append_empty : (xs : Log) → xs ++ [] ≡ xs
append_empty [] = refl
append_empty (x ∷ xs) = ap (λ l. x ∷ l) (append_empty xs)

forget_loop-log :
    (o : Oracle) (m : List (Text × Bool)) (st : Healed)
    → (forget_loop o false m st).log ≡ st.log ++ forgets m
unfolding forget_loop
forget_loop-log o [] st = sym (append_empty st.log)
forget_loop-log o ((id, b) ∷ m) st =
    forget_loop-log o m _ ∙ append_assoc st.log (Command.forget_node id ∷ []) (forgets m)

-- `FixFailedNodes` sends FORGET once for each ghost in the list, whether or not a call before it
-- failed, and nothing in a dry run.
pub fix_failed_nodes-log :
    (o : Oracle) (dry_run : Bool) (h : Heap) (status_nodes : List RedisClusterNode)
    (infos : ClusterInfos) (log : Log)
    → (fix_failed_nodes o dry_run h status_nodes infos log).log
      ≡ (if dry_run then log else log ++ forgets (list_ghost_nodes h status_nodes infos))
unfolding fix_failed_nodes
fix_failed_nodes-log o true h status_nodes infos log =
    forget_loop-dry o (list_ghost_nodes h status_nodes infos) (untouched log)
fix_failed_nodes-log o false h status_nodes infos log =
    forget_loop-log o (list_ghost_nodes h status_nodes infos) (untouched log)

forget_loop-acted :
    (o : Oracle) (dry_run : Bool) (m : List (Text × Bool)) (st : Healed)
    → st.acted ≡ true
    → (forget_loop o dry_run m st).acted ≡ true
unfolding forget_loop
forget_loop-acted o dry_run [] st e = e
forget_loop-acted o true (x ∷ m) st e = forget_loop-acted o true m _ refl
forget_loop-acted o false (x ∷ m) st e = forget_loop-acted o false m _ refl

abbrev pub is_empty : List (Text × Bool) → Bool
is_empty [] = true
is_empty (x ∷ m) = false

forget_loop-untouched :
    (o : Oracle) (dry_run : Bool) (m : List (Text × Bool)) (log : Log)
    → (forget_loop o dry_run m (untouched log)).acted ≡ not (is_empty m)
unfolding forget_loop
forget_loop-untouched o dry_run [] log = refl
forget_loop-untouched o true (x ∷ m) log = forget_loop-acted o true m _ refl
forget_loop-untouched o false (x ∷ m) log = forget_loop-acted o false m _ refl

-- `FixFailedNodes` reports an action exactly when there is a ghost.
pub fix_failed_nodes-acted :
    (o : Oracle) (dry_run : Bool) (h : Heap) (status_nodes : List RedisClusterNode)
    (infos : ClusterInfos) (log : Log)
    → (fix_failed_nodes o dry_run h status_nodes infos log).acted
      ≡ not (is_empty (list_ghost_nodes h status_nodes infos))
unfolding fix_failed_nodes
fix_failed_nodes-acted o dry_run h status_nodes infos log =
    forget_loop-untouched o dry_run (list_ghost_nodes h status_nodes infos) log

terminating_loop-dry :
    (o : Oracle) (now max_duration : ℕ) (pods : List Pod) (st : Healed)
    → (terminating_loop o true now max_duration pods st).log ≡ st.log
unfolding terminating_loop
terminating_loop-dry o now max_duration [] st = refl
terminating_loop-dry o now max_duration (pod ∷ pods) st =
    elim (Bool-cases (is_overdue now max_duration pod)) [
      | inl y ↦
          rw (y, terminating_loop)
            (terminating_loop-dry o now max_duration pods (record st { acted = true }))
      | inr n ↦ rw (n, terminating_loop) (terminating_loop-dry o now max_duration pods st)
    ]

-- A dry run of `FixTerminatingPods` deletes no pod.
pub fix_terminating_pods-dry :
    (o : Oracle) (now : ℕ) (pods : List Pod) (max_duration : ℕ) (log : Log)
    → (fix_terminating_pods o true now pods max_duration log).log ≡ log
unfolding fix_terminating_pods
fix_terminating_pods-dry o now pods max_duration log =
    ground (arith, terminating_loop-dry o now max_duration pods (untouched log))
