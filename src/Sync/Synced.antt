-- ===== src/Sync/Synced.antt =====
-- waitForClusterJoin, scalingDown and syncCluster keep the restore's order, and none of their errors
-- is of a type that Reconcile passes over.
use k8s_cluster.Base.{
  Bool, List, Text, [], codes, false, length, ltb, refl, suc, true, zero, ℕ, ◌*◌, ◌+◌, ◌-◌, ◌∷◌,
}
use k8s_cluster.Base.Assoc.{slice_at}
use k8s_cluster.Node.{Heap, Nodes, ip_port}
use k8s_cluster.Admin.{Command}
use k8s_cluster.Placement.{cluster_stateful_set_name, cluster_headless_svc_name}
use k8s_cluster.Heal.{ClusterInfos, NodeInfos}
use k8s_cluster.Status.{set_cluster_rebalancing}
use k8s_cluster.Sync.Errors.{Error, ErrorType, wrap, new_error}
use k8s_cluster.Sync.Context.{pure, fail, ◌>>=◌, logged, ask_for, ask, update_cr_status}
use k8s_cluster.Sync.Objects.{Env}
use k8s_cluster.Sync.Scaling.{
  pods_terminated, remove_connections, disconnect_from, forget_nodes, try_all, deletions,
  delete_resources, remove_stateful_set, remove_from, scale_down_reason, scaling_down,
}
use k8s_cluster.Sync.Ensure.{
  get_cluster_infos, meet_first, joined, meet_and_look, wait_for_cluster_join,
}
use k8s_cluster.Sync.Phases.{Follows-same}
use k8s_cluster.Sync.Holds.{
  Holds-pure, Holds-fail, Holds-then, Holds-next, Holds-wrapped, Holds-ask_for, Holds-branch,
  Holds-ignoring, Holds-ask, Holds-set_status, Holds-update_cr_status, Holds-waiting,
}
use k8s_cluster.Sync.Ends.{Holds, Any}

-- An error type with which Reconcile returns the error: not one that asks for a quiet repetition or an end.
abbrev pub Loud : ErrorType → Type 0
Loud ErrorType.requeue = ⊥
Loud ErrorType.stop_retry = ⊥
Loud _ = Unit

abbrev pub IsLoud : Error → Type 0
IsLoud (Error.plain m) = Unit
IsLoud (Error.custom t m) = Loud t

-- An error that does not end the retries.
abbrev pub Repeats : ErrorType → Type 0
Repeats ErrorType.stop_retry = ⊥
Repeats _ = Unit

abbrev pub IsRepeated : Error → Type 0
IsRepeated (Error.plain m) = Unit
IsRepeated (Error.custom t m) = Repeats t

pub loud : (t : Text) → IsLoud (Error.plain t)
loud t = tt

plain-Any : (t : Text) → Any (Error.plain t)
plain-Any t = tt

pub get_cluster_infos-Holds : (P : Error → Type 0) (e : Env) → Holds P (get_cluster_infos e)
unfolding get_cluster_infos
get_cluster_infos-Holds P e = record { at = λ w. Follows-same w.instance }

meet_first-Holds :
    (e : Env) (infos : List (Text × NodeInfos)) → Holds IsRepeated (meet_first e infos)
unfolding meet_first wrap
meet_first-Holds e [] = record { at = λ w. tt }
meet_first-Holds e ((addr, i) ∷ infos) = record {
  at = λ w.
      (Holds-wrapped IsRepeated Any (λ err. wrap ErrorType.redis err (codes "AttachNodeToCluster"))
          (ask e (Command.attach_node_to_cluster (ip_port (w.heap i.node)))) (λ err k. tt)
          (Holds-ask Any e (Command.attach_node_to_cluster (ip_port (w.heap i.node))) plain-Any)).at
        w;
}

joined-Holds : (e : Env) (o : ClusterInfos × Bool) → Holds IsRepeated (joined e o)
joined-Holds e (infos, true) = Holds-pure IsRepeated tt
joined-Holds e (infos, false) = record { at = λ w. (Follows-same w.instance, tt) }

meet_and_look-Holds :
    (e : Env) (known : ClusterInfos) (o : ClusterInfos × Bool)
    → Holds IsRepeated (meet_and_look e known o)
unfolding meet_and_look
meet_and_look-Holds e known (infos, true) = Holds-pure IsRepeated tt
meet_and_look-Holds e known (infos, false) =
    Holds-next IsRepeated (meet_first e known.infos) (get_cluster_infos e >>= joined e)
      (meet_first-Holds e known.infos)
      (Holds-then IsRepeated (get_cluster_infos e) (joined e) (get_cluster_infos-Holds IsRepeated e)
        (joined-Holds e))

pub wait_for_cluster_join-Holds :
    (e : Env) (known : ClusterInfos) → Holds IsRepeated (wait_for_cluster_join e known)
unfolding wait_for_cluster_join
wait_for_cluster_join-Holds e known =
    Holds-then IsRepeated (get_cluster_infos e) (meet_and_look e known)
      (get_cluster_infos-Holds IsRepeated e) (meet_and_look-Holds e known)

-- The loops of scalingDown.
module _ (e : Env) (h : Heap) where
  remove_connections-Holds : (nodes : Nodes) → Holds IsLoud (remove_connections e h nodes)
  unfolding remove_connections
  remove_connections-Holds [] = Holds-pure IsLoud tt
  remove_connections-Holds (p ∷ nodes) = record {
    at = λ w.
        (remove_connections-Holds nodes).at (logged (Command.remove_connection (ip_port (h p))) w);
  }

  disconnect_from-Holds :
      (name : Text) (sets : List (Text × Nodes)) (first k : ℕ)
      → Holds IsLoud (disconnect_from e h name sets first k)
  unfolding disconnect_from
  disconnect_from-Holds name sets first zero = Holds-pure IsLoud tt
  disconnect_from-Holds name sets first (suc k) =
      Holds-next IsLoud _ _
        (remove_connections-Holds (slice_at (cluster_stateful_set_name name (first + k)) sets))
        (disconnect_from-Holds name sets first k)

  forget_nodes-Holds : (nodes : Nodes) → Holds IsLoud (forget_nodes e h nodes)
  unfolding forget_nodes wrap new_error
  forget_nodes-Holds [] = Holds-pure IsLoud tt
  forget_nodes-Holds (p ∷ nodes) =
      Holds-branch IsLoud (ltb 0 (length (h p).slots)) (fail _) _ (Holds-fail IsLoud _ tt) (
        Holds-next IsLoud _ _
          (Holds-wrapped IsLoud Any (λ err. wrap ErrorType.redis err (codes "ForgetNode"))
            (ask e (Command.forget_node (h p).id)) (λ err k. tt)
            (Holds-ask Any e (Command.forget_node (h p).id) plain-Any))
          (forget_nodes-Holds nodes))

  try_all-Holds : (cs : List Command) → Holds IsLoud (try_all e h cs)
  unfolding try_all
  try_all-Holds [] = Holds-pure IsLoud tt
  try_all-Holds (c ∷ cs) =
      Holds-next IsLoud _ _ (Holds-ignoring Any IsLoud (ask e c) (Holds-ask Any e c plain-Any))
        (try_all-Holds cs)

  pods_terminated-Holds : (sts : Text) → Holds Any (pods_terminated e sts)
  unfolding pods_terminated
  pods_terminated-Holds sts =
      Holds-then Any (ask_for e e.pods_running (Command.list_pods sts)) _
        (Holds-ask_for Any e e.pods_running (Command.list_pods sts) plain-Any)
        (λ pods. Holds-branch Any _ (fail _) (pure tt) (Holds-fail Any _ tt) (Holds-pure Any tt))

  remove_stateful_set-Holds :
      (name : Text) (sets : List (Text × Nodes)) (replicas i : ℕ)
      → Holds IsLoud (remove_stateful_set e h name sets replicas i)
  unfolding remove_stateful_set delete_resources wrap
  remove_stateful_set-Holds name sets replicas i =
      let sts = cluster_stateful_set_name name i in
      Holds-next IsLoud _ _
        (Holds-wrapped IsLoud Any (λ err. wrap ErrorType.kubernetes err (codes "GetStatefulSet"))
          (ask e (Command.get_stateful_set sts)) (λ err k. tt)
          (Holds-ask Any e (Command.get_stateful_set sts) plain-Any))
        (Holds-next IsLoud _ _ (forget_nodes-Holds (slice_at sts sets)) (
          Holds-next IsLoud _ _
            (try_all-Holds (deletions e h sts (cluster_headless_svc_name name i)))
            (Holds-ignoring Any IsLoud _ (
              Holds-waiting Any (codes "waitPodTerminating") (30 * (replicas + 2))
                (pods_terminated e sts) plain-Any (pods_terminated-Holds sts)))))

  remove_from-Holds :
      (name : Text) (sets : List (Text × Nodes)) (replicas first k : ℕ)
      → Holds IsLoud (remove_from e h name sets replicas first k)
  unfolding remove_from
  remove_from-Holds name sets replicas first zero = Holds-pure IsLoud tt
  remove_from-Holds name sets replicas first (suc k) =
      Holds-next IsLoud _ _ (remove_stateful_set-Holds name sets replicas (first + k))
        (remove_from-Holds name sets replicas first k)

pub scaling_down-Holds :
    (e : Env) (current : ℕ) (sets : List (Text × Nodes))
    → Holds IsLoud (scaling_down e current sets)
unfolding scaling_down
scaling_down-Holds e current sets = record {
  at = λ w.
      let c = w.instance in
      let k = current - c.master_size in
      (Holds-next IsLoud _ _
          (Holds-next IsLoud _ _
            (Holds-next IsLoud _ _
              (Holds-set_status IsLoud
                (λ s. set_cluster_rebalancing s (scale_down_reason current c.master_size))
                (λ s. refl))
              (Holds-ignoring Any IsLoud (update_cr_status e)
                (Holds-update_cr_status Any e plain-Any)))
            (disconnect_from-Holds e w.heap c.name sets c.master_size k))
          (remove_from-Holds e w.heap c.name sets c.cluster_replicas c.master_size k)).at
        w;
}
