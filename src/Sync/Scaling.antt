-- ===== src/Sync/Scaling.antt =====
-- scalingDown of pkg/controller/distributedrediscluster/sync_handler.go, and the waiting of helper.go.
use k8s_cluster.Base.{
  List, Text, [], codes, if◌then◌else◌, length, ltb, not, suc, zero, ℕ, ◌*◌, ◌++◌, ◌+◌, ◌-◌, ◌==◌,
  ◌∷◌, any,
}
use k8s_cluster.Base.Assoc.{slice_at}
use k8s_cluster.Slot.Codec.{format_uint}
use k8s_cluster.Node.{Nodes, Heap, ip_port}
use k8s_cluster.Admin.{Command}
use k8s_cluster.Placement.{cluster_stateful_set_name, cluster_headless_svc_name}
use k8s_cluster.Status.{set_cluster_rebalancing}
use k8s_cluster.Sync.Errors.{Error, ErrorType, wrap, new_error}
use k8s_cluster.Sync.Context.{
  Act, pure, fail, ◌>>=◌, ◌>>◌, wrapped, ignoring, ask, ask_for, set_status, update_cr_status,
  waiting, returns,
}
use k8s_cluster.Sync.Objects.{Env}

-- The handler of `waitPodTerminating`: no pod of the stateful set runs.
unfoldable pub pods_terminated : Env → Text → Act Unit
unfolding ask_for
pods_terminated e sts_name = do
  pods ← ask_for e e.pods_running (Command.list_pods sts_name)
  if any (λ runs. runs) pods then fail (Error.plain (codes "pod still runing")) else pure tt

-- The handler of `waitStatefulSetUpdating`: a stateful set without all its replicas has been seen.
unfoldable pub stateful_sets_updating : Env → ℕ → Act Unit
unfolding ask_for
stateful_sets_updating e cluster_replicas = do
  sets ← ask_for e e.ready_replicas Command.list_stateful_sets
  (if any (λ ready. not (ready == cluster_replicas + 1)) sets
      then pure tt
      else fail (Error.plain (codes "statefulSet still not updated")))

module _ (e : Env) (h : Heap) where
  unfoldable pub remove_connections : Nodes → Act Unit
  unfolding ip_port
  remove_connections [] w = returns tt w
  remove_connections (p ∷ nodes) w =
      remove_connections nodes
        (record w { log = w.log ++ Command.remove_connection (ip_port (h p)) ∷ [] })

  -- The first loop, from stateful set `first + k - 1` down to `first`.
  unfoldable pub disconnect_from : Text → List (Text × Nodes) → ℕ → ℕ → Act Unit
  unfolding remove_connections slice_at cluster_stateful_set_name
  disconnect_from name sets first zero = pure tt
  disconnect_from name sets first (suc k) =
      remove_connections (slice_at (cluster_stateful_set_name name (first + k)) sets)
      >> disconnect_from name sets first k

  -- The nodes of one stateful set: one with slots ends the round.
  unfoldable pub forget_nodes : Nodes → Act Unit
  unfolding ask wrap new_error
  forget_nodes [] = pure tt
  forget_nodes (p ∷ nodes) =
      let rest = forget_nodes nodes in
      if ltb 0 (length (h p).slots)
      then fail
          (new_error ErrorType.redis (codes "node is not empty! Reshard data away and try again"))
      else wrapped (λ err. wrap ErrorType.redis err (codes "ForgetNode"))
          (ask e (Command.forget_node (h p).id))
        >> rest

  -- Calls one after the other, whose errors are only logged.
  unfoldable pub try_all : List Command → Act Unit
  unfolding ask
  try_all [] = pure tt
  try_all (c ∷ cs) = ignoring (ask e c) >> try_all cs

  -- What is deleted with a stateful set. The claims go by its labels, which its name stands for here.
  abbrev pub deletions : Text → Text → List Command
  deletions sts_name svc_name =
      Command.delete_stateful_set sts_name
      ∷ Command.delete_service svc_name
      ∷ Command.delete_pod_disruption_budget sts_name
      ∷ Command.delete_pvcs sts_name
      ∷ []

  unfoldable pub delete_resources : Text → Text → ℕ → Act Unit
  unfolding try_all waiting pods_terminated
  delete_resources sts_name svc_name cluster_replicas =
      try_all (deletions sts_name svc_name)
      >> ignoring (
          waiting (codes "waitPodTerminating") (30 * (cluster_replicas + 2))
            (pods_terminated e sts_name))

  unfoldable pub remove_stateful_set : Text → List (Text × Nodes) → ℕ → ℕ → Act Unit
  unfolding ask wrap forget_nodes delete_resources slice_at cluster_stateful_set_name
      cluster_headless_svc_name
  remove_stateful_set name sets cluster_replicas i = do
    wrapped (λ err. wrap ErrorType.kubernetes err (codes "GetStatefulSet"))
        (ask e (Command.get_stateful_set (cluster_stateful_set_name name i)))
    forget_nodes (slice_at (cluster_stateful_set_name name i) sets)
    delete_resources (cluster_stateful_set_name name i) (cluster_headless_svc_name name i)
        cluster_replicas

  -- The second loop.
  unfoldable pub remove_from : Text → List (Text × Nodes) → ℕ → ℕ → ℕ → Act Unit
  unfolding remove_stateful_set
  remove_from name sets cluster_replicas first zero = pure tt
  remove_from name sets cluster_replicas first (suc k) =
      remove_stateful_set name sets cluster_replicas (first + k)
      >> remove_from name sets cluster_replicas first k

abbrev pub scale_down_reason : ℕ → ℕ → Text
unfolding format_uint
scale_down_reason current expected =
    codes "scale down, currentMasterSize: "
    ++ (format_uint current ++ (codes ", expectMasterSize " ++ format_uint expected))

unfoldable pub scaling_down : Env → ℕ → List (Text × Nodes) → Act Unit
unfolding set_status set_cluster_rebalancing update_cr_status disconnect_from remove_from
scaling_down e current_master_num sets w =
    let c = w.instance in
    let k = current_master_num - c.master_size in
    (set_status
          (λ s. set_cluster_rebalancing s (scale_down_reason current_master_num c.master_size))
        >> ignoring (update_cr_status e)
        >> disconnect_from e w.heap c.name sets c.master_size k
        >> remove_from e w.heap c.name sets c.cluster_replicas c.master_size k)
      w
