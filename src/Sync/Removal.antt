-- ===== src/Sync/Removal.antt =====
-- What scalingDown removes.
use k8s_cluster.Status.{set_cluster_rebalancing, RedisClusterStatus}
use k8s_cluster.Base.{
  All, All-elem, Bool-cases, List, Text, [], arith, codes, elem, false, if◌then◌else◌, inl, inr,
  length, ltb, refl, suc, true, zero, ℕ, ◌*◌, ◌+◌, ◌-◌, ◌<◌, ◌∷◌, ◌≡◌, ◌≤◌, any,
}
use k8s_cluster.Base.Assoc.{slice_at}
use k8s_cluster.Node.{Nodes, Heap, Ptr, ip_port}
use k8s_cluster.Admin.{Command, Log}
use k8s_cluster.Placement.{cluster_stateful_set_name, cluster_headless_svc_name}
use k8s_cluster.Sync.Errors.{Error, ErrorType, wrap}
use k8s_cluster.Sync.Context.{
  World, Step, Act, pure, fail, ◌>>◌, wrapped, ignoring, ask_for, ask, set_status, update_cr_status,
  waiting,
}
use k8s_cluster.Sync.Objects.{Env}
use k8s_cluster.Sync.Scaling.{
  scale_down_reason, pods_terminated, remove_connections, disconnect_from, forget_nodes, try_all,
  deletions, delete_resources, remove_stateful_set, remove_from, scaling_down,
}
use k8s_cluster.Sync.Sends.{
  Sends, Grew-same, Grew-one, Sends-and_then, Sends-map_error, Sends-ask, Sends-after, Sends-and,
  Sends-ask_for, Sends-forgive, Sends-waiting,
}

-- The node holds no slots.
abbrev pub Empty : Heap → Ptr → Type 0
Empty h p = (h p).slots ≡ []

length-none : {A : Type 0} (xs : List A) → ltb 0 (length xs) ≡ false → xs ≡ []
length-none [] e = refl
length-none (x ∷ xs) e = absurd (ground arith)

module _ (h : Heap) (name : Text) (sets : List (Text × Nodes)) (lo hi : ℕ) where
  -- The index of a stateful set that has to go.
  abbrev pub Surplus : ℕ → Type 0
  Surplus i = (lo ≤ i) × (i < hi)

  -- What the scaling down may send: it forgets only nodes without slots of the surplus stateful sets,
  -- deletes only such stateful sets all of whose nodes hold no slots, with what belongs to them, and moves nothing.
  abbrev pub Permitted : Command → Type 0
  Permitted (Command.forget_node id) =
      (i : ℕ) × (p : Ptr) × Surplus i
      × (elem p (slice_at (cluster_stateful_set_name name i) sets) ≡ true)
      × ((h p).id ≡ id)
      × Empty h p
  Permitted (Command.delete_stateful_set s) =
      (i : ℕ) × Surplus i × (s ≡ cluster_stateful_set_name name i) × All (Empty h) (slice_at s sets)
  Permitted (Command.delete_pod_disruption_budget s) =
      (i : ℕ) × Surplus i × (s ≡ cluster_stateful_set_name name i)
  Permitted (Command.delete_pvcs s) =
      (i : ℕ) × Surplus i × (s ≡ cluster_stateful_set_name name i) × All (Empty h) (slice_at s sets)
  Permitted (Command.delete_service s) =
      (i : ℕ) × Surplus i × (s ≡ cluster_headless_svc_name name i)
  Permitted (Command.get_stateful_set s) = Unit
  Permitted (Command.list_pods s) = Unit
  Permitted (Command.remove_connection a) = Unit
  Permitted (Command.update_status s r) = Unit
  Permitted _ = ⊥

  abbrev Fine : {A : Type 0} → Type 0 → Log → Step A → Type 0
  Fine Q log s = Sends Permitted Q log s

  remove_connections-Fine :
      (e : Env) (nodes : Nodes) (w : World) → Fine Unit w.log (remove_connections e h nodes w)
  unfolding remove_connections
  remove_connections-Fine e [] w = (Grew-same Permitted w.log, tt)
  remove_connections-Fine e (p ∷ nodes) w =
      Sends-after Permitted Unit w.log _ (remove_connections e h nodes _)
        (Grew-one Permitted w.log (Command.remove_connection (ip_port (h p))) tt)
        (remove_connections-Fine e nodes _)

  disconnect_from-Fine :
      (e : Env) (first k : ℕ) (w : World)
      → Fine Unit w.log (disconnect_from e h name sets first k w)
  unfolding disconnect_from
  disconnect_from-Fine e first zero w = (Grew-same Permitted w.log, tt)
  disconnect_from-Fine e first (suc k) w =
      Sends-and_then Permitted Unit Unit w.log
        (remove_connections e h (slice_at (cluster_stateful_set_name name (first + k)) sets) w)
        (λ a. disconnect_from e h name sets first k)
        (remove_connections-Fine e (slice_at (cluster_stateful_set_name name (first + k)) sets) w)
        (λ q a v. disconnect_from-Fine e first k v)

  -- The nodes all belong to surplus stateful set `i`.
  forget_nodes-Fine :
      (e : Env) (i : ℕ) (nodes : Nodes) (w : World)
      → Surplus i
      → All (λ p. elem p (slice_at (cluster_stateful_set_name name i) sets) ≡ true) nodes
      → Fine (All (Empty h) nodes) w.log (forget_nodes e h nodes w)
  unfolding forget_nodes
  forget_nodes-Fine e i [] w s m = (Grew-same Permitted w.log, tt)
  forget_nodes-Fine e i (p ∷ nodes) w s m = elim (Bool-cases (ltb 0 (length (h p).slots))) [
    | inl y ↦ rw (y, Sends) (Grew-same Permitted w.log)
    | inr n ↦
        let empty : Empty h p = length-none (h p).slots n in
        rw (n, Sends)
          (Sends-and_then Permitted Unit (All (Empty h) (p ∷ nodes)) w.log _
            (λ a. forget_nodes e h nodes)
            (Sends-map_error Permitted Unit _ w.log (ask e (Command.forget_node (h p).id) w)
              (Sends-ask Permitted e (Command.forget_node (h p).id) w (i, p, s, m.0, refl, empty)))
            (λ q a v.
              Sends-and Permitted (All (Empty h) nodes) (Empty h p) v.log _ empty
                (forget_nodes-Fine e i nodes v s m.1)))
  ]

  -- A call, and then another whatever the first returns.
  Fine-then :
      (Q R : Type 0) (m f : Act Unit) (w : World)
      → Fine Q w.log (m w)
      → (Q → (v : World) → Fine R v.log (f v))
      → Fine R w.log ((m >> f) w)
  Fine-then Q R m f w a b = Sends-and_then Permitted Q R w.log (m w) (λ a. f) a (λ q a v. b q v)

  try_all-Fine :
      (e : Env) (cs : List Command) (w : World)
      → All Permitted cs
      → Fine Unit w.log (try_all e h cs w)
  unfolding try_all
  try_all-Fine e [] w m = (Grew-same Permitted w.log, tt)
  try_all-Fine e (c ∷ cs) w m =
      Fine-then Unit Unit (ignoring (ask e c)) (try_all e h cs) w
        (Sends-forgive Permitted w.log (ask e c w) (Sends-ask Permitted e c w m.0))
        (λ q v. try_all-Fine e cs v m.1)

  pods_terminated-Fine : (e : Env) (s : Text) (w : World) → Fine Unit w.log (pods_terminated e s w)
  unfolding pods_terminated
  pods_terminated-Fine e s w =
      Sends-and_then Permitted Unit Unit w.log (ask_for e e.pods_running (Command.list_pods s) w)
        (λ pods.
          if any (λ runs. runs) pods
          then fail (Error.plain (codes "pod still runing"))
          else pure tt)
        (Sends-ask_for Permitted e e.pods_running (Command.list_pods s) w tt)
        (λ q pods v. elim (Bool-cases (any (λ runs. runs) pods)) [
          | inl y ↦ rw (y, Sends) (Grew-same Permitted v.log)
          | inr n ↦ rw (n, Sends) (Grew-same Permitted v.log, tt)
        ])

  delete_resources-Fine :
      (e : Env) (i replicas : ℕ) (w : World)
      → Surplus i
      → All (Empty h) (slice_at (cluster_stateful_set_name name i) sets)
      → Fine Unit w.log (
          delete_resources e h
            (cluster_stateful_set_name name i)
            (cluster_headless_svc_name name i)
            replicas
            w)
  unfolding delete_resources
  delete_resources-Fine e i replicas w s m =
      let sts = cluster_stateful_set_name name i in
      let svc = cluster_headless_svc_name name i in
      let wait =
        waiting (codes "waitPodTerminating") (30 * (replicas + 2)) (pods_terminated e sts) in
      Fine-then Unit Unit (try_all e h (deletions e h sts svc)) (ignoring wait) w
        (try_all-Fine e (deletions e h sts svc) w
          ((i, s, refl, m), ((i, s, refl), ((i, s, refl), ((i, s, refl, m), tt)))))
        (λ q v. Sends-forgive Permitted v.log (wait v) (
          Sends-waiting Permitted (codes "waitPodTerminating") (30 * (replicas + 2))
            (pods_terminated e sts) v (λ u. pods_terminated-Fine e sts u)))

  remove_stateful_set-Fine :
      (e : Env) (i replicas : ℕ) (w : World)
      → Surplus i
      → Fine Unit w.log (remove_stateful_set e h name sets replicas i w)
  unfolding remove_stateful_set
  remove_stateful_set-Fine e i replicas w s =
      let sts = cluster_stateful_set_name name i in
      let nodes = slice_at sts sets in
      let delete = delete_resources e h sts (cluster_headless_svc_name name i) replicas in
      let get =
        wrapped (λ err. wrap ErrorType.kubernetes err (codes "GetStatefulSet"))
          (ask e (Command.get_stateful_set sts)) in
      Fine-then Unit Unit get (forget_nodes e h nodes >> delete) w
        (Sends-map_error Permitted Unit _ w.log (ask e (Command.get_stateful_set sts) w)
          (Sends-ask Permitted e (Command.get_stateful_set sts) w tt))
        (λ q v.
          Fine-then (All (Empty h) nodes) Unit (forget_nodes e h nodes) delete v
            (forget_nodes-Fine e i nodes v s (All-elem nodes))
            (λ m u. delete_resources-Fine e i replicas u s m))

  remove_from-Fine :
      (e : Env) (replicas k : ℕ) (w : World)
      → k ≤ hi - lo
      → Fine Unit w.log (remove_from e h name sets replicas lo k w)
  unfolding remove_from
  remove_from-Fine e replicas zero w b = (Grew-same Permitted w.log, tt)
  remove_from-Fine e replicas (suc k) w b =
      Fine-then Unit Unit (remove_stateful_set e h name sets replicas (lo + k))
        (remove_from e h name sets replicas lo k) w
        (remove_stateful_set-Fine e (lo + k) replicas w (omega arith, omega arith))
        (λ q v. remove_from-Fine e replicas k v (omega arith))

  rounds-Fine :
      (e : Env) (f : RedisClusterStatus → RedisClusterStatus) (replicas : ℕ) (w : World)
      → Fine Unit w.log (
          (set_status f
              >> ignoring (update_cr_status e)
              >> disconnect_from e h name sets lo (hi - lo)
              >> remove_from e h name sets replicas lo (hi - lo))
            w)
  unfolding set_status update_cr_status
  rounds-Fine e f replicas w =
      let announce = set_status f >> ignoring (update_cr_status e) in
      let disconnect = disconnect_from e h name sets lo (hi - lo) in
      Fine-then Unit Unit (announce >> disconnect) (remove_from e h name sets replicas lo (hi - lo))
        w
        (Fine-then Unit Unit announce disconnect w
          (Sends-forgive Permitted w.log _ (Sends-ask Permitted e _ _ tt))
          (λ q v. disconnect_from-Fine e lo (hi - lo) v))
        (λ q v. remove_from-Fine e replicas (hi - lo) v (omega arith))

-- The commands that a step adds to the log are those that a scaling down from `current` to `expected`
-- masters may send.
abbrev pub OnlyRemoves : Heap → Text → List (Text × Nodes) → ℕ → ℕ → Log → Step Unit → Type 0
OnlyRemoves h name sets expected current log s =
    Sends (Permitted h name sets expected current) Unit log s

-- However its calls are answered, `scalingDown` returns or ends with an error; it forgets only nodes
-- without slots of the stateful sets from `expected` to `current - 1`, deletes only those of these stateful sets (with their
-- claims) whose nodes all hold no slots, deletes no service and no disruption budget of another
-- index, and sends no command that moves or assigns a slot.
pub scaling_down-OnlyRemoves :
    (e : Env) (current : ℕ) (sets : List (Text × Nodes)) (w : World)
    → OnlyRemoves w.heap w.instance.name sets w.instance.master_size current w.log
        (scaling_down e current sets w)
unfolding scaling_down
scaling_down-OnlyRemoves e current sets w =
    rounds-Fine w.heap w.instance.name sets w.instance.master_size current e
      (λ s. set_cluster_rebalancing s (scale_down_reason current w.instance.master_size))
      w.instance.cluster_replicas w
