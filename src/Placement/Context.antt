-- ===== src/Placement/Context.antt =====
-- `Ctx` of placement_v2.go: NewCtx, DispatchMasters, PlaceMasters, PlaceSlaves and GetNewMasters.
use k8s_cluster.Base.{
  Bool, List, Option, Text, [], codes, false, if◌then◌else◌, map, none, some, suc, text_eq, true,
  zero, ℕ, ◌++◌, ◌∷◌,
}
use k8s_cluster.Base.Assoc.{lookup, insert, append_at, slice_at}
use k8s_cluster.Slot.Codec.{format_uint}
use k8s_cluster.Node.{
  Ptr, Nodes, Heap, Cluster, cluster_node_by_id, filter_by_func, get_nodes_by_func,
  is_master_with_slot, is_slave,
}

abbrev pub unknown_vm_name : Text
unknown_vm_name = codes "unknown"

-- The key `StatefulSet` names stand for themselves; a Go map of slices is an association list.
pub record Ctx : Type 0 where
  pub expected_master_num : ℕ
  pub cluster_name : Text
  pub cluster : Cluster
  pub nodes : List (Text × Nodes)
  pub current_masters : Nodes
  pub new_masters_by_sts : List (Text × Ptr)
  pub slaves_by_master : List (Text × Nodes)
  pub best_effort : Bool

-- `ClusterStatefulSetName` and `ClusterHeadlessSvcName` of pkg/resources/statefulsets.
unfoldable pub cluster_stateful_set_name : Text → ℕ → Text
unfolding format_uint
cluster_stateful_set_name cluster_name i = codes "drc-" ++ (cluster_name ++ (b'-' ∷ format_uint i))

unfoldable pub cluster_headless_svc_name : Text → ℕ → Text
unfolding format_uint
cluster_headless_svc_name name i = name ++ (b'-' ∷ format_uint i)

-- The text, or `unknown` where it is empty.
abbrev pub name_or_unknown : Text → Text
name_or_unknown [] = unknown_vm_name
name_or_unknown (c ∷ s) = c ∷ s

-- The loop of `sortRedisNodeByStatefulSet`: the nodes by stateful set, and the current masters.
unfoldable pub sort_by_stateful_set :
    Heap → Cluster → Nodes → List (Text × Nodes) × Nodes → List (Text × Nodes) × Nodes
unfolding cluster_node_by_id is_master_with_slot append_at
sort_by_stateful_set h c [] st = st
sort_by_stateful_set h c (r ∷ nodes) (by_sts, masters) =
    sort_by_stateful_set h c nodes (elim (cluster_node_by_id h c (h r).id) [
      | none ↦ (by_sts, masters)
      | some n ↦ (
        append_at (name_or_unknown (h n).stateful_set) r by_sts,
        if is_master_with_slot (h r) then masters ++ r ∷ [] else masters,
      )
    ])

unfoldable pub new_ctx : Heap → Cluster → Nodes → ℕ → Text → Ctx
unfolding sort_by_stateful_set
new_ctx h c nodes master_num cluster_name =
    let (by_sts, masters) = sort_by_stateful_set h c nodes ([], []) in
    record {
      expected_master_num = master_num;
      cluster_name = cluster_name;
      cluster = c;
      nodes = by_sts;
      current_masters = masters;
      new_masters_by_sts = [];
      slaves_by_master = [];
      best_effort = false;
    }

-- What ends a call of the context's operations without a result: an error, or a panic where the
-- source follows a nil pointer or an index that is out of range.
pub data Outcome (A : Type 0) : Type 0 where
  done : A → Outcome A
  missing_stateful_set : Text → Outcome A
  split_brain : Text → Outcome A
  panics : Outcome A

infixl 5 ◌>>=◌
abbrev pub ◌>>=◌ : {A B : Type 0} → Outcome A → (A → Outcome B) → Outcome B
done a >>= f = f a
missing_stateful_set s >>= f = missing_stateful_set s
split_brain s >>= f = split_brain s
panics >>= f = panics

module _ (h : Heap) where
  -- No master runs on the machine of the node.
  unfoldable pub free_vm : Nodes → Ptr → Bool
  unfolding get_nodes_by_func
  free_vm all_masters p =
      elim (get_nodes_by_func h (λ n. text_eq n.node_name (h p).node_name) all_masters) [
        | none ↦ true
        | some _ ↦ false
      ]

  unfoldable pub first_free : Nodes → Nodes → Option Ptr
  unfolding free_vm
  first_free all_masters [] = none
  first_free all_masters (p ∷ nodes) =
      if free_vm all_masters p then some p else first_free all_masters nodes

  -- `PlaceMasters`: the node, and the context with `bestEffort` set where no machine is free.
  unfoldable pub place_masters : Ctx → Text → Outcome (Ctx × Ptr)
  unfolding first_free slice_at
  place_masters c ss_name =
      let all_masters = c.current_masters ++ map (λ e. e.1) c.new_masters_by_sts in
      elim (first_free all_masters (slice_at ss_name c.nodes)) [
        | some p ↦ done (c, p)
        | none ↦ elim (slice_at ss_name c.nodes) [
          | [] ↦ panics
          | p ∷ _ ↦ done (record c { best_effort = true }, p)
        ]
      ]

  -- One round of `DispatchMasters`, by the masters with slots of the stateful set.
  unfoldable pub choose_master : Ctx → Text → Nodes → Outcome (Ctx × Ptr)
  unfolding place_masters
  choose_master c sts_name [] = place_masters c sts_name
  choose_master c sts_name (p ∷ []) = done (c, p)
  choose_master c sts_name (p ∷ q ∷ ps) = split_brain sts_name

  unfoldable pub dispatch_master : Ctx → Text → Outcome Ctx
  unfolding choose_master filter_by_func insert lookup
  dispatch_master c sts_name = elim (lookup sts_name c.nodes) [
    | none ↦ missing_stateful_set sts_name
    | some nodes ↦ do
      (c', p) ← choose_master c sts_name (filter_by_func h is_master_with_slot nodes)
      done (record c' { new_masters_by_sts = insert sts_name p c'.new_masters_by_sts })
  ]

  -- The loop from stateful set `i` on, for `k` rounds.
  unfoldable pub dispatch_from : ℕ → ℕ → Ctx → Outcome Ctx
  unfolding dispatch_master cluster_stateful_set_name
  dispatch_from i zero c = done c
  dispatch_from i (suc k) c =
      dispatch_master c (cluster_stateful_set_name c.cluster_name i) >>= dispatch_from (suc i) k

  unfoldable pub dispatch_masters : Ctx → Outcome Ctx
  unfolding dispatch_from
  dispatch_masters c = dispatch_from 0 c.expected_master_num c

  -- The inner loop of `PlaceSlaves`, for one stateful set and its master.
  unfoldable pub place_slaves_of : Ptr → Nodes → Ctx → Ctx
  unfolding is_slave append_at
  place_slaves_of master [] c = c
  place_slaves_of master (p ∷ nodes) c =
      let n = h p in
      let m = h master in
      let spread =
        if text_eq n.node_name m.node_name then c else record c { best_effort = false } in
      let attached = record spread {
        slaves_by_master = append_at m.id p spread.slaves_by_master;
      } in
      place_slaves_of master nodes (
        if text_eq n.ip m.ip
        then c
        else if is_slave n
        then (if text_eq n.master_referent m.id then spread else attached)
        else attached)

  -- The outer loop. A stateful set without a new master has the nil pointer for its master.
  unfoldable pub place_slaves_loop : List (Text × Nodes) → Ctx → Outcome Ctx
  unfolding place_slaves_of lookup
  place_slaves_loop [] c = done c
  place_slaves_loop ((ss_name, nodes) ∷ m) c = elim (lookup ss_name c.new_masters_by_sts) [
    | some master ↦ place_slaves_loop m (place_slaves_of master nodes c)
    | none ↦ elim nodes [ [] ↦ place_slaves_loop m c | _ ∷ _ ↦ panics ]
  ]

  unfoldable pub place_slaves : Ctx → Outcome Ctx
  unfolding place_slaves_loop
  place_slaves c = place_slaves_loop c.nodes (record c { best_effort = true })

unfoldable pub get_new_masters : Ctx → Nodes
get_new_masters c = map (λ e. e.1) c.new_masters_by_sts
