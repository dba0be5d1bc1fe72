-- ===== src/Status/Counts.antt =====
-- The counters of `buildClusterStatus`.
use k8s_cluster.Base.Assoc.{lookup}
use k8s_cluster.Base.{
  ap, Bool, Bool-cases, inl, inr, refl, sym, ◌∙◌, subst, true, ◌||◌, any, List, Text, [], arith,
  false, length, length-append, text_eq, ℕ, ◌+◌, ◌∷◌, ◌≡◌, ◌≤◌, if◌then◌else◌,
}
use k8s_cluster.Node.{Nodes, Heap, get_nodes_by_func, Node}
use k8s_cluster.Heal.{ClusterInfos, get_nodes}
use k8s_cluster.Status.Tally.{
  is_serving, follows, serves_as, sole, nodes_at, one_if, tally, has_any, reached, of_list,
  get_nodes_by_func-of_list,
}
use k8s_cluster.Status.{
  number_at, Building, Pod, RedisClusterStatus, replication_factors, add_pod, add_pods, describe,
  node_of_pod, build_cluster_status, need_cluster_operation, compare_int_value,
}
use k8s_cluster.Status.Counters.{
  has_counter, nb_master-count, number_at-count, has_counter-count, All-number_at,
}
use k8s_cluster.Status.Factors.{Between, replication_factors-Between}

module _ (h : Heap) where
  nb_master-add_pod :
      (pod : Pod) (found : Nodes) (b : Building)
      → (add_pod h pod (of_list found) b).nb_master ≡ one_if (sole h is_serving found) + b.nb_master
  unfolding add_pod
  nb_master-add_pod pod [] b = omega arith
  nb_master-add_pod pod (p ∷ []) b = nb_master-count (h p) b
  nb_master-add_pod pod (p ∷ q ∷ ps) b = omega arith

  length-add_pod :
      (pod : Pod) (found : Nodes) (b : Building)
      → length (add_pod h pod (of_list found) b).nodes ≡ one_if (has_any found) + length b.nodes
  unfolding add_pod
  length-add_pod pod [] b = omega arith
  length-add_pod pod (p ∷ []) b = omega (arith, length-append b.nodes (describe pod (h p) ∷ []))
  length-add_pod pod (p ∷ q ∷ ps) b = omega (arith, length-append b.nodes (node_of_pod pod ∷ []))

  number_at-add_pod :
      (k : Text) (pod : Pod) (found : Nodes) (b : Building)
      → number_at k (add_pod h pod (of_list found) b).nb_slave_by_master
        ≡ one_if (sole h (follows k) found) + number_at k b.nb_slave_by_master
  unfolding add_pod
  number_at-add_pod k pod [] b = omega arith
  number_at-add_pod k pod (p ∷ []) b = number_at-count (h p) b k
  number_at-add_pod k pod (p ∷ q ∷ ps) b = omega arith

  has_counter-add_pod :
      (k : Text) (pod : Pod) (found : Nodes) (b : Building)
      → (sole h (serves_as k) found || has_counter k b.nb_slave_by_master) ≡ true
      → has_counter k (add_pod h pod (of_list found) b).nb_slave_by_master ≡ true
  unfolding add_pod
  has_counter-add_pod k pod [] b e = e
  has_counter-add_pod k pod (p ∷ []) b e = has_counter-count (h p) b k e
  has_counter-add_pod k pod (p ∷ q ∷ ps) b e = e

  module _ (nodes : Nodes) where
    found_at :
        (pod : Pod)
        → get_nodes_by_func h (λ n. text_eq n.ip pod.pod_ip) nodes ≡ of_list (nodes_at h nodes pod)
    found_at pod = get_nodes_by_func-of_list h (λ n. text_eq n.ip pod.pod_ip) nodes

    add_pods-cons :
        (pod : Pod) (pods : List Pod) (b : Building)
        → add_pods h nodes (pod ∷ pods) b
          ≡ add_pods h nodes pods (add_pod h pod (of_list (nodes_at h nodes pod)) b)
    unfolding add_pods
    add_pods-cons pod pods b = ap (λ o. add_pods h nodes pods (add_pod h pod o b)) (found_at pod)

    nb_master-add_pods :
        (pods : List Pod) (b : Building)
        → (add_pods h nodes pods b).nb_master ≡ tally h nodes is_serving pods + b.nb_master
    unfolding add_pods
    nb_master-add_pods [] b = omega arith
    nb_master-add_pods (pod ∷ pods) b =
        let step = ap (λ r. r.nb_master) (add_pods-cons pod pods b) in
        (let found = nodes_at h nodes pod in
          let ih = nb_master-add_pods pods (add_pod h pod (of_list found) b) in
          let one = nb_master-add_pod pod found b in omega (arith, step, ih, one))

    length-add_pods :
        (pods : List Pod) (b : Building)
        → length (add_pods h nodes pods b).nodes ≡ reached h nodes pods + length b.nodes
    unfolding add_pods
    length-add_pods [] b = omega arith
    length-add_pods (pod ∷ pods) b =
        let step = ap (λ r. length r.nodes) (add_pods-cons pod pods b) in
        (let found = nodes_at h nodes pod in
          let ih = length-add_pods pods (add_pod h pod (of_list found) b) in
          let one = length-add_pod pod found b in omega (arith, step, ih, one))

    number_at-add_pods :
        (k : Text) (pods : List Pod) (b : Building)
        → number_at k (add_pods h nodes pods b).nb_slave_by_master
          ≡ tally h nodes (follows k) pods + number_at k b.nb_slave_by_master
    unfolding add_pods
    number_at-add_pods k [] b = omega arith
    number_at-add_pods k (pod ∷ pods) b =
        let step = ap (λ r. number_at k r.nb_slave_by_master) (add_pods-cons pod pods b) in
        (let found = nodes_at h nodes pod in
          let ih = number_at-add_pods k pods (add_pod h pod (of_list found) b) in
          let one = number_at-add_pod k pod found b in omega (arith, step, ih, one))

    has_counter-add_pods :
        (k : Text) (pods : List Pod) (b : Building)
        → (any (λ pod. sole h (serves_as k) (nodes_at h nodes pod)) pods
            || has_counter k b.nb_slave_by_master)
          ≡ true
        → has_counter k (add_pods h nodes pods b).nb_slave_by_master ≡ true
    unfolding add_pods
    has_counter-add_pods k [] b e = e
    has_counter-add_pods k (pod ∷ pods) b e =
        subst (λ r. has_counter k r.nb_slave_by_master ≡ true) (sym (add_pods-cons pod pods b))
          (let found = nodes_at h nodes pod in
            let b' = add_pod h pod (of_list found) b in
            has_counter-add_pods k pods b'
              (elim (Bool-cases
                (sole h (serves_as k) found || has_counter k b.nb_slave_by_master)) [
                  | inl y ↦ let z = has_counter-add_pod k pod found b y in ground arith
                  | inr o ↦
                      let z : any (λ q. sole h (serves_as k) (nodes_at h nodes q)) pods ≡ true =
                        ground arith in
                      rw z refl
                ]))

-- Some pod has as its only Redis node a master with slots whose ID is `k`.
abbrev pub serving_as : Heap → ClusterInfos → List Pod → Text → Bool
serving_as h infos pods k =
    any (λ pod. sole h (serves_as k) (nodes_at h (get_nodes infos) pod)) pods

-- How many pods have as their only Redis node one that passes the test.
abbrev pub pods_with : Heap → ClusterInfos → List Pod → (Node → Bool) → ℕ
pods_with h infos pods f = tally h (get_nodes infos) f pods

-- The number of slaves of the master with slots that has the ID `k`, or `other` if there is none.
abbrev pub slaves_of_master : Heap → ClusterInfos → List Pod → Text → ℕ → ℕ
slaves_of_master h infos pods k other =
    if serving_as h infos pods k then pods_with h infos pods (follows k) else other

abbrev nothing_yet : Building
nothing_yet = record { nodes = []; nb_master = 0; nb_slave_by_master = [] }

-- The counter of a master with slots is the number of its slaves.
counter_of_master :
    (h : Heap) (infos : ClusterInfos) (pods : List Pod) (k : Text)
    → serving_as h infos pods k ≡ true
    → let m = (add_pods h (get_nodes infos) pods nothing_yet).nb_slave_by_master in
      Between
        (replication_factors m).0
        (replication_factors m).1
        (k, pods_with h infos pods (follows k))
unfolding lookup
counter_of_master h infos pods k serves =
    let nodes = get_nodes infos in
    let m = (add_pods h nodes pods nothing_yet).nb_slave_by_master in
    let within : ℕ → Type 0 =
      λ n. Between (replication_factors m).0 (replication_factors m).1 (k, n) in
    subst within (number_at-add_pods h nodes k pods nothing_yet ∙ omega arith) (
      All-number_at within k m (replication_factors-Between m)
        (has_counter-add_pods h nodes k pods nothing_yet (rw serves refl)))

-- The status counts the pods whose only Redis node is a master with slots, and lists one node for
-- each pod that has a Redis node at its address. For each such master, the number of pods whose only
-- Redis node is a slave of it lies between the two replication factors.
pub build_cluster_status-counts :
    (h : Heap) (infos : ClusterInfos) (pods : List Pod) (old : RedisClusterStatus) (k : Text)
    → let s = build_cluster_status h infos pods old in
      (s.number_of_master ≡ pods_with h infos pods is_serving)
      × (length s.nodes ≡ reached h (get_nodes infos) pods)
      × (s.min_replication_factor ≤ slaves_of_master h infos pods k s.min_replication_factor)
      × (slaves_of_master h infos pods k s.max_replication_factor ≤ s.max_replication_factor)
unfolding build_cluster_status
build_cluster_status-counts h infos pods old k =
    let nodes = get_nodes infos in
    let masters = nb_master-add_pods h nodes pods nothing_yet in
    let listed = length-add_pods h nodes pods nothing_yet in
    elim (Bool-cases (serving_as h infos pods k)) [
      | inl serves ↦
          let (lo, hi) = counter_of_master h infos pods k serves in
          rw serves (omega (arith, masters), omega (arith, listed), lo, hi)
      | inr missing ↦
          rw missing (omega (arith, masters), omega (arith, listed), omega arith, omega arith)
    ]

need_cluster_operation-values :
    (s : RedisClusterStatus) (master_size cluster_replicas : ℕ)
    → need_cluster_operation s master_size cluster_replicas ≡ false
    → (s.number_of_master ≡ master_size)
      × (s.min_replication_factor ≡ cluster_replicas)
      × (s.max_replication_factor ≡ cluster_replicas)
unfolding need_cluster_operation compare_int_value
need_cluster_operation-values s master_size cluster_replicas e = ground arith

-- If `needClusterOperation` asks for nothing on the status built from the pods, then the number of
-- pods whose only Redis node is a master with slots is the specified one, and for each such master
-- the number of pods whose only Redis node is a slave of it is the specified number of slaves.
pub need_cluster_operation-settled :
    (h : Heap) (infos : ClusterInfos) (pods : List Pod) (old : RedisClusterStatus)
    (master_size cluster_replicas : ℕ) (k : Text)
    → need_cluster_operation (build_cluster_status h infos pods old) master_size cluster_replicas
      ≡ false
    → (pods_with h infos pods is_serving ≡ master_size)
      × (slaves_of_master h infos pods k cluster_replicas ≡ cluster_replicas)
need_cluster_operation-settled h infos pods old master_size cluster_replicas k e =
    let s = build_cluster_status h infos pods old in
    let (a, l, r) = need_cluster_operation-values s master_size cluster_replicas e in
    let (n, _, lo, hi) = build_cluster_status-counts h infos pods old k in
    (
      sym n ∙ a,
      elim (Bool-cases (serving_as h infos pods k)) [
        | inl serves ↦
            rw serves (let lo' = rw serves at lo in let hi' = rw serves at hi in omega arith)
        | inr missing ↦ rw missing refl
      ],
    )
