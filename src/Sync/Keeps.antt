-- ===== src/Sync/Keeps.antt =====
-- The operations before a cluster is complete keep the restore's order: the ensurer, the checker and
-- the defaults.
use k8s_cluster.Base.{Bool, Option, Text, false, none, some, suc, true, zero, ℕ, ◌+◌, ◌||◌}
use k8s_cluster.Admin.{Command}
use k8s_cluster.Placement.{cluster_stateful_set_name, cluster_headless_svc_name}
use k8s_cluster.Sync.Errors.{Error}
use k8s_cluster.Sync.Context.{Step, Act, pure, ◌>>◌, fetch, get, ask}
use k8s_cluster.Sync.Objects.{StatefulSet, Env}
use k8s_cluster.Sync.Ensurer.{
  should_update_redis, each, create_if_missing, ensure_object, ensure_redis_pdb, send_stateful_set,
  update_changed, update_if_needed, ensure_redis_statefulset, ensure_statefulsets_from,
  ensure_redis_statefulsets, ensure_redis_head_less_svc, ensure_redis_head_less_svcs,
  ensure_redis_svc, update_redis_statefulset, update_redis_statefulsets, check_redis_node_num,
  complain, check_stateful_set, check_node_num,
}
use k8s_cluster.Sync.Phases.{Follows-same}
use k8s_cluster.Sync.Holds.{
  Holds-pure, Holds-fail, Holds-then, Holds-next, Holds-fetch, Holds-if, Holds-ask, Holds-get,
}
use k8s_cluster.Sync.Ends.{Holds}

-- An operation whose own errors are plain.
module _ (P : Error → Type 0) (plain : (t : Text) → P (Error.plain t)) where
  pub each-Holds : (f : ℕ → Act Unit) (i k : ℕ) → ((j : ℕ) → Holds P (f j)) → Holds P (each f i k)
  each-Holds f i zero g = Holds-pure P tt
  each-Holds f i (suc k) g = Holds-next P (f i) (each f (suc i) k) (g i) (each-Holds f (suc i) k g)

  create_if_missing-Holds :
      (e : Env) (create : Command) (o : Option (Unit {0})) → Holds P (create_if_missing e create o)
  create_if_missing-Holds e create none = Holds-ask P e create plain
  create_if_missing-Holds e create (some u) = Holds-pure P tt

  pub ensure_object-Holds :
      (e : Env) (look create : Command) → Holds P (ensure_object e look create)
  ensure_object-Holds e look create =
      Holds-then P (fetch e e.exists look) (create_if_missing e create)
        (Holds-fetch P e e.exists look plain) (create_if_missing-Holds e create)

  pub send_stateful_set-Holds :
      (e : Env) (c : Command) (updated : Bool) → Holds P (send_stateful_set e c updated)
  unfolding send_stateful_set
  send_stateful_set-Holds e c updated = record {
    at = λ w.
        (Holds-if P (e.buildable w.instance) (ask e c >> pure updated)
            (λ v. Step.fails (Error.plain (e.said v.log)) v)
            (Holds-next P (ask e c) (pure updated) (Holds-ask P e c plain) (Holds-pure P updated))
            (record { at = λ v. (Follows-same v.instance, plain (e.said v.log)) })).at
          w;
  }

  update_changed-Holds :
      (e : Env) (name : Text) (o : Option Bool) → Holds P (update_changed e name o)
  unfolding update_changed
  update_changed-Holds e name none = record { at = λ w. tt }
  update_changed-Holds e name (some true) =
      send_stateful_set-Holds e (Command.update_stateful_set name) true
  update_changed-Holds e name (some false) = Holds-pure P false

  update_if_needed-Holds :
      (e : Env) (name : Text) (o : Option StatefulSet) → Holds P (update_if_needed e name o)
  unfolding update_if_needed
  update_if_needed-Holds e name none =
      send_stateful_set-Holds e (Command.create_stateful_set name) false
  update_if_needed-Holds e name (some sts) = record {
    at = λ w. (update_changed-Holds e name (should_update_redis w.instance sts)).at w;
  }

  ensure_redis_statefulset-Holds :
      (e : Env) (name : Text) → Holds P (ensure_redis_statefulset e name)
  unfolding ensure_redis_statefulset ensure_redis_pdb
  ensure_redis_statefulset-Holds e name =
      Holds-next P (ensure_redis_pdb e name) _
        (ensure_object-Holds e (Command.get_pod_disruption_budget name)
          (Command.create_pod_disruption_budget name))
        (Holds-then P (fetch e e.stateful_set (Command.get_stateful_set name))
          (update_if_needed e name)
          (Holds-fetch P e e.stateful_set (Command.get_stateful_set name) plain)
          (update_if_needed-Holds e name))

  ensure_statefulsets_from-Holds :
      (e : Env) (name : Text) (i k : ℕ) (updated : Bool)
      → Holds P (ensure_statefulsets_from e name i k updated)
  unfolding ensure_statefulsets_from
  ensure_statefulsets_from-Holds e name i zero updated = Holds-pure P updated
  ensure_statefulsets_from-Holds e name i (suc k) updated =
      Holds-then P (ensure_redis_statefulset e (cluster_stateful_set_name name i)) _
        (ensure_redis_statefulset-Holds e (cluster_stateful_set_name name i))
        (λ changed. ensure_statefulsets_from-Holds e name (suc i) k (updated || changed))

  pub ensure_redis_statefulsets-Holds : (e : Env) → Holds P (ensure_redis_statefulsets e)
  unfolding ensure_redis_statefulsets
  ensure_redis_statefulsets-Holds e = record {
    at =
        λ w. (ensure_statefulsets_from-Holds e w.instance.name 0 w.instance.master_size false).at w;
  }

  pub ensure_redis_head_less_svcs-Holds : (e : Env) → Holds P (ensure_redis_head_less_svcs e)
  unfolding ensure_redis_head_less_svcs ensure_redis_head_less_svc
  ensure_redis_head_less_svcs-Holds e = record {
    at = λ w.
        (each-Holds (ensure_redis_head_less_svc e w.instance.service_name) 0 w.instance.master_size
            (λ i.
              ensure_object-Holds e
                (Command.get_service (cluster_headless_svc_name w.instance.service_name i))
                (Command.create_service (cluster_headless_svc_name w.instance.service_name i)))).at
          w;
  }

  pub ensure_redis_svc-Holds : (e : Env) → Holds P (ensure_redis_svc e)
  unfolding ensure_redis_svc
  ensure_redis_svc-Holds e = record {
    at = λ w.
        (ensure_object-Holds e (Command.get_service w.instance.service_name)
            (Command.create_service w.instance.service_name)).at
          w;
  }

  pub update_redis_statefulsets-Holds : (e : Env) → Holds P (update_redis_statefulsets e)
  unfolding update_redis_statefulsets update_redis_statefulset
  update_redis_statefulsets-Holds e = record {
    at = λ w.
        (each-Holds (λ i. update_redis_statefulset e (cluster_stateful_set_name w.instance.name i))
            0 w.instance.master_size
            (λ i.
              Holds-next P
                (send_stateful_set e
                  (Command.update_stateful_set (cluster_stateful_set_name w.instance.name i)) true)
                (pure tt)
                (send_stateful_set-Holds e
                  (Command.update_stateful_set (cluster_stateful_set_name w.instance.name i)) true)
                (Holds-pure P tt))).at
          w;
  }

  complain-Holds : (o : Option Text) → Holds P (complain o)
  complain-Holds none = Holds-pure P tt
  complain-Holds (some msg) = Holds-fail P (Error.plain msg) (plain msg)

  pub check_node_num-Holds : (e : Env) → Holds P (check_node_num e)
  unfolding check_node_num check_stateful_set
  check_node_num-Holds e = record {
    at = λ w.
        (each-Holds (check_stateful_set e w.instance.name w.instance.cluster_replicas) 0
            w.instance.master_size
            (λ i.
              Holds-then P
                (get e e.stateful_set
                  (Command.get_stateful_set (cluster_stateful_set_name w.instance.name i)))
                _
                (Holds-get P e e.stateful_set
                  (Command.get_stateful_set (cluster_stateful_set_name w.instance.name i)) plain)
                (λ ss.
                  complain-Holds (check_redis_node_num (w.instance.cluster_replicas + 1) ss)))).at
          w;
  }
