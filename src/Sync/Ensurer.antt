-- ===== src/Sync/Ensurer.antt =====
-- pkg/controller/manager/ensurer.go and checker.go, with IsPasswordChanged of
-- pkg/resources/statefulsets/helper.go. Labels, namespaces and the texts of the objects that are
-- sent are left out.
use k8s_cluster.Base.{
  Bool, List, Option, Text, [], codes, false, if◌then◌else◌, none, not, some, suc, text_eq, true,
  zero, ℕ, ◌+◌, ◌==◌, ◌||◌, ◌∷◌,
}
use k8s_cluster.Admin.{Command}
use k8s_cluster.Placement.{cluster_stateful_set_name, cluster_headless_svc_name}
use k8s_cluster.Sync.Errors.{Error}
use k8s_cluster.Sync.Context.{
  Step, Act, pure, fail, and_then, ◌>>=◌, ◌>>◌, fetch, get, ask, returns, fails,
}
use k8s_cluster.Sync.Objects.{Quantities, Resource, EnvVar, StatefulSet, Env}

abbrev pub password_env : Text
password_env = codes "REDIS_PASSWORD"

unfoldable pub get_secret_key_ref_by_key : Text → List EnvVar → Text
get_secret_key_ref_by_key key [] = []
get_secret_key_ref_by_key key (value ∷ env) =
    let rest = get_secret_key_ref_by_key key env in
    if text_eq key value.name then (elim value.secret [ none ↦ rest | some name ↦ name ]) else rest

unfoldable pub is_password_changed : Resource → StatefulSet → Bool
unfolding get_secret_key_ref_by_key
is_password_changed c sts = elim c.password_secret [
  | none ↦ false
  | some secret ↦
      let name = get_secret_key_ref_by_key password_env sts.env in
      text_eq name [] || not (text_eq name secret)
]

-- A specification without resources would be a nil pointer: `none` where that panics.
unfoldable pub resources_differ : Option Quantities → Quantities → Option Bool
resources_differ none q = none
resources_differ (some r) q = some (
    not (r.request_memory == q.request_memory)
    || not (r.request_cpu == q.request_cpu)
    || not (r.limit_memory == q.limit_memory)
    || not (r.limit_cpu == q.limit_cpu))

unfoldable pub should_update_redis : Resource → StatefulSet → Option Bool
unfolding is_password_changed resources_differ
should_update_redis c sts =
    let rest = resources_differ c.resources sts.resources in
    if not (c.cluster_replicas + 1 == sts.replicas)
    then some true
    else if not (text_eq c.image sts.image)
    then some true
    else if is_password_changed c sts
    then some true
    else rest

-- Runs an action for each index from `i` on, `k` times, until one fails.
abbrev pub each : (ℕ → Act Unit) → ℕ → ℕ → Act Unit
each f i zero = pure tt
each f i (suc k) = f i >> each f (suc i) k

module _ (e : Env) where
  -- Creates an object that does not exist.
  abbrev pub create_if_missing : Command → Option (Unit {0}) → Act Unit
  create_if_missing create none = ask e create
  create_if_missing create (some u) = pure tt

  abbrev pub ensure_object : Command → Command → Act Unit
  ensure_object get create = fetch e e.exists get >>= create_if_missing create

  unfoldable pub ensure_redis_pdb : Text → Act Unit
  unfolding fetch ask
  ensure_redis_pdb name =
      ensure_object (Command.get_pod_disruption_budget name)
        (Command.create_pod_disruption_budget name)

  -- NewStatefulSetForCR, which may fail, and then the call that sends the set.
  unfoldable pub send_stateful_set : Command → Bool → Act Bool
  unfolding ask
  send_stateful_set c updated w =
      if e.buildable w.instance
      then and_then (ask e c w) (λ a. returns updated)
      else fails (Error.plain (e.said w.log)) w

  -- Without a comparison the source has followed a nil pointer.
  unfoldable pub update_changed : Text → Option Bool → Act Bool
  unfolding send_stateful_set
  update_changed ss_name none w = Step.panics
  update_changed ss_name (some true) w =
      send_stateful_set (Command.update_stateful_set ss_name) true w
  update_changed ss_name (some false) w = returns false w

  unfoldable pub update_if_needed : Text → Option StatefulSet → Act Bool
  unfolding should_update_redis send_stateful_set update_changed
  update_if_needed ss_name none w = send_stateful_set (Command.create_stateful_set ss_name) false w
  update_if_needed ss_name (some sts) w =
      update_changed ss_name (should_update_redis w.instance sts) w

  unfoldable pub ensure_redis_statefulset : Text → Act Bool
  unfolding ensure_redis_pdb fetch update_if_needed
  ensure_redis_statefulset ss_name =
      ensure_redis_pdb ss_name
      >> (fetch e e.stateful_set (Command.get_stateful_set ss_name) >>= update_if_needed ss_name)

  -- The loop from index `i` on, for `k` rounds.
  unfoldable pub ensure_statefulsets_from : Text → ℕ → ℕ → Bool → Act Bool
  unfolding ensure_redis_statefulset cluster_stateful_set_name
  ensure_statefulsets_from name i zero updated = pure updated
  ensure_statefulsets_from name i (suc k) updated = do
    changed ← ensure_redis_statefulset (cluster_stateful_set_name name i)
    ensure_statefulsets_from name (suc i) k (updated || changed)

  unfoldable pub ensure_redis_statefulsets : Act Bool
  unfolding ensure_statefulsets_from
  ensure_redis_statefulsets w =
      ensure_statefulsets_from w.instance.name 0 w.instance.master_size false w

  unfoldable pub ensure_redis_head_less_svc : Text → ℕ → Act Unit
  unfolding fetch ask cluster_headless_svc_name
  ensure_redis_head_less_svc service_name i =
      ensure_object (Command.get_service (cluster_headless_svc_name service_name i))
        (Command.create_service (cluster_headless_svc_name service_name i))

  unfoldable pub ensure_redis_head_less_svcs : Act Unit
  unfolding ensure_redis_head_less_svc
  ensure_redis_head_less_svcs w =
      each (ensure_redis_head_less_svc w.instance.service_name) 0 w.instance.master_size w

  unfoldable pub ensure_redis_svc : Act Unit
  unfolding fetch ask
  ensure_redis_svc w =
      ensure_object (Command.get_service w.instance.service_name)
        (Command.create_service w.instance.service_name) w

  unfoldable pub update_redis_statefulset : Text → Act Unit
  unfolding send_stateful_set
  update_redis_statefulset name =
      send_stateful_set (Command.update_stateful_set name) true >> pure tt

  unfoldable pub update_redis_statefulsets : Act Unit
  unfolding update_redis_statefulset cluster_stateful_set_name
  update_redis_statefulsets w =
      each (λ i. update_redis_statefulset (cluster_stateful_set_name w.instance.name i)) 0
        w.instance.master_size w

-- `checkRedisNodeNum`: the message where a number is not the expected one.
unfoldable pub check_redis_node_num : ℕ → StatefulSet → Option Text
check_redis_node_num expected ss =
    if not (expected == ss.replicas)
    then some (codes "number of redis pods is different from specification")
    else if not (expected == ss.ready_replicas)
    then some (codes "redis pods are not all ready")
    else if not (expected == ss.current_replicas)
    then some (codes "redis pods need to be updated")
    else none

abbrev pub complain : Option Text → Act Unit
complain none = pure tt
complain (some msg) = fail (Error.plain msg)

unfoldable pub check_stateful_set : Env → Text → ℕ → ℕ → Act Unit
unfolding get check_redis_node_num cluster_stateful_set_name
check_stateful_set e name cluster_replicas i = do
  ss ← get e e.stateful_set (Command.get_stateful_set (cluster_stateful_set_name name i))
  complain (check_redis_node_num (cluster_replicas + 1) ss)

-- `CheckRedisNodeNum`.
unfoldable pub check_node_num : Env → Act Unit
unfolding check_stateful_set
check_node_num e w =
    each (check_stateful_set e w.instance.name w.instance.cluster_replicas) 0 w.instance.master_size
      w
