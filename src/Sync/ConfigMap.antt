-- ===== src/Sync/ConfigMap.antt =====
-- The configuration of Redis: isRedisConfChanged, EnsureRedisConfigMap and EnsureRedisRCloneSecret of
-- pkg/controller/manager/ensurer.go, and the text of redis.conf of pkg/resources/configmaps/configmap.go.
use k8s_cluster.Base.{
  Bool, List, Option, Text, [], codes, false, if◌then◌else◌, length, map, none, not, some, text_eq,
  text_lt, true, ℕ, ◌&&◌, ◌++◌, ◌==◌, ◌||◌, ◌∷◌, any,
}
use k8s_cluster.Base.Assoc.{lookup}
use k8s_cluster.Base.Sort.{sort}
use k8s_cluster.Slot.Codec.{split, trim_suffix}
use k8s_cluster.Admin.{Command}
use k8s_cluster.Sync.Context.{Step, Act, ◌>>=◌, ◌>>◌, fetch, ask, returns}
use k8s_cluster.Sync.Objects.{Backup, Env}
use k8s_cluster.Sync.Defaults.{is_restore_from_backup, is_restored, is_restore_restarting, entries}

abbrev pub in_front : ℕ → Option (Text × Text) → Option (Text × Text)
in_front x none = none
in_front x (some (front, back)) = some (x ∷ front, back)

-- `strings.SplitN` into at most two parts: `none` where there is only one.
abbrev pub split_once : ℕ → Text → Option (Text × Text)
split_once b [] = none
split_once b (x ∷ t) =
    let rest = in_front x (split_once b t) in if x == b then some ([], t) else rest

-- A line of the stored file that the specification does not have: a line without a space is skipped.
unfoldable pub is_line_changed : List (Text × Text) → Text → Bool
unfolding lookup trim_suffix
is_line_changed conf line = elim (split_once b' ' (trim_suffix b' ' line)) [
  | none ↦ false
  | some (key, value) ↦ elim (lookup key conf) [
    | none ↦ true
    | some current ↦ not (text_eq current value)
  ]
]

unfoldable pub is_redis_conf_changed : Text → List (Text × Text) → Bool
unfolding is_line_changed split trim_suffix
is_redis_conf_changed conf_in_cm conf =
    let lines = split b'\n' (trim_suffix b'\n' conf_in_cm) in
    if not (length lines == length conf) then true else any (is_line_changed conf) lines

unfoldable pub conf_lines : List (Text × Text) → List Text → Text
unfolding lookup
conf_lines conf [] = []
conf_lines conf (k ∷ keys) =
    let rest = conf_lines conf keys in
    elim (lookup k conf) [
      | none ↦ rest
      | some v ↦ if length v == 0 then rest else k ++ (b' ' ∷ (v ++ (b'\n' ∷ rest)))
    ]

-- A nil map gives the empty text.
unfoldable pub generate_redis_conf_content : Option (List (Text × Text)) → Text
unfolding conf_lines sort
generate_redis_conf_content none = []
generate_redis_conf_content (some conf) = conf_lines conf (sort text_lt (map (λ p. p.0) conf))

abbrev pub redis_config_map_name : Text → Text
redis_config_map_name name = codes "redis-cluster-" ++ name

abbrev pub restore_config_map_name : Text → Text
restore_config_map_name name = codes "rediscluster-restore-" ++ name

module _ (e : Env) where
  unfoldable pub ensure_conf : Text → Option Text → Act Unit
  unfolding is_redis_conf_changed ask
  ensure_conf name none w = ask e (Command.create_config_map name) w
  ensure_conf name (some stored) w =
      if is_redis_conf_changed stored (entries w.instance.config)
      then ask e (Command.update_config_map name) w
      else returns tt w

  unfoldable pub ensure_restore_conf : Text → Option Text → Act Unit
  unfolding is_restore_restarting ask
  ensure_restore_conf name none w = ask e (Command.create_config_map name) w
  ensure_restore_conf name (some stored) w =
      if is_restore_restarting w.instance && text_eq stored (codes "0")
      then ask e (Command.update_config_map name) w
      else returns tt w

  -- What a restore adds to EnsureRedisConfigMap.
  unfoldable pub ensure_restore_config_map : Act Unit
  unfolding ensure_restore_conf is_restore_from_backup fetch
  ensure_restore_config_map w =
      let name = restore_config_map_name w.instance.name in
      if is_restore_from_backup w.instance
      then (fetch e e.config_map (Command.get_config_map name) >>= ensure_restore_conf name) w
      else returns tt w

  unfoldable pub ensure_redis_config_map : Act Unit
  unfolding ensure_conf ensure_restore_config_map fetch
  ensure_redis_config_map w =
      let name = redis_config_map_name w.instance.name in
      ((fetch e e.config_map (Command.get_config_map name) >>= ensure_conf name)
          >> ensure_restore_config_map)
        w

  -- Building the secret and creating it count as one call. Without a backup in the status the
  -- source follows a nil pointer.
  unfoldable pub create_r_clone_secret : Option Backup → Act Unit
  unfolding ask
  create_r_clone_secret none w = Step.panics
  create_r_clone_secret (some backup) w = ask e Command.create_secret w

  unfoldable pub ensure_redis_r_clone_secret : Act Unit
  unfolding is_restore_from_backup is_restored create_r_clone_secret
  ensure_redis_r_clone_secret w =
      let rest = create_r_clone_secret w.instance.restore_backup w in
      if not (is_restore_from_backup w.instance) || is_restored w.instance
      then returns tt w
      else rest
