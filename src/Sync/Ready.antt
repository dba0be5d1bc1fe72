-- ===== src/Sync/Ready.antt =====
-- ensureCluster, waitPodReady and waitForClusterJoin keep the restore's order.
use k8s_cluster.Base.{Option, Text, [], codes, none, not, refl, some, text_eq, ◌&&◌, ◌||◌}
use k8s_cluster.Admin.{Command}
use k8s_cluster.Status.{set_cluster_reset_password}
use k8s_cluster.Sync.Errors.{Error}
use k8s_cluster.Sync.Context.{Act, pure, ◌>>=◌, fetch, ask, update_cr_status}
use k8s_cluster.Sync.Objects.{Backup, StatefulSet, Env}
use k8s_cluster.Sync.Defaults.{is_restored, is_restore_from_backup, is_restore_restarting, entries}
use k8s_cluster.Sync.Ensurer.{password_env, get_secret_key_ref_by_key}
use k8s_cluster.Sync.ConfigMap.{
  is_redis_conf_changed, redis_config_map_name, restore_config_map_name, ensure_conf,
  ensure_restore_conf, ensure_restore_config_map, ensure_redis_config_map, create_r_clone_secret,
  ensure_redis_r_clone_secret,
}
use k8s_cluster.Sync.Ensure.{get_password, secret_name, change_password}
use k8s_cluster.Sync.Holds.{
  Holds-pure, Holds-then, Holds-next, Holds-ask_for, Holds-fetch, Holds-if, Holds-branch,
  Holds-ignoring, Holds-ask, Holds-set_status, Holds-update_cr_status,
}
use k8s_cluster.Sync.Ends.{Holds}

module _ (P : Error → Type 0) (plain : (t : Text) → P (Error.plain t)) where
  ensure_conf-Holds : (e : Env) (name : Text) (o : Option Text) → Holds P (ensure_conf e name o)
  unfolding ensure_conf
  ensure_conf-Holds e name none = Holds-ask P e (Command.create_config_map name) plain
  ensure_conf-Holds e name (some stored) = record {
    at = λ w.
        (Holds-if P (is_redis_conf_changed stored (entries w.instance.config))
            (ask e (Command.update_config_map name)) (pure tt)
            (Holds-ask P e (Command.update_config_map name) plain) (Holds-pure P tt)).at
          w;
  }

  ensure_restore_conf-Holds :
      (e : Env) (name : Text) (o : Option Text) → Holds P (ensure_restore_conf e name o)
  unfolding ensure_restore_conf
  ensure_restore_conf-Holds e name none = Holds-ask P e (Command.create_config_map name) plain
  ensure_restore_conf-Holds e name (some stored) = record {
    at = λ w.
        (Holds-if P (is_restore_restarting w.instance && text_eq stored (codes "0"))
            (ask e (Command.update_config_map name)) (pure tt)
            (Holds-ask P e (Command.update_config_map name) plain) (Holds-pure P tt)).at
          w;
  }

  -- A Get of a configuration, and what follows.
  fetch_then-Holds :
      (e : Env) (name : Text) (f : Option Text → Act Unit)
      → ((o : Option Text) → Holds P (f o))
      → Holds P (fetch e e.config_map (Command.get_config_map name) >>= f)
  fetch_then-Holds e name f k =
      Holds-then P (fetch e e.config_map (Command.get_config_map name)) f
        (Holds-fetch P e e.config_map (Command.get_config_map name) plain) k

  ensure_restore_config_map-Holds : (e : Env) → Holds P (ensure_restore_config_map e)
  unfolding ensure_restore_config_map
  ensure_restore_config_map-Holds e = record {
    at = λ w.
        let name = restore_config_map_name w.instance.name in
        (Holds-if P (is_restore_from_backup w.instance)
            (fetch e e.config_map (Command.get_config_map name) >>= ensure_restore_conf e name)
            (pure tt)
            (fetch_then-Holds e name (ensure_restore_conf e name)
              (ensure_restore_conf-Holds e name))
            (Holds-pure P tt)).at
          w;
  }

  pub ensure_redis_config_map-Holds : (e : Env) → Holds P (ensure_redis_config_map e)
  unfolding ensure_redis_config_map
  ensure_redis_config_map-Holds e = record {
    at = λ w.
        let name = redis_config_map_name w.instance.name in
        (Holds-next P (fetch e e.config_map (Command.get_config_map name) >>= ensure_conf e name)
            (ensure_restore_config_map e)
            (fetch_then-Holds e name (ensure_conf e name) (ensure_conf-Holds e name))
            (ensure_restore_config_map-Holds e)).at
          w;
  }

  create_r_clone_secret-Holds : (e : Env) (o : Option Backup) → Holds P (create_r_clone_secret e o)
  unfolding create_r_clone_secret
  create_r_clone_secret-Holds e none = record { at = λ w. tt }
  create_r_clone_secret-Holds e (some b) = Holds-ask P e Command.create_secret plain

  pub ensure_redis_r_clone_secret-Holds : (e : Env) → Holds P (ensure_redis_r_clone_secret e)
  unfolding ensure_redis_r_clone_secret
  ensure_redis_r_clone_secret-Holds e = record {
    at = λ w.
        (Holds-if P (not (is_restore_from_backup w.instance) || is_restored w.instance) (pure tt)
            (create_r_clone_secret e w.instance.restore_backup) (Holds-pure P tt)
            (create_r_clone_secret-Holds e w.instance.restore_backup)).at
          w;
  }

  pub get_password-Holds : (e : Env) (name : Text) → Holds P (get_password e name)
  unfolding get_password
  get_password-Holds e name =
      Holds-branch P (text_eq name []) (pure tt) (ask e (Command.get_secret name)) (Holds-pure P tt)
        (Holds-ask P e (Command.get_secret name) plain)

  pub change_password-Holds : (e : Env) (sts : StatefulSet) → Holds P (change_password e sts)
  unfolding change_password
  change_password-Holds e sts = record {
    at = λ w.
        let secret = secret_name w.instance.password_secret in
        let old = get_secret_key_ref_by_key password_env sts.env in
        (Holds-next P _ _
            (Holds-set_status P
              (λ s. set_cluster_reset_password s (codes "updating cluster's password")) (λ s. refl))
            (Holds-next P _ _
              (Holds-ignoring P P (update_cr_status e) (Holds-update_cr_status P e plain))
              (Holds-next P _ _ (Holds-ask_for P e e.pods (Command.list_pods []) plain) (
                Holds-next P _ _ (get_password-Holds e old) (
                  Holds-next P _ _ (get_password-Holds e secret) (
                    Holds-next P _ _ (Holds-ask P e (Command.exec_in_pods secret) plain)
                      (Holds-ask P e (Command.reset_password secret) plain))))))).at
          w;
  }
