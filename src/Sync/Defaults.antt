-- ===== src/Sync/Defaults.antt =====
-- DefaultSpec and the tests of the restore's phase of pkg/apis/redis/v1alpha1/default.go, with initRestore,
-- validateAndSetDefault and dbLoadedFromDiskWhenRestore of sync_handler.go.
use k8s_cluster.Base.{
  Bool, List, Option, Text, [], codes, false, if◌then◌else◌, ltb, none, not, some, text_eq, true, ℕ,
  ◌&&◌, ◌==◌, ◌||◌,
}
use k8s_cluster.Base.Assoc.{insert}
use k8s_cluster.Slot.Codec.{format_uint}
use k8s_cluster.Admin.{Command}
use k8s_cluster.Status.{RestorePhase}
use k8s_cluster.Sync.Errors.{Error}
use k8s_cluster.Sync.Context.{
  Step, Act, pure, ◌>>=◌, ◌>>◌, ask_for, ask, update_cr_status, fails, returns,
}
use k8s_cluster.Sync.Objects.{Backup, Quantities, Resource, Env}

abbrev pub min_master_size : ℕ
min_master_size = 3

abbrev pub default_redis_image : Text
default_redis_image = codes "redis:5.0.4-alpine"

abbrev pub prometheus_exporter_port_number : ℕ
prometheus_exporter_port_number = 9100

abbrev pub prometheus_exporter_telemetry_path : Text
prometheus_exporter_telemetry_path = codes "/metrics"

-- 200m, 2Gi, 1000m and 4Gi.
abbrev pub default_resource : Quantities
default_resource = record {
  request_memory = 2147483648;
  request_cpu = 200;
  limit_memory = 4294967296;
  limit_cpu = 1000;
}

-- The resource, and whether it was changed so far.
abbrev pub Defaulting : Type 0
Defaulting = Resource × Bool

unfoldable pub default_master_size : Defaulting → Defaulting
default_master_size (c, update) =
    if ltb c.master_size min_master_size
    then (record c { master_size = min_master_size }, true)
    else (c, update)

unfoldable pub default_image : Defaulting → Defaulting
default_image (c, update) =
    if text_eq c.image [] then (record c { image = default_redis_image }, true) else (c, update)

unfoldable pub default_service_name : Defaulting → Defaulting
default_service_name (c, update) =
    if text_eq c.service_name [] then (record c { service_name = c.name }, true) else (c, update)

unfoldable pub default_resources : Defaulting → Defaulting
default_resources (c, update) = elim c.resources [
  | none ↦ (record c { resources = some default_resource }, true)
  | some r ↦ (c, update)
]

-- The port of `mon.Prometheus` after a new one has been made for nil: 0 stands for none.
abbrev pub exporter_port : Option ℕ → ℕ
exporter_port none = 0
exporter_port (some port) = port

abbrev pub annotated : ℕ → List (Text × Text) → List (Text × Text)
annotated port m = insert (codes "prometheus.io/port") (format_uint port) (
    insert (codes "prometheus.io/path") prometheus_exporter_telemetry_path
      (insert (codes "prometheus.io/scrape") (codes "true") m))

abbrev pub entries : Option (List (Text × Text)) → List (Text × Text)
entries none = []
entries (some m) = m

abbrev pub is_none {ℓ} : {A : Type ℓ} → Option A → Bool
is_none none = true
is_none (some a) = false

-- The annotations are written on each call, which does not count as a change.
unfoldable pub default_monitor : Defaulting → Defaulting
unfolding insert format_uint
default_monitor (c, update) = elim c.monitor [
  | none ↦ (c, update)
  | some prometheus ↦
      let port0 = exporter_port prometheus in
      let port = if port0 == 0 then prometheus_exporter_port_number else port0 in
      (
        record c {
          monitor = some (some port);
          annotations = some (annotated port (entries c.annotations));
        },
        update || is_none prometheus || port0 == 0 || is_none c.annotations,
      )
]

unfoldable pub default_spec : Resource → Resource × Bool
unfolding default_master_size default_image default_service_name default_resources default_monitor
default_spec c =
    default_monitor
      (default_resources (default_service_name (default_image (default_master_size (c, false)))))

unfoldable pub is_restore_from_backup : Resource → Bool
is_restore_from_backup c = not (is_none c.backup_source)

unfoldable pub is_restored : Resource → Bool
is_restored c = elim c.status.restore_phase [ RestorePhase.succeeded ↦ true | _ ↦ false ]

unfoldable pub should_init_restore_phase : Resource → Bool
should_init_restore_phase c = elim c.status.restore_phase [ RestorePhase.unset ↦ true | _ ↦ false ]

unfoldable pub is_restore_running : Resource → Bool
is_restore_running c = elim c.status.restore_phase [ RestorePhase.running ↦ true | _ ↦ false ]

unfoldable pub is_restore_restarting : Resource → Bool
is_restore_restarting c = elim c.status.restore_phase [ RestorePhase.restart ↦ true | _ ↦ false ]

abbrev pub set_resource : (Resource → Resource) → Act Unit
set_resource f w = returns tt (record w { instance = f w.instance })

-- The restore's phase moves on.
abbrev pub with_phase : RestorePhase → Resource → Resource
with_phase phase c = record c { status = record c.status { restore_phase = phase } }

-- The part of `initRestore` behind the first test: image and size are those of the backup.
unfoldable pub take_over : Backup → Act Bool
take_over backup w =
    let c = w.instance in
    let no_image = text_eq c.image [] in
    let other_size = not (c.master_size == backup.master_size) in
    returns (no_image || other_size) (record w {
      instance = record c {
        image = if no_image then backup.cluster_image else c.image;
        master_size = backup.master_size;
      };
    })

-- A backup is stored in the status once it has succeeded.
unfoldable pub store_backup : Env → Backup → Act Backup
unfolding update_cr_status
store_backup e backup w =
    let stored = record w {
      instance =
          with_phase RestorePhase.running (record w.instance { restore_backup = some backup });
    } in
    let rest = (update_cr_status e >> pure backup) stored in
    if backup.succeeded then rest else fails (Error.plain (codes "backup is still running")) w

unfoldable pub fetch_backup : Env → Text × Text → Act Backup
unfolding ask_for store_backup
fetch_backup e (namespace, name) =
    ask_for e e.backup (Command.get_backup namespace name) >>= store_backup e

-- `initRestore` follows the pointer to the source without a test.
unfoldable pub init_from : Env → Option (Text × Text) → Option Backup → Act Bool
unfolding fetch_backup take_over
init_from e source (some backup) w = take_over backup w
init_from e none none w = Step.panics
init_from e (some source) none w = (fetch_backup e source >>= take_over) w

unfoldable pub init_restore : Env → Act Bool
unfolding init_from
init_restore e w = init_from e w.instance.backup_source w.instance.restore_backup w

unfoldable pub start_restore : Env → Act Bool
unfolding init_restore is_restore_from_backup should_init_restore_phase
start_restore e w =
    let rest = init_restore e w in
    if is_restore_from_backup w.instance && should_init_restore_phase w.instance
    then rest
    else returns false w

-- Only the masters run while a restore does.
unfoldable pub masters_only : Resource → Resource
unfolding is_restore_from_backup is_restore_running is_restore_restarting
masters_only c =
    if is_restore_from_backup c && (is_restore_running c || is_restore_restarting c)
    then record c { cluster_replicas = 0 }
    else c

unfoldable pub set_defaults : Env → Bool → Act Unit
unfolding masters_only default_spec ask
set_defaults e update w =
    let (c, changed) = default_spec (masters_only w.instance) in
    let v = record w { instance = c } in
    if update || changed then ask e Command.update_cr v else returns tt v

unfoldable pub validate_and_set_default : Env → Act Unit
unfolding start_restore set_defaults
validate_and_set_default e = start_restore e >>= set_defaults e

unfoldable pub db_loaded_from_disk_when_restore : Resource → Resource
unfolding is_restore_from_backup is_restored insert
db_loaded_from_disk_when_restore c = elim c.config [
  | none ↦ c
  | some m ↦
      if is_restore_from_backup c && not (is_restored c)
      then record c { config = some (insert (codes "appendonly") (codes "no") m) }
      else c
]
