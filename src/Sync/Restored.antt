-- ===== src/Sync/Restored.antt =====
-- The defaults and the start of a restore keep the restore's order.
use k8s_cluster.Base.{
  &&-elim, Bool, Bool-cases, Option, Option-cases, Text, arith, false, if◌then◌else◌, inl, inr,
  none, not, refl, some, subst, sym, true, ◌&&◌, ◌||◌, ◌∙◌, ◌≡◌,
}
use k8s_cluster.Admin.{Command}
use k8s_cluster.Status.{RestorePhase}
use k8s_cluster.Sync.Errors.{Error}
use k8s_cluster.Sync.Context.{
  World, Step, pure, and_then, ◌>>◌, logged, answer, ask_for, ask, update_cr_status,
}
use k8s_cluster.Sync.Objects.{Backup, Resource, Env}
use k8s_cluster.Sync.Defaults.{
  Defaulting, default_master_size, default_image, default_service_name, default_resources,
  default_monitor, default_spec, is_restore_from_backup, is_restored, should_init_restore_phase,
  is_restore_running, is_restore_restarting, set_resource, with_phase, take_over, store_backup,
  fetch_backup, init_from, init_restore, start_restore, masters_only, set_defaults,
  validate_and_set_default, db_loaded_from_disk_when_restore,
}
use k8s_cluster.Sync.Phases.{◌⟶*◌, Follows, Follows-same, Follows-trans, steps, starts, stays}
use k8s_cluster.Sync.Holds.{
  Holds-pure, Holds-then, Holds-next, Holds-if, Holds-ask, Holds-update_cr_status,
}
use k8s_cluster.Sync.Ends.{Ends, Holds, Ends-after, Ends-and_then, Ends-if}

-- Status and backup stay as they are.
abbrev pub Kept : Resource → Resource → Type 0
Kept c d = (d.status ≡ c.status) × (d.restore_backup ≡ c.restore_backup)

pub Kept-Follows : (c d : Resource) → Kept c d → Follows c d
Kept-Follows c d k = rw (k.0, k.1) (Follows-same c)

Kept-trans : (c d f : Resource) → Kept c d → Kept d f → Kept c f
Kept-trans c d f h k = (k.0 ∙ h.0, k.1 ∙ h.1)

-- A change under a test.
Kept-if :
    (b : Bool) (c : Resource) (x y : Defaulting)
    → Kept c x.0
    → Kept c y.0
    → Kept c (if◌then◌else◌ {A = Defaulting} b x y).0
Kept-if true c x y h k = h
Kept-if false c x y h k = k

default_master_size-Kept : (d : Defaulting) → Kept d.0 (default_master_size d).0
unfolding default_master_size
default_master_size-Kept (c, update) = Kept-if _ c _ _ (refl, refl) (refl, refl)

default_image-Kept : (d : Defaulting) → Kept d.0 (default_image d).0
unfolding default_image
default_image-Kept (c, update) = Kept-if _ c _ _ (refl, refl) (refl, refl)

default_service_name-Kept : (d : Defaulting) → Kept d.0 (default_service_name d).0
unfolding default_service_name
default_service_name-Kept (c, update) = Kept-if _ c _ _ (refl, refl) (refl, refl)

default_resources-Kept : (d : Defaulting) → Kept d.0 (default_resources d).0
unfolding default_resources
default_resources-Kept (c, update) = elim (Option-cases c.resources) [
  | inl n ↦ rw n (refl, refl)
  | inr (r, y) ↦ rw y (refl, refl)
]

default_monitor-Kept : (d : Defaulting) → Kept d.0 (default_monitor d).0
unfolding default_monitor
default_monitor-Kept (c, update) = elim (Option-cases c.monitor) [
  | inl n ↦ rw n (refl, refl)
  | inr (r, y) ↦ rw y (refl, refl)
]

default_spec-Kept : (c : Resource) → Kept c (default_spec c).0
unfolding default_spec
default_spec-Kept c =
    let d1 = default_master_size (c, false) in
    let d2 = default_image d1 in
    let d3 = default_service_name d2 in
    let d4 = default_resources d3 in
    Kept-trans c d4.0 (default_monitor d4).0
      (Kept-trans c d3.0 d4.0
        (Kept-trans c d2.0 d3.0
          (Kept-trans c d1.0 d2.0 (default_master_size-Kept (c, false)) (default_image-Kept d1))
          (default_service_name-Kept d2))
        (default_resources-Kept d3))
      (default_monitor-Kept d4)

masters_only-Kept : (c : Resource) → Kept c (masters_only c)
unfolding masters_only
masters_only-Kept c =
    elim (Bool-cases
      (is_restore_from_backup c && (is_restore_running c || is_restore_restarting c))) [
        | inl y ↦ rw y (refl, refl)
        | inr n ↦ rw n (refl, refl)
      ]

db_loaded_from_disk_when_restore-Kept : (c : Resource) → Kept c (db_loaded_from_disk_when_restore c)
unfolding db_loaded_from_disk_when_restore
db_loaded_from_disk_when_restore-Kept c = elim (Option-cases c.config) [
  | inl n ↦ rw n (refl, refl)
  | inr (m, y) ↦ elim (Bool-cases (is_restore_from_backup c && not (is_restored c))) [
    | inl t ↦ rw (y, t) (refl, refl)
    | inr f ↦ rw (y, f) (refl, refl)
  ]
]

-- The phase is unset.
unset_phase :
    (p : RestorePhase)
    → (elim p as (λ x. Bool) [ RestorePhase.unset ↦ true | _ ↦ false ]) ≡ true
    → p ≡ RestorePhase.unset
unset_phase RestorePhase.unset h = refl
unset_phase RestorePhase.running h = absurd (ground arith)
unset_phase RestorePhase.restart h = absurd (ground arith)
unset_phase RestorePhase.succeeded h = absurd (ground arith)

unset_of :
    (c : Resource)
    → should_init_restore_phase c ≡ true
    → c.status.restore_phase ≡ RestorePhase.unset
unfolding should_init_restore_phase
unset_of c h = unset_phase c.status.restore_phase h

module _ (P : Error → Type 0) (plain : (t : Text) → P (Error.plain t)) where
  store_backup-Ends :
      (e : Env) (b : Backup) (w : World)
      → w.instance.status.restore_phase ≡ RestorePhase.unset
      → Ends P w (store_backup e b w)
  unfolding store_backup
  store_backup-Ends e b w u =
      let stored = record w {
        instance = with_phase RestorePhase.running (record w.instance { restore_backup = some b });
      } in
      let rest = update_cr_status e >> pure b in
      Ends-if P w b.succeeded (rest stored) _
        (λ y.
          Ends-after P w stored (rest stored)
            (subst (λ p. p ⟶* RestorePhase.running) (sym u) (steps starts stays), λ k. y)
            ((Holds-next P (update_cr_status e) (pure b) (Holds-update_cr_status P e plain)
                (Holds-pure P b)).at
              stored))
        (λ n. (Follows-same w.instance, plain _))

  fetch_backup-Ends :
      (e : Env) (source : Text × Text) (w : World)
      → w.instance.status.restore_phase ≡ RestorePhase.unset
      → Ends P w (fetch_backup e source w)
  unfolding fetch_backup ask_for
  fetch_backup-Ends e (namespace, name) w u =
      answered (e.backup (logged (Command.get_backup namespace name) w).log)
    where
      v : World
      v = logged (Command.get_backup namespace name) w

      answered : (o : Option Backup) → Ends P v (and_then (answer e o v) (store_backup e))
      answered none = (Follows-same w.instance, plain (e.said v.log))
      answered (some b) = store_backup-Ends e b v u

  take_over-Holds : (b : Backup) → Holds P (take_over b)
  unfolding take_over
  take_over-Holds b = record { at = λ w. Follows-same w.instance }

  init_from-Ends :
      (e : Env) (source : Option (Text × Text)) (backup : Option Backup) (w : World)
      → w.instance.status.restore_phase ≡ RestorePhase.unset
      → Ends P w (init_from e source backup w)
  unfolding init_from
  init_from-Ends e source (some b) w u = (take_over-Holds b).at w
  init_from-Ends e none none w u = tt
  init_from-Ends e (some source) none w u =
      Ends-and_then P w (fetch_backup e source w) take_over (fetch_backup-Ends e source w u)
        take_over-Holds

  start_restore-Holds : (e : Env) → Holds P (start_restore e)
  unfolding start_restore init_restore
  start_restore-Holds e = record {
    at = λ w.
        Ends-if P w (is_restore_from_backup w.instance && should_init_restore_phase w.instance)
          (init_restore e w) (Step.returns false w)
          (λ y.
            init_from-Ends e w.instance.backup_source w.instance.restore_backup w
              (unset_of w.instance (&&-elim _ _ y).1))
          (λ n. Follows-same w.instance);
  }

  set_defaults-Holds : (e : Env) (update : Bool) → Holds P (set_defaults e update)
  unfolding set_defaults
  set_defaults-Holds e update = record {
    at = λ w.
        let c = masters_only w.instance in
        let d = default_spec c in
        let v = record w { instance = d.0 } in
        Ends-after P w v _
          (Follows-trans w.instance c d.0 (Kept-Follows w.instance c (masters_only-Kept w.instance))
            (Kept-Follows c d.0 (default_spec-Kept c)))
          ((Holds-if P (update || d.1) (ask e Command.update_cr) (pure tt)
              (Holds-ask P e Command.update_cr plain) (Holds-pure P tt)).at
            v);
  }

  pub validate_and_set_default-Holds : (e : Env) → Holds P (validate_and_set_default e)
  unfolding validate_and_set_default
  validate_and_set_default-Holds e =
      Holds-then P (start_restore e) (set_defaults e) (start_restore-Holds e) (set_defaults-Holds e)

  pub load_from_disk-Holds : Holds P (set_resource db_loaded_from_disk_when_restore)
  load_from_disk-Holds = record {
    at = λ w.
        Kept-Follows w.instance (db_loaded_from_disk_when_restore w.instance)
          (db_loaded_from_disk_when_restore-Kept w.instance);
  }
