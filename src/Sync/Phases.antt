-- ===== src/Sync/Phases.antt =====
-- The phases of a restore, and what every operation keeps of them.
use k8s_cluster.Base.{Option, none, some, true, ◌≡◌}
use k8s_cluster.Status.{RestorePhase}
use k8s_cluster.Sync.Objects.{Backup, Resource}

infix 40 ◌⟶◌ ◌⟶*◌
-- One step of a restore.
pub data ◌⟶◌ : RestorePhase → RestorePhase → Type 0 where
  starts : RestorePhase.unset ⟶ RestorePhase.running
  restarts : RestorePhase.running ⟶ RestorePhase.restart
  succeeds : RestorePhase.restart ⟶ RestorePhase.succeeded

-- Any number of steps.
pub data ◌⟶*◌ : RestorePhase → RestorePhase → Type 0 where
  stays : {p : RestorePhase} → p ⟶* p
  steps : {p q r : RestorePhase} → p ⟶ q → q ⟶* r → p ⟶* r

pub ⟶*-trans : {p q r : RestorePhase} → p ⟶* q → q ⟶* r → p ⟶* r
⟶*-trans stays k = k
⟶*-trans (steps s h) k = steps s (⟶*-trans h k)

-- A restore that has started has a backup that succeeded.
abbrev pub Backed : RestorePhase → Option Backup → Type 0
Backed RestorePhase.unset b = Unit
Backed _ none = ⊥
Backed _ (some b) = b.succeeded ≡ true

abbrev pub IsBacked : Resource → Type 0
IsBacked c = Backed c.status.restore_phase c.restore_backup

-- The restore moves forward only, and keeps its backup.
abbrev pub Follows : Resource → Resource → Type 0
Follows c d = (c.status.restore_phase ⟶* d.status.restore_phase) × (IsBacked c → IsBacked d)

pub Follows-same : (c : Resource) → Follows c c
Follows-same c = (stays, λ k. k)

pub Follows-trans : (c d f : Resource) → Follows c d → Follows d f → Follows c f
Follows-trans c d f h k = (⟶*-trans h.0 k.0, λ b. k.1 (h.1 b))

pub Follows-phase :
    (c d : Resource)
    → d.status.restore_phase ≡ c.status.restore_phase
    → d.restore_backup ≡ c.restore_backup
    → Follows c d
Follows-phase c d h k = rw (h, k) (Follows-same c)
