-- ===== src/Sync/Holds.antt =====
-- What holds at the end of a call, through each way of composing calls: the restore follows on,
-- and an error satisfies a predicate.
use k8s_cluster.Sync.Ends.{
  Holds, Ends-and_then, Ends-handle, Ends-map_error, Ends-forgive, Ends-or_else, Ends-answer,
  Ends-fetched, Any,
}
use k8s_cluster.Base.{
  Bool, Option, Text, codes, false, if◌then◌else◌, refl, suc, true, zero, ℕ, ◌++◌, ◌≡◌,
}
use k8s_cluster.Admin.{Command, Log}
use k8s_cluster.Status.{RedisClusterStatus}
use k8s_cluster.Sync.Errors.{Error}
use k8s_cluster.Sync.Context.{
  World, Act, pure, fail, ◌>>=◌, ◌>>◌, wrapped, ignoring, handle, logged, answer, success, ask_for,
  fetch, get, ask, update_cr_status, waiting, set_status,
}
use k8s_cluster.Sync.Objects.{Fetched, Env}
use k8s_cluster.Sync.Phases.{Follows-same, Follows-phase}

module _ {A : Type 0} (P : Error → Type 0) where
  pub Holds-pure : (a : A) → Holds {A = A} P (pure a)
  Holds-pure a = record { at = λ w. Follows-same w.instance }

  pub Holds-fail : (err : Error) → P err → Holds {A = A} P (fail err)
  Holds-fail err p = record { at = λ w. (Follows-same w.instance, p) }

  pub Holds-then :
      {B : Type 0} (m : Act B) (f : B → Act A)
      → Holds P m
      → ((a : B) → Holds P (f a))
      → Holds P (m >>= f)
  Holds-then m f g k = record { at = λ w. Ends-and_then P w (m w) f (g.at w) k }

  pub Holds-next : {B : Type 0} (m : Act B) (f : Act A) → Holds P m → Holds P f → Holds P (m >> f)
  Holds-next m f g k = Holds-then m (λ a. f) g (λ a. k)

  pub Holds-wrapped :
      (Q : Error → Type 0) (f : Error → Error) (m : Act A)
      → ((err : Error) → Q err → P (f err))
      → Holds Q m
      → Holds P (wrapped f m)
  Holds-wrapped Q f m k g = record { at = λ w. Ends-map_error Q P f w (m w) k (g.at w) }

  pub Holds-handle :
      {B : Type 0} (Q : Error → Type 0) (m : Act B) (bad : Error → Act A) (good : B → Act A)
      → Holds Q m
      → ((err : Error) → Q err → Holds P (bad err))
      → ((a : B) → Holds P (good a))
      → Holds P (λ w. handle (m w) bad good)
  Holds-handle Q m bad good g b k = record {
    at = λ w. Ends-handle Q P w (m w) bad good (g.at w) b k;
  }

  -- A call that depends on something read from the state.
  pub Holds-look :
      {X : Type 0} (read : World → X) (f : X → Act A)
      → ((x : X) → Holds P (f x))
      → Holds P (λ w. f (read w) w)
  Holds-look read f k = record { at = λ w. (k (read w)).at w }

  pub Holds-ask_for :
      (e : Env) (read : Log → Option A) (c : Command)
      → ((t : Text) → P (Error.plain t))
      → Holds P (ask_for e read c)
  unfolding ask_for
  Holds-ask_for e read c p = record {
    at = λ w. Ends-answer P e (read (logged c w).log) (logged c w) p;
  }

  pub Holds-fetch :
      (e : Env) (read : Log → Fetched A) (c : Command)
      → ((t : Text) → P (Error.plain t))
      → Holds P (fetch e read c)
  unfolding fetch
  Holds-fetch e read c p = record {
    at = λ w. Ends-fetched P e (read (logged c w).log) (logged c w) p;
  }

pub Holds-if :
    {A : Type 0} (P : Error → Type 0) (b : Bool) (m n : Act A)
    → Holds P m
    → Holds P n
    → Holds P (λ w. if b then m w else n w)
Holds-if P true m n g k = record { at = λ w. g.at w }
Holds-if P false m n g k = record { at = λ w. k.at w }

pub Holds-branch :
    {A : Type 0} (P : Error → Type 0) (b : Bool) (m n : Act A)
    → Holds P m
    → Holds P n
    → Holds P (if b then m else n)
Holds-branch P true m n g k = g
Holds-branch P false m n g k = k

pub Holds-ignoring : (P Q : Error → Type 0) (m : Act Unit) → Holds P m → Holds Q (ignoring m)
Holds-ignoring P Q m g = record { at = λ w. Ends-forgive P Q w (m w) (g.at w) }

pub Holds-ask :
    (P : Error → Type 0) (e : Env) (c : Command)
    → ((t : Text) → P (Error.plain t))
    → Holds P (ask e c)
unfolding ask
Holds-ask P e c p = Holds-ask_for P e (λ log. success (e.oracle log)) c p

pub Holds-get :
    {A : Type 0} (P : Error → Type 0) (e : Env) (read : Log → Fetched A) (c : Command)
    → ((t : Text) → P (Error.plain t))
    → Holds P (get e read c)
unfolding get
Holds-get P e read c p =
    Holds-then P (fetch e read c) (answer e) (Holds-fetch P e read c p)
      (λ o. record { at = λ w. Ends-answer P e o w p })

-- A status with the same phase.
pub Holds-set_status :
    (P : Error → Type 0) (f : RedisClusterStatus → RedisClusterStatus)
    → ((s : RedisClusterStatus) → (f s).restore_phase ≡ s.restore_phase)
    → Holds P (set_status f)
unfolding set_status
Holds-set_status P f k = record {
  at = λ w.
      Follows-phase w.instance (record w.instance { status = f w.instance.status })
        (k w.instance.status) refl;
}

pub Holds-update_cr_status :
    (P : Error → Type 0) (e : Env) → ((t : Text) → P (Error.plain t)) → Holds P (update_cr_status e)
unfolding update_cr_status
Holds-update_cr_status P e p = record { at = λ w. (Holds-ask P e _ p).at w }

pub Holds-waiting :
    (P : Error → Type 0) (name : Text) (ticks : ℕ) (handler : Act Unit)
    → ((t : Text) → P (Error.plain t))
    → Holds Any handler
    → Holds P (waiting name ticks handler)
unfolding waiting
Holds-waiting P name zero handler p k =
    Holds-fail P (Error.plain (name ++ codes " timed out")) (p _)
Holds-waiting P name (suc ticks) handler p k = record {
  at = λ w.
      Ends-or_else Any P w (handler w) (waiting name ticks handler) (k.at w)
        (Holds-waiting P name ticks handler p k);
}
