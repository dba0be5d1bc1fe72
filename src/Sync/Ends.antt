-- ===== src/Sync/Ends.antt =====
-- What holds at the end of a step: the restore follows on, and an error satisfies a predicate.
use k8s_cluster.Base.{Bool, Option, Text, false, if◌then◌else◌, none, refl, some, true, ◌≡◌}
use k8s_cluster.Sync.Errors.{Error}
use k8s_cluster.Sync.Context.{
  World, Step, Act, and_then, map_error, forgive, handle, or_else, answer, fetched,
}
use k8s_cluster.Sync.Objects.{Fetched, Env}
use k8s_cluster.Sync.Phases.{Follows, Follows-same, Follows-trans}

abbrev pub Ends : {A : Type 0} → (Error → Type 0) → World → Step A → Type 0
Ends P w (Step.returns a v) = Follows w.instance v.instance
Ends P w (Step.fails err v) = Follows w.instance v.instance × P err
Ends P w Step.panics = Unit
Ends P w Step.out_of_fuel = Unit

pub record Holds {A : Type 0} (P : Error → Type 0) (m : Act A) : Type 0 where
  pub at : (w : World) → Ends P w (m w)

pub Ends-after :
    {A : Type 0} (P : Error → Type 0) (w v : World) (s : Step A)
    → Follows w.instance v.instance
    → Ends P v s
    → Ends P w s
Ends-after P w v (Step.returns a u) g k = Follows-trans w.instance v.instance u.instance g k
Ends-after P w v (Step.fails err u) g k =
    (Follows-trans w.instance v.instance u.instance g k.0, k.1)
Ends-after P w v Step.panics g k = tt
Ends-after P w v Step.out_of_fuel g k = tt

pub Ends-and_then :
    {A B : Type 0} (P : Error → Type 0) (w : World) (s : Step A) (f : A → Act B)
    → Ends P w s
    → ((a : A) → Holds P (f a))
    → Ends P w (and_then s f)
Ends-and_then P w (Step.returns a v) f g k = Ends-after P w v (f a v) g ((k a).at v)
Ends-and_then P w (Step.fails err v) f g k = g
Ends-and_then P w Step.panics f g k = tt
Ends-and_then P w Step.out_of_fuel f g k = tt

pub Ends-handle :
    {A B : Type 0} (P Q : Error → Type 0) (w : World) (s : Step A) (bad : Error → Act B)
    (good : A → Act B)
    → Ends P w s
    → ((err : Error) → P err → Holds Q (bad err))
    → ((a : A) → Holds Q (good a))
    → Ends Q w (handle s bad good)
Ends-handle P Q w (Step.returns a v) bad good g b k = Ends-after Q w v (good a v) g ((k a).at v)
Ends-handle P Q w (Step.fails err v) bad good g b k =
    Ends-after Q w v (bad err v) g.0 ((b err g.1).at v)
Ends-handle P Q w Step.panics bad good g b k = tt
Ends-handle P Q w Step.out_of_fuel bad good g b k = tt

pub Ends-map_error :
    {A : Type 0} (P Q : Error → Type 0) (f : Error → Error) (w : World) (s : Step A)
    → ((err : Error) → P err → Q (f err))
    → Ends P w s
    → Ends Q w (map_error f s)
Ends-map_error P Q f w (Step.returns a v) k g = g
Ends-map_error P Q f w (Step.fails err v) k g = (g.0, k err g.1)
Ends-map_error P Q f w Step.panics k g = tt
Ends-map_error P Q f w Step.out_of_fuel k g = tt

pub Ends-forgive :
    (P Q : Error → Type 0) (w : World) (s : Step Unit) → Ends P w s → Ends Q w (forgive s)
Ends-forgive P Q w (Step.returns a v) g = g
Ends-forgive P Q w (Step.fails err v) g = g.0
Ends-forgive P Q w Step.panics g = tt
Ends-forgive P Q w Step.out_of_fuel g = tt

pub Ends-or_else :
    (P Q : Error → Type 0) (w : World) (s : Step Unit) (f : Act Unit)
    → Ends P w s
    → Holds Q f
    → Ends Q w (or_else s f)
Ends-or_else P Q w (Step.returns a v) f g k = g
Ends-or_else P Q w (Step.fails err v) f g k = Ends-after Q w v (f v) g.0 (k.at v)
Ends-or_else P Q w Step.panics f g k = tt
Ends-or_else P Q w Step.out_of_fuel f g k = tt

pub Ends-answer :
    {A : Type 0} (P : Error → Type 0) (e : Env) (o : Option A) (w : World)
    → ((t : Text) → P (Error.plain t))
    → Ends P w (answer e o w)
Ends-answer P e none w p = (Follows-same w.instance, p (e.said w.log))
Ends-answer P e (some a) w p = Follows-same w.instance

pub Ends-fetched :
    {A : Type 0} (P : Error → Type 0) (e : Env) (o : Fetched A) (w : World)
    → ((t : Text) → P (Error.plain t))
    → Ends P w (fetched e o w)
Ends-fetched P e (Fetched.found a) w p = Follows-same w.instance
Ends-fetched P e Fetched.not_found w p = Follows-same w.instance
Ends-fetched P e Fetched.failed w p = (Follows-same w.instance, p (e.said w.log))

-- Every error.
abbrev pub Any : Error → Type 0
Any err = Unit

-- A branch, with what its test says.
pub Ends-if :
    {A : Type 0} (P : Error → Type 0) (w : World) (b : Bool) (s t : Step A)
    → (b ≡ true → Ends P w s)
    → (b ≡ false → Ends P w t)
    → Ends P w (if b then s else t)
Ends-if P w true s t g k = g refl
Ends-if P w false s t g k = k refl
