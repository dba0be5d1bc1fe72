-- ===== src/Sync/Sends.antt =====
-- Which commands a call may add to the log, through each way of composing calls.
use k8s_cluster.Base.{
  none, some, zero, All, All-append, [], ap, refl, sym, ◌++◌, ◌∙◌, ◌∷◌, ◌≡◌, Text, Option, ℕ, suc,
  some,
}
use k8s_cluster.Admin.{Command, Log}
use k8s_cluster.Sync.Errors.{Error}
use k8s_cluster.Sync.Context.{
  World, Step, Act, and_then, ask, waiting, forgive, map_error, or_else, ask_for, success, answer,
  logged,
}
use k8s_cluster.Sync.Objects.{Env}

append_empty : (xs : Log) → xs ++ [] ≡ xs
append_empty [] = refl
append_empty (x ∷ xs) = ap (λ l. x ∷ l) (append_empty xs)

append_assoc : (xs ys zs : Log) → (xs ++ ys) ++ zs ≡ xs ++ (ys ++ zs)
append_assoc [] ys zs = refl
append_assoc (x ∷ xs) ys zs = ap (λ l. x ∷ l) (append_assoc xs ys zs)

module _ (P : Command → Type 0) where
  -- A log with further commands that satisfy `P`.
  abbrev pub Grew : Log → Log → Type 0
  Grew log log' = (extra : Log) × (log' ≡ log ++ extra) × All P extra

  -- The step returns or fails, what it adds satisfies `P`, and where it returns, `Q` holds.
  abbrev pub Sends : {A : Type 0} → Type 0 → Log → Step A → Type 0
  Sends Q log (Step.returns a w) = Grew log w.log × Q
  Sends Q log (Step.fails err w) = Grew log w.log
  Sends Q log Step.panics = ⊥
  Sends Q log Step.out_of_fuel = ⊥

  pub Grew-same : (log : Log) → Grew log log
  Grew-same log = ([], sym (append_empty log), tt)

  pub Grew-one : (log : Log) (c : Command) → P c → Grew log (log ++ c ∷ [])
  Grew-one log c h = (c ∷ [], refl, (h, tt))

  pub Grew-trans : (l m n : Log) → Grew l m → Grew m n → Grew l n
  Grew-trans l m n (xs, e, h) (ys, f, k) =
      (xs ++ ys, f ∙ (ap (λ t. t ++ ys) e ∙ append_assoc l xs ys), All-append P xs ys h k)

  pub Sends-after :
      {A : Type 0} (Q : Type 0) (l m : Log) (s : Step A) → Grew l m → Sends Q m s → Sends Q l s
  Sends-after Q l m (Step.returns a w) g k = (Grew-trans l m w.log g k.0, k.1)
  Sends-after Q l m (Step.fails err w) g k = Grew-trans l m w.log g k
  Sends-after Q l m Step.panics g k = k
  Sends-after Q l m Step.out_of_fuel g k = k

  -- What is known holds after the step too.
  pub Sends-and :
      {A : Type 0} (Q R : Type 0) (log : Log) (s : Step A) → R → Sends Q log s → Sends (R × Q) log s
  Sends-and Q R log (Step.returns a w) r k = (k.0, (r, k.1))
  Sends-and Q R log (Step.fails err w) r k = k
  Sends-and Q R log Step.panics r k = k
  Sends-and Q R log Step.out_of_fuel r k = k

  pub Sends-and_then :
      {A B : Type 0} (Q R : Type 0) (log : Log) (s : Step A) (f : A → World → Step B)
      → Sends Q log s
      → (Q → (a : A) (v : World) → Sends R v.log (f a v))
      → Sends R log (and_then s f)
  Sends-and_then Q R log (Step.returns a w) f g k = Sends-after R log w.log (f a w) g.0 (k g.1 a w)
  Sends-and_then Q R log (Step.fails err w) f g k = g
  Sends-and_then Q R log Step.panics f g k = g
  Sends-and_then Q R log Step.out_of_fuel f g k = g

  pub Sends-map_error :
      {A : Type 0} (Q : Type 0) (f : Error → Error) (log : Log) (s : Step A)
      → Sends Q log s
      → Sends Q log (map_error f s)
  Sends-map_error Q f log (Step.returns a w) k = k
  Sends-map_error Q f log (Step.fails err w) k = k
  Sends-map_error Q f log Step.panics k = k
  Sends-map_error Q f log Step.out_of_fuel k = k

  pub Sends-forgive : (log : Log) (s : Step Unit) → Sends Unit log s → Sends Unit log (forgive s)
  Sends-forgive log (Step.returns a w) k = k
  Sends-forgive log (Step.fails err w) k = (k, tt)
  Sends-forgive log Step.panics k = k
  Sends-forgive log Step.out_of_fuel k = k

  Sends-or_else :
      (log : Log) (s : Step Unit) (f : Act Unit)
      → Sends Unit log s
      → ((v : World) → Sends Unit v.log (f v))
      → Sends Unit log (or_else s f)
  Sends-or_else log (Step.returns a w) f g k = g
  Sends-or_else log (Step.fails err w) f g k = Sends-after Unit log w.log (f w) g (k w)
  Sends-or_else log Step.panics f g k = g
  Sends-or_else log Step.out_of_fuel f g k = g

  pub Sends-waiting :
      (name : Text) (ticks : ℕ) (handler : Act Unit) (w : World)
      → ((v : World) → Sends Unit v.log (handler v))
      → Sends Unit w.log (waiting name ticks handler w)
  unfolding waiting
  Sends-waiting name zero handler w k = Grew-same w.log
  Sends-waiting name (suc ticks) handler w k =
      Sends-or_else w.log (handler w) (waiting name ticks handler) (k w)
        (λ v. Sends-waiting name ticks handler v k)

  Sends-answer :
      {A : Type 0} (e : Env) (log : Log) (o : Option A) (w : World)
      → Grew log w.log
      → Sends Unit log (answer e o w)
  Sends-answer e log none w g = g
  Sends-answer e log (some a) w g = (g, tt)

  pub Sends-ask_for :
      {A : Type 0} (e : Env) (read : Log → Option A) (c : Command) (w : World)
      → P c
      → Sends Unit w.log (ask_for e read c w)
  unfolding ask_for
  Sends-ask_for e read c w h =
      Sends-answer e w.log (read (logged c w).log) (logged c w) (Grew-one w.log c h)

  pub Sends-ask : (e : Env) (c : Command) (w : World) → P c → Sends Unit w.log (ask e c w)
  unfolding ask
  Sends-ask e c w h = Sends-ask_for e (λ log. success (e.oracle log)) c w h
