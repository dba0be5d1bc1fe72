-- ===== src/Sync/Context.antt =====
-- The calls to Redis and Kubernetes and their composition: a call returns, fails with an error, panics, or has run out of fuel.
use k8s_cluster.Sync.Objects.{Resource, Fetched, Env}
use k8s_cluster.Base.{
  Bool, Option, Text, [], codes, false, none, some, suc, true, zero, ℕ, ◌++◌, ◌∷◌,
}
use k8s_cluster.Node.{Heap}
use k8s_cluster.Admin.{Command, Log}
use k8s_cluster.Status.{RedisClusterStatus, status_text}
use k8s_cluster.Sync.Errors.{Error}

pub record World : Type 0 where
  pub heap : Heap
  pub log : Log
  pub instance : Resource

pub data Step (A : Type 0) : Type 0 where
  returns : A → World → Step A
  fails : Error → World → Step A
  panics : Step A
  out_of_fuel : Step A

abbrev pub Act : Type 0 → Type 0
Act A = World → Step A

abbrev pub pure : {A : Type 0} → A → Act A
pure a w = returns a w

abbrev pub fail : {A : Type 0} → Error → Act A
fail err w = fails err w

-- Goes on where a call has returned.
abbrev pub and_then : {A B : Type 0} → Step A → (A → World → Step B) → Step B
and_then (returns a w) f = f a w
and_then (fails err w) f = fails err w
and_then panics f = panics
and_then out_of_fuel f = out_of_fuel

infixl 5 ◌>>=◌
abbrev pub ◌>>=◌ : {A B : Type 0} → Act A → (A → Act B) → Act B
(m >>= f) w = and_then (m w) f

infixl 5 ◌>>◌
abbrev pub ◌>>◌ : {A B : Type 0} → Act A → Act B → Act B
(m >> f) w = and_then (m w) (λ a. f)

-- Passes an error on as another one.
abbrev pub map_error : {A : Type 0} → (Error → Error) → Step A → Step A
map_error f (returns a w) = returns a w
map_error f (fails err w) = fails (f err) w
map_error f panics = panics
map_error f out_of_fuel = out_of_fuel

abbrev pub wrapped : {A : Type 0} → (Error → Error) → Act A → Act A
wrapped f m w = map_error f (m w)

-- Drops an error.
abbrev pub forgive : Step Unit → Step Unit
forgive (returns a w) = returns a w
forgive (fails err w) = returns tt w
forgive panics = panics
forgive out_of_fuel = out_of_fuel

-- Goes on after an error too: the source only logs it.
abbrev pub ignoring : Act Unit → Act Unit
ignoring m w = forgive (m w)

-- Goes on in one of two ways.
abbrev pub handle : {A B : Type 0} → Step A → (Error → Act B) → (A → Act B) → Step B
handle (returns a w) bad good = good a w
handle (fails err w) bad good = bad err w
handle panics bad good = panics
handle out_of_fuel bad good = out_of_fuel

-- Goes on where a call has failed.
abbrev pub or_else : Step Unit → Act Unit → Step Unit
or_else (returns a w) f = returns a w
or_else (fails err w) f = f w
or_else panics f = panics
or_else out_of_fuel f = out_of_fuel

-- The world after one more command.
abbrev pub logged : Command → World → World
logged c w = record w { log = w.log ++ c ∷ [] }

-- The answer to the last command of the log.
abbrev pub answer : {A : Type 0} → Env → Option A → World → Step A
answer e none w = fails (Error.plain (e.said w.log)) w
answer e (some a) w = returns a w

abbrev pub success : Bool → Option (Unit {0})
success false = none
success true = some tt

-- Sends a command whose answer is `read` from the log.
unfoldable pub ask_for : {A : Type 0} → Env → (Log → Option A) → Command → Act A
ask_for e read c w = answer e (read (logged c w).log) (logged c w)

-- The answer to a Get: `none` where the object does not exist.
abbrev pub fetched : {A : Type 0} → Env → Fetched A → World → Step (Option A)
fetched e (Fetched.found a) w = returns (some a) w
fetched e Fetched.not_found w = returns none w
fetched e Fetched.failed w = fails (Error.plain (e.said w.log)) w

unfoldable pub fetch : {A : Type 0} → Env → (Log → Fetched A) → Command → Act (Option A)
fetch e read c w = fetched e (read (logged c w).log) (logged c w)

-- A Get that takes a missing object for an error.
unfoldable pub get : {A : Type 0} → Env → (Log → Fetched A) → Command → Act A
unfolding fetch
get e read c w = and_then (fetch e read c w) (answer e)

-- Sends a command that answers with an error or without one.
unfoldable pub ask : Env → Command → Act Unit
unfolding ask_for
ask e c w = ask_for e (λ log. success (e.oracle log)) c w

-- Sets the status in memory.
unfoldable pub set_status : (RedisClusterStatus → RedisClusterStatus) → Act Unit
set_status f w =
    returns tt (record w { instance = record w.instance { status = f w.instance.status } })

-- `UpdateCRStatus` sends what is in memory.
unfoldable pub update_cr_status : Env → Act Unit
unfolding ask
update_cr_status e w =
    ask e (Command.update_status (status_text w.instance.status.status) w.instance.status.reason) w

-- `waiting` asks the handler once for each tick of a second before the timeout, until it has no error.
unfoldable pub waiting : Text → ℕ → Act Unit → Act Unit
waiting name zero handler w = fails (Error.plain (name ++ codes " timed out")) w
waiting name (suc ticks) handler w = or_else (handler w) (waiting name ticks handler)
