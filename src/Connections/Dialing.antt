-- ===== src/Connections/Dialing.antt =====
-- AdminConnections. A client is a number; what the network does is decided by all its events so far.
use k8s_cluster.Base.{
  Bool, List, Option, Text, [], false, if◌then◌else◌, none, not, some, suc, text_eq, true, zero, ℕ,
  ◌++◌, ◌+◌, ◌∷◌,
}
use k8s_cluster.Base.Assoc.{insert, lookup}

pub data Event : Type 0 where
  dialed : (addr : Text) (client : ℕ) → Event
  closed : (client : ℕ) → Event
  set_name : (client : ℕ) → Event

-- A response to a command: none, one without error, an error of the network (a timeout or a
-- net.OpError), or another error.
pub data Response : Type 0 where
  nil_response fine network_error other_error : Response

-- The client's name is sent where it is not empty (`named`). NewClient may fail; a command has a response.
pub record Network : Type 0 where
  pub named : Bool
  pub dials : List Event → Bool
  pub responds : List Event → Response

pub record Pool : Type 0 where
  pub clients : List (Text × ℕ)
  pub next_id : ℕ
  pub events : List Event

-- What a call that connects returns: the client, whether there is no error, and the pool.
pub record Connected : Type 0 where
  pub client : Option ℕ
  pub success : Bool
  pub pool : Pool

abbrev pub happened : Event → Pool → Pool
happened event p = record p { events = p.events ++ event ∷ [] }

-- `delete(m, k)`
unfoldable pub delete : Text → List (Text × ℕ) → List (Text × ℕ)
delete k [] = []
delete k ((j, c) ∷ m) = let rest = delete k m in if text_eq j k then rest else (j, c) ∷ rest

abbrev pub close_found : Option ℕ → Pool → Pool
close_found none p = p
close_found (some c) p = happened (Event.closed c) p

unfoldable pub close_current : Text → Pool → Pool
unfolding lookup
close_current addr p = close_found (lookup addr p.clients) p

unfoldable pub remove : Text → Pool → Pool
unfolding close_current delete
remove addr p = record (close_current addr p) { clients = delete addr p.clients }

-- A new client is stored if there is no error.
unfoldable pub store : Text → Connected → Connected
unfolding insert
store addr c = elim c.client [
  | none ↦ c
  | some id ↦
      if c.success
      then record c { pool = record c.pool { clients = insert addr id c.pool.clients } }
      else c
]

-- The functions below take the way to connect as an argument, since connecting may reconnect.
-- `none` is a call that has not returned within the fuel.
abbrev pub Dialer : Type 0
Dialer = Pool → Option Connected

abbrev pub stored : Text → Option Connected → Option Connected
stored addr none = none
stored addr (some c) = some (store addr c)

unfoldable pub update : Dialer → Text → Pool → Option Connected
unfolding close_current store
update dial addr p = stored addr (dial (close_current addr p))

unfoldable pub reconnect : Dialer → Text → Pool → Option Connected
unfolding remove update
reconnect dial addr p = update dial addr (remove addr p)

abbrev pub with_error : Option Connected → Option (Bool × Pool)
with_error none = none
with_error (some c) = some (false, c.pool)

-- `ValidateResp` with `handleError`: whether there is no error, and the pool.
unfoldable pub validate_resp : Dialer → Text → Response → Pool → Option (Bool × Pool)
unfolding reconnect
validate_resp dial addr Response.fine p = some (true, p)
validate_resp dial addr Response.nil_response p = some (false, p)
validate_resp dial addr Response.other_error p = some (false, p)
validate_resp dial addr Response.network_error p = with_error (reconnect dial addr p)

abbrev pub validated : ℕ → Option (Bool × Pool) → Option Connected
validated c none = none
validated c (some (success, p)) = some (record { client = some c; success = success; pool = p })

-- `connect`: each reconnection within it takes one unit of fuel.
unfoldable pub connect : Network → ℕ → Text → Pool → Option Connected
unfolding validate_resp
connect net zero addr p = none
connect net (suc fuel) addr p =
    let c = p.next_id in
    let p1 = record p { next_id = c + 1; events = p.events ++ Event.dialed addr c ∷ [] } in
    let p2 = happened (Event.set_name c) p1 in
    let checked =
      validated c (validate_resp (λ q. connect net fuel addr q) addr (net.responds p2.events) p2) in
    if not (net.dials p1.events)
    then some (record { client = none; success = false; pool = p1 })
    else if net.named
    then checked
    else some (record { client = some c; success = true; pool = p1 })

abbrev pub pool_after : Option Connected → Option Pool
pool_after none = none
pool_after (some c) = some c.pool

-- `Get`: the client that there is, or a new one.
unfoldable pub get : Network → ℕ → Text → Pool → Option Connected
unfolding lookup connect store
get net fuel addr p =
    let fresh = stored addr (connect net fuel addr p) in
    elim (lookup addr p.clients) [
      | none ↦ fresh
      | some c ↦ some (record { client = some c; success = true; pool = p })
    ]

unfoldable pub close_all : List (Text × ℕ) → Pool → Pool
close_all [] p = p
close_all ((a, c) ∷ m) p = close_all m (happened (Event.closed c) p)

unfoldable pub reset : Pool → Pool
unfolding close_all
reset p = record (close_all p.clients p) { clients = [] }

-- `AddAll`: errors are passed over.
unfoldable pub add_all : Network → ℕ → List Text → Pool → Option Pool
unfolding update connect
add_all net fuel [] p = some p
add_all net fuel (addr ∷ addrs) p =
    elim (pool_after (update (λ q. connect net fuel addr q) addr p)) as (λ x. Option Pool) [
      | none ↦ none
      | some q ↦ add_all net fuel addrs q
    ]

unfoldable pub replace_all : Network → ℕ → List Text → Pool → Option Pool
unfolding reset add_all
replace_all net fuel addrs p = add_all net fuel addrs (reset p)

-- `GetSelected`: the clients of those addresses that have one.
unfoldable pub get_selected : List (Text × ℕ) → List Text → List (Text × ℕ) → List (Text × ℕ)
unfolding lookup insert
get_selected clients [] m = m
get_selected clients (addr ∷ addrs) m =
    get_selected clients addrs (elim (lookup addr clients) [ none ↦ m | some c ↦ insert addr c m ])
