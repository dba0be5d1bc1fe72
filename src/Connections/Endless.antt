-- ===== src/Connections/Endless.antt =====
-- When connecting returns, and when it does not.
use k8s_cluster.Base.{
  Bool, List, Option, Text, [], ap, arith, false, if◌then◌else◌, none, not, refl, some, subst, suc,
  text_eq, true, zero, ℕ, ◌++◌, ◌+◌, ◌∙◌, ◌∷◌, ◌≡◌, any,
}
use k8s_cluster.Base.Assoc.{lookup}
use k8s_cluster.Connections.Dialing.{
  Event, Response, Network, Pool, Connected, happened, close_current, remove, store, Dialer, stored,
  update, reconnect, with_error, validate_resp, validated, connect, pool_after, add_all, reset,
  replace_all,
}
use k8s_cluster.Connections.Reached.{Reaches, connecting-Reaches}

-- Every dial succeeds, and every command meets an error of the network.
abbrev pub Unstable : Network → Type 0
Unstable net =
    (net.named ≡ true)
    × ((es : List Event) → net.dials es ≡ true)
    × ((es : List Event) → net.responds es ≡ Response.network_error)

reconnect-none :
    (dial : Dialer) (addr : Text) (p : Pool)
    → ((q : Pool) → dial q ≡ none)
    → reconnect dial addr p ≡ none
unfolding reconnect update
reconnect-none dial addr p h = ap (stored addr) (h (close_current addr (remove addr p)))

-- Where the name of the client is sent, dialing succeeds and the response is always an error of the
-- network, `connect` calls itself without end: no fuel is enough.
pub connect-eq-none :
    (net : Network) (fuel : ℕ) (addr : Text) (p : Pool)
    → Unstable net
    → connect net fuel addr p ≡ none
unfolding connect
connect-eq-none net zero addr p u = refl
connect-eq-none net (suc fuel) addr p u =
    let p1 = record p {
      next_id = p.next_id + 1;
      events = p.events ++ Event.dialed addr p.next_id ∷ [];
    } in
    let p2 = happened (Event.set_name p.next_id) p1 in
    let retry : Dialer = λ q. connect net fuel addr q in
    rw (u.1 p1.events, u.0, u.2 p2.events, validate_resp)
      (ap (λ r. validated p.next_id (with_error r))
        (reconnect-none retry addr p2 (λ q. connect-eq-none net fuel addr q u)))

abbrev Returns : Option Connected → Type 0
Returns o = (c : Connected) × (o ≡ some c)

either-Returns : (b : Bool) (x y : Connected) → Returns (if b then some x else some y)
either-Returns true x y = (x, refl)
either-Returns false x y = (y, refl)

-- Without a name to send, connecting returns.
connect-Returns :
    (net : Network) (fuel : ℕ) (addr : Text) (p : Pool)
    → net.named ≡ false
    → Returns (connect net (suc fuel) addr p)
unfolding connect
connect-Returns net fuel addr p n =
    let p1 = record p {
      next_id = p.next_id + 1;
      events = p.events ++ Event.dialed addr p.next_id ∷ [];
    } in
    rw n (
      either-Returns (not (net.dials p1.events))
        (record { client = none; success = false; pool = p1 })
        (record { client = some p.next_id; success = true; pool = p1 }))

update-Returns :
    (net : Network) (fuel : ℕ) (addr : Text) (p : Pool)
    → net.named ≡ false
    → Returns (update (λ q. connect net (suc fuel) addr q) addr p)
unfolding update
update-Returns net fuel addr p n =
    let (c, e) = connect-Returns net fuel addr (close_current addr p) n in
    (store addr c, ap (stored addr) e)

-- The call returns, and leaves the clients of all but the given addresses as they were.
abbrev pub Adds : List Text → List (Text × ℕ) → Option Pool → Type 0
Adds addrs m o =
    (q : Pool) × (o ≡ some q)
    × ((b : Text) → any (λ a. text_eq a b) addrs ≡ false → lookup b q.clients ≡ lookup b m)

-- Where no name is sent, `AddAll` returns, and leaves the clients of all other addresses as they were.
add_all-Adds :
    (net : Network) (fuel : ℕ) (addrs : List Text) (p : Pool)
    → net.named ≡ false
    → Adds addrs p.clients (add_all net (suc fuel) addrs p)
unfolding add_all
add_all-Adds net fuel [] p n = (p, refl, λ b e. refl)
add_all-Adds net fuel (addr ∷ addrs) p n =
    let (c, e) = update-Returns net fuel addr p n in
    let others = (subst (Reaches addr p) e (connecting-Reaches net (suc fuel) addr p).1).0 in
    let (q, f, k) = add_all-Adds net fuel addrs c.pool n in
    (
      q,
      ap
            (λ o. elim (pool_after o) as (λ x. Option Pool) [
              | none ↦ none
              | some r ↦ add_all net (suc fuel) addrs r
            ])
            e
          ∙ f,
      λ b m. k b (ground arith) ∙ others b (ground arith),
    )

-- Where no name is sent, `ReplaceAll` returns, and afterwards only the given addresses have a client.
pub replace_all-Adds :
    (net : Network) (fuel : ℕ) (addrs : List Text) (p : Pool)
    → net.named ≡ false
    → Adds addrs [] (replace_all net (suc fuel) addrs p)
unfolding replace_all reset
replace_all-Adds net fuel addrs p n = add_all-Adds net fuel addrs (reset p) n
