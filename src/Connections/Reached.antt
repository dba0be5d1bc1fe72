-- ===== src/Connections/Reached.antt =====
-- The addresses that have a client: what the operations promise, whatever the network does.
use k8s_cluster.Base.{
  zero, Bool, List, Option, Text, [], arith, false, if◌then◌else◌, none, refl, some, text_eq,
  text_eq_iff, text_eq_refl, true, ℕ, ◌∙◌, ◌∷◌, ◌≡◌, subst, suc, ◌+◌, ◌++◌, not,
}
use k8s_cluster.Base.Assoc.{insert, lookup, lookup-insert}
use k8s_cluster.Connections.Dialing.{
  Pool, Connected, delete, close_found, close_current, store, stored, Dialer, validated, with_error,
  connect, get, Network, reconnect, update, validate_resp, remove, Response, Event, happened,
}

pub lookup-delete :
    (k j : Text) (m : List (Text × ℕ))
    → lookup j (delete k m) ≡ (if text_eq k j then none else lookup j m)
unfolding lookup delete
lookup-delete k j [] = ground arith
lookup-delete k j ((i, c) ∷ m) =
    ground (arith, text_eq_iff k j, text_eq_iff i k, text_eq_iff i j, lookup-delete k j m)

-- The clients of the other addresses are what they were.
abbrev pub Others : Text → List (Text × ℕ) → List (Text × ℕ) → Type 0
Others addr m n = (b : Text) → text_eq addr b ≡ false → lookup b n ≡ lookup b m

Others-same : (addr : Text) (m : List (Text × ℕ)) → Others addr m m
Others-same addr m b e = refl

Others-trans :
    (addr : Text) (l m n : List (Text × ℕ)) → Others addr l m → Others addr m n → Others addr l n
Others-trans addr l m n h k b e = k b e ∙ h b e

Others-insert : (addr : Text) (c : ℕ) (m : List (Text × ℕ)) → Others addr m (insert addr c m)
Others-insert addr c m b e = rw (lookup-insert addr b c m, e) refl

Others-delete : (addr : Text) (m : List (Text × ℕ)) → Others addr m (delete addr m)
Others-delete addr m b e = rw (lookup-delete addr b m, e) refl

-- Without an error there is a client.
abbrev HasClient : Connected → Type 0
HasClient c = c.success ≡ true → (id : ℕ) × (c.client ≡ some id)

-- What connecting leaves, before the client is stored.
abbrev Dialed : Text → Pool → Option Connected → Type 0
Dialed addr p none = Unit {0}
Dialed addr p (some c) = Others addr p.clients c.pool.clients × HasClient c

-- What a call that connects to an address promises, where it returns: the clients of the other
-- addresses are as before, and without an error the client that it returns is that of the address.
abbrev pub Reaches : Text → Pool → Option Connected → Type 0
Reaches addr p none = Unit {0}
Reaches addr p (some c) =
    Others addr p.clients c.pool.clients
    × (c.success ≡ true → (id : ℕ) × (c.client ≡ some id) × (lookup addr c.pool.clients ≡ some id))

store-Reaches :
    (addr : Text) (p : Pool) (client : Option ℕ) (success : Bool) (q : Pool)
    → Others addr p.clients q.clients
    → HasClient (record { client = client; success = success; pool = q })
    → Reaches addr p (some (store addr (record { client = client; success = success; pool = q })))
unfolding store
store-Reaches addr p none success q h k = (h, λ s. let (id, e) = k s in absurd (ground (arith, e)))
store-Reaches addr p (some id) true q h k = (
  Others-trans addr p.clients q.clients _ h (Others-insert addr id q.clients),
  λ s. (id, refl, rw (lookup-insert addr addr id q.clients, text_eq_refl addr) refl),
)
store-Reaches addr p (some id) false q h k = (h, λ s. absurd (ground arith))

stored-Reaches :
    (addr : Text) (p : Pool) (o : Option Connected)
    → Dialed addr p o
    → Reaches addr p (stored addr o)
stored-Reaches addr p none d = tt
stored-Reaches addr p (some c) d = store-Reaches addr p c.client c.success c.pool d.0 d.1

close_current-clients : (addr : Text) (p : Pool) → (close_current addr p).clients ≡ p.clients
unfolding close_current
close_current-clients addr p = found (lookup addr p.clients)
  where
    found : (o : Option ℕ) → (close_found o p).clients ≡ p.clients
    found none = refl
    found (some c) = refl

Dialed-clients :
    (addr : Text) (p q : Pool) (o : Option Connected)
    → p.clients ≡ q.clients
    → Dialed addr p o
    → Dialed addr q o
Dialed-clients addr p q none e d = tt
Dialed-clients addr p q (some c) e d = (subst (λ m. Others addr m c.pool.clients) e d.0, d.1)

Reaches-after :
    (addr : Text) (p q : Pool) (o : Option Connected)
    → Others addr p.clients q.clients
    → Reaches addr q o
    → Reaches addr p o
Reaches-after addr p q none h r = tt
Reaches-after addr p q (some c) h r =
    (Others-trans addr p.clients q.clients c.pool.clients h r.0, r.1)

Dialed-if :
    (addr : Text) (p : Pool) (b : Bool) (x y : Option Connected)
    → Dialed addr p x
    → Dialed addr p y
    → Dialed addr p (if b then x else y)
Dialed-if addr p true x y h k = h
Dialed-if addr p false x y h k = k

abbrev Kept : Text → Pool → Option (Bool × Pool) → Type 0
Kept addr p none = Unit {0}
Kept addr p (some (success, q)) = Others addr p.clients q.clients

validated-Dialed :
    (addr : Text) (p : Pool) (c : ℕ) (o : Option (Bool × Pool))
    → Kept addr p o
    → Dialed addr p (validated c o)
validated-Dialed addr p c none k = tt
validated-Dialed addr p c (some (success, q)) k = (k, λ s. (c, refl))

with_error-Kept :
    (addr : Text) (p : Pool) (o : Option Connected) → Reaches addr p o → Kept addr p (with_error o)
with_error-Kept addr p none r = tt
with_error-Kept addr p (some c) r = r.0

module _ (addr : Text) (dial : Dialer) (dialed : (p : Pool) → Dialed addr p (dial p)) where
  update-Reaches : (p : Pool) → Reaches addr p (update dial addr p)
  unfolding update
  update-Reaches p = stored-Reaches addr p (dial (close_current addr p)) (
      Dialed-clients addr (close_current addr p) p (dial (close_current addr p))
        (close_current-clients addr p) (dialed (close_current addr p)))

  reconnect-Reaches : (p : Pool) → Reaches addr p (reconnect dial addr p)
  unfolding reconnect remove
  reconnect-Reaches p =
      Reaches-after addr p (remove addr p) (update dial addr (remove addr p))
        (Others-delete addr p.clients) (update-Reaches (remove addr p))

  validate_resp-Kept : (r : Response) (p : Pool) → Kept addr p (validate_resp dial addr r p)
  unfolding validate_resp
  validate_resp-Kept Response.fine p = Others-same addr p.clients
  validate_resp-Kept Response.nil_response p = Others-same addr p.clients
  validate_resp-Kept Response.other_error p = Others-same addr p.clients
  validate_resp-Kept Response.network_error p =
      with_error-Kept addr p (reconnect dial addr p) (reconnect-Reaches p)

connect-Dialed :
    (net : Network) (fuel : ℕ) (addr : Text) (p : Pool) → Dialed addr p (connect net fuel addr p)
unfolding connect
connect-Dialed net zero addr p = tt
connect-Dialed net (suc fuel) addr p =
    let p1 = record p {
      next_id = p.next_id + 1;
      events = p.events ++ Event.dialed addr p.next_id ∷ [];
    } in
    let p2 = happened (Event.set_name p.next_id) p1 in
    let retry : Dialer = λ q. connect net fuel addr q in
    Dialed-if addr p (not (net.dials p1.events)) _ _
      (Others-same addr p.clients, λ s. absurd (ground arith))
      (Dialed-if addr p net.named _ _
        (validated-Dialed addr p p.next_id (validate_resp retry addr (net.responds p2.events) p2) (
          validate_resp-Kept addr retry (connect-Dialed net fuel addr) (net.responds p2.events) p2))
        (Others-same addr p.clients, λ s. (p.next_id, refl)))

get-Reaches :
    (net : Network) (fuel : ℕ) (addr : Text) (p : Pool) → Reaches addr p (get net fuel addr p)
unfolding get
get-Reaches net fuel addr p = found (lookup addr p.clients) refl
  where
    found :
        (o : Option ℕ)
        → lookup addr p.clients ≡ o
        → Reaches addr p (elim o as (λ x. Option Connected) [
          | none ↦ stored addr (connect net fuel addr p)
          | some c ↦ some (record { client = some c; success = true; pool = p })
        ])
    found none e = stored-Reaches addr p (connect net fuel addr p) (connect-Dialed net fuel addr p)
    found (some c) e = (Others-same addr p.clients, λ s. (c, refl, e))

-- Whatever the network does, `Get`, `Update` (so `Add`) and `Reconnect`, where they return, leave the
-- clients of the other addresses as they were, and without an error the client that they return is
-- the one stored for the address.
pub connecting-Reaches :
    (net : Network) (fuel : ℕ) (addr : Text) (p : Pool)
    → Reaches addr p (get net fuel addr p)
      × Reaches addr p (update (λ q. connect net fuel addr q) addr p)
      × Reaches addr p (reconnect (λ q. connect net fuel addr q) addr p)
connecting-Reaches net fuel addr p = (
  get-Reaches net fuel addr p,
  update-Reaches addr (λ q. connect net fuel addr q) (connect-Dialed net fuel addr) p,
  reconnect-Reaches addr (λ q. connect net fuel addr q) (connect-Dialed net fuel addr) p,
)
