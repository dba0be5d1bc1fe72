-- ===== src/Tests/Conns.antt =====
-- The map of connections.
use k8s_cluster.Base.{
  [], arith, codes, false, none, refl, suc, text_eq, true, zero, ℕ, ◌<◌, ◌∷◌, ◌≡◌,
}
use k8s_cluster.Connections.{
  Response, Network, Pool, connect, update, reconnect, get, replace_all, get_different_from,
  Clients,
}
use k8s_cluster.Connections.Reached.{Reaches, connecting-Reaches}
use k8s_cluster.Connections.Endless.{Adds, connect-eq-none, replace_all-Adds}
use k8s_cluster.Connections.Found.{FindsOther, get_different_from-FindsOther}

abbrev clients : Clients
clients = (codes "x", 0) ∷ (codes "y", 1) ∷ []

abbrev pool : Pool
pool = record { clients = clients; next_id = 2; events = [] }

abbrev calm : Network
calm = record { named = false; dials = λ es. true; responds = λ es. Response.fine }

-- Every command times out.
abbrev unstable : Network
unstable = record { named = true; dials = λ es. true; responds = λ es. Response.network_error }

-- The first two numbers drawn are 0, the others 1.
abbrev draws : ℕ → ℕ
draws zero = 0
draws (suc zero) = 0
draws (suc (suc i)) = 1

in_range : (k : ℕ) → draws k < 2
in_range zero = omega arith
in_range (suc zero) = omega arith
in_range (suc (suc k)) = omega arith

connecting-Reaches_example :
    Reaches (codes "y") pool (get calm 1 (codes "y") pool)
    × Reaches (codes "y") pool (update (λ q. connect calm 1 (codes "y") q) (codes "y") pool)
    × Reaches (codes "y") pool (reconnect (λ q. connect calm 1 (codes "y") q) (codes "y") pool)
connecting-Reaches_example = connecting-Reaches calm 1 (codes "y") pool

connect-eq-none_example : connect unstable 5 (codes "x") pool ≡ none
connect-eq-none_example =
    connect-eq-none unstable 5 (codes "x") pool (refl, (λ es. refl), (λ es. refl))

replace_all-Adds_example : Adds (codes "z" ∷ []) [] (replace_all calm 1 (codes "z" ∷ []) pool)
replace_all-Adds_example = replace_all-Adds calm 0 (codes "z" ∷ []) pool refl

get_different_from-FindsOther_example :
    FindsOther (codes "x") clients (get_different_from 5 draws (codes "x") clients)
unfolding text_eq
get_different_from-FindsOther_example =
    get_different_from-FindsOther 5 draws (codes "x") clients 2 in_range (omega arith)
      (codes "y", 1, refl, refl)
