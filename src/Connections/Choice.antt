-- ===== src/Connections/Choice.antt =====
-- GetRandom and GetDifferentFrom of pkg/redisutil/connections.go. The numbers that `rand.Intn` draws, and the
-- orders in which the map is met, are a parameter: what is met in round `i` is client `draws i` of
-- the list.
use k8s_cluster.Base.{
  List, Option, Text, [], get_elem?, if◌then◌else◌, length, none, some, suc, text_eq, zero, ℕ, ◌==◌,
  ◌∷◌,
}

abbrev pub Clients : Type 0
Clients = List (Text × ℕ)

unfoldable pub get_random_key_client : (ℕ → ℕ) → ℕ → Clients → Option (Text × ℕ)
get_random_key_client draws i clients =
    if length clients == 0 then none else get_elem? clients (draws i)

abbrev pub client_of : Option (Text × ℕ) → Option ℕ
client_of none = none
client_of (some (a, c)) = some c

unfoldable pub get_random : (ℕ → ℕ) → ℕ → Clients → Option ℕ
unfolding get_random_key_client
get_random draws i clients = client_of (get_random_key_client draws i clients)

-- One round of the endless loop: `rest` is what the next rounds give. The outer `none` is a loop
-- that has not ended, the inner one is the error.
abbrev pub round : Text → Option (Text × ℕ) → Option (Option ℕ) → Option (Option ℕ)
round addr none rest = some none
round addr (some (a, c)) rest = if text_eq a addr then rest else some (some c)

unfoldable pub different_loop : ℕ → (ℕ → ℕ) → ℕ → Text → Clients → Option (Option ℕ)
unfolding get_random_key_client
different_loop zero draws i addr clients = none
different_loop (suc fuel) draws i addr clients =
    round addr (get_random_key_client draws i clients)
      (different_loop fuel draws (suc i) addr clients)

unfoldable pub get_different_from : ℕ → (ℕ → ℕ) → Text → Clients → Option (Option ℕ)
unfolding different_loop
get_different_from fuel draws addr ((a, c) ∷ []) =
    if text_eq a addr then some none else some (some c)
get_different_from fuel draws addr clients = different_loop fuel draws 0 addr clients
