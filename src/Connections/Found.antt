-- ===== src/Connections/Found.antt =====
-- What GetDifferentFrom finds.
use mathlib.Core.Bool.{false≢true}
use k8s_cluster.Base.{
  ==_iff, Bool, Bool-cases, Option, Text, [], ap, arith, false, get_elem?, inl, inr, length, none,
  refl, some, suc, sym, text_eq, true, zero, ℕ, ◌+◌, ◌<◌, ◌==◌, ◌∙◌, ◌∷◌, ◌≡◌, ◌≤◌,
}
use k8s_cluster.Connections.Choice.{
  Clients, get_random_key_client, round, different_loop, get_different_from,
}

-- Some client of the list has another address.
abbrev pub IsOther : Text → Clients → ℕ → Type 0
IsOther addr clients c =
    (a : Text) × (i : ℕ) × (get_elem? clients i ≡ some (a, c)) × (text_eq a addr ≡ false)

-- The loop has ended with such a client.
abbrev pub FindsOther : Text → Clients → Option (Option ℕ) → Type 0
FindsOther addr clients r = (c : ℕ) × (r ≡ some (some c)) × IsOther addr clients c

-- Round `j` meets a client of another address.
abbrev pub Meets : (ℕ → ℕ) → Text → Clients → ℕ → Type 0
Meets draws addr clients j =
    (a : Text) × (c : ℕ) × (get_elem? clients (draws j) ≡ some (a, c)) × (text_eq a addr ≡ false)

-- Some client stands at an index within the list.
get_elem?-some :
    (clients : Clients) (i : ℕ)
    → i < length clients
    → (e : Text × ℕ) × (get_elem? clients i ≡ some e)
get_elem?-some [] i l = absurd (omega arith)
get_elem?-some (x ∷ clients) zero l = (x, refl)
get_elem?-some (x ∷ clients) (suc i) l = get_elem?-some clients i (omega arith)

-- The client met has the address.
abbrev has_address : Text → Option (Text × ℕ) → Bool
has_address addr none = false
has_address addr (some e) = text_eq e.0 addr

-- A round does not meet a client of the address and one of another.
Meets-address :
    (draws : ℕ → ℕ) (addr : Text) (clients : Clients) (i j : ℕ)
    → Meets draws addr clients j
    → draws i ≡ draws j
    → has_address addr (get_elem? clients (draws i)) ≡ true
    → ⊥
Meets-address draws addr clients i j (a, c, met, other) same h = false≢true (
    sym other
    ∙ (ap (has_address addr) (sym met)
        ∙ (ap (λ k. has_address addr (get_elem? clients k)) (sym same) ∙ h)))

module _ (draws : ℕ → ℕ) (addr : Text) (clients : Clients) where
  drawn :
      (i : ℕ)
      → draws i < length clients
      → get_random_key_client draws i clients ≡ get_elem? clients (draws i)
  unfolding get_random_key_client
  drawn i l = ground arith

  round-FindsOther :
      (i : ℕ) (e : Text × ℕ) (rest : Option (Option ℕ))
      → get_elem? clients (draws i) ≡ some e
      → (text_eq e.0 addr ≡ true → FindsOther addr clients rest)
      → FindsOther addr clients (round addr (some e) rest)
  round-FindsOther i (a, c) rest e k = elim (Bool-cases (text_eq a addr)) [
    | inl y ↦ rw y (k y)
    | inr n ↦ rw n (c, refl, (a, draws i, e, n))
  ]

  different_loop-FindsOther :
      (fuel i j : ℕ)
      → ((k : ℕ) → draws k < length clients)
      → i ≤ j
      → j < i + fuel
      → Meets draws addr clients j
      → FindsOther addr clients (different_loop fuel draws i addr clients)
  unfolding different_loop
  different_loop-FindsOther zero i j r a b m = absurd (omega arith)
  different_loop-FindsOther (suc fuel) i j r a b m =
      let (e, found) = get_elem?-some clients (draws i) (r i) in
      let rest = different_loop fuel draws (suc i) addr clients in
      rw (drawn i (r i), found)
        (round-FindsOther i e rest found (λ same. elim (Bool-cases (i == j)) [
          | inl y ↦ absurd (here e found same y)
          | inr n ↦ different_loop-FindsOther fuel (suc i) j r (ground arith) (omega arith) m
        ]))
    where
      here :
          (e : Text × ℕ)
          → get_elem? clients (draws i) ≡ some e
          → text_eq e.0 addr ≡ true
          → (i == j) ≡ true
          → ⊥
      here e found same y =
          Meets-address draws addr clients i j m (ap draws ((==_iff i j).0 y))
            (ap (has_address addr) found ∙ same)

-- Where the numbers drawn are in range and round `j` meets a client of another address, `GetDifferentFrom` ends after
-- at most `j + 1` rounds, and returns a client of another address.
pub get_different_from-FindsOther :
    (fuel : ℕ) (draws : ℕ → ℕ) (addr : Text) (clients : Clients) (j : ℕ)
    → ((k : ℕ) → draws k < length clients)
    → j < fuel
    → Meets draws addr clients j
    → FindsOther addr clients (get_different_from fuel draws addr clients)
unfolding get_different_from
get_different_from-FindsOther fuel draws addr [] j r l m = absurd (let k = r 0 in omega arith)
get_different_from-FindsOther fuel draws addr ((a, c) ∷ []) j r l m =
    elim (Bool-cases (text_eq a addr)) [
      | inl y ↦
          let first : draws j ≡ 0 = let k = r j in omega arith in
          absurd (
            Meets-address draws addr ((a, c) ∷ []) j j m refl
              (ap (λ k. has_address addr (get_elem? ((a, c) ∷ []) k)) first ∙ y))
      | inr n ↦ rw n (c, refl, (a, 0, refl, n))
    ]
get_different_from-FindsOther fuel draws addr (x ∷ y ∷ clients) j r l m =
    different_loop-FindsOther draws addr (x ∷ y ∷ clients) fuel 0 j r (omega arith) (omega arith) m
