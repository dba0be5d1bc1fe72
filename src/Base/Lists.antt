-- ===== src/Base/Lists.antt =====
-- Lists measured and indexed by native numbers, under the library's names, and predicates on
-- their elements by recursion.
use Prim.Native.Nat.{ℕ, zero, suc, ◌+◌}
use mathlib.Core.Path.{◌≡◌, refl, ap}
use mathlib.Core.Bool.{Bool, true, false, false≢true}
use mathlib.Core.Logic.{inl, inr}
use mathlib.Core.List.{List, [], ◌∷◌, ◌++◌}
use mathlib.Core.Option.{Option, none, some}
use native.Mathlib.Omega.{arith}
use k8s_cluster.Base.Tests.{if◌then◌else◌, ◌==◌, ==_iff, ==_refl, Bool-cases}

module _ {ℓ} {A : Type ℓ} where
  abbrev pub length : List A → ℕ
  length [] = 0
  length (x ∷ xs) = suc (length xs)

  abbrev pub get_elem? : List A → ℕ → Option A
  get_elem? [] i = none
  get_elem? (x ∷ xs) zero = some x
  get_elem? (x ∷ xs) (suc i) = get_elem? xs i

  -- A write out of bounds changes nothing.
  abbrev pub set : List A → ℕ → A → List A
  set [] i v = []
  set (x ∷ xs) zero v = v ∷ xs
  set (x ∷ xs) (suc i) v = x ∷ set xs i v

  abbrev pub take : ℕ → List A → List A
  take zero xs = []
  take (suc n) [] = []
  take (suc n) (x ∷ xs) = x ∷ take n xs

  abbrev pub drop : ℕ → List A → List A
  drop zero xs = xs
  drop (suc n) [] = []
  drop (suc n) (x ∷ xs) = drop n xs

  -- The elements that pass a Boolean test, in order.
  abbrev pub filter_b : (A → Bool) → List A → List A
  filter_b p [] = []
  filter_b p (x ∷ xs) = if p x then x ∷ filter_b p xs else filter_b p xs

  abbrev pub any : (A → Bool) → List A → Bool
  any p [] = false
  any p (x ∷ xs) = if p x then true else any p xs

  abbrev pub All {κ} : (A → Type κ) → List A → Type κ
  All P [] = Unit
  All P (x ∷ xs) = P x × All P xs

  pub length-append : (xs ys : List A) → length (xs ++ ys) ≡ length xs + length ys
  length-append [] ys = omega arith
  length-append (x ∷ xs) ys = omega (arith, length-append xs ys)

  pub All-append {κ} : (P : A → Type κ) (xs ys : List A) → All P xs → All P ys → All P (xs ++ ys)
  All-append P [] ys h k = k
  All-append P (x ∷ xs) ys h k = (h.0, All-append P xs ys h.1 k)

  pub All-map {κ μ} :
      (P : A → Type κ) (Q : A → Type μ)
      → ((x : A) → P x → Q x)
      → (xs : List A) → All P xs
      → All Q xs
  All-map P Q f [] h = tt
  All-map P Q f (x ∷ xs) h = (f x h.0, All-map P Q f xs h.1)

-- How often a number stands in a list.
abbrev pub count : ℕ → List ℕ → ℕ
count a [] = 0
count a (x ∷ xs) = (if x == a then 1 else 0) + count a xs

-- Occurrences add up over two parts.
pub count-append :
    (n : ℕ) (front back : List ℕ) → count n (front ++ back) ≡ count n front + count n back
count-append n [] back = ground arith
count-append n (m ∷ front) back = let rest = count-append n front back in omega arith

-- `n` consecutive numbers from `s` on: what a counting loop passes through.
abbrev pub up_from : ℕ → ℕ → List ℕ
up_from s zero = []
up_from s (suc n) = s ∷ up_from (suc s) n

-- A number stands in a list.
abbrev pub elem : ℕ → List ℕ → Bool
elem a xs = any (λ x. x == a) xs

pub any-intro :
    (f : ℕ → Bool) (a : ℕ) (xs : List ℕ) → elem a xs ≡ true → f a ≡ true → any f xs ≡ true
any-intro f a [] m h = m
any-intro f a (x ∷ xs) m h = elim (Bool-cases (x == a)) [
  | inl same ↦ rw (ap f ((==_iff x a).0 same), h) refl
  | inr other ↦ ground (arith, any-intro f a xs)
]

pub any-elim :
    (f : ℕ → Bool) (xs : List ℕ) → any f xs ≡ true → (a : ℕ) × (elem a xs ≡ true) × (f a ≡ true)
any-elim f [] h = absurd (false≢true h)
any-elim f (x ∷ xs) h = elim (Bool-cases (f x)) [
  | inl here ↦ (x, ground arith, here)
  | inr later ↦ let (a, m, k) = any-elim f xs (rw later at h) in (a, ground arith, k)
]

elem_later :
    (q : ℕ) (all : List ℕ) (nodes : List ℕ)
    → All (λ p. elem p all ≡ true) nodes
    → All (λ p. elem p (q ∷ all) ≡ true) nodes
elem_later q all nodes a = All-map _ (λ p. elem p (q ∷ all) ≡ true) (λ p e. ground arith) nodes a

pub All-elem : (nodes : List ℕ) → All (λ p. elem p nodes ≡ true) nodes
All-elem [] = tt
All-elem (p ∷ nodes) = (ground (arith, ==_refl p), elem_later p nodes nodes (All-elem nodes))
