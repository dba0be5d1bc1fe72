-- ===== src/Base/Sort.antt =====
-- `sort.Sort` of the standard library. The order of elements that compare equal is open in Go;
-- here they keep their places.
use mathlib.Core.Path.{◌≡◌, refl}
use mathlib.Core.Bool.{Bool, true, false}
use mathlib.Core.List.{List, [], ◌∷◌}
use native.Mathlib.Omega.{arith}
use Prim.Native.Nat.{ℕ, ◌≤◌, suc}
use k8s_cluster.Base.Tests.{ltb, if◌then◌else◌}
use k8s_cluster.Base.Lists.{count, length, All}

module _ {ℓ} {A : Type ℓ} (less : A → A → Bool) where
  -- Puts an element behind those that it is not less than.
  unfoldable pub insert_sorted : A → List A → List A
  insert_sorted a [] = a ∷ []
  insert_sorted a (x ∷ xs) = if less x a then x ∷ insert_sorted a xs else a ∷ x ∷ xs

  unfoldable pub sort : List A → List A
  sort [] = []
  sort (x ∷ xs) = insert_sorted x (sort xs)

  pub length-insert_sorted : (a : A) (xs : List A) → length (insert_sorted a xs) ≡ suc (length xs)
  unfolding insert_sorted
  length-insert_sorted a [] = refl
  length-insert_sorted a (x ∷ xs) = ground (arith, length-insert_sorted a xs)

  pub length-sort : (xs : List A) → length (sort xs) ≡ length xs
  unfolding sort
  length-sort [] = refl
  length-sort (x ∷ xs) = ground (arith, length-sort xs, length-insert_sorted x (sort xs))

  pub All-insert_sorted {κ} :
      (P : A → Type κ) (a : A) (xs : List A) → P a → All P xs → All P (insert_sorted a xs)
  unfolding insert_sorted
  All-insert_sorted P a [] h k = (h, tt)
  All-insert_sorted P a (x ∷ xs) h k =
      elim (less x a) as (λ b. All P (if b then x ∷ insert_sorted a xs else a ∷ x ∷ xs)) [
        | true ↦ (k.0, All-insert_sorted P a xs h k.1)
        | false ↦ (h, k)
      ]

  pub All-sort {κ} : (P : A → Type κ) (xs : List A) → All P xs → All P (sort xs)
  unfolding sort
  All-sort P [] h = tt
  All-sort P (x ∷ xs) h = All-insert_sorted P x (sort xs) h.0 (All-sort P xs h.1)

-- Numbers in increasing order, none below `lo`.
abbrev pub SortedFrom : ℕ → List ℕ → Type 0
SortedFrom lo [] = Unit {0}
SortedFrom lo (x ∷ xs) = (lo ≤ x) × SortedFrom x xs

insert_sorted-SortedFrom :
    (lo a : ℕ) (xs : List ℕ) → lo ≤ a → SortedFrom lo xs → SortedFrom lo (insert_sorted ltb a xs)
unfolding insert_sorted
insert_sorted-SortedFrom lo a [] h k = (h, tt)
insert_sorted-SortedFrom lo a (x ∷ xs) h k = ground (arith, insert_sorted-SortedFrom x a xs)

pub sort-SortedFrom : (xs : List ℕ) → SortedFrom 0 (sort ltb xs)
unfolding sort
sort-SortedFrom [] = tt
sort-SortedFrom (x ∷ xs) = insert_sorted-SortedFrom 0 x _ (omega arith) (sort-SortedFrom xs)

count-insert_sorted : (a x : ℕ) (xs : List ℕ) → count a (insert_sorted ltb x xs) ≡ count a (x ∷ xs)
unfolding insert_sorted
count-insert_sorted a x [] = refl
count-insert_sorted a x (y ∷ xs) = ground (arith, count-insert_sorted a x xs)

pub count-sort : (a : ℕ) (xs : List ℕ) → count a (sort ltb xs) ≡ count a xs
unfolding sort
count-sort a [] = refl
count-sort a (x ∷ xs) = ground (arith, count-insert_sorted a x (sort ltb xs), count-sort a xs)
