-- ===== src/Base/Assoc.antt =====
-- A Go map with string keys, as an association list. The order of the list stands for the order
-- in which a `range` meets the keys, which Go leaves open; statements hold for every list.
use mathlib.Core.Path.{◌≡◌, refl}
use mathlib.Core.List.{List, [], ◌∷◌, ◌++◌}
use mathlib.Core.Option.{Option, none, some}
use native.Mathlib.Omega.{arith}
use k8s_cluster.Base.Tests.{if◌then◌else◌}
use k8s_cluster.Base.Bytes.{Text, text_eq, text_eq_iff}

module _ {ℓ} {V : Type ℓ} where
  -- `v, ok := m[k]`
  unfoldable pub lookup : Text → List (Text × V) → Option V
  lookup k [] = none
  lookup k ((j, v) ∷ m) = if text_eq j k then some v else lookup k m

  -- `m[k] = v`
  unfoldable pub insert : Text → V → List (Text × V) → List (Text × V)
  insert k v [] = (k, v) ∷ []
  insert k v ((j, w) ∷ m) = if text_eq j k then (j, v) ∷ m else (j, w) ∷ insert k v m

  pub lookup-insert :
      (k j : Text) (v : V) (m : List (Text × V))
      → lookup j (insert k v m) ≡ (if text_eq k j then some v else lookup j m)
  unfolding lookup insert
  lookup-insert k j v [] = refl
  lookup-insert k j v ((i, w) ∷ m) =
      ground (arith, text_eq_iff k j, text_eq_iff i k, text_eq_iff i j, lookup-insert k j v m)

module _ {ℓ} {A : Type ℓ} where
  -- `m[k]` of a map of slices: the nil slice on a missing key
  unfoldable pub slice_at : Text → List (Text × List A) → List A
  slice_at k [] = []
  slice_at k ((j, v) ∷ m) = if text_eq j k then v else slice_at k m

  -- `m[k] = append(m[k], a)`
  unfoldable pub append_at : Text → A → List (Text × List A) → List (Text × List A)
  append_at k a [] = (k, a ∷ []) ∷ []
  append_at k a ((j, v) ∷ m) =
      if text_eq j k then (j, v ++ a ∷ []) ∷ m else (j, v) ∷ append_at k a m

  pub slice_at-append_at :
      (k j : Text) (a : A) (m : List (Text × List A))
      → slice_at j (append_at k a m)
        ≡ (if text_eq k j then slice_at j m ++ a ∷ [] else slice_at j m)
  unfolding slice_at append_at
  slice_at-append_at k j a [] = ground arith
  slice_at-append_at k j a ((i, w) ∷ m) =
      ground (arith, text_eq_iff k j, text_eq_iff i k, text_eq_iff i j, slice_at-append_at k j a m)
