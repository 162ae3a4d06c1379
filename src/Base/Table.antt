-- ===== src/Base/Table.antt =====
-- A hash table as an association list from numbers: the newest entry of a key is the only one.
use Prim.Native.Nat.{ℕ, ◌≤◌, ◌<◌}
use mathlib.Core.Path.{◌≡◌, refl}
use mathlib.Core.Bool.{Bool, true, false}
use mathlib.Core.Option.{Option, none, some}
use mathlib.Core.List.{List, [], ◌∷◌}
use native.Mathlib.Omega.{arith}
use libgrilio.Base.Tests.{◌==◌, if◌then◌else◌}
use libgrilio.Base.Lists.{length}

module _ {ℓ} {V : Type ℓ} where
  unfoldable pub lookup : ℕ → List (ℕ × V) → Option V
  lookup k [] = none
  lookup k ((j, v) ∷ t) = if j == k then some v else lookup k t

  unfoldable pub contains : ℕ → List (ℕ × V) → Bool
  contains k [] = false
  contains k ((j, v) ∷ t) = if j == k then true else contains k t

  unfoldable pub remove : ℕ → List (ℕ × V) → List (ℕ × V)
  remove k [] = []
  remove k ((j, v) ∷ t) = let rest = remove k t in if j == k then rest else (j, v) ∷ rest

  unfoldable pub insert : ℕ → V → List (ℕ × V) → List (ℕ × V)
  insert k v t = (k, v) ∷ remove k t

  -- An entry of another key is left by a removal, and the key's own is not.
  pub lookup-remove :
      (k j : ℕ) (t : List (ℕ × V)) → lookup j (remove k t) ≡ (if k == j then none else lookup j t)
  unfolding lookup remove
  lookup-remove k j [] = ground arith
  lookup-remove k j ((i, v) ∷ t) = ground (arith, lookup-remove k j t)

  pub lookup-insert :
      (k j : ℕ) (v : V) (t : List (ℕ × V))
      → lookup j (insert k v t) ≡ (if k == j then some v else lookup j t)
  unfolding lookup insert
  lookup-insert k j v t = ground (arith, lookup-remove k j t)

  pub contains-remove :
      (k j : ℕ) (t : List (ℕ × V))
      → contains j (remove k t) ≡ (if k == j then false else contains j t)
  unfolding contains remove
  contains-remove k j [] = ground arith
  contains-remove k j ((i, v) ∷ t) = ground (arith, contains-remove k j t)

  pub contains-insert :
      (k j : ℕ) (v : V) (t : List (ℕ × V))
      → contains j (insert k v t) ≡ (if k == j then true else contains j t)
  unfolding contains insert
  contains-insert k j v t = ground (arith, contains-remove k j t)

  pub length-remove-le : (k : ℕ) (t : List (ℕ × V)) → length (remove k t) ≤ length t
  unfolding remove
  length-remove-le k [] = omega arith
  length-remove-le k ((i, v) ∷ t) = ground (arith, length-remove-le k t)

  pub length-remove-lt :
      (k : ℕ) (t : List (ℕ × V)) → contains k t ≡ true → length (remove k t) < length t
  unfolding remove contains
  length-remove-lt k [] h = ground arith
  length-remove-lt k ((i, v) ∷ t) h = ground (arith, length-remove-le k t, length-remove-lt k t)

  pub contains-lookup : (k : ℕ) (t : List (ℕ × V)) → contains k t ≡ false → lookup k t ≡ none
  unfolding lookup contains
  contains-lookup k [] h = refl
  contains-lookup k ((i, v) ∷ t) h = ground (arith, contains-lookup k t)
