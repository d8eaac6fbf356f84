-- ===== src/Prelude/Map.antt =====
-- Go's maps: association lists with one entry for a key. Iteration order is not modelled here; a
-- caller that iterates takes the order as an argument.
use mathlib.Core.Path.{◌≡◌, refl}
use mathlib.Core.Option.{Option, none, some}
use mathlib.Core.List.{List, [], ◌∷◌}
use native.Mathlib.Omega.{arith}
use fogping.Prelude.Tests.{if◌then◌else◌, Eq, ◌==◌}

abbrev pub Map {ℓ κ} : Type ℓ → Type κ → Type (ℓ ⊔ κ)
Map K V = List (K × V)

module _ {ℓ κ} {K : Type ℓ} {V : Type κ} ⦃eq : Eq K⦄ where
  -- delete(m, key)
  unfoldable pub remove : K → Map K V → Map K V
  remove key [] = []
  remove key (entry ∷ m) = let rest = remove key m in if entry.0 == key then rest else entry ∷ rest

  -- m[key] = value
  unfoldable pub insert : K → V → Map K V → Map K V
  insert key value [] = (key, value) ∷ []
  insert key value (entry ∷ m) =
      let rest = insert key value m in if entry.0 == key then (key, value) ∷ m else entry ∷ rest

  -- m[key], with whether the key is there
  unfoldable pub lookup : K → Map K V → Option V
  lookup key [] = none
  lookup key (entry ∷ m) =
      let rest = lookup key m in if entry.0 == key then some (entry.1) else rest

  pub lookup-remove :
      (key other : K) (m : Map K V)
      → lookup other (remove key m) ≡ (if key == other then none else lookup other m)
  unfolding lookup remove
  lookup-remove key other [] = ground arith
  lookup-remove key other (entry ∷ m) = ground (
    arith,
    lookup-remove key other m,
    eq.same_iff (entry.0) key,
    eq.same_iff (entry.0) other,
    eq.same_iff key other,
  )

  pub lookup-insert :
      (key other : K) (value : V) (m : Map K V)
      → lookup other (insert key value m) ≡ (if key == other then some value else lookup other m)
  unfolding lookup insert
  lookup-insert key other value [] = refl
  lookup-insert key other value (entry ∷ m) = ground (
    arith,
    lookup-insert key other value m,
    eq.same_iff (entry.0) key,
    eq.same_iff (entry.0) other,
    eq.same_iff key other,
  )

pub ruleset map_laws = (lookup-insert, lookup-remove)
