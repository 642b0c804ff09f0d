-- ===== src/Base/Maps.antt =====
-- Go maps as association lists with one entry a key. The order of the list stands for the order in
-- which a `range` visits the map, which Go leaves open: what is proved holds for every order.
pub mod Count
use Prim.Native.Nat.{suc, ◌≤◌}
use mathlib.Core.Path.{◌≡◌, refl}
use mathlib.Core.List.{List, [], ◌∷◌}
use mathlib.Core.Option.{Option, none, some}
use native.Mathlib.Omega.{arith}
use asterferry.Base.Tests.{if◌then◌else◌}
use asterferry.Base.Equality.{Keyed, ◌==◌, ==-refl}
use asterferry.Base.Lists.{length}

abbrev pub Map {ℓ κ} : Type ℓ → Type κ → Type (ℓ ⊔ κ)
Map K V = List (K × V)

module _ {ℓ κ} {K : Type ℓ} {V : Type κ} ⦃keyed : Keyed K⦄ where
  -- `delete(m, key)`
  unfoldable pub erase : K → Map K V → Map K V
  erase key [] = []
  erase key ((other, v) ∷ m) =
      let rest = erase key m in if other == key then rest else (other, v) ∷ rest

  -- `v, ok := m[key]`
  unfoldable pub lookup : K → Map K V → Option V
  lookup key [] = none
  lookup key ((other, v) ∷ m) = let rest = lookup key m in if other == key then some v else rest

  -- `m[key]` with the zero value for a missing key
  unfoldable pub value_or : K → Map K V → V → V
  unfolding lookup
  value_or key m zero_value = elim (lookup key m) [ none ↦ zero_value | some v ↦ v ]

  -- `m[key] = v`
  unfoldable pub insert : K → V → Map K V → Map K V
  insert key v [] = (key, v) ∷ []
  insert key v ((other, w) ∷ m) =
      let rest = insert key v m in if other == key then (key, v) ∷ m else (other, w) ∷ rest

  pub lookup-insert :
      (key asked : K) (v : V) (m : Map K V)
      → lookup asked (insert key v m) ≡ (if key == asked then some v else lookup asked m)
  unfolding insert lookup
  lookup-insert key asked v ((other, w) ∷ m) = ground (
    arith,
    lookup-insert key asked v m,
    keyed.same_iff other key,
    keyed.same_iff other asked,
    keyed.same_iff key asked,
  )
  lookup-insert key asked v [] = refl

  pub lookup-insert_self : (k : K) (v : V) (m : Map K V) → lookup k (insert k v m) ≡ some v
  lookup-insert_self k v m = rw (lookup-insert k k v m, ==-refl k)

  pub lookup-erase :
      (k j : K) (m : Map K V) → lookup j (erase k m) ≡ (if k == j then none else lookup j m)
  unfolding lookup erase
  lookup-erase k j [] = ground arith
  lookup-erase k j ((i, w) ∷ m) =
      ground (arith, keyed.same_iff k j, keyed.same_iff i k, keyed.same_iff i j, lookup-erase k j m)

  pub length-erase-le : (k : K) (m : Map K V) → length (erase k m) ≤ length m
  unfolding erase
  length-erase-le k [] = omega arith
  length-erase-le k ((i, w) ∷ m) = ground (arith, length-erase-le k m)

  pub length-insert-le : (k : K) (v : V) (m : Map K V) → length (insert k v m) ≤ suc (length m)
  unfolding insert
  length-insert-le k v [] = omega arith
  length-insert-le k v ((i, w) ∷ m) = ground (arith, length-insert-le k v m)
