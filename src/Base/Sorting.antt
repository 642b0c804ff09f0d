-- ===== src/Base/Sorting.antt =====
-- Go's `sort` as an insertion sort. Where two elements are equal under the order, Go may return either
-- order.
use Prim.Native.Nat.{Ordering}
use Prim.Native.String.{String, compare}
use mathlib.Core.Path.{◌≡◌, refl, ap, ◌∙◌}
use mathlib.Core.Bool.{Bool, true, false}
use mathlib.Core.List.{List, [], ◌∷◌, map}
use native.Mathlib.Omega.{arith}
use asterferry.Base.Tests.{if◌then◌else◌}

-- `left < right` on strings
abbrev pub string_less : String → String → Bool
string_less left right = elim (compare left right) [ Ordering.lt ↦ true | _ ↦ false ]

module _ {ℓ} {A : Type ℓ} (less : A → A → Bool) where
  unfoldable pub insert_by : A → List A → List A
  insert_by x [] = x ∷ []
  insert_by x (y ∷ ys) = let rest = insert_by x ys in if less y x then y ∷ rest else x ∷ y ∷ ys

  unfoldable pub sort_by : List A → List A
  sort_by [] = []
  sort_by (x ∷ xs) = insert_by x (sort_by xs)

-- A change that the order does not see commutes with sorting.
module _ {ℓ} {A : Type ℓ} (less : A → A → Bool) (f : A → A)
    (same : (x y : A) → less (f x) (f y) ≡ less x y) where
  map-insert_by :
      (x : A) (ys : List A) → insert_by less (f x) (map f ys) ≡ map f (insert_by less x ys)
  unfolding insert_by
  map-insert_by x [] = refl
  map-insert_by x (y ∷ ys) = ground (arith, same y x, map-insert_by x ys)

  pub sort_by-map : (xs : List A) → sort_by less (map f xs) ≡ map f (sort_by less xs)
  unfolding sort_by
  sort_by-map [] = refl
  sort_by-map (x ∷ xs) =
      ap (insert_by less (f x)) (sort_by-map xs) ∙ map-insert_by x (sort_by less xs)
