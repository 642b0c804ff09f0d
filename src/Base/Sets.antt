-- ===== src/Base/Sets.antt =====
-- Go maps of type `map[K]struct{}`, as lists of their keys: only membership is asked of them.
use mathlib.Core.Path.{◌≡◌, refl}
use mathlib.Core.Bool.{Bool, true, false, not, ◌&&◌, ◌||◌}
use mathlib.Core.List.{List, [], ◌∷◌, ◌++◌}
use native.Mathlib.Omega.{arith}
use asterferry.Base.Tests.{if◌then◌else◌}
use asterferry.Base.Equality.{Keyed, ◌==◌, ==-refl}

module _ {ℓ} {K : Type ℓ} ⦃keyed : Keyed K⦄ where
  -- `_, ok := set[key]`
  unfoldable pub member : K → List K → Bool
  member key [] = false
  member key (x ∷ set) = x == key || member key set

  -- `delete(set, key)`
  unfoldable pub discard : K → List K → List K
  discard key [] = []
  discard key (x ∷ set) = let rest = discard key set in if x == key then rest else x ∷ rest

  -- A loop over a list that fails on a repeated element, with the elements seen before it.
  unfoldable pub has_repeat : List K → List K → Bool
  has_repeat seen [] = false
  has_repeat seen (x ∷ xs) = member x seen || has_repeat (x ∷ seen) xs

  pub member-discard :
      (key asked : K) (set : List K)
      → member asked (discard key set) ≡ (not (key == asked) && member asked set)
  unfolding member discard
  member-discard key asked [] = ground arith
  member-discard key asked (x ∷ set) = ground (
    arith,
    member-discard key asked set,
    keyed.same_iff x key,
    keyed.same_iff x asked,
    keyed.same_iff key asked,
  )

  pub member-append :
      (key : K) (xs ys : List K) → member key (xs ++ ys) ≡ (member key xs || member key ys)
  unfolding member
  member-append key [] ys = refl
  member-append key (x ∷ xs) ys = ground (arith, member-append key xs ys)

  -- No element of a list occurs twice.
  abbrev pub NoRepeat : List K → Type 0
  NoRepeat [] = Unit
  NoRepeat (x ∷ xs) = (member x xs ≡ false) × NoRepeat xs

  pub has_repeat-seen :
      (seen xs : List K) (key : K)
      → has_repeat seen xs ≡ false
      → member key seen ≡ true
      → member key xs ≡ false
  unfolding has_repeat member
  has_repeat-seen seen [] key h m = refl
  has_repeat-seen seen (x ∷ xs) key h m =
      ground (arith, has_repeat-seen (x ∷ seen) xs key, keyed.same_iff x key)

  pub has_repeat-NoRepeat : (seen xs : List K) → has_repeat seen xs ≡ false → NoRepeat xs
  unfolding has_repeat member
  has_repeat-NoRepeat seen [] h = tt
  has_repeat-NoRepeat seen (x ∷ xs) h = (
    ground (arith, has_repeat-seen (x ∷ seen) xs x, ==-refl x),
    has_repeat-NoRepeat (x ∷ seen) xs (ground arith),
  )
