-- ===== src/Base/Checks.antt =====
-- A chain of checks that ends at the first that fails: Go's `if err := ...; err != nil { return err }`.
use mathlib.Core.Path.{◌≡◌, refl}
use mathlib.Core.Bool.{Bool, true, false}
use mathlib.Core.Option.{Option, none, some}
use mathlib.Core.List.{List, [], ◌∷◌}
use native.Mathlib.Omega.{arith}
use asterferry.Base.Lists.{All, any}

infixr 6 ◌orelse◌
abbrev pub ◌orelse◌ {ℓ} : {E : Type ℓ} → Option E → Option E → Option E
none orelse next = next
some e orelse next = some e

abbrev pub reject {ℓ} : {E : Type ℓ} → Bool → E → Option E
reject true e = some e
reject false e = none

-- The first error that a loop meets.
unfoldable pub first_error {ℓ κ} : {A : Type ℓ} {E : Type κ} → (A → Option E) → List A → Option E
first_error check [] = none
first_error check (x ∷ xs) = check x orelse first_error check xs

module _ {ℓ} {E : Type ℓ} where
  pub orelse-none :
      (first second : Option E) → (first orelse second) ≡ none → (first ≡ none) × (second ≡ none)
  orelse-none none second h = (refl, h)
  orelse-none (some e) second h = absurd (cc)

  pub reject-none : (test : Bool) (e : E) → reject test e ≡ none → test ≡ false
  reject-none true e h = absurd (cc)
  reject-none false e h = refl

module _ {ℓ κ} {A : Type ℓ} {E : Type κ} where
  pub first_error-none :
      (check : A → Option E) (xs : List A)
      → first_error check xs ≡ none
      → All (λ x. check x ≡ none) xs
  unfolding first_error
  first_error-none check [] h = tt
  first_error-none check (x ∷ xs) h =
      let parts = orelse-none (check x) (first_error check xs) h in
      (parts.0, first_error-none check xs parts.1)

pub any-false {ℓ} :
    {A : Type ℓ} (p : A → Bool) (xs : List A) → any p xs ≡ false → All (λ x. p x ≡ false) xs
any-false p [] h = tt
any-false p (x ∷ xs) h = (ground arith, any-false p xs (ground arith))
