-- ===== src/Base/Equality.antt =====
-- Equality tests as an interface: one operator for every type that a map or a set is keyed by.
use Prim.Native.Nat.{ℕ}
use Prim.Native.String.{String}
use mathlib.Core.Path.{◌≡◌, refl}
use mathlib.Core.Logic.{◌↔◌, ◌≢◌}
use mathlib.Core.Bool.{Bool, true, false}
use text.Mathlib.Text.{◌==◌ as str_eq}
use text.Mathlib.TextEquality.{eq_iff}
use asterferry.Base.Tests.{nat_beq, nat_beq_iff}

pub record Keyed {ℓ} (K : Type ℓ) : Type ℓ where
  pub same : K → K → Bool
  pub same_iff : (j k : K) → (same j k ≡ true) ↔ (j ≡ k)

instance abbrev pub string_keyed : Keyed String
string_keyed = record { same_iff = eq_iff; same = str_eq }

instance abbrev pub nat_keyed : Keyed ℕ
nat_keyed = record { same_iff = nat_beq_iff; same = nat_beq }

infix 50 ◌==◌
abbrev pub ◌==◌ {ℓ} : {K : Type ℓ} ⦃keyed : Keyed K⦄ → K → K → Bool
◌==◌ ⦃keyed⦄ j k = keyed.same j k

module _ {ℓ} {K : Type ℓ} ⦃keyed : Keyed K⦄ where
  pub ==-refl : (k : K) → (k == k) ≡ true
  ==-refl k = (keyed.same_iff k k).1 refl

  pub ==→eq : (j k : K) → (j == k) ≡ true → j ≡ k
  ==→eq j k = (keyed.same_iff j k).0

  pub ==-false : (j k : K) → j ≢ k → (j == k) ≡ false
  ==-false j k differ = decided (j == k) (==→eq j k)
    where
      decided : (t : Bool) → (t ≡ true → j ≡ k) → t ≡ false
      decided false f = refl
      decided true f = absurd (differ (f refl))
