-- ===== src/Base/Distinct.antt =====
-- Lists of distinct numbers, and the pigeonhole principle for them.
use asterferry.Base.Tests.{ltb, nat_beq, if◌then◌else◌, Bool-cases}
use asterferry.Base.Lists.{length, All}
use Prim.Native.Nat.{ℕ, zero, suc, ◌+◌, ◌≤◌, ◌<◌}
use mathlib.Core.Path.{◌≡◌, refl}
use mathlib.Core.Bool.{Bool, true, false, ◌||◌}
use mathlib.Core.Logic.{inl, inr}
use mathlib.Core.List.{List, [], ◌∷◌}
use native.Mathlib.Omega.{arith}

abbrev pub elem : ℕ → List ℕ → Bool
elem j [] = false
elem j (x ∷ xs) = nat_beq x j || elem j xs

abbrev pub Distinct : List ℕ → Type 0
Distinct [] = Unit
Distinct (x ∷ xs) = (elem x xs ≡ false) × Distinct xs

abbrev pub Below : ℕ → List ℕ → Type 0
Below n = All (λ j. j < n)

-- How many numbers below `n` the list holds.
hits : ℕ → List ℕ → ℕ
hits zero xs = 0
hits (suc n) xs = (if elem n xs then 1 else 0) + hits n xs

hits-le : (n : ℕ) (xs : List ℕ) → hits n xs ≤ n
unfolding hits
hits-le zero xs = omega arith
hits-le (suc n) xs = ground (arith, hits-le n xs)

hits-full : (n : ℕ) (xs : List ℕ) → n ≤ hits n xs → (j : ℕ) → j < n → elem j xs ≡ true
unfolding hits
hits-full zero xs h j l = absurd (omega arith)
hits-full (suc n) xs h j l = elim (Bool-cases (nat_beq j n)) [
  | inl last ↦ ground (arith, hits-le n xs)
  | inr inner ↦ hits-full n xs (ground (arith, hits-le n xs)) j (ground arith)
]

hits-cons :
    (n x : ℕ) (xs : List ℕ)
    → elem x xs ≡ false
    → hits n (x ∷ xs) ≡ (if ltb x n then 1 else 0) + hits n xs
unfolding hits
hits-cons zero x xs h = ground arith
hits-cons (suc n) x xs h = ground (arith, hits-cons n x xs h)

hits-nil : (n : ℕ) → hits n [] ≡ 0
unfolding hits
hits-nil zero = refl
hits-nil (suc n) = omega (arith, hits-nil n)

hits-length : (n : ℕ) (xs : List ℕ) → Distinct xs → Below n xs → hits n xs ≡ length xs
hits-length n [] d b = hits-nil n
hits-length n (x ∷ xs) d b = ground (arith, hits-cons n x xs d.0, hits-length n xs d.1 b.1)

-- `n` distinct numbers below `n` are all of them.
pub pigeonhole :
    (n : ℕ) (xs : List ℕ)
    → Distinct xs
    → Below n xs
    → n ≤ length xs
    → (j : ℕ) → j < n
    → elem j xs ≡ true
pigeonhole n xs d b h j l = hits-full n xs (omega (arith, hits-length n xs d b)) j l
