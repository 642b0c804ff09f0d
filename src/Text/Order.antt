-- ===== src/Text/Order.antt =====
-- The order of texts by their bytes: two texts cannot each come before the other.
use Prim.Native.Nat.compare as compare_ℕ
use Prim.Native.Nat.{ℕ, Ordering, zero, suc, compare as compare_ℕ}
use Prim.Native.String.compare
use Prim.Native.String.{String, [], ◌∷◌, then, compare}
use Prim.Native.Char.{code}
use mathlib.Core.Path.{◌≡◌, refl, ap, ◌∙◌, sym}
use mathlib.Core.Bool.{Bool, true, false}

abbrev flip : Ordering → Ordering
flip Ordering.lt = Ordering.gt
flip Ordering.eq = Ordering.eq
flip Ordering.gt = Ordering.lt

compare-flip_number : (m n : ℕ) → compare_ℕ n m ≡ flip (compare_ℕ m n)
compare-flip_number zero zero = compare_ℕ.zero-zero ∙ ap flip (sym compare_ℕ.zero-zero)
compare-flip_number zero (suc n) = compare_ℕ.suc-zero n ∙ ap flip (sym (compare_ℕ.zero-suc n))
compare-flip_number (suc m) zero = compare_ℕ.zero-suc m ∙ ap flip (sym (compare_ℕ.suc-zero m))
compare-flip_number (suc m) (suc n) =
    compare_ℕ.suc-suc n m ∙ compare-flip_number m n ∙ ap flip (sym (compare_ℕ.suc-suc m n))

flip-then : (o p : Ordering) → then (flip o) (flip p) ≡ flip (then o p)
flip-then Ordering.lt p = refl
flip-then Ordering.eq p = refl
flip-then Ordering.gt p = refl

compare-flip : (s t : String) → compare t s ≡ flip (compare s t)
compare-flip [] [] = compare.nil-nil ∙ ap flip (sym compare.nil-nil)
compare-flip [] (d ∷ t) = compare.cons-nil d t ∙ ap flip (sym (compare.nil-cons d t))
compare-flip (c ∷ s) [] = compare.nil-cons c s ∙ ap flip (sym (compare.cons-nil c s))
compare-flip (c ∷ s) (d ∷ t) =
    compare.cons-cons d c t s
    ∙ ap (λ o. then o (compare t s)) (compare-flip_number (code c) (code d))
    ∙ ap (then (flip (compare_ℕ (code c) (code d)))) (compare-flip s t)
    ∙ flip-then (compare_ℕ (code c) (code d)) (compare s t)
    ∙ ap flip (sym (compare.cons-cons c d s t))

abbrev is_less : Ordering → Bool
is_less o = elim o [ Ordering.lt ↦ true | _ ↦ false ]

is_less-flip : (o : Ordering) → is_less o ≡ true → is_less (flip o) ≡ false
is_less-flip Ordering.lt h = refl
is_less-flip Ordering.eq h = refl
is_less-flip Ordering.gt h = absurd (cc)

pub less-asym :
    (x y : String)
    → (elim (compare y x) [ Ordering.lt ↦ true | _ ↦ false ]) ≡ true
    → (elim (compare x y) [ Ordering.lt ↦ true | _ ↦ false ]) ≡ false
less-asym x y h = ap is_less (compare-flip y x) ∙ is_less-flip (compare y x) h
