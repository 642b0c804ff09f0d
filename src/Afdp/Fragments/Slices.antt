-- ===== src/Afdp/Fragments/Slices.antt =====
-- The slices of a payload, one behind another, are the payload; and a reassembler that holds them
-- all puts them together.
use native.Mathlib.Nat.{zero-add, add-zero, suc-add, div-add-mod, mod-lt}
use asterferry.Base.{
  ℕ, zero, suc, ◌+◌, ◌-◌, ◌*◌, ◌≤◌, ◌<◌, ◌≡◌, refl, ap, sym, ◌∙◌, some, List, [], ◌∷◌, ◌++◌, ltb,
  length, take, drop, arith, nat_keyed, length-drop, ltb→lt, Bool-cases, inl, inr, take-append-drop,
}
use asterferry.Base.Maps.{Map, lookup}
use asterferry.Afdp.Reassembly.{gather}
use asterferry.Afdp.Fragments.{slice, fragment_count_of}

take-long {ℓ} : {A : Type ℓ} (n : ℕ) (xs : List A) → length xs ≤ n → take n xs ≡ xs
take-long zero [] h = refl
take-long zero (x ∷ xs) h = absurd (omega arith)
take-long (suc n) [] h = refl
take-long (suc n) (x ∷ xs) h = ap (◌∷◌ x) (take-long n xs (omega arith))

drop-long {ℓ} : {A : Type ℓ} (n : ℕ) (xs : List A) → length xs ≤ n → drop n xs ≡ []
drop-long zero [] h = refl
drop-long zero (x ∷ xs) h = absurd (omega arith)
drop-long (suc n) [] h = refl
drop-long (suc n) (x ∷ xs) h = drop-long n xs (omega arith)

drop-add {ℓ} : {A : Type ℓ} (s p : ℕ) (xs : List A) → drop (s + p) xs ≡ drop p (drop s xs)
drop-add zero p xs = rw zero-add
drop-add (suc s) zero [] = rw add-zero
drop-add (suc s) (suc p) [] = rw suc-add
drop-add (suc s) p (x ∷ xs) = rw suc-add (drop-add s p xs)

slice-take :
    (part_size index : ℕ) (payload : List ℕ)
    → slice part_size payload index ≡ take part_size (drop (index * part_size) payload)
unfolding slice
slice-take p i xs = elim (Bool-cases (ltb (length xs) (i * p + p))) [
  | inl last ↦ rw last (
      take-long (length xs - i * p) (drop (i * p) xs) (omega (arith, length-drop (i * p) xs))
      ∙ sym (
          take-long p (drop (i * p) xs)
            (omega (arith, length-drop (i * p) xs, ltb→lt (length xs) (i * p + p) last))))
  | inr inner ↦ rw inner (ap (λ (n : ℕ). take n (drop (i * p) xs)) (cancel (i * p) p))
]
  where
    cancel : (a b : ℕ) → a + b - a ≡ b
    cancel a b = omega arith

length-take-min {ℓ} : {A : Type ℓ} (n : ℕ) (ys : List A) → length (take n ys) ≤ n
length-take-min zero ys = omega arith
length-take-min (suc n) [] = omega arith
length-take-min (suc n) (y ∷ ys) = omega (arith, length-take-min n ys)

-- A slice and what lies behind it.
slice-append : (p i : ℕ) (xs : List ℕ) → slice p xs i ++ drop (suc i * p) xs ≡ drop (i * p) xs
slice-append p i xs =
    rw (slice-take p i xs) (
      ap (λ (t : List ℕ). take p (drop (i * p) xs) ++ t) next
      ∙ take-append-drop p (drop (i * p) xs))
  where
    next : drop (suc i * p) xs ≡ drop p (drop (i * p) xs)
    next = ap (λ (n : ℕ). drop n xs) (omega arith) ∙ drop-add (i * p) p xs

pub length-slice-le : (p i : ℕ) (xs : List ℕ) → length (slice p xs i) ≤ p
length-slice-le p i xs = rw (slice-take p i xs) (length-take-le p (drop (i * p) xs))
  where
    length-take-le : (n : ℕ) (ys : List ℕ) → length (take n ys) ≤ n
    length-take-le n ys = omega (arith, length-take-min n ys)

-- A reassembler that holds the slices from `index` on joins them to the rest of the payload.
pub gather-slices :
    (p : ℕ) (xs : List ℕ) (parts : Map ℕ (List ℕ)) (n index : ℕ)
    → length xs ≤ (index + n) * p
    → ((j : ℕ) → index ≤ j → j < index + n → lookup j parts ≡ some (slice p xs j))
    → gather n index parts ≡ some (drop (index * p) xs)
unfolding gather
gather-slices p xs parts zero index h held =
    ap some (sym (drop-long (index * p) xs (omega (arith, ap (λ (t : ℕ). t * p) (add-zero index)))))
gather-slices p xs parts (suc n) index h held = ground (
  arith,
  held index (omega arith) (omega arith),
  gather-slices p xs parts n (suc index) (le_of_eq-trans (ap (λ (t : ℕ). t * p) shift) h)
      (λ j lo hi. held j (omega arith) (omega arith)),
  slice-append p index xs,
)
  where
    shift : index + suc n ≡ suc index + n
    shift = omega arith

    le_of_eq-trans : {a b c : ℕ} → a ≡ b → c ≤ a → c ≤ b
    le_of_eq-trans e l = omega arith

-- The number of slices covers the payload.
pub fragment_count-covers :
    (size p : ℕ) → 0 < p → (size ≤ fragment_count_of size p * p) × (0 < fragment_count_of size p)
unfolding fragment_count_of
fragment_count-covers size p pos =
    ground (arith, div-add-mod (size + p - 1) p, mod-lt (size + p - 1) pos)
