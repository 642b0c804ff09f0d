-- ===== src/Afdp/Control/Sorted.antt =====
-- Sorting by internal/afdp/protocol_capabilities.go: a sorted list is left as it is, and a list that
-- validateSessionAccept takes is taken when it is sorted.
use asterferry.Base.{
  ◌+◌, subst, true, false, ◌≡◌, refl, ap, ◌∙◌, sym, List, [], ◌∷◌, String, none, length, ◌==◌,
  string_keyed, nat_keyed, ==-refl, Bool-cases, inl, inr, arith,
}
use asterferry.Text.Order.{less-asym}
use asterferry.Base.Sets.{member, NoRepeat, has_repeat, has_repeat-NoRepeat}
use asterferry.Afdp.Control.{is_wire_id, check_service_ids}
use asterferry.Afdp.Control.Capabilities.{
  string_before, insert_string, sort_strings, member-sort_strings, NoRepeat-sort_strings,
}

before-asym : (x y : String) → string_before y x ≡ true → string_before x y ≡ false
before-asym x y h = less-asym x y h

-- Each element of a list is not after the next.
abbrev Sorted : List String → Type 0
Sorted [] = Unit
Sorted (x ∷ []) = Unit
Sorted (x ∷ y ∷ ys) = (string_before y x ≡ false) × Sorted (y ∷ ys)

insert_string-Sorted : (x : String) (ys : List String) → Sorted ys → Sorted (insert_string x ys)
unfolding insert_string
insert_string-Sorted x [] s = tt
insert_string-Sorted x (y ∷ []) s = elim (Bool-cases (string_before y x)) [
  | inl first ↦ ground (arith, first, before-asym x y first)
  | inr later ↦ ground (arith, later)
]
insert_string-Sorted x (y ∷ z ∷ zs) s =
    let rest = insert_string-Sorted x (z ∷ zs) s.1 in
    elim (Bool-cases (string_before y x)) [
      | inr later ↦ ground (arith, later, s)
      | inl first ↦ elim (Bool-cases (string_before z x)) [
        | inl second ↦ ground (arith, first, second, s, rest)
        | inr between ↦ ground (arith, first, between, s, rest, before-asym x y first)
      ]
    ]

sort_strings-Sorted : (xs : List String) → Sorted (sort_strings xs)
unfolding sort_strings
sort_strings-Sorted [] = tt
sort_strings-Sorted (x ∷ xs) = insert_string-Sorted x (sort_strings xs) (sort_strings-Sorted xs)

sort_strings-done : (xs : List String) → Sorted xs → sort_strings xs ≡ xs
unfolding sort_strings insert_string
sort_strings-done [] s = refl
sort_strings-done (x ∷ []) s = refl
sort_strings-done (x ∷ y ∷ ys) s =
    ap (insert_string x) (sort_strings-done (y ∷ ys) s.1) ∙ ground (arith, s.0)

-- Sorting again changes nothing.
pub sort_strings-again : (xs : List String) → sort_strings (sort_strings xs) ≡ sort_strings xs
sort_strings-again xs = sort_strings-done (sort_strings xs) (sort_strings-Sorted xs)

length-insert_string : (x : String) (ys : List String) → length (insert_string x ys) ≡ 1 + length ys
unfolding insert_string
length-insert_string x [] = refl
length-insert_string x (y ∷ ys) = ground (arith, length-insert_string x ys)

pub length-sort_strings : (xs : List String) → length (sort_strings xs) ≡ length xs
unfolding sort_strings
length-sort_strings [] = refl
length-sort_strings (x ∷ xs) =
    omega (arith, length-insert_string x (sort_strings xs), length-sort_strings xs)

service_ids-has_repeat :
    (seen xs : List String) → check_service_ids seen xs ≡ none → has_repeat seen xs ≡ false
unfolding check_service_ids has_repeat
service_ids-has_repeat seen [] h = refl
service_ids-has_repeat seen (x ∷ xs) h = ground (arith, service_ids-has_repeat (x ∷ seen) xs)

service_ids-valid :
    (seen xs : List String) (key : String)
    → check_service_ids seen xs ≡ none
    → member key xs ≡ true
    → is_wire_id key 128 ≡ true
unfolding check_service_ids member
service_ids-valid seen [] key h m = absurd (cc)
service_ids-valid seen (x ∷ xs) key h m = elim (Bool-cases (x == key)) [
  | inl here ↦
      let same : x ≡ key = (string_keyed.same_iff x key).0 here in
      subst (λ k. is_wire_id k 128 ≡ true) same (ground arith)
  | inr there ↦ service_ids-valid (x ∷ seen) xs key (ground arith) (ground (arith, there))
]

service_ids-accepted :
    (seen xs : List String)
    → NoRepeat xs
    → ((key : String) → member key xs ≡ true → member key seen ≡ false)
    → ((key : String) → member key xs ≡ true → is_wire_id key 128 ≡ true)
    → check_service_ids seen xs ≡ none
unfolding check_service_ids member
service_ids-accepted seen [] n apart valid = refl
service_ids-accepted seen (x ∷ xs) n apart valid =
    let rest =
      service_ids-accepted (x ∷ seen) xs n.1
        (λ key m.
          ground (arith, n.0, apart key (ground (arith, m)), string_keyed.same_iff x key, m))
        (λ key m. valid key (ground (arith, m))) in
    ground (arith, rest, valid x (ground (arith, ==-refl x)), apart x (ground (arith, ==-refl x)))

-- Service ids that are taken in one order are taken when they are sorted.
pub check_service_ids-sort_strings :
    (xs : List String)
    → check_service_ids [] xs ≡ none
    → check_service_ids [] (sort_strings xs) ≡ none
unfolding member
check_service_ids-sort_strings xs h =
    service_ids-accepted [] (sort_strings xs)
      (NoRepeat-sort_strings xs (has_repeat-NoRepeat [] xs (service_ids-has_repeat [] xs h)))
      (λ key m. refl)
      (λ key m. service_ids-valid [] xs key h (sym (member-sort_strings key xs) ∙ m))
