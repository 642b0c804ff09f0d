-- ===== src/Domain/Id/Alphabet.antt =====
-- Which texts ValidateID of internal/domain/model_validation_network.go accepts.
use Prim.Native.Char.{code}
use Prim.Native.String.{len, [] as [], ◌∷◌ as ◌∷◌}
use asterferry.Base.{
  ℕ, ◌≤◌, Bool, true, false, not, ◌&&◌, ◌||◌, ◌≡◌, ◌↔◌, refl, none, String, if◌then◌else◌, ◌==◌,
  nat_keyed, string_keyed, arith,
}
use asterferry.Text.{is_space, any_rune, has_rune, trim_left, trim_right, trim_space}
use asterferry.Text.Trimming.{trim_left-same, trim_right-same}
use asterferry.Domain.Id.{
  is_alphanumeric, is_punctuation, starts_with_punctuation, ends_in_punctuation, validate_id,
}

-- The runes of an id, written out
unfoldable pub is_letter_or_digit : ℕ → Bool
is_letter_or_digit r = has_rune r "abcdefghijklmnopqrstuvwxyzABCDEFGHIJKLMNOPQRSTUVWXYZ0123456789"

unfoldable pub is_mark : ℕ → Bool
is_mark r = has_rune r "-_."

letters-alphanumeric : (r : ℕ) → is_letter_or_digit r ≡ is_alphanumeric r
unfolding is_letter_or_digit any_rune
letters-alphanumeric r = ground arith

marks-punctuation : (r : ℕ) → is_mark r ≡ is_punctuation r
unfolding is_mark any_rune
marks-punctuation r = ground arith

-- Every rune of a text, its first, and its last is one that passes.
abbrev pub all_runes : (ℕ → Bool) → String → Bool
all_runes p [] = true
all_runes p (c ∷ s) = p (code c) && all_runes p s

abbrev pub first_rune : (ℕ → Bool) → String → Bool
first_rune p [] = true
first_rune p (c ∷ s) = p (code c)

abbrev pub last_rune : (ℕ → Bool) → String → Bool
last_rune p [] = true
last_rune p (c ∷ s) = let rest = last_rune p s in if s == "" then p (code c) else rest

abbrev is_id_rune : ℕ → Bool
is_id_rune r = is_letter_or_digit r || is_mark r

-- The ids: 1 to 128 letters, digits, dots, dashes and underscores, of which the first and the last are
-- letters or digits.
pub record IsId (value : String) : Type 0 where
  pub not_empty : 1 ≤ len value
  pub not_long : len value ≤ 128
  pub alphabet : all_runes is_id_rune value ≡ true
  pub first : first_rune is_letter_or_digit value ≡ true
  pub last : last_rune is_letter_or_digit value ≡ true

-- A rune that validate_id refuses
abbrev is_foreign : ℕ → Bool
is_foreign r = not (is_punctuation r || is_alphanumeric r)

foreign-all_runes : (s : String) → any_rune is_foreign s ≡ not (all_runes is_id_rune s)
unfolding any_rune
foreign-all_runes [] = refl
foreign-all_runes (c ∷ s) =
    ground (arith, foreign-all_runes s, marks-punctuation (code c), letters-alphanumeric (code c))

starts-first_rune :
    (s : String)
    → all_runes is_id_rune s ≡ true
    → starts_with_punctuation s ≡ not (first_rune is_letter_or_digit s)
unfolding starts_with_punctuation
starts-first_rune [] h = refl
starts-first_rune (c ∷ s) h =
    ground (arith, marks-punctuation (code c), letters-alphanumeric (code c))

ends-last_rune :
    (s : String)
    → all_runes is_id_rune s ≡ true
    → ends_in_punctuation s ≡ not (last_rune is_letter_or_digit s)
unfolding ends_in_punctuation
ends-last_rune [] h = refl
ends-last_rune (c ∷ s) h =
    ground (arith, ends-last_rune s, marks-punctuation (code c), letters-alphanumeric (code c))

no_space : (s : String) → any_rune is_foreign s ≡ false → any_rune is_space s ≡ false
unfolding any_rune
no_space [] h = refl
no_space (c ∷ s) h = ground (arith, no_space s)

-- ValidateID accepts exactly the texts of 1 to 128 ASCII letters, digits, dots, dashes and underscores
-- that neither begin nor end with a dot, a dash or an underscore.
pub validate_id-IsId : (value : String) → (validate_id value ≡ none) ↔ IsId value
unfolding validate_id trim_space
validate_id-IsId value = (
  λ h.
      let known : all_runes is_id_rune value ≡ true = ground (arith, foreign-all_runes value) in
      record {
        not_empty = ground arith;
        not_long = ground arith;
        alphabet = known;
        first = ground (arith, starts-first_rune value known);
        last = ground (arith, ends-last_rune value known);
      },
  λ v.
      let known : any_rune is_foreign value ≡ false =
        ground (arith, foreign-all_runes value, v.alphabet) in
      let clean = no_space value known in
      ground (
        arith,
        trim_right-same value clean,
        trim_left-same value clean,
        string_keyed.same_iff (trim_left (trim_right value)) value,
        v.not_empty,
        v.not_long,
        known,
        starts-first_rune value v.alphabet,
        ends-last_rune value v.alphabet,
        v.first,
        v.last,
      ),
)
