-- ===== src/Domain/Id.antt =====
-- internal/domain/model_validation_network.go: ValidateID, and the host and port checks.
pub mod Alphabet
use Prim.Native.Char.{code}
use Prim.Native.String.{len, [] as [], ◌∷◌ as ◌∷◌}
use asterferry.Base.{
  ℕ, Bool, false, not, ◌&&◌, ◌||◌, Option, none, some, String, ltb, leb, if◌then◌else◌, ◌==◌,
  nat_keyed, string_keyed,
}
use asterferry.Text.{trim_space, any_rune, split_host_port, is_port}

abbrev pub is_alphanumeric : ℕ → Bool
is_alphanumeric r = (leb 97 r && leb r 122) || (leb 65 r && leb r 90) || (leb 48 r && leb r 57)

-- `-`, `_` and `.`
abbrev pub is_punctuation : ℕ → Bool
is_punctuation r = r == 45 || r == 95 || r == 46

-- `last := value[len(value)-1]`, and its test
unfoldable pub ends_in_punctuation : String → Bool
ends_in_punctuation [] = false
ends_in_punctuation (c ∷ s) =
    let rest = ends_in_punctuation s in if s == "" then is_punctuation (code c) else rest

unfoldable pub starts_with_punctuation : String → Bool
starts_with_punctuation [] = false
starts_with_punctuation (c ∷ s) = is_punctuation (code c)

-- ValidateID: the message of the `invalid_id` error, or none for an id that is accepted.
unfoldable pub validate_id : String → Option String
validate_id value =
    if not (trim_space value == value)
    then some "id must not contain surrounding whitespace"
    else (if ltb (len value) 1 || ltb 128 (len value)
        then some "id must contain 1 to 128 characters"
        else (if any_rune (λ r. not (is_punctuation r || is_alphanumeric r)) value
              || starts_with_punctuation value
            then some "id contains an invalid character"
            else (if ends_in_punctuation value
                then some "id must not end with punctuation"
                else none)))

unfoldable pub contains_control : String → Bool
contains_control = any_rune (λ r. ltb r 32 || r == 127)

abbrev has_blank : String → Bool
has_blank = any_rune (λ r. r == 9 || r == 32)

-- validateHostPort accepts a text.
unfoldable pub is_host_port : String → Bool
is_host_port value =
    not (contains_control value)
    && leb (len value) 2048
    && trim_space value == value
    && (elim (split_host_port value) [
      | none ↦ false
      | some parts ↦
          not (trim_space parts.0 == "")
          && parts.0 == trim_space parts.0
          && not (has_blank parts.0)
          && not (has_blank parts.1)
          && is_port parts.1
    ])

-- validateEndpoint accepts a text.
unfoldable pub is_endpoint : String → Bool
is_endpoint value =
    value == trim_space value && not (value == "") && leb (len value) 2048 && is_host_port value
