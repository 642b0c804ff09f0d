-- ===== src/Text.antt =====
-- The functions of Go's strings, strconv and net packages that the program calls, on valid UTF-8
-- texts. A rune is its code point; `len` counts bytes, as in Go. net.SplitHostPort and strconv.Atoi
-- look at ASCII bytes only, so they are written over the characters.
pub mod Trimming
pub mod Order
use Prim.Native.Char.{code}
use Prim.Native.String.{[] as [], ◌∷◌ as ◌∷◌}
use asterferry.Base.{
  ℕ, ◌+◌, ◌-◌, ◌*◌, Bool, false, not, ◌&&◌, ◌||◌, Option, none, some, String, ltb, leb,
  if◌then◌else◌, ◌==◌, nat_keyed, string_keyed,
}

-- `unicode.IsSpace`
abbrev pub is_space : ℕ → Bool
is_space r =
    (leb 9 r && leb r 13)
    || r == 32
    || r == 133
    || r == 160
    || r == 5760
    || (leb 8192 r && leb r 8202)
    || r == 8232
    || r == 8233
    || r == 8239
    || r == 8287
    || r == 12288

-- Some rune of a text passes a test: `strings.ContainsAny`, or a loop that returns on a hit.
unfoldable pub any_rune : (ℕ → Bool) → String → Bool
any_rune p [] = false
any_rune p (c ∷ s) = p (code c) || any_rune p s

abbrev pub has_rune : ℕ → String → Bool
has_rune r = any_rune (λ q. q == r)

unfoldable pub trim_left : String → String
trim_left [] = []
trim_left (c ∷ s) = let rest = trim_left s in if is_space (code c) then rest else c ∷ s

unfoldable pub trim_right : String → String
trim_right [] = []
trim_right (c ∷ s) =
    let rest = trim_right s in if is_space (code c) && rest == "" then [] else c ∷ rest

-- `strings.TrimSpace`
unfoldable pub trim_space : String → String
trim_space s = trim_left (trim_right s)

-- The text before and behind the first and the last occurrence of an ASCII character.
unfoldable pub split_first : ℕ → String → Option (String × String)
split_first r [] = none
split_first r (c ∷ s) =
    let rest = split_first r s in
    if code c == r
    then some ([], s)
    else (elim rest [ none ↦ none | some parts ↦ some (c ∷ parts.0, parts.1) ])

unfoldable pub split_last : ℕ → String → Option (String × String)
split_last r [] = none
split_last r (c ∷ s) = elim (split_last r s) [
  | some parts ↦ some (c ∷ parts.0, parts.1)
  | none ↦ if code c == r then some ([], s) else none
]

abbrev has_bracket : String → Bool
has_bracket = any_rune (λ r. r == 91 || r == 93)

-- A host and port whose host is written in brackets: the first `]` stands before the last colon.
unfoldable pub split_bracketed : String → String → Option (String × String)
split_bracketed before port = elim (split_first 93 before) [
  | none ↦ none
  | some parts ↦
      if parts.1 == "" && not (has_rune 91 parts.0) && not (has_bracket port)
      then some (parts.0, port)
      else none
]

unfoldable pub split_plain : String → String → Option (String × String)
split_plain host port =
    if has_rune 58 host || has_bracket host || has_bracket port then none else some (host, port)

-- The two cases of what stands before the last colon.
unfoldable pub split_at_colon : String → String → Option (String × String)
split_at_colon [] port = split_plain [] port
split_at_colon (c ∷ s) port =
    if code c == 91 then split_bracketed s port else split_plain (c ∷ s) port

-- `net.SplitHostPort`, with `none` for every error
unfoldable pub split_host_port : String → Option (String × String)
split_host_port s = elim (split_last 58 s) [
  | none ↦ none
  | some parts ↦ split_at_colon parts.0 parts.1
]

-- A text of decimal digits, read from the left behind a number read before.
unfoldable pub digits : ℕ → String → Option ℕ
digits n [] = some n
digits n (c ∷ s) =
    let rest = digits (n * 10 + (code c - 48)) s in
    if leb 48 (code c) && leb (code c) 57 then rest else none

-- The digits of a number: at least one.
abbrev numeral : String → Option ℕ
numeral s = if s == "" then none else digits 0 s

-- `strconv.Atoi` of a 64-bit int: whether the number is negative, and its size.
unfoldable pub atoi : String → Option (Bool × ℕ)
atoi [] = none
atoi (c ∷ s) =
    let negative : Bool = code c == 45 in
    elim (numeral (if negative || code c == 43 then s else c ∷ s)) [
      | none ↦ none
      | some n ↦
          if ltb (if negative then 9223372036854775808 else 9223372036854775807) n
          then none
          else some (negative, n)
    ]

-- `port, err := strconv.Atoi(text); err != nil || port < 1 || port > 65535`
unfoldable pub is_port : String → Bool
is_port text = elim (atoi text) [
  | none ↦ false
  | some parsed ↦ not parsed.0 && leb 1 parsed.1 && leb parsed.1 65535
]

-- `strings.HasSuffix`
unfoldable pub has_suffix : String → String → Bool
has_suffix suffix [] = suffix == ""
has_suffix suffix (c ∷ s) = (c ∷ s) == suffix || has_suffix suffix s

-- `strings.TrimSuffix(text, ".")`
unfoldable pub trim_last_dot : String → String
trim_last_dot [] = []
trim_last_dot (c ∷ s) =
    let rest = trim_last_dot s in if s == "" && code c == 46 then [] else c ∷ rest

-- `strings.TrimPrefix(text, "*.")`
unfoldable pub trim_wildcard : String → String
trim_wildcard [] = []
trim_wildcard (c ∷ []) = c ∷ []
trim_wildcard (c ∷ d ∷ s) = if code c == 42 && code d == 46 then s else c ∷ d ∷ s

abbrev is_bracket : ℕ → Bool
is_bracket r = r == 91 || r == 93

unfoldable pub trim_left_brackets : String → String
trim_left_brackets [] = []
trim_left_brackets (c ∷ s) =
    let rest = trim_left_brackets s in if is_bracket (code c) then rest else c ∷ s

unfoldable pub trim_right_brackets : String → String
trim_right_brackets [] = []
trim_right_brackets (c ∷ s) =
    let rest = trim_right_brackets s in if is_bracket (code c) && rest == "" then [] else c ∷ rest

-- `strings.Trim(text, "[]")`
abbrev pub trim_brackets : String → String
trim_brackets s = trim_left_brackets (trim_right_brackets s)

-- `strings.TrimSuffix(text, "/")`
unfoldable pub trim_slash : String → String
trim_slash [] = []
trim_slash (c ∷ s) = let rest = trim_slash s in if code c == 47 && s == "" then [] else c ∷ rest
