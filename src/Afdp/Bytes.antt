-- ===== src/Afdp/Bytes.antt =====
-- Byte strings as lists of numbers below 256, and encoding/binary's big-endian integers: a wider
-- integer is its high half followed by its low half.
use mathlib.Core.Path.{ap₂}
use asterferry.Base.{
  ℕ, zero, suc, ◌≤◌, ap, length, drop, ◌+◌, ◌*◌, ◌/◌, ◌%◌, ◌<◌, ◌≡◌, refl, List, [], ◌∷◌, ◌++◌,
  arith, All, get_or,
}

abbrev pub Byte : ℕ → Type 0
Byte b = b < 256

abbrev pub Bytes : List ℕ → Type 0
Bytes = All Byte

abbrev pub put_uint16 : ℕ → List ℕ → List ℕ
put_uint16 v rest = (v / 256 % 256) ∷ (v % 256) ∷ rest

abbrev pub put_uint32 : ℕ → List ℕ → List ℕ
put_uint32 v rest = put_uint16 (v / 65536) (put_uint16 (v % 65536) rest)

abbrev pub put_uint64 : ℕ → List ℕ → List ℕ
put_uint64 v rest = put_uint32 (v / 4294967296) (put_uint32 (v % 4294967296) rest)

-- `data[i]`, where the code has checked the length.
abbrev pub byte_at : List ℕ → ℕ → ℕ
byte_at bs i = get_or bs i 0

abbrev pub uint16_at : List ℕ → ℕ → ℕ
uint16_at bs i = byte_at bs i * 256 + byte_at bs (i + 1)

abbrev pub uint32_at : List ℕ → ℕ → ℕ
uint32_at bs i = uint16_at bs i * 65536 + uint16_at bs (i + 2)

abbrev pub uint64_at : List ℕ → ℕ → ℕ
uint64_at bs i = uint32_at bs i * 4294967296 + uint32_at bs (i + 4)

module _ (v : ℕ) where
  pub uint16_lem : v < 65536 → v / 256 % 256 * 256 + v % 256 ≡ v
  uint16_lem h = omega arith

  pub uint32_lem :
      v < 4294967296
      → (v / 65536 / 256 % 256 * 256 + v / 65536 % 256) * 65536
          + (v % 65536 / 256 % 256 * 256 + v % 65536 % 256)
        ≡ v
  uint32_lem h = omega arith

-- The first `n` bytes behind position `i`, one by one.
abbrev pub bytes_from : ℕ → ℕ → List ℕ → List ℕ
bytes_from zero i bs = []
bytes_from (suc n) i bs = byte_at bs i ∷ bytes_from n (suc i) bs

bytes_from-cons : (n i b : ℕ) (bs : List ℕ) → bytes_from n (suc i) (b ∷ bs) ≡ bytes_from n i bs
bytes_from-cons zero i b bs = refl
bytes_from-cons (suc n) i b bs = ap (◌∷◌ (byte_at bs i)) (bytes_from-cons n (suc i) b bs)

pub bytes_from-drop : (n : ℕ) (bs : List ℕ) → n ≤ length bs → bytes_from n 0 bs ++ drop n bs ≡ bs
bytes_from-drop zero bs h = refl
bytes_from-drop (suc n) [] h = absurd (omega arith)
bytes_from-drop (suc n) (b ∷ bs) h =
    ap (◌∷◌ b) (rw (bytes_from-cons n 0 b bs) (bytes_from-drop n bs (omega arith)))

pub byte_at-Byte : (bs : List ℕ) (i : ℕ) → Bytes bs → byte_at bs i < 256
byte_at-Byte [] i h = omega arith
byte_at-Byte (b ∷ bs) zero h = h.0
byte_at-Byte (b ∷ bs) (suc i) h = byte_at-Byte bs i h.1

module _ (a b : ℕ) (rest : List ℕ) where
  pub put_uint16-join : a < 256 → b < 256 → put_uint16 (a * 256 + b) rest ≡ a ∷ b ∷ rest
  put_uint16-join ha hb = omega_pair (omega arith) (omega arith)
    where
      omega_pair : {x y : ℕ} → x ≡ a → y ≡ b → x ∷ y ∷ rest ≡ a ∷ b ∷ rest
      omega_pair p q = rw (p, q)

  pub put_uint32-join :
      b < 65536 → put_uint32 (a * 65536 + b) rest ≡ put_uint16 a (put_uint16 b rest)
  put_uint32-join h = ap₂ (λ x y. put_uint16 x (put_uint16 y rest)) (omega arith) (omega arith)

  pub put_uint64-join :
      b < 4294967296 → put_uint64 (a * 4294967296 + b) rest ≡ put_uint32 a (put_uint32 b rest)
  put_uint64-join h = ap₂ (λ x y. put_uint32 x (put_uint32 y rest)) (omega arith) (omega arith)
