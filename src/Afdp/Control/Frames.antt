-- ===== src/Afdp/Control/Frames.antt =====
-- internal/afdp/protocol_control.go: the frame around a control message, and the open message's codec.
-- protobuf is a parameter: `marshal` is its deterministic encoding and `unmarshal` reads a message,
-- with `none` for malformed bytes and for unknown fields.
use asterferry.Base.{
  ℕ, ◌+◌, ◌-◌, ◌≤◌, Bool, true, false, not, ◌&&◌, ◌||◌, ◌≡◌, refl, Option, none, some, List, [],
  ◌∷◌, Result, ok, err, ◌>>=◌, >>=-inverse, Option-cases, Result-cases, inl, inr, ltb, leb, length,
  drop, if◌then◌else◌, ◌==◌, nat_keyed, string_keyed, arith,
}
use asterferry.Afdp.Errors.{Error, malformed_frame, frame_too_large, invalid_version}
use asterferry.Afdp.Bytes.{put_uint32, byte_at, uint32_at, uint32_lem}
use asterferry.Afdp.Datagram.{version}
use asterferry.Afdp.Control.{OpenMetadata, encode_open_validation}

abbrev pub max_session_frame : ℕ
max_session_frame = 1048576

-- A limit that is not positive is 0 here.
unfoldable pub normalize_frame_limit : ℕ → ℕ
normalize_frame_limit max = if max == 0 || ltb max_session_frame max then max_session_frame else max

-- encodeControl, behind `Marshal`: `body` is what it made.
unfoldable pub encode_control : ℕ → List ℕ → ℕ → Result Error (List ℕ)
encode_control kind body max =
    if ltb (normalize_frame_limit max) (length body) || ltb 4294967295 (length body)
    then err frame_too_large
    else ok (version ∷ kind ∷ put_uint32 (length body) body)

-- decodeControl, up to `Unmarshal`: the bytes that it is given.
unfoldable pub decode_control : List ℕ → ℕ → ℕ → Result Error (List ℕ)
decode_control bytes kind max =
    let limit = normalize_frame_limit max in
    if ltb (length bytes) 6
      || ltb (limit + 6) (length bytes)
      || not (byte_at bytes 0 == version)
      || not (byte_at bytes 1 == kind)
    then (if leb 1 (length bytes) && not (byte_at bytes 0 == version)
        then err invalid_version
        else err malformed_frame)
    else (if ltb limit (uint32_at bytes 2) || not (uint32_at bytes 2 == length bytes - 6)
        then err malformed_frame
        else ok (drop 6 bytes))

pub limit_bound : (max : ℕ) → normalize_frame_limit max ≤ 1048576
unfolding normalize_frame_limit
limit_bound max = ground arith

pub control-parts :
    (kind max : ℕ) (body bytes : List ℕ)
    → encode_control kind body max ≡ ok bytes
    → (bytes ≡ version ∷ kind ∷ put_uint32 (length body) body)
      × (length body ≤ normalize_frame_limit max)
unfolding encode_control
control-parts kind max body bytes h = ground arith

decode-frame :
    (kind max : ℕ) (body : List ℕ)
    → length body ≤ normalize_frame_limit max
    → decode_control (version ∷ kind ∷ put_uint32 (length body) body) kind max ≡ ok body
unfolding decode_control
decode-frame kind max body h =
    ground (arith, limit_bound max, uint32_lem (length body) (omega (arith, limit_bound max, h)))

-- A control frame that encodeControl makes is read back by decodeControl under the same limit and
-- kind.
pub decode_control-encode_control :
    (kind max : ℕ) (body bytes : List ℕ)
    → encode_control kind body max ≡ ok bytes
    → decode_control bytes kind max ≡ ok body
decode_control-encode_control kind max body bytes h =
    let (q, l) = control-parts kind max body bytes h in rw q (decode-frame kind max body l)

abbrev pub open_kind : ℕ
open_kind = 3

abbrev pub bytes_beq : List ℕ → List ℕ → Bool
bytes_beq [] [] = true
bytes_beq (a ∷ left) (b ∷ right) = a == b && bytes_beq left right
bytes_beq [] (b ∷ right) = false
bytes_beq (a ∷ left) [] = false

pub bytes_beq_refl : (left : List ℕ) → bytes_beq left left ≡ true
bytes_beq_refl [] = refl
bytes_beq_refl (a ∷ left) = ground (arith, bytes_beq_refl left)

bytes_beq→eq : (left right : List ℕ) → bytes_beq left right ≡ true → left ≡ right
bytes_beq→eq [] [] h = refl
bytes_beq→eq (a ∷ left) (b ∷ right) h = ground (arith, bytes_beq→eq left right)
bytes_beq→eq [] (b ∷ right) h = absurd (cc)
bytes_beq→eq (a ∷ left) [] h = absurd (cc)

module _ (marshal : OpenMetadata → List ℕ) (unmarshal : List ℕ → Option OpenMetadata) where
  unfoldable pub encode_open : OpenMetadata → ℕ → Result Error (List ℕ)
  encode_open value max = elim (encode_open_validation value) [
    | some e ↦ err e
    | none ↦ encode_control open_kind (marshal value) max
  ]

  -- `Unmarshal`, and the check that the bytes are the canonical encoding of what was read.
  unfoldable pub read_open : List ℕ → ℕ → List ℕ → Result Error OpenMetadata
  read_open bytes max body = elim (unmarshal body) [
    | none ↦ err malformed_frame
    | some value ↦ elim (encode_open value max) [
      | err e ↦ err e
      | ok encoded ↦ if bytes_beq encoded bytes then ok value else err malformed_frame
    ]
  ]

  unfoldable pub decode_open : List ℕ → ℕ → Result Error OpenMetadata
  decode_open bytes max = decode_control bytes open_kind max >>= read_open bytes max

  open-parts :
      (value : OpenMetadata) (bytes : List ℕ) (max : ℕ)
      → encode_open value max ≡ ok bytes
      → encode_control open_kind (marshal value) max ≡ ok bytes
  unfolding encode_open
  open-parts value bytes max h = ground arith

  read-accepted :
      (value : OpenMetadata) (bytes body : List ℕ) (max : ℕ)
      → unmarshal body ≡ some value
      → encode_open value max ≡ ok bytes
      → read_open bytes max body ≡ ok value
  unfolding read_open
  read-accepted value bytes body max u h = ground (arith, bytes_beq_refl bytes)

  -- An open that encodes is decoded to the same metadata under the same limit, if protobuf reads
  -- back what it wrote.
  pub decode_open-encode_open :
      (value : OpenMetadata) (bytes : List ℕ) (max : ℕ)
      → unmarshal (marshal value) ≡ some value
      → encode_open value max ≡ ok bytes
      → decode_open bytes max ≡ ok value
  unfolding decode_open
  decode_open-encode_open value bytes max u h =
      rw
        (decode_control-encode_control open_kind max (marshal value) bytes
          (open-parts value bytes max h))
        (read-accepted value bytes (marshal value) max u h)

  read-canonical :
      (value : OpenMetadata) (bytes body : List ℕ) (max : ℕ)
      → read_open bytes max body ≡ ok value
      → encode_open value max ≡ ok bytes
  unfolding read_open
  read-canonical value bytes body max h = elim (Option-cases (unmarshal body)) [
    | inl missing ↦ absurd (ground arith)
    | inr (read, q) ↦ elim (Result-cases (encode_open read max)) [
      | inl (encoded, r) ↦ ground (arith, bytes_beq→eq encoded bytes)
      | inr (e, r) ↦ absurd (ground arith)
    ]
  ]

  -- Bytes that decode to an open are the encoding of that open under the same limit, whatever
  -- protobuf does with them.
  pub encode_open-decode_open :
      (value : OpenMetadata) (bytes : List ℕ) (max : ℕ)
      → decode_open bytes max ≡ ok value
      → encode_open value max ≡ ok bytes
  unfolding decode_open
  encode_open-decode_open value bytes max h =
      let (body, read, frame) =
        >>=-inverse (decode_control bytes open_kind max) (read_open bytes max) h in
      read-canonical value bytes body max read
