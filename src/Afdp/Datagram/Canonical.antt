-- ===== src/Afdp/Datagram/Canonical.antt =====
-- A datagram that decodes is the encoding of what it decodes to: the format has one spelling.
use asterferry.Base.{
  ℕ, ◌+◌, ◌-◌, ◌%◌, ◌≤◌, ◌<◌, ◌≡◌, none, List, [], ◌∷◌, ◌++◌, ok, length, length-drop, drop, arith,
  ap, sym, ◌∙◌,
}
use asterferry.Afdp.Bytes.{
  Bytes, byte_at, uint16_at, uint32_at, uint64_at, put_uint16, put_uint32, put_uint64, bytes_from,
  bytes_from-drop, byte_at-Byte, put_uint16-join, put_uint32-join, put_uint64-join,
}
use asterferry.Afdp.Datagram.{
  DatagramHeader, InWidth, validate_datagram_header, normalize_datagram_payload_limit, frame_bytes,
  encode_datagram, decode_datagram, read_header,
}

-- What `decode_datagram` has checked when it succeeds.
record Decoded (bytes : List ℕ) (m : ℕ) (h : DatagramHeader) (payload : List ℕ) : Type 0 where
  long : 24 ≤ length bytes
  first : byte_at bytes 0 ≡ 1
  size : uint16_at bytes 2 ≡ 24
  reserved : uint16_at bytes 22 ≡ 0
  counted : uint16_at bytes 20 ≡ length bytes - 24
  valid : validate_datagram_header h ≡ none
  bounded : length payload ≤ normalize_datagram_payload_limit m
  header : h ≡ read_header bytes
  tail : payload ≡ drop 24 bytes

decode-Decoded :
    (bytes : List ℕ) (m : ℕ) (h : DatagramHeader) (payload : List ℕ)
    → decode_datagram bytes m ≡ ok (h, payload)
    → Decoded bytes m h payload
unfolding decode_datagram
decode-Decoded bytes m h payload e = ground (arith, length-drop 24 bytes)

module _ (bytes : List ℕ) (b : Bytes bytes) (rest : List ℕ) where
  byte : (i : ℕ) → byte_at bytes i < 256
  byte i = byte_at-Byte bytes i b

  half : (i : ℕ) → uint16_at bytes i < 65536
  half i = omega (arith, byte i, byte (i + 1))

  word : (i : ℕ) → uint32_at bytes i < 4294967296
  word i = omega (arith, half i, half (i + 2))

  put16-at :
      (i : ℕ) → put_uint16 (uint16_at bytes i) rest ≡ byte_at bytes i ∷ byte_at bytes (i + 1) ∷ rest
  put16-at i =
      put_uint16-join (byte_at bytes i) (byte_at bytes (i + 1)) rest (byte i) (byte (i + 1))

module _ (bytes : List ℕ) (b : Bytes bytes) (rest : List ℕ) where
  put32-at :
      (i : ℕ)
      → put_uint32 (uint32_at bytes i) rest
        ≡ byte_at bytes i
          ∷ byte_at bytes (i + 1)
          ∷ byte_at bytes (i + 2)
          ∷ byte_at bytes (i + 2 + 1)
          ∷ rest
  put32-at i =
      put_uint32-join (uint16_at bytes i) (uint16_at bytes (i + 2)) rest (half bytes b rest (i + 2))
      ∙ put16-at bytes b (put_uint16 (uint16_at bytes (i + 2)) rest) i
      ∙ ap (λ (t : List ℕ). byte_at bytes i ∷ byte_at bytes (i + 1) ∷ t)
          (put16-at bytes b rest (i + 2))

module _ (bytes : List ℕ) (b : Bytes bytes) where
  put64-at :
      (i : ℕ) (rest : List ℕ)
      → put_uint64 (uint64_at bytes i) rest
        ≡ put_uint32 (uint32_at bytes i) (put_uint32 (uint32_at bytes (i + 4)) rest)
  put64-at i rest =
      put_uint64-join (uint32_at bytes i) (uint32_at bytes (i + 4)) rest (word bytes b rest (i + 4))

  -- The four integers of the header, read and written again.
  fields :
      (rest : List ℕ)
      → put_uint64 (uint64_at bytes 4) (
          put_uint32
            (uint32_at bytes 12)
            (put_uint16 (uint16_at bytes 16) (put_uint16 (uint16_at bytes 18) rest)))
        ≡ bytes_from 16 4 bytes ++ rest
  fields rest =
      let after18 = put16-at bytes b rest 18 in
      let after16 = put16-at bytes b (bytes_from 2 18 bytes ++ rest) 16 in
      let after12 = put32-at bytes b (bytes_from 4 16 bytes ++ rest) 12 in
      let after8 = put32-at bytes b (bytes_from 8 12 bytes ++ rest) 8 in
      let after4 = put32-at bytes b (bytes_from 12 8 bytes ++ rest) 4 in
      rw (after18, after16, after12)
        (put64-at 4 _ ∙ ap (put_uint32 (uint32_at bytes 4)) after8 ∙ after4)

  length_field :
      (m : ℕ) (h : DatagramHeader) (payload : List ℕ)
      → Decoded bytes m h payload
      → put_uint16 (length payload % 65536) (0 ∷ 0 ∷ payload)
        ≡ bytes_from 4 20 bytes ++ drop 24 bytes
  length_field m h payload d =
      ap (λ t. put_uint16 t (0 ∷ 0 ∷ payload)) counted
      ∙ put16-at bytes b (0 ∷ 0 ∷ payload) 20
      ∙ λ i. byte_at bytes 20 ∷ byte_at bytes 21 ∷ zero22 i ∷ zero23 i ∷ d.tail i
    where
      counted : length payload % 65536 ≡ uint16_at bytes 20
      counted = omega (arith, d.counted, ap length d.tail, length-drop 24 bytes, half bytes b [] 20)

      zero22 : 0 ≡ byte_at bytes 22
      zero22 = omega (arith, d.reserved)

      zero23 : 0 ≡ byte_at bytes 23
      zero23 = omega (arith, d.reserved)

canonical :
    (bytes : List ℕ) (m : ℕ) (h : DatagramHeader) (payload : List ℕ)
    → Bytes bytes
    → Decoded bytes m h payload
    → frame_bytes h payload ≡ bytes
unfolding frame_bytes
canonical bytes m h payload b d =
    ap (λ (t : DatagramHeader). frame_bytes t payload) d.header
    ∙ (λ i. sym d.first i ∷ byte_at bytes 1 ∷ high i ∷ low i ∷ rest i)
    ∙ bytes_from-drop 24 bytes d.long
  where
    rest :
        put_uint64 (uint64_at bytes 4) (
          put_uint32 (uint32_at bytes 12) (
            put_uint16 (uint16_at bytes 16) (
              put_uint16
                (uint16_at bytes 18)
                (put_uint16 (length payload % 65536) (0 ∷ 0 ∷ payload)))))
        ≡ bytes_from 20 4 bytes ++ drop 24 bytes
    rest =
        fields bytes b (put_uint16 (length payload % 65536) (0 ∷ 0 ∷ payload))
        ∙ ap (λ (t : List ℕ). bytes_from 16 4 bytes ++ t) (length_field bytes b m h payload d)

    high : 0 ≡ byte_at bytes 2
    high = omega (arith, d.size, byte bytes b [] 3)

    low : 24 ≡ byte_at bytes 3
    low = omega (arith, d.size, byte bytes b [] 3)

-- Bytes that decode are the encoding, under the same payload limit, of the header and payload that
-- they decode to, and the fields of that header fit their widths.
pub encode-decode :
    (bytes : List ℕ) (max_payload : ℕ) (h : DatagramHeader) (payload : List ℕ)
    → Bytes bytes
    → decode_datagram bytes max_payload ≡ ok (h, payload)
    → (encode_datagram h payload max_payload ≡ ok bytes) × InWidth h
unfolding encode_datagram
encode-decode bytes m h payload b e = (encoded, widths)
  where
    d : Decoded bytes m h payload
    d = decode-Decoded bytes m h payload e

    encoded : encode_datagram h payload m ≡ ok bytes
    encoded = ground (arith, d.valid, d.bounded, canonical bytes m h payload b d)

    at_reading : InWidth (read_header bytes)
    at_reading = record {
      flags_width = byte bytes b [] 1;
      flow_width = omega (arith, word bytes b [] 4, word bytes b [] 8);
      sequence_width = word bytes b [] 12;
      index_width = half bytes b [] 16;
      count_width = half bytes b [] 18;
    }

    widths : InWidth h
    widths = rw d.header at_reading
