-- ===== src/Afdp/Datagram.antt =====
-- internal/afdp/protocol_datagram.go: the fixed 24-byte header of a QUIC datagram and its payload.
-- The fields are numbers; their widths are stated by `InWidth`. The flag tests `flags & 1`,
-- `flags & 2` and `flags &^ 3` of a byte are written with `/` and `%`. `maxPayload` is a Go int: the
-- code treats every value that is not positive alike, and 0 stands for them.
pub mod Codec
pub mod Canonical
mod Tests
use asterferry.Base.{
  ℕ, ◌+◌, ◌-◌, ◌/◌, ◌%◌, ◌<◌, Bool, true, false, not, ◌&&◌, ◌||◌, Option, none, some, List, [], ◌∷◌,
  Result, ok, err, ltb, leb, length, drop, if◌then◌else◌, ◌==◌, nat_keyed,
}
use asterferry.Afdp.Errors.{Error, invalid_version, malformed_frame, frame_too_large}
use asterferry.Afdp.Bytes.{
  put_uint16, put_uint32, put_uint64, byte_at, uint16_at, uint32_at, uint64_at,
}

pub record DatagramHeader : Type 0 where
  pub flags : ℕ
  pub flow_id : ℕ
  pub sequence : ℕ
  pub fragment_index : ℕ
  pub fragment_count : ℕ

-- The widths of the struct's fields: byte, uint64, uint32, uint16, uint16.
pub record InWidth (h : DatagramHeader) : Type 0 where
  pub flags_width : h.flags < 256
  pub flow_width : h.flow_id < 18446744073709551616
  pub sequence_width : h.sequence < 4294967296
  pub index_width : h.fragment_index < 65536
  pub count_width : h.fragment_count < 65536

abbrev pub version : ℕ
version = 1

abbrev pub datagram_header_bytes : ℕ
datagram_header_bytes = 24

abbrev pub max_datagram_payload : ℕ
max_datagram_payload = 65535

abbrev pub max_datagram_fragments : ℕ
max_datagram_fragments = 1024

abbrev pub has_fragmented : ℕ → Bool
has_fragmented flags = not (flags % 2 == 0)

abbrev pub has_fin : ℕ → Bool
has_fin flags = not (flags / 2 % 2 == 0)

abbrev pub has_unknown : ℕ → Bool
has_unknown flags = not (flags / 4 == 0)

-- The cases of the `switch`, in order. The last ones know that the count is not 0.
unfoldable pub validate_datagram_header : DatagramHeader → Option Error
validate_datagram_header h =
    if flow_id == 0
    then some malformed_frame
    else (if fragment_count == 0
        then some malformed_frame
        else (if fragment_count == 1 && not (fragment_index == 0)
            then some malformed_frame
            else (if leb fragment_count fragment_index
                then some malformed_frame
                else (if ltb max_datagram_fragments fragment_count
                    then some frame_too_large
                    else (if fragment_count == 1 && has_fragmented flags
                        then some malformed_frame
                        else (if ltb 1 fragment_count && not (has_fragmented flags)
                            then some malformed_frame
                            else (if has_unknown flags
                                then some malformed_frame
                                else (if fragment_index == fragment_count - 1 && not (has_fin flags)
                                    then some malformed_frame
                                    else (if not (fragment_index == fragment_count - 1)
                                          && has_fin flags
                                        then some malformed_frame
                                        else none)))))))))
  where
    open h use {flags, flow_id, fragment_index, fragment_count}

unfoldable pub normalize_datagram_payload_limit : ℕ → ℕ
normalize_datagram_payload_limit max_payload =
    if max_payload == 0 || ltb max_datagram_payload max_payload
    then max_datagram_payload
    else max_payload

-- The bytes 0 to 23 and the payload behind them.
unfoldable pub frame_bytes : DatagramHeader → List ℕ → List ℕ
frame_bytes h payload =
    version
    ∷ h.flags
    ∷ put_uint16 datagram_header_bytes (
        put_uint64 h.flow_id (
          put_uint32 h.sequence (
            put_uint16 h.fragment_index (
              put_uint16 h.fragment_count
                (put_uint16 (length payload % 65536) (0 ∷ 0 ∷ payload))))))

unfoldable pub encode_datagram : DatagramHeader → List ℕ → ℕ → Result Error (List ℕ)
encode_datagram h payload max_payload = elim (validate_datagram_header h) [
  | some e ↦ err e
  | none ↦
      if ltb (normalize_datagram_payload_limit max_payload) (length payload)
      then err frame_too_large
      else ok (frame_bytes h payload)
]

abbrev read_header : List ℕ → DatagramHeader
read_header bytes = record {
  flags = byte_at bytes 1;
  flow_id = uint64_at bytes 4;
  sequence = uint32_at bytes 12;
  fragment_index = uint16_at bytes 16;
  fragment_count = uint16_at bytes 18;
}

unfoldable pub decode_datagram : List ℕ → ℕ → Result Error (DatagramHeader × List ℕ)
decode_datagram bytes max_payload =
    if ltb (length bytes) datagram_header_bytes
    then err malformed_frame
    else (if not (byte_at bytes 0 == version)
        then err invalid_version
        else (if not (uint16_at bytes 2 == datagram_header_bytes) || not (uint16_at bytes 22 == 0)
            then err malformed_frame
            else (if not (uint16_at bytes 20 == length bytes - datagram_header_bytes)
                then err malformed_frame
                else (elim (validate_datagram_header (read_header bytes)) [
                  | some e ↦ err e
                  | none ↦
                      if ltb (normalize_datagram_payload_limit max_payload) (uint16_at bytes 20)
                      then err frame_too_large
                      else ok (read_header bytes, drop datagram_header_bytes bytes)
                ]))))
