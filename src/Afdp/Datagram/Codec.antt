-- ===== src/Afdp/Datagram/Codec.antt =====
-- Encoding and decoding datagrams are inverse to one another.
use mathlib.Core.Path.{ap₂}
use asterferry.Base.{ℕ, ◌+◌, ◌/◌, ◌%◌, ◌*◌, ◌≤◌, ◌<◌, ◌≡◌, none, List, ok, length, arith, ◌∙◌}
use asterferry.Afdp.Bytes.{uint16_lem, uint32_lem}
use asterferry.Afdp.Datagram.{
  DatagramHeader, InWidth, validate_datagram_header, normalize_datagram_payload_limit, frame_bytes,
  encode_datagram, decode_datagram, read_header,
}

halves_lem : (v : ℕ) → v / 4294967296 * 4294967296 + v % 4294967296 ≡ v
halves_lem v = omega arith

high_half : (v : ℕ) → v < 18446744073709551616 → v / 4294967296 < 4294967296
high_half v h = omega arith

low_half : (v : ℕ) → v % 4294967296 < 4294967296
low_half v = omega arith

read-flow :
    (h : DatagramHeader) (payload : List ℕ)
    → InWidth h
    → (read_header (frame_bytes h payload)).flow_id ≡ h.flow_id
unfolding frame_bytes
read-flow h payload w =
    ap₂ (λ a b. a * 4294967296 + b)
      (uint32_lem (h.flow_id / 4294967296) (high_half h.flow_id w.flow_width))
      (uint32_lem (h.flow_id % 4294967296) (low_half h.flow_id))
    ∙ halves_lem h.flow_id

read-frame :
    (h : DatagramHeader) (payload : List ℕ) → InWidth h → read_header (frame_bytes h payload) ≡ h
unfolding frame_bytes
read-frame h payload w = λ i. record {
  flags = h.flags;
  flow_id = read-flow h payload w i;
  sequence = uint32_lem h.sequence w.sequence_width i;
  fragment_index = uint16_lem h.fragment_index w.index_width i;
  fragment_count = uint16_lem h.fragment_count w.count_width i;
}

pub limit_bounds : (m : ℕ) → normalize_datagram_payload_limit m ≤ 65535
unfolding normalize_datagram_payload_limit
limit_bounds m = ground arith

pub encode-parts :
    (h : DatagramHeader) (payload bytes : List ℕ) (m : ℕ)
    → encode_datagram h payload m ≡ ok bytes
    → (validate_datagram_header h ≡ none)
      × (length payload ≤ normalize_datagram_payload_limit m)
      × (bytes ≡ frame_bytes h payload)
unfolding encode_datagram
encode-parts h payload bytes m e = ground arith

pub decode-frame :
    (h : DatagramHeader) (payload : List ℕ) (m : ℕ)
    → InWidth h
    → validate_datagram_header h ≡ none
    → length payload ≤ normalize_datagram_payload_limit m
    → decode_datagram (frame_bytes h payload) m ≡ ok (h, payload)
unfolding decode_datagram frame_bytes
decode-frame h payload m w v l = ground (arith, read-frame h payload w, limit_bounds m)

-- What EncodeDatagram makes of a header whose fields fit their widths decodes to the same header and
-- payload, under the same payload limit.
pub decode-encode :
    (h : DatagramHeader) (payload bytes : List ℕ) (max_payload : ℕ)
    → InWidth h
    → encode_datagram h payload max_payload ≡ ok bytes
    → decode_datagram bytes max_payload ≡ ok (h, payload)
decode-encode h payload bytes m w e =
    let (v, l, q) = encode-parts h payload bytes m e in rw q (decode-frame h payload m w v l)
