-- ===== src/Afdp/Datagram/Tests.antt =====
-- Tests and instances for datagrams.
use asterferry.Base.{ℕ, ◌≡◌, refl, List, [], ◌∷◌, ok, err, arith}
use asterferry.Afdp.Errors.{frame_too_large}
use asterferry.Afdp.Datagram.{
  DatagramHeader, InWidth, validate_datagram_header, normalize_datagram_payload_limit, frame_bytes,
  encode_datagram, decode_datagram,
}
use asterferry.Afdp.Datagram.Codec.{decode-encode}
use asterferry.Afdp.Datagram.Canonical.{encode-decode}

abbrev hello_header : DatagramHeader
hello_header = record {
  flags = 2;
  flow_id = 258;
  sequence = 7;
  fragment_index = 0;
  fragment_count = 1;
}

abbrev hello_bytes : List ℕ
hello_bytes =
    1 ∷ 2 ∷ 0 ∷ 24 ∷ 0 ∷ 0 ∷ 0 ∷ 0 ∷ 0 ∷ 0 ∷ 1 ∷ 2 ∷ 0 ∷ 0 ∷ 0 ∷ 7 ∷ 0 ∷ 0 ∷ 0 ∷ 1 ∷ 0 ∷ 2 ∷ 0 ∷ 0
    ∷ 104 ∷ 105 ∷ []

hello_encodes : encode_datagram hello_header (104 ∷ 105 ∷ []) 0 ≡ ok hello_bytes
unfolding encode_datagram validate_datagram_header normalize_datagram_payload_limit frame_bytes
hello_encodes = refl

hello_decodes : decode_datagram hello_bytes 0 ≡ ok (hello_header, 104 ∷ 105 ∷ [])
unfolding decode_datagram validate_datagram_header normalize_datagram_payload_limit
hello_decodes = refl

too_large : encode_datagram hello_header (104 ∷ 105 ∷ []) 1 ≡ err frame_too_large
unfolding encode_datagram validate_datagram_header normalize_datagram_payload_limit
too_large = refl

decode-encode_example : decode_datagram hello_bytes 0 ≡ ok (hello_header, 104 ∷ 105 ∷ [])
decode-encode_example =
    decode-encode hello_header (104 ∷ 105 ∷ []) hello_bytes 0 (omega arith) hello_encodes

encode-decode_example :
    (encode_datagram hello_header (104 ∷ 105 ∷ []) 0 ≡ ok hello_bytes) × InWidth hello_header
encode-decode_example =
    encode-decode hello_bytes 0 hello_header (104 ∷ 105 ∷ []) (omega arith) hello_decodes
