-- ===== src/Afdp/Control/Accept.antt =====
-- internal/afdp/protocol_control.go and session.go: the codec of the answer to a hello, and its frame on the
-- control stream. protobuf is a parameter: `marshal` is its deterministic encoding and `unmarshal` reads a
-- message, with `none` for malformed bytes and for unknown fields. The four bytes of a frame's length are
-- those of the length of the list that stands for the frame.
use asterferry.Base.{
  ℕ, ◌+◌, ◌||◌, ◌≡◌, ◌≤◌, Option, none, some, List, Result, ok, err, ◌>>=◌, Result-cases, inl, inr,
  ltb, length, ap, ◌∙◌, if◌then◌else◌, ◌==◌, nat_keyed, string_keyed, arith,
}
use asterferry.Afdp.Errors.{Error, malformed_frame, frame_too_large}
use asterferry.Afdp.Control.{SessionAccept, validate_session_accept}
use asterferry.Afdp.Control.Sorted.{
  sort_strings-again, length-sort_strings, check_service_ids-sort_strings,
}
use asterferry.Afdp.Control.Capabilities.{
  canonical_capabilities, canonical_service_ids, sort_strings,
}
use asterferry.Afdp.Control.Frames.{
  max_session_frame, encode_control, decode_control, decode_control-encode_control, bytes_beq,
  bytes_beq_refl, control-parts, limit_bound, normalize_frame_limit,
}

abbrev pub accept_kind : ℕ
accept_kind = 2

-- The message that stands for an accept
abbrev pub wire_accept : SessionAccept → SessionAccept
wire_accept value = record value {
  capabilities = canonical_capabilities value.capabilities;
  service_ids = canonical_service_ids value.service_ids;
}

-- writeControlFrame, up to the writes
unfoldable pub write_control_frame : List ℕ → Result Error (List ℕ)
write_control_frame frame = if ltb 4294967295 (length frame) then err frame_too_large else ok frame

-- readControlFrame, of a frame that arrives whole
unfoldable pub read_control_frame : List ℕ → ℕ → Result Error (List ℕ)
read_control_frame frame given =
    let max = if given == 0 then max_session_frame else given in
    if length frame == 0
      || ltb (max + 6) (length frame)
      || ltb (max_session_frame + 6) (length frame)
    then err frame_too_large
    else ok frame

-- Sorted again, a message is the same.
wire_accept-again : (value : SessionAccept) → wire_accept (wire_accept value) ≡ wire_accept value
unfolding canonical_capabilities canonical_service_ids
wire_accept-again value =
    ap
      (λ names. record value {
        capabilities = names;
        service_ids = sort_strings (sort_strings value.service_ids);
      })
      (sort_strings-again value.capabilities)
    ∙ ap (λ ids. record value { capabilities = sort_strings value.capabilities; service_ids = ids })
        (sort_strings-again value.service_ids)

wire_accept-valid :
    (value : SessionAccept)
    → canonical_capabilities value.capabilities ≡ value.capabilities
    → validate_session_accept value ≡ none
    → validate_session_accept (wire_accept value) ≡ none
unfolding validate_session_accept canonical_service_ids
wire_accept-valid value sorted valid = rw sorted (
    ground (
      arith,
      length-sort_strings value.service_ids,
      check_service_ids-sort_strings value.service_ids (ground arith),
    ))

-- A frame is also made under another limit that it keeps.
encode_control-limit :
    (kind max max' : ℕ) (body bytes : List ℕ)
    → encode_control kind body max ≡ ok bytes
    → length bytes ≤ normalize_frame_limit max' + 6
    → (encode_control kind body max' ≡ ok bytes) × (length bytes ≡ length body + 6)
unfolding encode_control
encode_control-limit kind max max' body bytes h fits =
    let (framed, small) = control-parts kind max body bytes h in
    let long : length bytes ≡ length body + 6 = ap length framed ∙ omega arith in
    (ground (arith, framed, long, limit_bound max'), long)

module _ (marshal : SessionAccept → List ℕ) (unmarshal : List ℕ → Option SessionAccept) where
  unfoldable pub encode_session_accept : SessionAccept → ℕ → Result Error (List ℕ)
  encode_session_accept value max = elim (validate_session_accept value) [
    | some e ↦ err e
    | none ↦ encode_control accept_kind (marshal (wire_accept value)) max
  ]

  -- The checks of DecodeSessionAccept behind `Unmarshal`
  unfoldable pub check_accept : List ℕ → ℕ → SessionAccept → Result Error SessionAccept
  check_accept bytes max value = elim (validate_session_accept value) [
    | some e ↦ err e
    | none ↦ elim (encode_session_accept value max) [
      | err e ↦ err malformed_frame
      | ok canonical ↦ if bytes_beq canonical bytes then ok value else err malformed_frame
    ]
  ]

  unfoldable pub decode_session_accept : List ℕ → ℕ → Result Error SessionAccept
  decode_session_accept bytes max = decode_control bytes accept_kind max >>= λ body.
      elim (unmarshal body) [
        | none ↦ err malformed_frame
        | some value ↦ check_accept bytes max value
      ]

  unfoldable pub write_session_accept : SessionAccept → ℕ → Result Error (List ℕ)
  write_session_accept value max = encode_session_accept value max >>= write_control_frame

  unfoldable pub read_session_accept : List ℕ → ℕ → Result Error SessionAccept
  read_session_accept frame max =
      read_control_frame frame max >>= λ bytes. decode_session_accept bytes max

  encode-parts :
      (value : SessionAccept) (bytes : List ℕ) (max : ℕ)
      → encode_session_accept value max ≡ ok bytes
      → (validate_session_accept value ≡ none)
        × (encode_control accept_kind (marshal (wire_accept value)) max ≡ ok bytes)
  unfolding encode_session_accept
  encode-parts value bytes max h = (ground arith, ground arith)

  write-encoded :
      (value : SessionAccept) (frame : List ℕ) (max : ℕ)
      → write_session_accept value max ≡ ok frame
      → encode_session_accept value max ≡ ok frame
  unfolding write_session_accept write_control_frame
  write-encoded value frame max h = elim (Result-cases (encode_session_accept value max)) [
    | inr (e, refused) ↦ absurd (ground (arith, refused))
    | inl (bytes, done) ↦ ground (arith, done)
  ]

  encode-again :
      (value : SessionAccept) (frame : List ℕ) (max : ℕ)
      → validate_session_accept (wire_accept value) ≡ none
      → encode_control accept_kind (marshal (wire_accept value)) max ≡ ok frame
      → encode_session_accept (wire_accept value) max ≡ ok frame
  unfolding encode_session_accept
  encode-again value frame max valid whole =
      let same : marshal (wire_accept (wire_accept value)) ≡ marshal (wire_accept value) =
        ap marshal (wire_accept-again value) in
      ground (arith, valid, same, whole)

  check-accepted :
      (value : SessionAccept) (frame : List ℕ) (max : ℕ)
      → validate_session_accept value ≡ none
      → encode_session_accept value max ≡ ok frame
      → check_accept frame max value ≡ ok value
  unfolding check_accept
  check-accepted value frame max valid whole = ground (arith, valid, whole, bytes_beq_refl frame)

  -- A written accept that fits the reader's limit is read, with its services sorted, if protobuf reads back
  -- what it wrote.
  pub read_session_accept-write_session_accept :
      (value : SessionAccept) (frame : List ℕ) (max max' : ℕ)
      → canonical_capabilities value.capabilities ≡ value.capabilities
      → unmarshal (marshal (wire_accept value)) ≡ some (wire_accept value)
      → write_session_accept value max ≡ ok frame
      → 1 ≤ max'
      → max' ≤ max_session_frame
      → length frame ≤ max' + 6
      → read_session_accept frame max' ≡ ok (wire_accept value)
  unfolding read_session_accept read_control_frame decode_session_accept normalize_frame_limit
  read_session_accept-write_session_accept value frame max max' sorted inverse w least most fits =
      let (valid, whole) = encode-parts value frame max (write-encoded value frame max w) in
      let (again, long) =
        encode_control-limit accept_kind max max' (marshal (wire_accept value)) frame whole
          (ground arith) in
      let valid' = wire_accept-valid value sorted valid in
      let framed =
        decode_control-encode_control accept_kind max' (marshal (wire_accept value)) frame again in
      let checked =
        check-accepted (wire_accept value) frame max' valid'
          (encode-again value frame max' valid' again) in
      ground (arith, long, framed, inverse, checked)
