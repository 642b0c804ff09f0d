-- ===== src/Afdp/Control/Tests.antt =====
-- Runs of internal/afdp/protocol_control.go and protocol_capabilities.go.
use asterferry.Base.{
  ℕ, false, ◌≡◌, refl, Option, none, some, List, [], ◌∷◌, String, ok, ◌&&◌, ◌↔◌, string_keyed,
}
use asterferry.Base.Sets.{member, NoRepeat}
use asterferry.Text.{
  trim_space, trim_left, trim_right, any_rune, split_host_port, split_last, split_at_colon,
  split_bracketed, split_plain, split_first, is_port, atoi, digits,
}
use asterferry.Domain.Id.{validate_id, starts_with_punctuation, ends_in_punctuation}
use asterferry.Afdp.Control.{
  AssignmentView, SessionHello, OpenMetadata, authorize_session, authorize_open, validate_session,
  encode_open_validation, is_blocked, check_capabilities, is_target, is_wire_id,
}
use asterferry.Afdp.Control.Admission.{
  Admitted, OpenAdmitted, authorize_session-Admitted, authorize_open-OpenAdmitted,
}
use asterferry.Afdp.Control.Capabilities.{
  negotiate_capabilities, negotiate_capabilities-common, offered, canonical_capabilities,
  sort_strings, insert_string, intersect,
}
use asterferry.Afdp.Control.Frames.{
  encode_open, decode_open, encode_control, normalize_frame_limit, decode_open-encode_open,
  encode_open-decode_open,
}

abbrev hello : SessionHello
hello = record {
  assignment_id = "edge-1";
  generation = 3;
  agent_id = "agent.7";
  capabilities = "udp" ∷ "tcp" ∷ [];
}

abbrev view : AssignmentView
view = record {
  id = "edge-1";
  agent_id = "agent.7";
  generation = 3;
  state = "applied";
  service_ids = "web" ∷ "dns" ∷ [];
  max_streams = 8;
}

abbrev dns_open : OpenMetadata
dns_open = record {
  protocol = "udp";
  service_id = "dns";
  target = "[::1]:53";
  flow_id = 9;
  egress = false;
}

-- The hello is admitted.
hello_admitted : authorize_session hello view ≡ none
unfolding authorize_session validate_session is_wire_id validate_id trim_space trim_left trim_right
    any_rune starts_with_punctuation ends_in_punctuation check_capabilities member is_blocked
hello_admitted = refl

-- The open of the second service is admitted.
open_admitted : authorize_open dns_open view ≡ none
unfolding authorize_open encode_open_validation is_wire_id validate_id trim_space trim_left
    trim_right any_rune starts_with_punctuation ends_in_punctuation is_target split_host_port
    split_last split_at_colon split_bracketed split_plain split_first is_port atoi digits member
    is_blocked
open_admitted = refl

authorize_session-Admitted_example : Admitted hello view
authorize_session-Admitted_example = authorize_session-Admitted hello view hello_admitted

authorize_open-OpenAdmitted_example :
    (authorize_open dns_open view ≡ none) ↔ OpenAdmitted dns_open view
authorize_open-OpenAdmitted_example = authorize_open-OpenAdmitted dns_open view

negotiated :
    negotiate_capabilities [] ("udp" ∷ "quic" ∷ "http" ∷ "udp" ∷ []) ≡ ("http" ∷ "udp" ∷ [])
unfolding negotiate_capabilities canonical_capabilities sort_strings insert_string intersect offered
    member
negotiated = refl

negotiate_capabilities-common_example :
    NoRepeat (negotiate_capabilities [] ("udp" ∷ "quic" ∷ []))
    × ((key : String)
        → member key (negotiate_capabilities [] ("udp" ∷ "quic" ∷ []))
          ≡ (member key (offered []) && member key ("udp" ∷ "quic" ∷ [])))
negotiate_capabilities-common_example = negotiate_capabilities-common [] ("udp" ∷ "quic" ∷ [])

-- A protobuf codec that knows one message.
abbrev marshal : OpenMetadata → List ℕ
marshal value = 10 ∷ 3 ∷ []

abbrev unmarshal : List ℕ → Option OpenMetadata
unmarshal body = some dns_open

abbrev dns_frame : List ℕ
dns_frame = 1 ∷ 3 ∷ 0 ∷ 0 ∷ 0 ∷ 2 ∷ 10 ∷ 3 ∷ []

dns_encoded : encode_open marshal unmarshal dns_open 0 ≡ ok dns_frame
unfolding encode_open encode_control normalize_frame_limit encode_open_validation is_wire_id
    validate_id trim_space trim_left trim_right any_rune starts_with_punctuation ends_in_punctuation
    is_target split_host_port split_last split_at_colon split_bracketed split_plain split_first
    is_port atoi digits
dns_encoded = refl

decode_open-encode_open_example : decode_open marshal unmarshal dns_frame 0 ≡ ok dns_open
decode_open-encode_open_example =
    decode_open-encode_open marshal unmarshal dns_open dns_frame 0 refl dns_encoded

encode_open-decode_open_example : encode_open marshal unmarshal dns_open 0 ≡ ok dns_frame
encode_open-decode_open_example =
    encode_open-decode_open marshal unmarshal dns_open dns_frame 0 decode_open-encode_open_example
