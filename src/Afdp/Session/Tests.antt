-- ===== src/Afdp/Session/Tests.antt =====
-- A handshake from both ends.
use asterferry.Base.{
  ℕ, List, length, ◌≤◌, ◌+◌, arith, false, ◌≡◌, refl, Option, none, some, [], ◌∷◌, ok, string_keyed,
  nat_keyed,
}
use asterferry.Base.Sets.{member}
use asterferry.Text.{trim_space, trim_left, trim_right, trim_slash, any_rune}
use asterferry.Domain.Id.{validate_id, starts_with_punctuation, ends_in_punctuation}
use asterferry.Afdp.Control.{
  AssignmentView, SessionHello, SessionAccept, authorize_session, validate_session,
  check_capabilities, check_service_ids, validate_session_accept, is_wire_id, is_blocked,
}
use asterferry.Afdp.Control.Capabilities.{
  canonical_service_ids, negotiate_capabilities, canonical_capabilities, sort_strings,
  insert_string, intersect, offered,
}
use asterferry.Afdp.Identity.{Peer, certified, authorize_peer_identity, has_uri, node_identity_uri}
use asterferry.Afdp.Control.Accept.{
  wire_accept, write_session_accept, write_control_frame, encode_session_accept,
}
use asterferry.Afdp.Control.Frames.{encode_control, normalize_frame_limit}
use asterferry.Afdp.Session.{
  accept_of, check_expected_peer, SessionOptions, Session, limits, client_session, server_session,
  resolve,
}
use asterferry.Afdp.Session.Handshake.{Agreed, client_session-server_session}

abbrev hello : SessionHello
hello = record {
  assignment_id = "edge-1";
  generation = 3;
  agent_id = "agent.7";
  capabilities = "udp" ∷ "quic" ∷ "tcp" ∷ [];
}

abbrev view : AssignmentView
view = record {
  id = "edge-1";
  agent_id = "agent.7";
  generation = 3;
  state = "applied";
  service_ids = "web" ∷ "dns" ∷ [];
  max_streams = 8;
}

abbrev options : SessionOptions
options = record {
  max_frame = 0;
  max_datagram = 0;
  max_streams = 0;
  reassembly_flow = 0;
  reassembly_byte = 0;
  reassembly_ttl = 0;
  capabilities = [];
  expected_peer_id = "";
}

-- The client knows which gateway it expects, and reads short frames only.
abbrev client_options : SessionOptions
client_options = record options { max_frame = 64; expected_peer_id = " gate-1 " }

abbrev index : SessionHello → Option AssignmentView
index h = some view

abbrev agent : Peer
agent = certified (record { common_name = "agent.7"; uris = [] })

abbrev gateway : Peer
gateway = certified (record {
  common_name = "";
  uris = record { scheme = "spiffe"; host = "asterferry"; path = "/node/gate-1/" } ∷ [];
})

-- A protobuf codec that knows one message
abbrev accept : SessionAccept
accept = record {
  assignment_id = "edge-1";
  generation = 3;
  capabilities = "tcp" ∷ "udp" ∷ [];
  service_ids = "dns" ∷ "web" ∷ [];
}

abbrev marshal : SessionAccept → List ℕ
marshal value = 10 ∷ 6 ∷ []

abbrev unmarshal : List ℕ → Option SessionAccept
unmarshal body = some accept

abbrev answer : List ℕ × Session
answer = (
  1 ∷ 2 ∷ 0 ∷ 0 ∷ 0 ∷ 2 ∷ 10 ∷ 6 ∷ [],
  record {
    assignment = view;
    max_frame = 1048576;
    max_datagram = 1200;
    max_streams = 8;
    opened = 0;
    closed = false;
    capabilities = "tcp" ∷ "udp" ∷ [];
  },
)

answered : server_session marshal unmarshal index agent hello options ≡ ok answer
unfolding server_session resolve limits authorize_session validate_session is_wire_id validate_id
    trim_space trim_left trim_right any_rune starts_with_punctuation ends_in_punctuation
    check_capabilities member is_blocked negotiate_capabilities canonical_capabilities sort_strings
    insert_string intersect offered authorize_peer_identity has_uri node_identity_uri trim_slash
    write_session_accept write_control_frame encode_session_accept validate_session_accept
    check_service_ids encode_control normalize_frame_limit canonical_service_ids
answered = refl

read_back :
    unmarshal (marshal (wire_accept (accept_of view hello options)))
    ≡ some (wire_accept (accept_of view hello options))
unfolding negotiate_capabilities canonical_capabilities canonical_service_ids sort_strings
    insert_string intersect offered member
read_back = refl

short : length answer.0 ≤ (limits client_options).frame + 6
unfolding limits
short = omega arith

expected : check_expected_peer gateway client_options ≡ none
unfolding check_expected_peer authorize_peer_identity has_uri node_identity_uri trim_slash
    trim_space trim_left trim_right
expected = refl

client_session-server_session_example :
    (authorize_session hello view ≡ none)
    × (authorize_peer_identity agent hello.agent_id ≡ none)
    × ((c : Session) × (client_session marshal unmarshal gateway hello answer.0 client_options
          ≡ ok c)
        × Agreed c answer.1)
client_session-server_session_example =
    client_session-server_session marshal unmarshal index agent gateway hello options client_options
      answer answered read_back short expected
