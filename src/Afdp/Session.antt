-- ===== src/Afdp/Session.antt =====
-- internal/afdp/session.go and limits.go: what the two ends of a handshake decide, and the count of a
-- session's streams. Opening and closing a stream and the connection are I/O and left out: the hello, and the
-- frame that carries the answer, are arguments of the definitions of the ends that receive them. protobuf is
-- a parameter. An option that is not positive is 0.
pub mod Handshake
mod Tests
use asterferry.Base.{
  ℕ, ◌+◌, ◌-◌, Bool, true, false, not, ◌&&◌, ◌||◌, Option, none, some, List, [], String, Result, ok,
  err, ◌>>=◌, ltb, leb, length, if◌then◌else◌, ◌==◌, nat_keyed, string_keyed,
}
use asterferry.Afdp.Errors.{Error, unauthorized_agent, protocol_violation, failure}
use asterferry.Afdp.Control.{AssignmentView, SessionHello, SessionAccept, authorize_session}
use asterferry.Text.{trim_space}
use asterferry.Afdp.Identity.{Peer, authorize_peer_identity}
use asterferry.Afdp.Control.Accept.{read_session_accept, write_session_accept}
use asterferry.Afdp.Control.Capabilities.{negotiate_capabilities}

pub record SessionOptions : Type 0 where
  pub max_frame : ℕ
  pub max_datagram : ℕ
  pub max_streams : ℕ
  pub reassembly_flow : ℕ
  pub reassembly_byte : ℕ
  pub reassembly_ttl : ℕ
  pub capabilities : List String
  pub expected_peer_id : String

pub record SessionLimits : Type 0 where
  pub frame : ℕ
  pub datagram : ℕ
  pub streams : ℕ
  pub flows : ℕ
  pub bytes : ℕ
  pub timeout : ℕ

-- The authenticated session, without its connection
pub record Session : Type 0 where
  pub assignment : AssignmentView
  pub max_frame : ℕ
  pub max_datagram : ℕ
  pub max_streams : ℕ
  pub opened : ℕ
  pub closed : Bool
  pub capabilities : List String

-- A value that is not positive becomes the default, and one above the maximum the maximum.
abbrev normalized : ℕ → ℕ → ℕ → ℕ
normalized value default maximum =
    if value == 0 then default else (if ltb maximum value then maximum else value)

abbrev or_default : ℕ → ℕ → ℕ
or_default value default = if value == 0 then default else value

unfoldable pub limits : SessionOptions → SessionLimits
limits o = record {
  frame = normalized o.max_frame 1048576 1048576;
  datagram =
      if leb o.max_datagram 24
      then 1200
      else (if ltb 65536 o.max_datagram then 65536 else o.max_datagram);
  streams = normalized o.max_streams 256 1048576;
  flows = or_default o.reassembly_flow 256;
  bytes = or_default o.reassembly_byte 8388608;
  timeout = or_default o.reassembly_ttl 30000000000;
}

-- The session of a client that accepts the answer
abbrev pub client_state : SessionHello → SessionAccept → SessionOptions → Session
client_state hello accept options = record {
  assignment = record {
    id = accept.assignment_id;
    agent_id = hello.agent_id;
    generation = accept.generation;
    state = "";
    service_ids = accept.service_ids;
    max_streams = (limits options).streams;
  };
  max_frame = (limits options).frame;
  max_datagram = (limits options).datagram;
  max_streams = (limits options).streams;
  opened = 0;
  closed = false;
  capabilities = negotiate_capabilities hello.capabilities accept.capabilities;
}

-- ClientSession, once the accept was read
unfoldable pub accepted : SessionHello → SessionAccept → SessionOptions → Result Error Session
accepted hello accept options =
    let negotiated = negotiate_capabilities hello.capabilities accept.capabilities in
    if not (accept.assignment_id == hello.assignment_id)
      || not (accept.generation == hello.generation)
    then err unauthorized_agent
    else (if not (length negotiated == length accept.capabilities)
        then err (
            protocol_violation
              (failure "session accept contains capabilities not offered by the client"))
        else ok (client_state hello accept options))

-- The check of the server's certificate, when the options expect an identity
unfoldable pub check_expected_peer : Peer → SessionOptions → Option Error
check_expected_peer peer options =
    let expected = trim_space options.expected_peer_id in
    if expected == "" then none else authorize_peer_identity peer expected

-- The `resolve` of ServerSessionWithLookup
unfoldable pub resolve :
    (SessionHello → Option AssignmentView) → SessionHello → Result Error AssignmentView
resolve lookup_assignment hello = elim (lookup_assignment hello) [
  | none ↦ err unauthorized_agent
  | some assignment ↦ elim (authorize_session hello assignment) [
    | some error ↦ err error
    | none ↦ ok assignment
  ]
]

abbrev pub accept_of : AssignmentView → SessionHello → SessionOptions → SessionAccept
accept_of assignment hello options = record {
  assignment_id = assignment.id;
  generation = assignment.generation;
  capabilities = negotiate_capabilities options.capabilities hello.capabilities;
  service_ids = assignment.service_ids;
}

module _ (marshal : SessionAccept → List ℕ) (unmarshal : List ℕ → Option SessionAccept) where
  -- ClientSession, given the frame that the server answers with
  unfoldable pub client_session :
      Peer → SessionHello → List ℕ → SessionOptions → Result Error Session
  client_session peer hello frame options = elim (check_expected_peer peer options) [
    | some error ↦ err error
    | none ↦ read_session_accept marshal unmarshal frame (limits options).frame >>= λ accept.
        accepted hello accept options
  ]

  -- serverSession, once the hello was read: the frame that is written, and the session.
  unfoldable pub server_session :
      (SessionHello → Option AssignmentView)
      → Peer
      → SessionHello
      → SessionOptions
      → Result Error (List ℕ × Session)
  server_session lookup_assignment peer hello options = elim (resolve lookup_assignment hello) [
    | err error ↦ err error
    | ok assignment ↦ elim (authorize_peer_identity peer hello.agent_id) [
      | some error ↦ err error
      | none ↦
          let limit = limits options in
          let accept = accept_of assignment hello options in
          write_session_accept marshal unmarshal accept limit.frame >>= λ frame. ok (
            frame,
            record {
              assignment = assignment;
              max_frame = limit.frame;
              max_datagram = limit.datagram;
              max_streams =
                  if ltb 0 assignment.max_streams && ltb assignment.max_streams limit.streams
                  then assignment.max_streams
                  else limit.streams;
              opened = 0;
              closed = false;
              capabilities = accept.capabilities;
            },
          )
    ]
  ]

-- The loops on the stream counter
unfoldable pub reserve_stream : Session → Session × Bool
reserve_stream s =
    if leb s.max_streams s.opened then (s, false) else (record s { opened = s.opened + 1 }, true)

unfoldable pub release_stream : Session → Session
release_stream s = record s { opened = s.opened - 1 }
