-- ===== src/Afdp/Control.antt =====
-- internal/afdp/protocol_control.go: what the data plane knows of an assignment, the handshake and
-- open messages, and who may open a session or a stream. A set of service ids is a list.
pub mod Parts
pub mod Admission
pub mod Frames
pub mod Capabilities
pub mod Sorted
pub mod Accept
mod Tests
use Prim.Native.String.{len}
use asterferry.Base.{
  ℕ, Bool, true, false, not, ◌&&◌, ◌||◌, Option, none, some, List, [], ◌∷◌, String, ltb, leb,
  length, is_some, if◌then◌else◌, ◌==◌, nat_keyed, string_keyed,
}
use asterferry.Base.Sets.{member}
use asterferry.Text.{trim_space, any_rune, split_host_port, is_port}
use asterferry.Domain.Types.{Assignment}
use asterferry.Domain.Id.{validate_id}
use asterferry.Afdp.Errors.{Error, malformed_frame, frame_too_large, unauthorized_agent}

pub record AssignmentView : Type 0 where
  pub id : String
  pub agent_id : String
  pub generation : ℕ
  pub state : String
  pub service_ids : List String
  pub max_streams : ℕ

pub record SessionHello : Type 0 where
  pub assignment_id : String
  pub generation : ℕ
  pub agent_id : String
  pub capabilities : List String

pub record SessionAccept : Type 0 where
  pub assignment_id : String
  pub generation : ℕ
  pub capabilities : List String
  pub service_ids : List String

pub record OpenMetadata : Type 0 where
  pub protocol : String
  pub service_id : String
  pub target : String
  pub flow_id : ℕ
  pub egress : Bool

unfoldable pub assignment_from_domain : Assignment → ℕ → AssignmentView
assignment_from_domain value max_streams = record {
  id = value.id;
  agent_id = value.agent_id;
  generation = value.generation;
  state = value.state;
  service_ids = value.service_ids;
  max_streams = max_streams;
}

unfoldable pub is_wire_id : String → ℕ → Bool
is_wire_id value max = not (value == "" || ltb max (len value) || is_some (validate_id value))

-- `strings.ContainsAny(value, "\x00\r\n")`
abbrev pub has_break : String → Bool
has_break = any_rune (λ r. r == 0 || r == 13 || r == 10)

-- The loop over the capabilities, with those seen before.
unfoldable pub check_capabilities : List String → List String → Option Error
check_capabilities seen [] = none
check_capabilities seen (capability ∷ rest) =
    let later = check_capabilities (capability ∷ seen) rest in
    if capability == "" || ltb 64 (len capability) || has_break capability
    then some malformed_frame
    else (if member capability seen then some malformed_frame else later)

unfoldable pub validate_session : SessionHello → Option Error
validate_session value =
    if not (is_wire_id value.assignment_id 128)
      || value.generation == 0
      || not (is_wire_id value.agent_id 128)
    then some malformed_frame
    else (if ltb 64 (length value.capabilities)
        then some frame_too_large
        else check_capabilities [] value.capabilities)

-- The loop over the service ids, with those seen before.
unfoldable pub check_service_ids : List String → List String → Option Error
check_service_ids seen [] = none
check_service_ids seen (service_id ∷ rest) =
    let later = check_service_ids (service_id ∷ seen) rest in
    if not (is_wire_id service_id 128)
    then some malformed_frame
    else (if member service_id seen then some malformed_frame else later)

unfoldable pub validate_session_accept : SessionAccept → Option Error
validate_session_accept value =
    if not (is_wire_id value.assignment_id 128) || value.generation == 0
    then some malformed_frame
    else (if ltb 64 (length value.capabilities)
        then some frame_too_large
        else (elim (check_capabilities [] value.capabilities) [
          | some e ↦ some e
          | none ↦
              if ltb 4096 (length value.service_ids)
              then some frame_too_large
              else check_service_ids [] value.service_ids
        ]))

-- A placement that is pending, draining or degraded admits nothing.
unfoldable pub is_blocked : String → Bool
is_blocked state = state == "pending" || state == "draining" || state == "degraded"

unfoldable pub authorize_session : SessionHello → AssignmentView → Option Error
authorize_session hello assignment = elim (validate_session hello) [
  | some e ↦ some e
  | none ↦
      if not (hello.assignment_id == assignment.id)
        || not (hello.agent_id == assignment.agent_id)
        || not (hello.generation == assignment.generation)
      then some unauthorized_agent
      else (if is_blocked assignment.state then some unauthorized_agent else none)
]

-- The host and port of an open's target.
unfoldable pub is_target : String → Bool
is_target target = elim (split_host_port target) [
  | none ↦ false
  | some parts ↦
      not (trim_space parts.0 == "")
      && parts.0 == trim_space parts.0
      && not (any_rune (λ r. r == 9 || r == 32) parts.1)
      && is_port parts.1
]

unfoldable pub encode_open_validation : OpenMetadata → Option Error
encode_open_validation value =
    if not (value.protocol == "tcp") && not (value.protocol == "udp")
    then some malformed_frame
    else (if (if value.egress
          then not (value.service_id == "")
          else not (is_wire_id value.service_id 128))
        then some malformed_frame
        else (if len value.target == 0 || ltb 2048 (len value.target) || has_break value.target
            then some malformed_frame
            else (if not (is_target value.target)
                then some malformed_frame
                else (if value.protocol == "udp" && value.flow_id == 0
                    then some malformed_frame
                    else (if value.protocol == "tcp" && not (value.flow_id == 0)
                        then some malformed_frame
                        else none)))))

unfoldable pub authorize_open : OpenMetadata → AssignmentView → Option Error
authorize_open open_request assignment = elim (encode_open_validation open_request) [
  | some e ↦ some e
  | none ↦
      if is_blocked assignment.state
      then some unauthorized_agent
      else (if open_request.egress
          then none
          else (if member open_request.service_id assignment.service_ids
              then none
              else some unauthorized_agent))
]
