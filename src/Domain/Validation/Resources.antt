-- ===== src/Domain/Validation/Resources.antt =====
-- internal/domain/model_validation.go: Service.Validate and Assignment.Validate.
use Prim.Native.String.{len}
use asterferry.Base.{
  Bool, not, ◌&&◌, ◌||◌, Option, none, List, [], ◌∷◌, String, ltb, is_none, length, if◌then◌else◌,
  ◌orelse◌, reject, ◌==◌, nat_keyed, string_keyed,
}
use asterferry.Base.Sets.{member}
use asterferry.Text.{trim_space}
use asterferry.Domain.Types.{Service, Assignment, Binding}
use asterferry.Domain.Id.{contains_control, is_host_port}
use asterferry.Domain.Bindings.{BindingKey, binding_keyed, normalized_ip}
use asterferry.Domain.Validation.{
  Issue, invalid, plain, Platform, wrap, check_id, check_endpoint, is_transport, validate_selector,
  validate_obfuscation,
}

abbrev is_state : String → Bool
is_state state =
    state == ""
    || state == "pending"
    || state == "applied"
    || state == "degraded"
    || state == "draining"

unfoldable pub check_service_ids : List String → List String → Option Issue
check_service_ids seen [] = none
check_service_ids seen (id ∷ ids) =
    check_id id
    orelse reject (member id seen) (plain "assignment contains duplicate service ids")
    orelse check_service_ids (id ∷ seen) ids

module _ (platform : Platform) where
  unfoldable pub validate_service : Service → Option Issue
  validate_service s =
      check_id s.id
      orelse check_id s.agent_id
      orelse reject (not (is_transport s.protocol)) (plain "service protocol must be tcp or udp")
      orelse validate_selector s.gateway_selector
      orelse reject (trim_space s.local_target == "") (plain "service local_target is required")
      orelse reject (ltb 2048 (len s.local_target) || contains_control s.local_target)
          (plain "service local_target is invalid")
      orelse reject (trim_space s.public_bind == "") (plain "service public_bind is required")
      orelse reject (not (s.public_bind == trim_space s.public_bind))
          (plain "service public_bind must not contain surrounding whitespace")
      orelse reject (is_none (platform.parse s.public_bind))
          (plain "service public_bind must be an IP address")
      orelse reject
          (not (s.public_port == 0)
            && not (platform.resolves s.public_bind s.public_port)
            && s.protocol == "tcp")
          (plain "service public bind")
      orelse reject (not (is_host_port s.local_target))
          (plain "service local_target must be host:port")

  abbrev pub binding_key_of : Binding → BindingKey
  binding_key_of b = record {
    protocol = b.protocol;
    bind = normalized_ip platform.parse b.bind;
    port = b.port;
  }

  unfoldable pub check_binding : Binding → Option Issue
  check_binding b =
      check_id b.service_id
      orelse reject (not (is_transport b.protocol))
          (plain "assignment binding protocol must be tcp or udp")
      orelse reject (b.port == 0) (plain "assignment binding port must be non-zero")
      orelse reject (not (b.bind == trim_space b.bind))
          (plain "assignment binding bind must not contain surrounding whitespace")
      orelse reject (is_none (platform.parse b.bind))
          (plain "assignment binding bind must be an IP address")

  -- The loop over the bindings, with the services and the keys seen before.
  unfoldable pub check_bindings : List String → List BindingKey → List Binding → Option Issue
  check_bindings services keys [] = none
  check_bindings services keys (b ∷ bindings) =
      check_binding b
      orelse reject (member b.service_id services)
          (plain "assignment contains multiple bindings for one service")
      orelse reject (member (binding_key_of b) keys)
          (plain "assignment contains duplicate public bindings")
      orelse check_bindings (b.service_id ∷ services) (binding_key_of b ∷ keys) bindings

  unfoldable pub validate_assignment : Assignment → Option Issue
  validate_assignment a =
      check_id a.id
      orelse check_id a.gateway_id
      orelse check_id a.agent_id
      orelse reject (a.generation == 0) (plain "assignment generation must be positive")
      orelse reject (not (is_state a.state))
          (invalid "invalid_assignment_state" "assignment state is invalid")
      orelse (if a.public_endpoint == ""
          then none
          else wrap "invalid_endpoint" (check_endpoint a.public_endpoint))
      orelse validate_obfuscation platform a.obfuscation
      orelse reject (ltb 4096 (length a.service_ids) || ltb 4096 (length a.bindings))
          (invalid "assignment_too_large" "assignment contains too many services or bindings")
      orelse check_service_ids [] a.service_ids
      orelse check_bindings [] [] a.bindings
