-- ===== src/Domain/Validation/Snapshot.antt =====
-- internal/domain/model_validation.go: DesiredSnapshot.Validate. The four maps from a service id to the
-- service's agent, protocol, bind and port are one map to the service. `checksum` is ComputeChecksum.
use asterferry.Base.{
  not, ◌&&◌, ◌||◌, Option, none, some, List, [], ◌∷◌, String, Result, ok, err, ltb, is_some,
  is_none, length, if◌then◌else◌, ◌orelse◌, reject, ◌==◌, nat_keyed, string_keyed,
}
use asterferry.Base.Maps.{Map, lookup, insert}
use asterferry.Base.Sets.{member}
use asterferry.Domain.Types.{
  GatewaySpec, AgentSpec, Service, Assignment, Binding, Listener, DesiredSnapshot,
}
use asterferry.Domain.Bindings.{BindingKey, binding_keyed, normalized_ip}
use asterferry.Domain.Validation.{Issue, invalid, Platform, wrap, check_id}
use asterferry.Domain.Validation.Specs.{validate_gateway, validate_agent, listener_key}
use asterferry.Domain.Validation.Resources.{validate_service, validate_assignment, binding_key_of}
use asterferry.Domain.Validation.Claims.{is_held}

-- The conditions on the snapshot before its specs.
unfoldable pub check_header : DesiredSnapshot → Option Issue
check_header s =
    reject (not (s.schema_version == 1)) (invalid "unknown_schema" "schema version is unsupported")
    orelse check_id s.node_id
    orelse reject (s.generation == 0) (invalid "invalid_generation" "generation must be positive")
    orelse reject (ltb 32768 (length s.services) || ltb 32768 (length s.assignments))
        (invalid "snapshot_too_large" "snapshot contains too many resources")
    orelse reject (is_some s.gateway && is_some s.agent)
        (invalid "invalid_node_spec" "snapshot must contain at most one gateway or agent spec")
    orelse reject
        (is_none s.gateway
          && is_none s.agent
          && (ltb 0 (length s.services) || ltb 0 (length s.assignments)))
        (invalid "invalid_node_spec"
          "an unconfigured snapshot cannot contain services or assignments")

-- The conditions on a service's place among the assignment's and on who has it already.
unfoldable pub check_claim :
    Map String Service → Assignment → Map String String → String → Option Issue
check_claim index a assigned id = elim (lookup id index) [
  | none ↦ some (invalid "unknown_service" "service is not present in snapshot")
  | some service ↦
      reject (not (service.agent_id == a.agent_id))
        (invalid "service_agent_mismatch" "service belongs to another agent")
      orelse reject (is_held a.id id assigned)
          (invalid "resource_conflict" "service is assigned more than once")
]

-- The loop over an assignment's services.
unfoldable pub claim_services :
    Map String Service
    → Assignment
    → List String
    → Map String String
    → Result Issue (Map String String)
claim_services index a [] assigned = ok assigned
claim_services index a (id ∷ ids) assigned =
    let rest = claim_services index a ids (insert id a.id assigned) in
    elim (check_claim index a assigned id) [ some issue ↦ err issue | none ↦ rest ]

module _ (platform : Platform) where
  -- The service with a binding's id; the zero values of a missing one match no binding.
  unfoldable pub check_against : Option Service → Binding → Option Issue
  check_against none b =
      some (invalid "protocol_mismatch" "binding protocol does not match the service")
  check_against (some service) b =
      reject (not (service.protocol == b.protocol))
        (invalid "protocol_mismatch" "binding protocol does not match the service")
      orelse reject
          (not (
            normalized_ip platform.parse service.public_bind
            == normalized_ip platform.parse b.bind))
          (invalid "bind_mismatch" "binding address does not match the service public bind")
      orelse reject (not (service.public_port == 0) && not (service.public_port == b.port))
          (invalid "port_mismatch" "binding port does not match the service public port")

  unfoldable pub check_bound :
      Map String Service → Assignment → Map BindingKey String → Binding → Option Issue
  check_bound index a bound b =
      reject (not (member b.service_id a.service_ids))
        (invalid "unknown_service" "binding references a service outside service_ids")
      orelse check_against (lookup b.service_id index) b
      orelse reject (is_held a.id (binding_key_of platform b) bound)
          (invalid "resource_conflict" "public binding is duplicated across assignments")

  -- The loop over an assignment's bindings.
  unfoldable pub claim_bindings :
      Map String Service
      → Assignment
      → List Binding
      → Map BindingKey String
      → Result Issue (Map BindingKey String)
  claim_bindings index a [] bound = ok bound
  claim_bindings index a (b ∷ bindings) bound =
      let rest = claim_bindings index a bindings (insert (binding_key_of platform b) a.id bound) in
      elim (check_bound index a bound b) [ some issue ↦ err issue | none ↦ rest ]

  -- The loop over the services, with those seen before.
  unfoldable pub collect_services :
      Option AgentSpec
      → String
      → List Service
      → Map String Service
      → Result Issue (Map String Service)
  collect_services agent_spec node_id [] index = ok index
  collect_services agent_spec node_id (service ∷ services) index =
      let rest = collect_services agent_spec node_id services (insert service.id service index) in
      elim (wrap "invalid_service" (validate_service platform service)
        orelse reject (is_some (lookup service.id index))
            (invalid "duplicate_service" "service id is duplicated")
        orelse reject (is_some agent_spec && not (service.agent_id == node_id)) (
            invalid "node_mismatch" "agent snapshot may only contain services owned by its node")) [
              | some issue ↦ err issue
              | none ↦ rest
            ]

  unfoldable pub seed_listeners : List Listener → Map BindingKey String → Map BindingKey String
  seed_listeners [] bound = bound
  seed_listeners (l ∷ listeners) bound =
      seed_listeners listeners (insert (listener_key platform l) "listener" bound)

  -- The bindings of the gateway's listeners
  abbrev pub listener_bindings : Option GatewaySpec → Map BindingKey String
  listener_bindings none = []
  listener_bindings (some g) = seed_listeners g.listeners []

  -- The conditions on an assignment before its services.
  unfoldable pub check_assignment : DesiredSnapshot → List String → Assignment → Option Issue
  check_assignment s seen a =
      wrap "invalid_assignment" (validate_assignment platform a)
      orelse reject (member a.id seen)
          (invalid "duplicate_assignment" "assignment id is duplicated")
      orelse reject (ltb s.generation a.generation) (
          invalid "generation_mismatch"
            "assignment generation cannot be newer than snapshot generation")
      orelse reject (is_some s.gateway && not (a.gateway_id == s.node_id))
          (invalid "node_mismatch" "gateway snapshot contains an assignment for another gateway")
      orelse reject (is_some s.agent && not (a.agent_id == s.node_id))
          (invalid "node_mismatch" "agent snapshot contains an assignment for another agent")

  -- The loop over the assignments, with the ids seen and what is claimed before.
  unfoldable pub check_assignments :
      DesiredSnapshot
      → Map String Service
      → List String
      → Map String String
      → Map BindingKey String
      → List Assignment
      → Option Issue
  check_assignments s index seen assigned bound [] = none
  check_assignments s index seen assigned bound (a ∷ assignments) =
      check_assignment s seen a orelse (elim (claim_services index a a.service_ids assigned) [
        | err issue ↦ some issue
        | ok assigned' ↦ elim (claim_bindings index a a.bindings bound) [
          | err issue ↦ some issue
          | ok bound' ↦ check_assignments s index (a.id ∷ seen) assigned' bound' assignments
        ]
      ])

  abbrev check_gateway : DesiredSnapshot → Option GatewaySpec → Option Issue
  check_gateway s none = none
  check_gateway s (some g) =
      reject (not (g.node_id == s.node_id))
        (invalid "node_mismatch" "gateway node id does not match snapshot")
      orelse validate_gateway platform g

  abbrev check_agent : DesiredSnapshot → Option AgentSpec → Option Issue
  check_agent s none = none
  check_agent s (some a) =
      reject (not (a.node_id == s.node_id))
        (invalid "node_mismatch" "agent node id does not match snapshot")
      orelse validate_agent platform a

  -- The services and the assignments
  unfoldable pub check_resources : DesiredSnapshot → Option Issue
  check_resources s = elim (collect_services s.agent s.node_id s.services []) [
    | err issue ↦ some issue
    | ok index ↦ check_assignments s index [] [] (listener_bindings s.gateway) s.assignments
  ]

  -- Everything but the checksum
  unfoldable pub check_structure : DesiredSnapshot → Option Issue
  check_structure s =
      check_header s
      orelse check_gateway s s.gateway
      orelse check_agent s s.agent
      orelse check_resources s

  module _ (checksum : DesiredSnapshot → Result String String) where
    unfoldable pub check_checksum : DesiredSnapshot → Option Issue
    check_checksum s = if s.checksum == "" then none else (elim (checksum s) [
      | err message ↦ some (invalid "checksum_error" message)
      | ok computed ↦
          reject (not (platform.equal_fold computed s.checksum))
            (invalid "checksum_mismatch" "snapshot checksum does not match its content")
    ])

    unfoldable pub validate_snapshot : DesiredSnapshot → Option Issue
    validate_snapshot s = check_structure s orelse check_checksum s
