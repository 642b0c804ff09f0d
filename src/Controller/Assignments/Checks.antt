-- ===== src/Controller/Assignments/Checks.antt =====
-- internal/controller/store_assignment_write.go: the tests of PutAssignment between its reads and its
-- writes, and supersededAssignments.
use asterferry.Base.{
  ℕ, ◌+◌, Bool, not, ◌&&◌, Option, none, some, List, [], String, ltb, any, keep, map, if◌then◌else◌,
  ◌orelse◌, reject, first_error, ◌==◌, nat_keyed, string_keyed,
}
use asterferry.Base.Maps.{Map, lookup}
use asterferry.Base.Sets.{member}
use asterferry.Domain.Types.{
  NodeSpecKind, Assignment, Binding, Service, GatewaySpec, Listener, is_gateway, is_agent,
}
use asterferry.Domain.Selectors.{matches}
use asterferry.Domain.Validation.{Platform}
use asterferry.Controller.Ports.{
  BindingKey, binding_keyed, port_in_pool, normalize_bind, binding_key,
}
use asterferry.Controller.Scheduler.{is_inactive}
use asterferry.Controller.Assignments.{
  AssignmentError, no_rows, wrong_kind, node_disabled, endpoint_mismatch, service_assigned,
  unknown_service, foreign_service, selector_mismatch, foreign_binding, protocol_mismatch,
  bind_mismatch, port_mismatch, port_outside_pool, revision_conflict, generation_conflict,
  port_conflict, Row, matches_revision,
}

-- A node that has a spec, with its labels and the spec of a gateway
pub record NodeRow : Type 0 where
  pub kind : NodeSpecKind
  pub enabled : Bool
  pub labels : Map String String
  pub gateway : Option GatewaySpec

pub record Tables : Type 0 where
  pub nodes : Map String NodeRow
  pub services : Map String Service

-- A node that must be there, of a kind and enabled
unfoldable pub check_node : (NodeSpecKind → Bool) → Option NodeRow → Option AssignmentError
check_node is_kind none = some no_rows
check_node is_kind (some node) =
    reject (not (is_kind node.kind)) wrong_kind orelse reject (not node.enabled) node_disabled

unfoldable pub gateway_spec : Tables → Assignment → Option GatewaySpec
gateway_spec tables a = elim (lookup a.gateway_id tables.nodes) [
  | none ↦ none
  | some node ↦ node.gateway
]

unfoldable pub gateway_labels : Tables → Assignment → Map String String
gateway_labels tables a = elim (lookup a.gateway_id tables.nodes) [
  | none ↦ []
  | some node ↦ node.labels
]

unfoldable pub check_public_endpoint : Option GatewaySpec → Assignment → Option AssignmentError
check_public_endpoint none a = none
check_public_endpoint (some spec) a =
    reject (not (a.public_endpoint == "") && not (member a.public_endpoint spec.public_endpoints))
      endpoint_mismatch

unfoldable pub check_generation : Option Row → Assignment → Option AssignmentError
check_generation none a = none
check_generation (some previous) a =
    reject (ltb a.generation previous.assignment.generation)
      (generation_conflict previous.assignment.generation a.generation)

-- Another assignment that has one of the services
unfoldable pub is_superseded : Assignment → String × Row → Bool
is_superseded a (id, row) =
    not (id == a.id) && any (λ service. member service row.assignment.service_ids) a.service_ids

-- supersededAssignments: the ids, and the error of one that is still active
unfoldable pub superseded : Assignment → Map String Row → List String
superseded a rows = map (λ (entry : String × Row). entry.0) (keep (is_superseded a) rows)

unfoldable pub check_superseded : Assignment → Map String Row → Option AssignmentError
check_superseded a rows =
    reject
      (any (λ (entry : String × Row). not (is_inactive entry.1.assignment))
        (keep (is_superseded a) rows))
      service_assigned

unfoldable pub check_service_row :
    Assignment → Map String String → Option Service → Option AssignmentError
check_service_row a labels none = some unknown_service
check_service_row a labels (some service) =
    reject (not (service.agent_id == a.agent_id)) foreign_service
    orelse reject (not (matches service.gateway_selector.match_labels (some labels)))
        selector_mismatch

unfoldable pub document : Tables → Assignment → String → Option Service
document tables a id = if member id a.service_ids then lookup id tables.services else none

unfoldable pub next_revision : Option Row → ℕ
next_revision none = 1
next_revision (some previous) = previous.assignment.revision + 1

unfoldable pub check_revision : Option Row → ℕ → Option AssignmentError
check_revision none if_match = reject (ltb 0 if_match) (revision_conflict if_match 0)
check_revision (some previous) if_match =
    reject (not (matches_revision if_match previous))
      (revision_conflict if_match previous.assignment.revision)

abbrev pub port_taken : Assignment → Binding → AssignmentError
port_taken a b =
    port_conflict
      (record { gateway_id = a.gateway_id; protocol = b.protocol; bind = b.bind; port = b.port })

module _ (platform : Platform) where
  unfoldable pub key_of : Binding → BindingKey
  key_of b = binding_key platform.parse b.protocol b.bind b.port

  unfoldable pub listens_at : BindingKey → Listener → Bool
  listens_at key listener =
      binding_key platform.parse listener.protocol listener.bind listener.port == key

  -- The tests of a binding that look at the gateway's spec
  unfoldable pub check_in_spec : Assignment → Option GatewaySpec → Binding → Option AssignmentError
  check_in_spec a none b = none
  check_in_spec a (some spec) b =
      reject (not (port_in_pool spec.port_pool b.protocol b.port)) port_outside_pool
      orelse reject (any (listens_at (key_of b)) spec.listeners) (port_taken a b)

  unfoldable pub check_binding_row :
      Assignment → Option GatewaySpec → Option Service → Binding → Option AssignmentError
  check_binding_row a spec none b = some foreign_binding
  check_binding_row a spec (some service) b =
      reject (not (service.protocol == b.protocol)) protocol_mismatch
      orelse reject
          (not (
            normalize_bind platform.parse service.public_bind
            == normalize_bind platform.parse b.bind))
          bind_mismatch
      orelse reject (not (service.public_port == 0) && not (service.public_port == b.port))
          port_mismatch
      orelse check_in_spec a spec b

  -- The tests between the reads and the writes
  unfoldable pub check_put : Tables → Assignment → ℕ → Map String Row → Option AssignmentError
  check_put tables a if_match rows =
      let previous = lookup a.id rows in
      check_node is_gateway (lookup a.gateway_id tables.nodes)
      orelse check_node is_agent (lookup a.agent_id tables.nodes)
      orelse check_public_endpoint (gateway_spec tables a) a
      orelse check_generation previous a
      orelse check_superseded a rows
      orelse first_error
          (λ id. check_service_row a (gateway_labels tables a) (lookup id tables.services))
          a.service_ids
      orelse first_error
          (λ (b : Binding).
            check_binding_row a (gateway_spec tables a) (document tables a b.service_id) b)
          a.bindings
      orelse check_revision previous if_match
