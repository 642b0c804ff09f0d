-- ===== src/Controller/Scheduler.antt =====
-- internal/controller/scheduler_placement.go: Schedule, which places an agent's services on a gateway.
-- `checks` holds what Schedule calls elsewhere: the validation of an agent spec and of a service, and
-- netip's parser. A failed validation is its message; the text of another error is kept without the ids
-- that are formatted into it. `now` is the value of `time.Now()`. `sort.SliceStable` is an insertion
-- sort that keeps equal candidates in their order.
pub mod Place
pub mod Choice
pub mod Scheduled
mod Tests
use asterferry.Base.{
  ℕ, zero, suc, ◌+◌, ◌-◌, ◌*◌, Bool, true, false, not, ◌&&◌, ◌||◌, Option, none, some, List, [],
  ◌∷◌, ◌++◌, map, String, Result, ok, err, Keyed, ltb, leb, is_some, length, keep, if◌then◌else◌,
  ◌==◌, nat_keyed, string_keyed,
}
use Prim.Native.String.{◌++◌ as ◌+++◌}
use asterferry.Base.Maps.{Map, lookup, insert}
use asterferry.Base.Sets.{member, discard}
use asterferry.Base.Sorting.{string_less}
use asterferry.Domain.Id.{validate_id}
use asterferry.Domain.Selectors.{matches}
use asterferry.Domain.Types.{
  NodeSpecKind, Node, AgentSpec, GatewaySpec, Service, Assignment, Binding, is_gateway,
}
use asterferry.Controller.Ports.{
  BindingKey, binding_keyed, PortError, conflict, failure, allocate_port, binding_key,
  normalize_bind,
}

pub record Checks : Type 0 where
  pub parse : String → Option String
  pub agent_spec_error : AgentSpec → Option String
  pub service_error : Service → Option String

pub record GatewayCandidate : Type 0 where
  pub node : Node
  pub spec : GatewaySpec
  pub healthy : Bool
  pub assignments : List Assignment
  pub used_bindings : List BindingKey

pub record ScheduleRequest : Type 0 where
  pub agent : Node
  pub agent_spec : AgentSpec
  pub services : List Service
  pub existing : Option Assignment
  pub generation : ℕ

pub record PortConflict : Type 0 where
  pub gateway_id : String
  pub protocol : String
  pub bind : String
  pub port : ℕ

pub data ScheduleError : Type 0 where
  invalid : String → ScheduleError
  port_conflict : PortConflict → ScheduleError
  unplaceable : String → ScheduleError
  no_healthy_gateway : ScheduleError

-- A degraded or draining assignment has given up its listeners.
unfoldable pub is_inactive : Assignment → Bool
is_inactive assignment = assignment.state == "degraded" || assignment.state == "draining"

unfoldable pub active_assignment_agents : List Assignment → List String
active_assignment_agents [] = []
active_assignment_agents (assignment ∷ assignments) =
    let rest = active_assignment_agents assignments in
    if is_inactive assignment || member assignment.agent_id rest
    then rest
    else assignment.agent_id ∷ rest

unfoldable pub active_assignment_service_count : List Assignment → ℕ
active_assignment_service_count [] = 0
active_assignment_service_count (assignment ∷ assignments) =
    let rest = active_assignment_service_count assignments in
    if is_inactive assignment then rest else length assignment.service_ids + rest

unfoldable pub filter_enabled_services : List Service → List Service
filter_enabled_services = keep (λ service. service.enabled)

abbrev on_gateway : Option Assignment → GatewayCandidate → Bool
on_gateway none c = false
on_gateway (some existing) c = c.node.id == existing.gateway_id

unfoldable pub load : GatewayCandidate → ℕ
load c =
    length (active_assignment_agents c.assignments) * 1000
    + active_assignment_service_count c.assignments

-- The order of the candidates: the gateway that has the agent now, then the least loaded, then by id.
unfoldable pub is_before : Option Assignment → GatewayCandidate → GatewayCandidate → Bool
is_before existing left right =
    let left_existing : Bool = on_gateway existing left in
    let right_existing : Bool = on_gateway existing right in
    if (left_existing && not right_existing) || (not left_existing && right_existing)
    then left_existing
    else (if not (load left == load right)
        then ltb (load left) (load right)
        else string_less left.node.id right.node.id)

unfoldable pub insert_candidate :
    Option Assignment → GatewayCandidate → List GatewayCandidate → List GatewayCandidate
insert_candidate existing c [] = c ∷ []
insert_candidate existing c (d ∷ ds) =
    let rest = insert_candidate existing c ds in
    if is_before existing d c then d ∷ rest else c ∷ d ∷ ds

unfoldable pub sort_candidates : Option Assignment → List GatewayCandidate → List GatewayCandidate
sort_candidates existing [] = []
sort_candidates existing (c ∷ cs) = insert_candidate existing c (sort_candidates existing cs)

-- The loop that checks the requested services, with the ids seen before.
unfoldable pub check_requested : String → List String → List Service → Option String
check_requested agent_id seen [] = none
check_requested agent_id seen (service ∷ services) =
    let rest = check_requested agent_id (service.id ∷ seen) services in
    if member service.id seen
    then some "service is duplicated"
    else (if not (service.agent_id == agent_id)
        then some "service belongs to another agent"
        else rest)

-- A degraded or draining assignment is not kept.
unfoldable pub sticky : Option Assignment → Option Assignment
sticky none = none
sticky (some existing) = if is_inactive existing then none else some existing

-- The placement of this agent on the candidate, if it has one.
unfoldable pub own : ScheduleRequest → GatewayCandidate → Option Assignment
own request c = elim request.existing [
  | none ↦ none
  | some existing ↦
      if existing.gateway_id == c.node.id && existing.agent_id == request.agent.id
      then some existing
      else none
]

-- `request.Existing != nil && existing.ID == request.Existing.ID`
unfoldable pub is_existing : Option Assignment → Assignment → Bool
is_existing none assignment = false
is_existing (some existing) assignment = assignment.id == existing.id

-- The node may be a gateway for this agent.
unfoldable pub is_eligible : ScheduleRequest → GatewayCandidate → Bool
is_eligible request c =
    c.node.enabled
    && not (c.node.certificate_state == "revoked")
    && not (c.node.certificate_state == "expired")
    && not (c.node.certificate_state == "decommissioned")
    && is_gateway c.node.spec_kind
    && c.healthy
    && (if request.agent_spec.gateway_id == ""
        then matches request.agent_spec.gateway_selector.match_labels c.node.labels
        else c.node.id == request.agent_spec.gateway_id)

abbrev service_ids_of : Option Assignment → List String
service_ids_of none = []
service_ids_of (some existing) = existing.service_ids

abbrev bindings_of : Option Assignment → List Binding
bindings_of none = []
bindings_of (some existing) = existing.bindings

-- The agents and services that already count against the candidate, without this agent's own.
unfoldable pub used_agents : ScheduleRequest → GatewayCandidate → ℕ
used_agents request c =
    length (active_assignment_agents c.assignments) - (if is_some (own request c) then 1 else 0)

unfoldable pub used_services : ScheduleRequest → GatewayCandidate → ℕ
used_services request c =
    active_assignment_service_count c.assignments - length (service_ids_of (own request c))

unfoldable pub has_capacity : ScheduleRequest → GatewayCandidate → Bool
has_capacity request c =
    not (ltb 0 c.spec.capacity.max_agents && leb c.spec.capacity.max_agents (used_agents request c))
    && not (
        ltb 0 c.spec.capacity.max_services
        && ltb c.spec.capacity.max_services (used_services request c + length request.services))

-- `existingBindings`
unfoldable pub bindings_by_service : List Binding → Map String Binding → Map String Binding
bindings_by_service [] index = index
bindings_by_service (binding ∷ bindings) index =
    bindings_by_service bindings (insert binding.service_id binding index)

-- What an option of an error does to the error that is remembered: the first stays, or the last.
abbrev first_of : Option String → String → Option String
first_of none message = some message
first_of (some earlier) message = some earlier

-- How the loop over the services ends.
pub data Placement : Type 0 where
  placed : List Binding → Placement
  conflicting : PortConflict → Placement
  refused rejected : String → Placement

abbrev pub and_also : Binding → Placement → Placement
and_also binding (placed bindings) = placed (binding ∷ bindings)
and_also binding (conflicting c) = conflicting c
and_also binding (refused message) = refused message
and_also binding (rejected message) = rejected message

-- How the loop over the candidates goes on from one of them.
pub data Verdict : Type 0 where
  chosen : Assignment → Verdict
  passed_over : Verdict
  has_conflict : PortConflict → Verdict
  has_refusal aborted : String → Verdict

abbrev pub binding_of : Service → ℕ → Binding
binding_of service port = record {
  service_id = service.id;
  protocol = service.protocol;
  bind = service.public_bind;
  port = port;
}

abbrev first_endpoint : List String → String
first_endpoint [] = ""
first_endpoint (endpoint ∷ endpoints) = endpoint

abbrev assignment_id : ScheduleRequest → GatewayCandidate → String
assignment_id request c = elim (own request c) [
  | none ↦ request.agent.id +++ "-" +++ c.node.id
  | some existing ↦ existing.id
]

abbrev pub assignment_of : ScheduleRequest → GatewayCandidate → ℕ → List Binding → Assignment
assignment_of request c now bindings = record {
  id = assignment_id request c;
  gateway_id = c.node.id;
  agent_id = request.agent.id;
  service_ids = map (λ service. service.id) request.services;
  bindings = bindings;
  generation = request.generation;
  state = "pending";
  public_endpoint = first_endpoint c.spec.public_endpoints;
  obfuscation = c.spec.obfuscation;
  revision = 0;
  updated_at = now;
}

abbrev with_node_id : ScheduleRequest → AgentSpec
with_node_id request =
    if request.agent_spec.node_id == ""
    then record request.agent_spec { node_id = request.agent.id }
    else request.agent_spec

abbrev pub prepared_request : ScheduleRequest → ScheduleRequest
prepared_request request = record request {
  agent_spec = with_node_id request;
  existing = sticky request.existing;
}

-- What the end of the loop over the services means for the candidate.
abbrev pub verdict_of : (List Binding → Assignment) → Placement → Verdict
verdict_of make (placed bindings) = chosen (make bindings)
verdict_of make (conflicting clash) = has_conflict clash
verdict_of make (refused message) = has_refusal message
verdict_of make (rejected message) = aborted message

module _ (checks : Checks) where
  abbrev pub key_of : Binding → BindingKey
  key_of binding = binding_key checks.parse binding.protocol binding.bind binding.port

  unfoldable pub discard_all : List Binding → List BindingKey → List BindingKey
  discard_all [] used = used
  discard_all (binding ∷ bindings) used = discard_all bindings (discard (key_of binding) used)

  -- The loop that adds the bindings of the other assignments.
  unfoldable pub add_occupied :
      Option Assignment → List Assignment → List BindingKey → List BindingKey
  add_occupied existing [] used = used
  add_occupied existing (assignment ∷ assignments) used =
      let rest = add_occupied existing assignments used in
      if is_inactive assignment || is_existing existing assignment
      then rest
      else map key_of assignment.bindings ++ rest

  -- `bindings`, before the loop over the services
  unfoldable pub occupied : ScheduleRequest → GatewayCandidate → List BindingKey
  occupied request c =
      add_occupied request.existing c.assignments
        (discard_all (bindings_of (own request c)) c.used_bindings)

  -- The port that the service has already, or 0.
  unfoldable pub kept_port : Map String Binding → Service → List BindingKey → ℕ
  kept_port kept service bindings = elim (lookup service.id kept) [
    | none ↦ 0
    | some binding ↦
        if binding.protocol == service.protocol
          && normalize_bind checks.parse binding.bind
            == normalize_bind checks.parse service.public_bind
          && (service.public_port == 0 || service.public_port == binding.port)
          && not (member (key_of binding) bindings)
        then binding.port
        else 0
  ]

  unfoldable pub choose_port :
      GatewayCandidate → Map String Binding → Service → List BindingKey → Result PortError ℕ
  choose_port c kept service bindings =
      let port = kept_port kept service bindings in
      if port == 0
      then allocate_port checks.parse service.protocol service.public_bind bindings c.spec.port_pool
          service.public_port
      else ok port

  -- The loop over the services.
  unfoldable pub place :
      GatewayCandidate → Map String Binding → List Service → List BindingKey → Placement
  place c kept [] bindings = placed []
  place c kept (service ∷ services) bindings = elim (checks.service_error service) [
    | some message ↦ rejected message
    | none ↦
        if not (matches service.gateway_selector.match_labels c.node.labels)
        then refused "gateway does not match service selector"
        else (elim (choose_port c kept service bindings) [
          | err (conflict protocol bind port) ↦ conflicting (record {
            gateway_id = c.node.id;
            protocol = protocol;
            bind = service.public_bind;
            port = port;
          })
          | err (failure message) ↦ refused message
          | ok port ↦
              and_also (binding_of service port)
                (place c kept services (key_of (binding_of service port) ∷ bindings))
        ])
  ]

  -- The body of the loop over the candidates.
  unfoldable pub consider : ScheduleRequest → ℕ → GatewayCandidate → Verdict
  consider request now c =
      if not (is_eligible request c && has_capacity request c)
      then passed_over
      else verdict_of (assignment_of request c now) (
          place c (bindings_by_service (bindings_of (own request c)) []) request.services
            (occupied request c))

  -- The loop over the candidates, with the conflict and the refusal that are remembered.
  unfoldable pub try_candidates :
      ScheduleRequest
      → ℕ
      → List GatewayCandidate
      → Option PortConflict
      → Option String
      → Result ScheduleError Assignment
  try_candidates request now [] (some clash) refusal = err (port_conflict clash)
  try_candidates request now [] none (some message) = err (unplaceable message)
  try_candidates request now [] none none = err no_healthy_gateway
  try_candidates request now (c ∷ cs) clash refusal = elim (consider request now c) [
    | chosen assignment ↦ ok assignment
    | passed_over ↦ try_candidates request now cs clash refusal
    | has_conflict latest ↦ try_candidates request now cs (some latest) refusal
    | has_refusal message ↦ try_candidates request now cs clash (first_of refusal message)
    | aborted message ↦ err (invalid message)
  ]

  -- The checks before the candidates are sorted.
  unfoldable pub check_request : ScheduleRequest → Option String
  check_request request = elim (validate_id request.agent.id) [
    | some message ↦ some message
    | none ↦
        if request.generation == 0
        then some "agent and positive generation are required"
        else (elim (checks.agent_spec_error (with_node_id request)) [
          | some message ↦ some message
          | none ↦
              if not ((with_node_id request).node_id == request.agent.id)
              then some "agent spec does not belong to agent"
              else (if length request.services == 0
                  then some "at least one service is required"
                  else check_requested request.agent.id [] request.services)
        ])
  ]

  unfoldable pub schedule :
      ScheduleRequest → List GatewayCandidate → ℕ → Result ScheduleError Assignment
  schedule request candidates now = elim (check_request request) [
    | some message ↦ err (invalid message)
    | none ↦
        try_candidates (prepared_request request) now
          (sort_candidates (sticky request.existing) candidates) none none
  ]
