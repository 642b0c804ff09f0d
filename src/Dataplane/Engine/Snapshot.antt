-- ===== src/Dataplane/Engine/Snapshot.antt =====
-- internal/dataplane/engine_snapshot.go. ApplySnapshot is `prepare`, which reads the engine without
-- holding the mutex, and `commit`, which holds it; another call may come between the two. The
-- validation of a snapshot and of a service is a parameter, as is the state of the context. The text
-- of an error stands for the formatted message, without the ids in it.
use asterferry.Base.{
  ℕ, Bool, true, false, not, ◌&&◌, ◌||◌, Option, none, some, List, [], ◌∷◌, String, Result, ok, err,
  ◌>>=◌, ltb, leb, is_none, if◌then◌else◌, ◌==◌, nat_keyed, string_keyed,
}
use asterferry.Base.Maps.{Map, lookup, insert}
use asterferry.Domain.Types.{
  GatewaySpec, AgentSpec, Service, Assignment, DesiredSnapshot, empty_egress, is_gateway, is_agent,
}
use asterferry.Afdp.Errors.{Error, failure}
use asterferry.Afdp.Control.{AssignmentView, assignment_from_domain}
use asterferry.Dataplane.Engine.{Engine, tighten, next_epoch}

-- What `Validate` says of a snapshot and of a service.
pub record Validation : Type 0 where
  pub snapshot_error : DesiredSnapshot → Option Error
  pub service_error : Service → Option Error

-- The indexes that are built before the mutex is taken, and which of the generation rules applies.
pub record Prepared : Type 0 where
  pub assignments : Map String AssignmentView
  pub services : Map String Service
  pub gateway_spec : Option GatewaySpec
  pub agent_spec : Option AgentSpec
  pub generation : ℕ
  pub rollback : Bool
  pub same_generation : Bool
  pub previous_generation : ℕ

-- The loop over the snapshot's services.
unfoldable pub index_services :
    Validation → Engine → List Service → Map String Service → Result Error (Map String Service)
index_services checks e [] index = ok index
index_services checks e (service ∷ services) index =
    let skipped = index_services checks e services index in
    let added = index_services checks e services (insert service.id service index) in
    elim (checks.service_error service) [
      | some error ↦ err error
      | none ↦ if not (service.agent_id == e.node_id) && is_agent e.kind then skipped else added
    ]

-- The loop over an assignment's services.
unfoldable pub check_services : Map String Service → String → List String → Option Error
check_services services agent_id [] = none
check_services services agent_id (service_id ∷ ids) =
    let rest = check_services services agent_id ids in
    elim (lookup service_id services) [
      | none ↦ some (failure "assignment references a service not present in snapshot")
      | some service ↦
          if not (service.agent_id == agent_id)
          then some (failure "assignment references a service owned by another agent")
          else rest
    ]

-- `assignmentLimit`
unfoldable pub assignment_limit : ℕ → Option AgentSpec → Option GatewaySpec → ℕ
assignment_limit base agent_spec gateway_spec =
    let limited : ℕ = elim agent_spec [
      | none ↦ base
      | some spec ↦ tighten base spec.limits.max_streams
    ] in
    elim gateway_spec [ none ↦ limited | some spec ↦ tighten limited spec.transport.max_streams ]

-- An assignment of another node is passed over.
unfoldable pub is_foreign : Engine → Assignment → Bool
is_foreign e assignment =
    (is_gateway e.kind && not (assignment.gateway_id == e.node_id))
    || (is_agent e.kind && not (assignment.agent_id == e.node_id))

-- The loop over the snapshot's assignments.
unfoldable pub index_assignments :
    Engine
    → ℕ
    → ℕ
    → Map String Service
    → List Assignment
    → Map String AssignmentView
    → Result Error (Map String AssignmentView)
index_assignments e generation limit services [] index = ok index
index_assignments e generation limit services (assignment ∷ assignments) index =
    let skipped = index_assignments e generation limit services assignments index in
    let added =
      index_assignments e generation limit services assignments
        (insert assignment.id (assignment_from_domain assignment limit) index) in
    if ltb generation assignment.generation
    then err (failure "assignment generation is newer than snapshot")
    else (if is_foreign e assignment
        then skipped
        else (elim (check_services services assignment.agent_id assignment.service_ids) [
          | some error ↦ err error
          | none ↦ added
        ]))

-- A snapshot that is older than the one before, which is still active: a rollback.
unfoldable pub is_rollback : Engine → DesiredSnapshot → Option DesiredSnapshot → Bool
is_rollback e snapshot none = false
is_rollback e snapshot (some previous) =
    ltb snapshot.generation previous.generation && e.generation == previous.generation

unfoldable pub is_same_generation : Engine → DesiredSnapshot → Option DesiredSnapshot → Bool
is_same_generation e snapshot none = false
is_same_generation e snapshot (some previous) =
    snapshot.generation == e.generation && previous.generation == snapshot.generation

abbrev pub generation_of : Option DesiredSnapshot → ℕ
generation_of none = 0
generation_of (some previous) = previous.generation

-- The checks before the indexes are built.
unfoldable pub check_snapshot :
    Validation → Option Error → Engine → DesiredSnapshot → Option DesiredSnapshot → Option Error
check_snapshot checks cancelled e snapshot previous = elim cancelled [
  | some error ↦ some error
  | none ↦
      if e.closed
      then some (failure "data-plane engine is closed")
      else (elim (checks.snapshot_error snapshot) [
        | some error ↦ some error
        | none ↦
            if snapshot.checksum == ""
            then some (failure "data-plane snapshots must include a checksum")
            else (if not (snapshot.node_id == e.node_id)
                then some (failure "snapshot node id does not match engine")
                else (if is_gateway e.kind && is_none snapshot.gateway
                    then some (failure "gateway snapshot is required")
                    else (if is_agent e.kind && is_none snapshot.agent
                        then some (failure "agent snapshot is required")
                        else (if not (is_rollback e snapshot previous)
                              && not (is_same_generation e snapshot previous)
                              && leb snapshot.generation e.generation
                            then some (failure "snapshot generation is stale")
                            else none))))
      ])
]

abbrev pub prepared_of :
    Engine
    → DesiredSnapshot
    → Option DesiredSnapshot
    → Map String Service
    → Map String AssignmentView
    → Prepared
prepared_of e snapshot previous services assignments = record {
  assignments = assignments;
  services = services;
  gateway_spec = snapshot.gateway;
  agent_spec = snapshot.agent;
  generation = snapshot.generation;
  rollback = is_rollback e snapshot previous;
  same_generation = is_same_generation e snapshot previous;
  previous_generation = generation_of previous;
}

unfoldable pub build_indexes :
    Validation → Engine → DesiredSnapshot → Option DesiredSnapshot → Result Error Prepared
build_indexes checks e snapshot previous =
    index_services checks e snapshot.services [] >>= λ services.
    index_assignments e snapshot.generation
      (assignment_limit e.base_max_streams snapshot.agent snapshot.gateway) services
      snapshot.assignments []
    >>= λ assignments. ok (prepared_of e snapshot previous services assignments)

-- ApplySnapshot before `e.mu.Lock()`
unfoldable pub prepare :
    Validation
    → Option Error
    → Engine
    → DesiredSnapshot
    → Option DesiredSnapshot
    → Result Error Prepared
prepare checks cancelled e snapshot previous =
    elim (check_snapshot checks cancelled e snapshot previous) [
      | some error ↦ err error
      | none ↦ build_indexes checks e snapshot previous
    ]

-- The limits and the egress policy of the installed specs.
unfoldable pub with_limits : Engine → Option GatewaySpec → Option AgentSpec → Engine
with_limits e gateway_spec (some spec) = record e {
  egress = spec.egress;
  connection_limit = spec.limits.max_connections;
  buffer_limit = spec.limits.max_buffer_bytes;
  max_streams = tighten e.base_max_streams spec.limits.max_streams;
}
with_limits e (some spec) none = record e {
  egress = spec.egress;
  connection_limit = spec.capacity.max_connections;
  buffer_limit = 0;
  max_streams = tighten e.base_max_streams spec.transport.max_streams;
}
with_limits e none none = record e {
  egress = empty_egress;
  connection_limit = 0;
  buffer_limit = 0;
  max_streams = e.base_max_streams;
}

unfoldable pub install : Engine → Prepared → Engine
install e p =
    with_limits
      (record e {
        assignments = p.assignments;
        services = p.services;
        generation = p.generation;
        epoch = next_epoch e.epoch;
        active = [];
        gateway_spec = p.gateway_spec;
        agent_spec = p.agent_spec;
      })
      p.gateway_spec p.agent_spec

-- ApplySnapshot behind `e.mu.Lock()`
unfoldable pub commit : Engine → Prepared → Engine × Option Error
commit e p =
    if e.closed
    then (e, some (failure "data-plane engine is closed"))
    else (if p.rollback && not (e.generation == p.previous_generation)
        then (e, some (failure "snapshot generation changed during rollback"))
        else (if p.same_generation && not (e.generation == p.generation)
            then (e, some (failure "snapshot generation changed during resync"))
            else (if not p.rollback && not p.same_generation && leb p.generation e.generation
                then (e, some (failure "snapshot generation is stale"))
                else (install e p, none))))

-- ApplySnapshot, with no other call between its halves.
unfoldable pub apply_snapshot :
    Validation
    → Option Error
    → Engine
    → DesiredSnapshot
    → Option DesiredSnapshot
    → Engine × Option Error
apply_snapshot checks cancelled e snapshot previous =
    elim (prepare checks cancelled e snapshot previous) [
      | err error ↦ (e, some error)
      | ok p ↦ commit e p
    ]

unfoldable pub reset_snapshot : Engine → ℕ → Engine × Option Error
reset_snapshot e expected =
    if not (expected == 0) && not (e.generation == expected)
    then (e, some (failure "data-plane snapshot generation changed during reset"))
    else (
      record e {
        generation = 0;
        gateway_spec = none;
        agent_spec = none;
        assignments = [];
        services = [];
        active = [];
        connection_limit = 0;
        buffer_limit = 0;
        max_streams = e.base_max_streams;
        egress = empty_egress;
        epoch = next_epoch e.epoch;
        draining = true;
      },
      none,
    )
