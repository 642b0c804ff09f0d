-- ===== src/Dataplane/Engine.antt =====
-- internal/dataplane: engine_types.go, engine_authorize.go and engine_clone.go. The engine's fields are
-- one record, and a method that holds the mutex is one function of it. The compare-and-swap loops end
-- in one successful swap, which is the function's step. Copies (`clone...`) are values here. `kind`,
-- `nodeID` and the base limits never change.
pub mod Snapshot
pub mod Reserve
pub mod Install
pub mod Validated
pub mod Leases
mod Tests
use asterferry.Base.{
  ℕ, ◌+◌, ◌-◌, ◌%◌, Bool, true, false, not, ◌&&◌, ◌||◌, Option, none, some, List, [], ◌∷◌, String,
  Result, ok, err, ltb, leb, any, if◌then◌else◌, ◌==◌, nat_keyed, string_keyed,
}
use asterferry.Base.Maps.{Map, lookup, insert, erase, value_or}
use asterferry.Domain.Types.{
  NodeSpecKind, gateway, agent, other_kind, GatewaySpec, AgentSpec, Service, EgressPolicy,
  empty_egress, ProxySpec,
}
use asterferry.Domain.Id.{validate_id}
use asterferry.Afdp.Errors.{Error, unauthorized_agent, transient, failure}
use asterferry.Afdp.Control.{
  AssignmentView, SessionHello, OpenMetadata, authorize_session, authorize_open,
}

pub record Options : Type 0 where
  pub kind : NodeSpecKind
  pub node_id : String
  pub max_streams : ℕ
  pub max_sessions : ℕ

pub record Engine : Type 0 where
  pub kind : NodeSpecKind
  pub node_id : String
  pub max_streams : ℕ
  pub max_sessions : ℕ
  pub draining : Bool
  pub closed : Bool
  pub generation : ℕ
  pub epoch : ℕ
  pub gateway_spec : Option GatewaySpec
  pub agent_spec : Option AgentSpec
  pub assignments : Map String AssignmentView
  pub services : Map String Service
  pub active : Map String ℕ
  pub base_max_streams : ℕ
  pub connection_limit : ℕ
  pub buffer_limit : ℕ
  pub streams : ℕ
  pub sessions : ℕ
  pub egress : EgressPolicy

-- How far `Release` has come on a lease: `once` is set from `stream_returned` on.
pub data Stage : Type 0 where
  held stream_returned returned : Stage

pub record OpenLease : Type 0 where
  pub assignment_id : String
  pub epoch : ℕ
  pub stage : Stage

-- `uint64` addition of one
abbrev pub next_epoch : ℕ → ℕ
next_epoch epoch = (epoch + 1) % 18446744073709551616

abbrev is_node_kind : NodeSpecKind → Bool
is_node_kind gateway = true
is_node_kind agent = true
is_node_kind (other_kind text) = false

abbrev default_limit : ℕ → ℕ
default_limit n = if n == 0 then 256 else n

-- `New`; a limit that is not positive is 0 here.
unfoldable pub new_engine : Options → Result Error Engine
new_engine options =
    if not (is_node_kind options.kind)
    then err (failure "data-plane kind must be gateway or agent")
    else (elim (validate_id options.node_id) [
      | some message ↦ err (failure message)
      | none ↦
          if ltb 1048576 (default_limit options.max_streams)
          then err (failure "data-plane stream limit exceeds the supported maximum")
          else (if ltb 1048576 (default_limit options.max_sessions)
              then err (failure "data-plane session limit exceeds the supported maximum")
              else ok (record {
                kind = options.kind;
                node_id = options.node_id;
                max_streams = default_limit options.max_streams;
                max_sessions = default_limit options.max_sessions;
                draining = false;
                closed = false;
                generation = 0;
                epoch = 0;
                gateway_spec = none;
                agent_spec = none;
                assignments = [];
                services = [];
                active = [];
                base_max_streams = default_limit options.max_streams;
                connection_limit = 0;
                buffer_limit = 0;
                streams = 0;
                sessions = 0;
                egress = empty_egress;
              }))
    ])

-- The lookup of a proxy entrance by its id.
unfoldable pub find_proxy : String → List ProxySpec → Option ProxySpec
find_proxy id [] = none
find_proxy id (proxy ∷ proxies) =
    let rest = find_proxy id proxies in if proxy.id == id then some proxy else rest

unfoldable pub proxy : Engine → String → Option ProxySpec
proxy e id = elim e.agent_spec [ none ↦ none | some spec ↦ find_proxy id spec.proxies ]

unfoldable pub assignment_for_session : Engine → SessionHello → Option AssignmentView
assignment_for_session e hello = elim (lookup hello.assignment_id e.assignments) [
  | none ↦ none
  | some assignment ↦
      if not (assignment.agent_id == hello.agent_id)
        || not (assignment.generation == hello.generation)
      then none
      else some assignment
]

-- The checks of AuthorizeSession.
unfoldable pub check_session : Engine → SessionHello → Option Error
check_session e hello =
    if e.closed || e.draining
    then some (failure "data-plane engine is not accepting sessions")
    else (elim (lookup hello.assignment_id e.assignments) [
      | none ↦ some unauthorized_agent
      | some assignment ↦ authorize_session hello assignment
    ])

-- Its loop on the session counter.
unfoldable pub reserve_session : Engine → Engine × Option Error
reserve_session e =
    if leb e.max_sessions e.sessions
    then (e, some (transient "session limit reached"))
    else (record e { sessions = e.sessions + 1 }, none)

unfoldable pub engine_authorize_session : Engine → SessionHello → Engine × Option Error
engine_authorize_session e hello = elim (check_session e hello) [
  | some error ↦ (e, some error)
  | none ↦ reserve_session e
]

unfoldable pub release_session : Engine → Engine
release_session e = record e { sessions = e.sessions - 1 }

-- The service that a stream which is not an egress stream is for.
unfoldable pub check_service : Engine → OpenMetadata → Option Error
check_service e value = if value.egress then none else (elim (lookup value.service_id e.services) [
  | none ↦ some unauthorized_agent
  | some service ↦
      if not service.enabled
      then some unauthorized_agent
      else (if not (service.protocol == value.protocol)
            || not (service.local_target == value.target)
          then some unauthorized_agent
          else none)
])

-- `maxStreams` of one assignment
unfoldable pub tighten : ℕ → ℕ → ℕ
tighten limit wanted = if ltb 0 wanted && ltb wanted limit then wanted else limit

-- The loop on the stream counter, in ReserveOpen and ReserveLocalOpen.
unfoldable pub reserve_stream : Engine → Result Error Engine
reserve_stream e =
    if leb e.max_streams e.streams
    then err (transient "stream limit reached")
    else (if ltb 0 e.connection_limit && leb e.connection_limit e.streams
        then err (transient "connection limit reached")
        else ok (record e { streams = e.streams + 1 }))

abbrev pub lease_of : Engine → String → OpenLease
lease_of e assignment_id = record { assignment_id = assignment_id; epoch = e.epoch; stage = held }

-- The end of ReserveOpen: both counters go up.
unfoldable pub reserve_counted :
    Engine → String → AssignmentView → Result Error (Engine × OpenLease)
reserve_counted e assignment_id assignment =
    let active = value_or assignment_id e.active 0 in
    if leb (tighten e.max_streams assignment.max_streams) active
    then err (transient "assignment stream limit reached")
    else (elim (reserve_stream e) [
      | err error ↦ err error
      | ok e' ↦ ok (
        record e' { active = insert assignment_id (active + 1) e.active },
        lease_of e assignment_id,
      )
    ])

unfoldable pub reserve_open : Engine → String → OpenMetadata → Result Error (Engine × OpenLease)
reserve_open e assignment_id value =
    if e.closed || e.draining
    then err (failure "data-plane engine is not accepting opens")
    else (elim (lookup assignment_id e.assignments) [
      | none ↦ err unauthorized_agent
      | some assignment ↦ elim (authorize_open value assignment) [
        | some error ↦ err error
        | none ↦ elim (check_service e value) [
          | some error ↦ err error
          | none ↦ reserve_counted e assignment_id assignment
        ]
      ]
    ])

unfoldable pub reserve_local_open : Engine → Result Error (Engine × OpenLease)
reserve_local_open e =
    if e.closed || e.draining
    then err (failure "data-plane engine is not accepting local opens")
    else (elim (reserve_stream e) [ err error ↦ err error | ok e' ↦ ok (e', lease_of e "") ])

-- AuthorizeOpen and AuthorizeLocalOpen: reservations whose lease is not kept.
unfoldable pub engine_authorize_open : Engine → String → OpenMetadata → Engine × Option Error
engine_authorize_open e assignment_id value = elim (reserve_open e assignment_id value) [
  | err error ↦ (e, some error)
  | ok r ↦ (r.0, none)
]

unfoldable pub authorize_local_open : Engine → Engine × Option Error
authorize_local_open e = elim (reserve_local_open e) [
  | err error ↦ (e, some error)
  | ok r ↦ (r.0, none)
]

-- releaseStreamReservation, the first half of a release
unfoldable pub release_stream_reservation : Engine → Engine
release_stream_reservation e = record e { streams = e.streams - 1 }

-- `delete` or decrement of the assignment's count
unfoldable pub release_active : Engine → String → Engine
release_active e assignment_id =
    let count = value_or assignment_id e.active 0 in
    record e {
      active =
          if leb count 1
          then erase assignment_id e.active
          else insert assignment_id (count - 1) e.active;
    }

unfoldable pub release_local_open : Engine → Engine
release_local_open = release_stream_reservation

unfoldable pub release_open : Engine → String → Engine
release_open e assignment_id = release_active (release_stream_reservation e) assignment_id

-- releaseLease behind its first call: what the mutex guards.
unfoldable pub settle_lease : Engine → String → ℕ → Engine
settle_lease e assignment_id epoch =
    if assignment_id == "" || not (epoch == e.epoch) then e else release_active e assignment_id

-- OpenLease.Release, up to the first half of releaseLease: `once.Swap(true)` lets one caller through.
unfoldable pub release : Engine → OpenLease → Engine × OpenLease
release e lease = elim lease.stage [
  | held ↦ (release_stream_reservation e, record lease { stage = stream_returned })
  | stream_returned ↦ (e, lease)
  | returned ↦ (e, lease)
]

-- The second half, by the caller that was let through.
unfoldable pub settle : Engine → OpenLease → Engine × OpenLease
settle e lease = elim lease.stage [
  | held ↦ (e, lease)
  | stream_returned ↦
      (settle_lease e lease.assignment_id lease.epoch, record lease { stage = returned })
  | returned ↦ (e, lease)
]

unfoldable pub begin_drain : Engine → Engine
begin_drain e = record e { draining = true }

unfoldable pub end_drain : Engine → Engine
end_drain e = if e.closed then e else record e { draining = false }

unfoldable pub close : Engine → Engine
close e = record e { closed = true; draining = true }
