-- ===== src/Dataplane/Engine/Reserve.antt =====
-- What a reservation by internal/dataplane/engine_authorize.go grants.
use asterferry.Base.{
  ℕ, ◌+◌, ◌≤◌, ◌<◌, false, ◌≡◌, none, some, String, ok, ap, string_keyed, arith, Option-cases, inl,
  inr, Result-cases, ◌||◌,
}
use asterferry.Base.Maps.{Map, lookup, insert, value_or, lookup-insert_self}
use asterferry.Afdp.Control.{AssignmentView, OpenMetadata, authorize_open}
use asterferry.Dataplane.Engine.{
  Engine, OpenLease, reserve_open, reserve_counted, reserve_stream, check_service, tighten,
  lease_of,
}

-- The global counter went up by one and is within both ceilings.
pub record StreamReserved (e e' : Engine) : Type 0 where
  pub counted : e'.streams ≡ e.streams + 1
  pub within_streams : e'.streams ≤ e.max_streams
  pub within_connections : 0 < e.connection_limit → e'.streams ≤ e.connection_limit

pub reserve_stream-StreamReserved : (e e' : Engine) → reserve_stream e ≡ ok e' → StreamReserved e e'
unfolding reserve_stream
reserve_stream-StreamReserved e e' h = record {
  counted = ground arith;
  within_streams = ground arith;
  within_connections = ground arith;
}

pub value_or-insert_self :
    (key : String) (v : ℕ) (m : Map String ℕ) → value_or key (insert key v m) 0 ≡ v
unfolding value_or
value_or-insert_self key v m = ground (arith, lookup-insert_self key v m)

-- What holds when an open of an assignment was granted.
pub record Granted (e e' : Engine) (id : String) (value : OpenMetadata)
    (assignment : AssignmentView) : Type 0 where
  pub accepting : (e.closed || e.draining) ≡ false
  pub known : lookup id e.assignments ≡ some assignment
  pub authorized : authorize_open value assignment ≡ none
  pub service_allowed : check_service e value ≡ none
  pub stream : StreamReserved e e'
  pub active : value_or id e'.active 0 ≡ value_or id e.active 0 + 1
  pub within_assignment : value_or id e'.active 0 ≤ tighten e.max_streams assignment.max_streams

pub counted-parts :
    (e e' : Engine) (id : String) (assignment : AssignmentView) (lease : OpenLease)
    → reserve_counted e id assignment ≡ ok (e', lease)
    → (s : Engine) × (reserve_stream e ≡ ok s)
      × (e' ≡ record s { active = insert id (value_or id e.active 0 + 1) e.active })
      × (value_or id e.active 0 < tighten e.max_streams assignment.max_streams)
      × (lease ≡ lease_of e id)
unfolding reserve_counted
counted-parts e e' id assignment lease h = elim (Result-cases (reserve_stream e)) [
  | inl (s, q) ↦ (s, q, ground arith, ground arith, ground arith)
  | inr (error, q) ↦ absurd (ground arith)
]

pub open-parts :
    (e : Engine) (id : String) (value : OpenMetadata) (r : Engine × OpenLease)
    → reserve_open e id value ≡ ok r
    → (assignment : AssignmentView) × ((e.closed || e.draining) ≡ false)
      × (lookup id e.assignments ≡ some assignment)
      × (authorize_open value assignment ≡ none)
      × (check_service e value ≡ none)
      × (reserve_counted e id assignment ≡ ok r)
unfolding reserve_open
open-parts e id value r h = elim (Option-cases (lookup id e.assignments)) [
  | inl q ↦ absurd (ground arith)
  | inr (assignment, q) ↦ (assignment, ground arith, q, ground arith, ground arith, ground arith)
]

-- An open that ReserveOpen grants found the engine accepting, its assignment in the index, the open
-- authorized by it and, for an open that is not egress, an enabled service with that protocol and
-- target. The stream counter and the assignment's counter have gone up by one and stay within the
-- engine's stream limit, the connection limit where there is one, and the assignment's own limit.
pub reserve_open-Granted :
    (e : Engine) (id : String) (value : OpenMetadata) (r : Engine × OpenLease)
    → reserve_open e id value ≡ ok r
    → (assignment : AssignmentView) × Granted e r.0 id value assignment
reserve_open-Granted e id value r h =
    let (assignment, accepting, known, authorized, allowed, counted) = open-parts e id value r h in
    let (s, reserved, q, below, leased) = counted-parts e r.0 id assignment r.1 counted in
    let grown : value_or id r.0.active 0 ≡ value_or id e.active 0 + 1 =
      rw q (value_or-insert_self id (value_or id e.active 0 + 1) e.active) in
    let stream = reserve_stream-StreamReserved e s reserved in
    let same : r.0.streams ≡ s.streams = ap (λ (x : Engine). x.streams) q in
    (
      assignment,
      record {
        accepting = accepting;
        known = known;
        authorized = authorized;
        service_allowed = allowed;
        stream = record {
          counted = omega (arith, same, stream.counted);
          within_streams = omega (arith, same, stream.within_streams);
          within_connections = λ p. omega (arith, same, stream.within_connections p);
        };
        active = grown;
        within_assignment = omega (arith, grown, below);
      },
    )
