-- ===== src/Dataplane/Engine/Install.antt =====
-- What internal/dataplane/engine_snapshot.go installs, and that a refusal changes nothing.
use asterferry.Base.{
  ℕ, ◌≤◌, ◌<◌, true, false, ◌≡◌, refl, Option, none, some, List, [], ◌∷◌, String, ok, All,
  string_keyed, nat_keyed, arith, Option-cases, Bool-cases, inl, inr, Result-cases, subst,
}
use asterferry.Base.Maps.{Map, lookup, insert}
use asterferry.Base.Maps.Count.{All-insert}
use asterferry.Domain.Types.{
  Service, Assignment, DesiredSnapshot, GatewaySpec, AgentSpec, NodeSpecKind, is_agent,
}
use asterferry.Afdp.Errors.{Error}
use asterferry.Afdp.Control.{AssignmentView, assignment_from_domain}
use asterferry.Dataplane.Engine.{Engine, tighten, next_epoch}
use asterferry.Dataplane.Engine.Snapshot.{
  Validation, Prepared, index_services, index_assignments, check_services, is_foreign,
  build_indexes, prepare, commit, install, with_limits, apply_snapshot, check_snapshot, is_rollback,
  is_same_generation, assignment_limit, prepared_of,
}

-- A snapshot that ApplySnapshot refuses, for whatever reason, leaves the engine as it was.
pub apply_snapshot_refused :
    (checks : Validation) (cancelled : Option Error) (e : Engine) (snapshot : DesiredSnapshot)
    (previous : Option DesiredSnapshot) (error : Error)
    → (apply_snapshot checks cancelled e snapshot previous).1 ≡ some error
    → (apply_snapshot checks cancelled e snapshot previous).0 ≡ e
unfolding apply_snapshot commit
apply_snapshot_refused checks cancelled e snapshot previous error h =
    elim (Result-cases (prepare checks cancelled e snapshot previous)) [
      | inl (p, q) ↦ ground arith
      | inr (x, q) ↦ ground arith
    ]

-- One service of an assignment is in the index and belongs to the assignment's agent.
abbrev pub Carried : Map String Service → String → String → Type 0
Carried services agent_id id =
    (service : Service) × (lookup id services ≡ some service) × (service.agent_id ≡ agent_id)

-- What holds of each entry of the assignment index.
pub record Indexed (kind : NodeSpecKind) (node_id : String) (generation : ℕ)
    (services : Map String Service) (entry : String × AssignmentView) : Type 0 where
  pub keyed_by_id : entry.0 ≡ entry.1.id
  pub not_newer : entry.1.generation ≤ generation
  pub own : is_agent kind ≡ true → entry.1.agent_id ≡ node_id
  pub carried : All (Carried services entry.1.agent_id) entry.1.service_ids

check_services-Carried :
    (services : Map String Service) (agent_id : String) (ids : List String)
    → check_services services agent_id ids ≡ none
    → All (Carried services agent_id) ids
unfolding check_services
check_services-Carried services agent_id [] h = tt
check_services-Carried services agent_id (id ∷ ids) h = elim (Option-cases (lookup id services)) [
  | inl q ↦ absurd (ground arith)
  | inr (service, q) ↦ (
    (service, q, ground (arith, string_keyed.same_iff service.agent_id agent_id)),
    check_services-Carried services agent_id ids (ground arith),
  )
]

entry-Indexed :
    (e : Engine) (generation limit : ℕ) (services : Map String Service) (x : Assignment)
    → x.generation ≤ generation
    → is_foreign e x ≡ false
    → check_services services x.agent_id x.service_ids ≡ none
    → Indexed e.kind e.node_id generation services (x.id, assignment_from_domain x limit)
unfolding is_foreign assignment_from_domain
entry-Indexed e generation limit services x newer mine carried = record {
  keyed_by_id = refl;
  not_newer = newer;
  own = ground (arith, string_keyed.same_iff x.agent_id e.node_id);
  carried = check_services-Carried services x.agent_id x.service_ids carried;
}

index_assignments-Indexed :
    (e : Engine) (generation limit : ℕ) (services : Map String Service)
    (assignments : List Assignment) (index result : Map String AssignmentView)
    → All (Indexed e.kind e.node_id generation services) index
    → index_assignments e generation limit services assignments index ≡ ok result
    → All (Indexed e.kind e.node_id generation services) result
unfolding index_assignments
index_assignments-Indexed e generation limit services [] index result a h =
    let same : index ≡ result = cc in
    subst (All (Indexed e.kind e.node_id generation services)) same a
index_assignments-Indexed e generation limit services (x ∷ xs) index result a h =
    elim (Bool-cases (is_foreign e x)) [
      | inl skip ↦
          index_assignments-Indexed e generation limit services xs index result a (ground arith)
      | inr mine ↦
          index_assignments-Indexed e generation limit services xs
            (insert x.id (assignment_from_domain x limit) index) result
            (All-insert (Indexed e.kind e.node_id generation services) x.id
              (assignment_from_domain x limit) index
              (entry-Indexed e generation limit services x (ground arith) mine (ground arith)) a)
            (ground arith)
    ]

abbrev limit_of : Engine → DesiredSnapshot → ℕ
limit_of e snapshot = assignment_limit e.base_max_streams snapshot.agent snapshot.gateway

build_indexes-parts :
    (checks : Validation) (e : Engine) (snapshot : DesiredSnapshot)
    (previous : Option DesiredSnapshot) (p : Prepared)
    → build_indexes checks e snapshot previous ≡ ok p
    → (services : Map String Service) × (assignments : Map String AssignmentView) × All
        (Indexed e.kind e.node_id snapshot.generation services)
        assignments
      × (p ≡ prepared_of e snapshot previous services assignments)
unfolding build_indexes
build_indexes-parts checks e snapshot previous p h =
    elim (Result-cases (index_services checks e snapshot.services [])) [
      | inr (error, q) ↦ absurd (ground arith)
      | inl (services, q) ↦
          elim (Result-cases (
            index_assignments e snapshot.generation (limit_of e snapshot) services
              snapshot.assignments [])) [
                | inr (error, r) ↦ absurd (ground arith)
                | inl (assignments, r) ↦ (
                  services,
                  assignments,
                  index_assignments-Indexed e snapshot.generation (limit_of e snapshot) services
                      snapshot.assignments [] assignments tt r,
                  ground arith,
                )
              ]
    ]

-- What the engine is after a snapshot was installed.
pub record Installed (e e' : Engine) (snapshot : DesiredSnapshot)
    (previous : Option DesiredSnapshot) : Type 0 where
  pub generation : e'.generation ≡ snapshot.generation
  pub newer : previous ≡ none → e.generation < snapshot.generation
  pub indexed : All (Indexed e'.kind e'.node_id e'.generation e'.services) e'.assignments
  pub fresh_counts : e'.active ≡ []
  pub kept_streams : e'.streams ≡ e.streams
  pub kept_sessions : e'.sessions ≡ e.sessions
  pub within_base : e'.max_streams ≤ e.base_max_streams

apply-parts :
    (checks : Validation) (cancelled : Option Error) (e : Engine) (snapshot : DesiredSnapshot)
    (previous : Option DesiredSnapshot)
    → (apply_snapshot checks cancelled e snapshot previous).1 ≡ none
    → (p : Prepared) × (build_indexes checks e snapshot previous ≡ ok p)
      × ((apply_snapshot checks cancelled e snapshot previous).0 ≡ install e p)
      × (previous ≡ none → e.generation < snapshot.generation)
unfolding apply_snapshot prepare commit check_snapshot is_rollback is_same_generation
apply-parts checks cancelled e snapshot previous h =
    elim (Result-cases (prepare checks cancelled e snapshot previous)) [
      | inl (p, q) ↦ (p, ground arith, ground arith, λ gone. ground arith)
      | inr (x, q) ↦ absurd (ground arith)
    ]

abbrev based_on : Engine → DesiredSnapshot → Map String Service → Map String AssignmentView → Engine
based_on e snapshot services assignments = record e {
  assignments = assignments;
  services = services;
  generation = snapshot.generation;
  epoch = next_epoch e.epoch;
  active = [];
  gateway_spec = snapshot.gateway;
  agent_spec = snapshot.agent;
}

-- The limits leave the rest of the engine as it is.
with_limits-Installed :
    (e : Engine) (snapshot : DesiredSnapshot) (previous : Option DesiredSnapshot)
    (services : Map String Service) (assignments : Map String AssignmentView)
    (g : Option GatewaySpec) (a : Option AgentSpec)
    → All (Indexed e.kind e.node_id snapshot.generation services) assignments
    → (previous ≡ none → e.generation < snapshot.generation)
    → Installed e (with_limits (based_on e snapshot services assignments) g a) snapshot previous
unfolding with_limits tighten
with_limits-Installed e snapshot previous services assignments g (some spec) indexed newer =
    record {
      generation = refl;
      newer = newer;
      indexed = indexed;
      fresh_counts = refl;
      kept_streams = refl;
      kept_sessions = refl;
      within_base = ground arith;
    }
with_limits-Installed e snapshot previous services assignments (some spec) none indexed newer =
    record {
      generation = refl;
      newer = newer;
      indexed = indexed;
      fresh_counts = refl;
      kept_streams = refl;
      kept_sessions = refl;
      within_base = ground arith;
    }
with_limits-Installed e snapshot previous services assignments none none indexed newer = record {
  generation = refl;
  newer = newer;
  indexed = indexed;
  fresh_counts = refl;
  kept_streams = refl;
  kept_sessions = refl;
  within_base = omega arith;
}

-- A snapshot that ApplySnapshot accepts is installed: the engine has its generation, which is newer
-- than the one before unless the caller passed a previous snapshot; each assignment of the index
-- stands under its own id, is not newer than the snapshot, is the node's own on an agent, and names
-- only services of the index that belong to its agent; the counts by assignment start empty, while
-- the counts of streams and sessions are kept; and the stream limit is within the node's own.
pub apply_snapshot-Installed :
    (checks : Validation) (cancelled : Option Error) (e : Engine) (snapshot : DesiredSnapshot)
    (previous : Option DesiredSnapshot)
    → (apply_snapshot checks cancelled e snapshot previous).1 ≡ none
    → Installed e (apply_snapshot checks cancelled e snapshot previous).0 snapshot previous
unfolding install
apply_snapshot-Installed checks cancelled e snapshot previous h =
    let (p, built, installed, newer) = apply-parts checks cancelled e snapshot previous h in
    let (services, assignments, indexed, q) =
      build_indexes-parts checks e snapshot previous p built in
    rw (installed, q)
      (with_limits-Installed e snapshot previous services assignments snapshot.gateway
        snapshot.agent indexed newer)
