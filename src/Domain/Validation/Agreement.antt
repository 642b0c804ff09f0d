-- ===== src/Domain/Validation/Agreement.antt =====
-- The services and bindings of an assignment that DesiredSnapshot.Validate accepts agree with the snapshot's
-- services, and are claimed for the assignment.
use asterferry.Base.{
  true, ◌≡◌, ◌⊎◌, inl, inr, none, some, List, [], ◌∷◌, map, String, ok, ◌==◌, nat_keyed,
  string_keyed, ==→eq, arith, All, Option-cases, Bool-cases,
}
use asterferry.Base.Maps.{Map, lookup, insert}
use asterferry.Base.Sets.{member}
use asterferry.Domain.Types.{Service, Assignment, Binding}
use asterferry.Domain.Bindings.{BindingKey, binding_keyed, normalized_ip}
use asterferry.Domain.Validation.{Platform}
use asterferry.Domain.Validation.Resources.{binding_key_of}
use asterferry.Domain.Validation.Claims.{claim_all}
use asterferry.Domain.Validation.Collected.{find_service}
use asterferry.Domain.Validation.Snapshot.{
  check_claim, claim_services, check_against, check_bound, claim_bindings,
}

-- A service that an assignment names is its agent's.
pub record Owned (services : List Service) (a : Assignment) (id : String) : Type 0 where
  pub service : Service
  pub found : find_service id services ≡ some service
  pub agent : service.agent_id ≡ a.agent_id

module _ (platform : Platform) where
  -- A binding is for a service of the assignment, and agrees with it.
  pub record Bound (services : List Service) (a : Assignment) (b : Binding) : Type 0 where
    pub service : Service
    pub found : find_service b.service_id services ≡ some service
    pub named : member b.service_id a.service_ids ≡ true
    pub protocol : service.protocol ≡ b.protocol
    pub bind :
        normalized_ip platform.parse service.public_bind ≡ normalized_ip platform.parse b.bind
    pub port : (service.public_port ≡ 0) ⊎ (service.public_port ≡ b.port)

  pub claim_services-all :
      (index : Map String Service) (a : Assignment) (ids : List String)
      (assigned assigned' : Map String String)
      → claim_services index a ids assigned ≡ ok assigned'
      → claim_all a.id ids assigned ≡ some assigned'
  unfolding claim_services claim_all check_claim
  claim_services-all index a [] assigned assigned' h = ground arith
  claim_services-all index a (id ∷ ids) assigned assigned' h =
      ground (arith, claim_services-all index a ids (insert id a.id assigned) assigned')

  pub claim_bindings-all :
      (index : Map String Service) (a : Assignment) (bindings : List Binding)
      (bound bound' : Map BindingKey String)
      → claim_bindings platform index a bindings bound ≡ ok bound'
      → claim_all a.id (map (binding_key_of platform) bindings) bound ≡ some bound'
  unfolding claim_bindings claim_all check_bound
  claim_bindings-all index a [] bound bound' h = ground arith
  claim_bindings-all index a (b ∷ bindings) bound bound' h = ground (
    arith,
    claim_bindings-all index a bindings (insert (binding_key_of platform b) a.id bound) bound',
  )

  -- An index that holds the services by their ids.
  abbrev pub Indexes : Map String Service → List Service → Type 0
  Indexes index services = (id : String) → lookup id index ≡ find_service id services

  module _ (index : Map String Service) (services : List Service)
      (right : Indexes index services) where
    check_claim-Owned :
        (a : Assignment) (assigned : Map String String) (id : String)
        → check_claim index a assigned id ≡ none
        → Owned services a id
    unfolding check_claim
    check_claim-Owned a assigned id h = elim (Option-cases (lookup id index)) [
      | inl missing ↦ absurd (ground arith)
      | inr there ↦ record {
        service = there.0;
        found = ground (arith, right id);
        agent = ground (arith, ==→eq there.0.agent_id a.agent_id);
      }
    ]

    pub claim_services-Owned :
        (a : Assignment) (ids : List String) (assigned assigned' : Map String String)
        → claim_services index a ids assigned ≡ ok assigned'
        → All (Owned services a) ids
    unfolding claim_services
    claim_services-Owned a [] assigned assigned' h = tt
    claim_services-Owned a (id ∷ ids) assigned assigned' h = (
      check_claim-Owned a assigned id (ground arith),
      claim_services-Owned a ids (insert id a.id assigned) assigned' (ground arith),
    )

    check_bound-Bound :
        (a : Assignment) (bound : Map BindingKey String) (b : Binding)
        → check_bound platform index a bound b ≡ none
        → Bound services a b
    unfolding check_bound check_against
    check_bound-Bound a bound b h = elim (Option-cases (lookup b.service_id index)) [
      | inl missing ↦ absurd (ground arith)
      | inr there ↦ record {
        service = there.0;
        found = ground (arith, right b.service_id);
        named = ground arith;
        protocol = ground (arith, ==→eq there.0.protocol b.protocol);
        bind = ground (
          arith,
          ==→eq (normalized_ip platform.parse there.0.public_bind)
              (normalized_ip platform.parse b.bind),
        );
        port = elim (Bool-cases (there.0.public_port == 0)) [
          | inl any_port ↦ inl (==→eq there.0.public_port 0 any_port)
          | inr asked ↦ inr (ground (arith, ==→eq there.0.public_port b.port))
        ];
      }
    ]

    pub claim_bindings-Bound :
        (a : Assignment) (bindings : List Binding) (bound bound' : Map BindingKey String)
        → claim_bindings platform index a bindings bound ≡ ok bound'
        → All (Bound services a) bindings
    unfolding claim_bindings
    claim_bindings-Bound a [] bound bound' h = tt
    claim_bindings-Bound a (b ∷ bindings) bound bound' h = (
      check_bound-Bound a bound b (ground arith),
      claim_bindings-Bound a bindings (insert (binding_key_of platform b) a.id bound) bound'
          (ground arith),
    )
