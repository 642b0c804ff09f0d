-- ===== src/Domain/Validation/Collected.antt =====
-- The index of services that DesiredSnapshot.Validate builds.
use asterferry.Base.{
  true, false, ◌≡◌, refl, sym, ap, Option, none, some, List, [], ◌∷◌, map, String, ok, is_some,
  if◌then◌else◌, ◌==◌, string_keyed, arith, All, ==→eq, ==-refl,
}
use asterferry.Base.Maps.{Map, lookup, insert, lookup-insert}
use asterferry.Base.Sets.{member, NoRepeat}
use asterferry.Domain.Types.{Service, AgentSpec}
use asterferry.Domain.Validation.{Platform}
use asterferry.Domain.Validation.Resources.{validate_service}
use asterferry.Domain.Validation.Snapshot.{collect_services}

-- The service with an id.
abbrev pub find_service : String → List Service → Option Service
find_service id [] = none
find_service id (service ∷ services) =
    if service.id == id then some service else find_service id services

abbrev pub ids_of : List Service → List String
ids_of = map (λ service. service.id)

abbrev or_else : Option Service → Option Service → Option Service
or_else none other = other
or_else (some service) other = some service

pub find_service-id :
    (id : String) (services : List Service) (x : Service)
    → find_service id services ≡ some x
    → x.id ≡ id
find_service-id id [] x h = absurd (cc)
find_service-id id (service ∷ services) x h =
    ground (arith, find_service-id id services x, ==→eq service.id id)

module _ (platform : Platform) (agent_spec : Option AgentSpec) (node_id : String) where
  -- What one round of the loop has checked.
  record Collected (service : Service) (index : Map String Service) : Type 0 where
    valid : validate_service platform service ≡ none
    fresh : lookup service.id index ≡ none

  collected :
      (service : Service) (services : List Service) (index index' : Map String Service)
      → collect_services platform agent_spec node_id (service ∷ services) index ≡ ok index'
      → Collected service index
        × (collect_services platform agent_spec node_id services (insert service.id service index)
            ≡ ok index')
  unfolding collect_services
  collected service services index index' h =
      (record { valid = ground arith; fresh = ground arith }, ground arith)

  seen-absent :
      (services : List Service) (index index' : Map String Service) (id : String)
      → collect_services platform agent_spec node_id services index ≡ ok index'
      → is_some (lookup id index) ≡ true
      → member id (ids_of services) ≡ false
  unfolding member
  seen-absent [] index index' id h old = refl
  seen-absent (service ∷ services) index index' id h old =
      let round = collected service services index index' h in
      ground (
        arith,
        round.0.fresh,
        seen-absent services (insert service.id service index) index' id round.1,
        lookup-insert service.id id service index,
        string_keyed.same_iff service.id id,
      )

  pub collect_services-NoRepeat :
      (services : List Service) (index index' : Map String Service)
      → collect_services platform agent_spec node_id services index ≡ ok index'
      → NoRepeat (ids_of services)
  collect_services-NoRepeat [] index index' h = tt
  collect_services-NoRepeat (service ∷ services) index index' h =
      let round = collected service services index index' h in
      (
        seen-absent services (insert service.id service index) index' service.id round.1
            (rw (lookup-insert service.id service.id service index, ==-refl service.id)),
        collect_services-NoRepeat services (insert service.id service index) index' round.1,
      )

  pub collect_services-valid :
      (services : List Service) (index index' : Map String Service)
      → collect_services platform agent_spec node_id services index ≡ ok index'
      → All (λ service. validate_service platform service ≡ none) services
  collect_services-valid [] index index' h = tt
  collect_services-valid (service ∷ services) index index' h =
      let round = collected service services index index' h in
      (
        round.0.valid,
        collect_services-valid services (insert service.id service index) index' round.1,
      )

  absent-find :
      (id : String) (services : List Service)
      → member id (ids_of services) ≡ false
      → find_service id services ≡ none
  unfolding member
  absent-find id [] h = refl
  absent-find id (service ∷ services) h = ground (arith, absent-find id services)

  collected_all :
      (index index' : Map String Service)
      → collect_services platform agent_spec node_id [] index ≡ ok index'
      → index ≡ index'
  unfolding collect_services
  collected_all index index' h = ground arith

  -- The index holds the services by their ids.
  pub lookup-collected :
      (services : List Service) (index index' : Map String Service) (id : String)
      → collect_services platform agent_spec node_id services index ≡ ok index'
      → lookup id index' ≡ or_else (find_service id services) (lookup id index)
  lookup-collected [] index index' id h = ap (lookup id) (sym (collected_all index index' h))
  lookup-collected (service ∷ services) index index' id h =
      let round = collected service services index index' h in
      ground (
        arith,
        lookup-collected services (insert service.id service index) index' id round.1,
        lookup-insert service.id id service index,
        absent-find id services,
        seen-absent services (insert service.id service index) index' id round.1,
      )
