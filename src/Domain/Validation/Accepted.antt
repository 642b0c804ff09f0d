-- ===== src/Domain/Validation/Accepted.antt =====
-- The theorem on DesiredSnapshot.Validate: its parts put together.
use asterferry.Base.{
  ◌≡◌, ◌≢◌, inl, inr, Option, none, some, List, [], ◌∷◌, map, String, Result, nat_keyed,
  string_keyed, arith, All, ==-refl, Result-cases,
}
use asterferry.Base.Maps.{Map, lookup, insert, lookup-insert}
use asterferry.Base.Sets.{NoRepeat}
use asterferry.Domain.Types.{Listener, GatewaySpec, DesiredSnapshot}
use asterferry.Domain.Bindings.{BindingKey, binding_keyed}
use asterferry.Domain.Validation.{Platform}
use asterferry.Domain.Validation.Specs.{listener_key}
use asterferry.Domain.Validation.Resources.{validate_service}
use asterferry.Domain.Validation.Collected.{
  ids_of, collect_services-NoRepeat, collect_services-valid, lookup-collected,
}
use asterferry.Domain.Validation.Agreement.{Indexes}
use asterferry.Domain.Validation.Consistent.{
  Supported, AllApart, Untouched, check_assignments-Supported, check_assignments-AllApart,
  check_assignments-Untouched,
}
use asterferry.Domain.Validation.Snapshot.{
  collect_services, seed_listeners, listener_bindings, check_assignments, check_resources,
  check_structure, validate_snapshot,
}

abbrev listeners_of : Option GatewaySpec → List Listener
listeners_of none = []
listeners_of (some g) = g.listeners

module _ (platform : Platform) where
  abbrev pub listener_keys : DesiredSnapshot → List BindingKey
  listener_keys s = map (listener_key platform) (listeners_of s.gateway)

  -- The services and assignments of a snapshot fit together.
  pub record Consistent (s : DesiredSnapshot) : Type 0 where
    pub services_valid : All (λ service. validate_service platform service ≡ none) s.services
    pub services_distinct : NoRepeat (ids_of s.services)
    pub supported : All (Supported platform s s.services) s.assignments
    pub apart : AllApart platform s.assignments
    pub listeners_apart :
        All (λ a. "listener" ≢ a.id → Untouched platform [] (listener_keys s) a) s.assignments

  seed-held :
      (listeners : List Listener) (bound : Map BindingKey String) (key : BindingKey)
      → lookup key bound ≡ some "listener"
      → lookup key (seed_listeners platform listeners bound) ≡ some "listener"
  unfolding seed_listeners
  seed-held [] bound key h = h
  seed-held (l ∷ listeners) bound key h =
      seed-held listeners (insert (listener_key platform l) "listener" bound) key
        (ground (arith, lookup-insert (listener_key platform l) key "listener" bound))

  seed-seeded :
      (listeners : List Listener) (bound : Map BindingKey String)
      → All
          (λ key. lookup key (seed_listeners platform listeners bound) ≡ some "listener")
          (map (listener_key platform) listeners)
  unfolding seed_listeners
  seed-seeded [] bound = tt
  seed-seeded (l ∷ listeners) bound =
      let key = listener_key platform l in
      (
        seed-held listeners (insert key "listener" bound) key
            (rw (lookup-insert key key "listener" bound, ==-refl key)),
        seed-seeded listeners (insert key "listener" bound),
      )

  listeners-seeded :
      (gateway_spec : Option GatewaySpec)
      → All
          (λ key. lookup key (listener_bindings platform gateway_spec) ≡ some "listener")
          (map (listener_key platform) (listeners_of gateway_spec))
  listeners-seeded none = tt
  listeners-seeded (some g) = seed-seeded g.listeners []

  check_resources-Consistent :
      (s : DesiredSnapshot) → check_resources platform s ≡ none → Consistent s
  unfolding check_resources lookup
  check_resources-Consistent s h =
      elim (Result-cases (collect_services platform s.agent s.node_id s.services [])) [
        | inr failed ↦ absurd (ground arith)
        | inl index ↦
            let bound = listener_bindings platform s.gateway in
            let rounds : check_assignments platform s index.0 [] [] bound s.assignments ≡ none =
              ground arith in
            let right : Indexes platform index.0 s.services = λ id. ground (
              arith,
              lookup-collected platform s.agent s.node_id s.services [] index.0 id index.1,
            ) in
            record {
              services_valid =
                  collect_services-valid platform s.agent s.node_id s.services [] index.0 index.1;
              services_distinct =
                  collect_services-NoRepeat platform s.agent s.node_id s.services [] index.0
                    index.1;
              supported =
                  check_assignments-Supported platform s index.0 s.services right s.assignments []
                    [] bound rounds;
              apart =
                  check_assignments-AllApart platform s index.0 s.assignments [] [] bound rounds;
              listeners_apart =
                  check_assignments-Untouched platform s index.0 "listener" [] (listener_keys s)
                    s.assignments [] [] bound rounds tt (listeners-seeded s.gateway);
            }
      ]

  -- In a snapshot that DesiredSnapshot.Validate accepts, every service is valid and no id occurs twice;
  -- every assignment is valid and not newer than the snapshot, each of its service ids names a service of
  -- its agent in the snapshot, and each binding is for one of these with the same protocol, the same
  -- address and the port that the service asks for, if any; two assignments have different ids, no
  -- service and no public binding in common; and no assignment, but for one with the id "listener", has
  -- the binding of a listener of the gateway.
  pub validate_snapshot-Consistent :
      (checksum : DesiredSnapshot → Result String String) (s : DesiredSnapshot)
      → validate_snapshot platform checksum s ≡ none
      → Consistent s
  unfolding validate_snapshot check_structure
  validate_snapshot-Consistent checksum s h = check_resources-Consistent s (ground arith)
