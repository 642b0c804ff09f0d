-- ===== src/Domain/Validation/Consistent.antt =====
-- What a snapshot that DesiredSnapshot.Validate accepts is.
use asterferry.Base.{
  ◌≤◌, true, false, ◌≡◌, ◌≢◌, ap, none, some, List, [], ◌∷◌, map, String, ok, nat_keyed,
  string_keyed, arith, All, ==-refl, Result-cases, inl, inr,
}
use asterferry.Base.Maps.{Map, lookup}
use asterferry.Base.Sets.{member}
use asterferry.Domain.Types.{Service, Assignment, DesiredSnapshot}
use asterferry.Domain.Bindings.{BindingKey, binding_keyed}
use asterferry.Domain.Validation.{Platform}
use asterferry.Domain.Validation.Resources.{validate_assignment, binding_key_of}
use asterferry.Domain.Validation.Claims.{claim_all-held, claim_all-apart, claim_all-owned}
use asterferry.Domain.Validation.Agreement.{
  Owned, Bound, Indexes, claim_services-all, claim_bindings-all, claim_services-Owned,
  claim_bindings-Bound,
}
use asterferry.Domain.Validation.Snapshot.{
  claim_services, claim_bindings, check_assignment, check_assignments,
}

module _ (platform : Platform) where
  abbrev pub keys_of : Assignment → List BindingKey
  keys_of a = map (binding_key_of platform) a.bindings

  -- Two assignments share no service and no public binding.
  pub record Apart (a b : Assignment) : Type 0 where
    pub ids : a.id ≢ b.id
    pub services : All (λ id. member id b.service_ids ≡ false) a.service_ids
    pub bindings : All (λ key. member key (keys_of b) ≡ false) (keys_of a)

  abbrev pub AllApart : List Assignment → Type 0
  AllApart [] = Unit
  AllApart (a ∷ assignments) = All (Apart a) assignments × AllApart assignments

  -- An assignment by itself and with the services of its snapshot.
  pub record Supported (s : DesiredSnapshot) (services : List Service) (a : Assignment)
      : Type 0 where
    pub valid : validate_assignment platform a ≡ none
    pub not_newer : a.generation ≤ s.generation
    pub owned : All (Owned services a) a.service_ids
    pub bound : All (Bound platform services a) a.bindings

  -- An assignment has none of some services and public bindings.
  pub record Untouched (ids : List String) (keys : List BindingKey) (b : Assignment) : Type 0 where
    pub services : All (λ id. member id b.service_ids ≡ false) ids
    pub bindings : All (λ key. member key (keys_of b) ≡ false) keys

  module _ (s : DesiredSnapshot) (index : Map String Service) where
    -- One round of the loop that went on.
    record Round (seen : List String) (a : Assignment) (assigned : Map String String)
        (bound : Map BindingKey String) (assignments : List Assignment) : Type 0 where
      assigned' : Map String String
      bound' : Map BindingKey String
      checked : check_assignment platform s seen a ≡ none
      claimed : claim_services index a a.service_ids assigned ≡ ok assigned'
      taken : claim_bindings platform index a a.bindings bound ≡ ok bound'
      others : check_assignments platform s index (a.id ∷ seen) assigned' bound' assignments ≡ none

    round :
        (seen : List String) (a : Assignment) (assigned : Map String String)
        (bound : Map BindingKey String) (assignments : List Assignment)
        → check_assignments platform s index seen assigned bound (a ∷ assignments) ≡ none
        → Round seen a assigned bound assignments
    unfolding check_assignments
    round seen a assigned bound assignments h =
        elim (Result-cases (claim_services index a a.service_ids assigned)) [
          | inr failed ↦ absurd (ground arith)
          | inl first ↦ elim (Result-cases (claim_bindings platform index a a.bindings bound)) [
            | inr failed ↦ absurd (ground arith)
            | inl second ↦ record {
              assigned' = first.0;
              bound' = second.0;
              checked = ground arith;
              claimed = first.1;
              taken = second.1;
              others = ground arith;
            }
          ]
        ]

    pub check_assignments-Supported :
        (services : List Service)
        → Indexes platform index services
        → (assignments : List Assignment) (seen : List String) (assigned : Map String String)
          (bound : Map BindingKey String)
        → check_assignments platform s index seen assigned bound assignments ≡ none
        → All (Supported s services) assignments
    unfolding check_assignment
    check_assignments-Supported services right [] seen assigned bound h = tt
    check_assignments-Supported services right (a ∷ assignments) seen assigned bound h =
        let r = round seen a assigned bound assignments h in
        (
          record {
            valid = ground (arith, r.checked);
            not_newer = ground (arith, r.checked);
            owned =
                claim_services-Owned platform index services right a a.service_ids assigned
                  r.assigned' r.claimed;
            bound =
                claim_bindings-Bound platform index services right a a.bindings bound r.bound'
                  r.taken;
          },
          check_assignments-Supported services right assignments (a.id ∷ seen) r.assigned' r.bound'
              r.others,
        )

    -- Everything that an owner holds before the rounds is apart from the assignments that follow, but
    -- for one of the same id.
    module _ (owner : String) (ids : List String) (keys : List BindingKey) where
      pub check_assignments-Untouched :
          (assignments : List Assignment) (seen : List String) (assigned : Map String String)
          (bound : Map BindingKey String)
          → check_assignments platform s index seen assigned bound assignments ≡ none
          → All (λ id. lookup id assigned ≡ some owner) ids
          → All (λ key. lookup key bound ≡ some owner) keys
          → All (λ b. owner ≢ b.id → Untouched ids keys b) assignments
      check_assignments-Untouched [] seen assigned bound h services bindings = tt
      check_assignments-Untouched (b ∷ assignments) seen assigned bound h services bindings =
          let r = round seen b assigned bound assignments h in
          let claimed =
            claim_services-all platform index b b.service_ids assigned r.assigned' r.claimed in
          let taken = claim_bindings-all platform index b b.bindings bound r.bound' r.taken in
          (
            λ differ. record {
              services =
                  claim_all-apart b.id b.service_ids ids assigned r.assigned' owner claimed differ
                    services;
              bindings =
                  claim_all-apart b.id (keys_of b) keys bound r.bound' owner taken differ bindings;
            },
            check_assignments-Untouched assignments (b.id ∷ seen) r.assigned' r.bound' r.others
                (claim_all-held b.id b.service_ids ids assigned r.assigned' owner claimed services)
                (claim_all-held b.id (keys_of b) keys bound r.bound' owner taken bindings),
          )

    check_assignment-unseen :
        (seen : List String) (a : Assignment)
        → check_assignment platform s seen a ≡ none
        → member a.id seen ≡ false
    unfolding check_assignment
    check_assignment-unseen seen a h = ground arith

    seen-apart :
        (assignments : List Assignment) (seen : List String) (assigned : Map String String)
        (bound : Map BindingKey String) (id : String)
        → check_assignments platform s index seen assigned bound assignments ≡ none
        → member id seen ≡ true
        → All (λ b. id ≢ b.id) assignments
    unfolding member
    seen-apart [] seen assigned bound id h there = tt
    seen-apart (b ∷ assignments) seen assigned bound id h there =
        let r = round seen b assigned bound assignments h in
        (
          λ same.
              let unseen = check_assignment-unseen seen b r.checked in
              cc (unseen, ap (λ i. member i seen) same),
          seen-apart assignments (b.id ∷ seen) r.assigned' r.bound' id r.others (ground arith),
        )

    pub check_assignments-AllApart :
        (assignments : List Assignment) (seen : List String) (assigned : Map String String)
        (bound : Map BindingKey String)
        → check_assignments platform s index seen assigned bound assignments ≡ none
        → AllApart assignments
    unfolding member
    check_assignments-AllApart [] seen assigned bound h = tt
    check_assignments-AllApart (a ∷ assignments) seen assigned bound h =
        let r = round seen a assigned bound assignments h in
        let claimed =
          claim_services-all platform index a a.service_ids assigned r.assigned' r.claimed in
        let taken = claim_bindings-all platform index a a.bindings bound r.bound' r.taken in
        (
          apart_from a assignments
              (seen-apart assignments (a.id ∷ seen) r.assigned' r.bound' a.id r.others
                (ground (arith, ==-refl a.id)))
              (check_assignments-Untouched a.id a.service_ids (keys_of a) assignments (a.id ∷ seen)
                r.assigned' r.bound' r.others
                (claim_all-owned a.id a.service_ids assigned r.assigned' claimed)
                (claim_all-owned a.id (keys_of a) bound r.bound' taken)),
          check_assignments-AllApart assignments (a.id ∷ seen) r.assigned' r.bound' r.others,
        )
      where
        apart_from :
            (a : Assignment) (others : List Assignment)
            → All (λ b. a.id ≢ b.id) others
            → All (λ b. a.id ≢ b.id → Untouched a.service_ids (keys_of a) b) others
            → All (Apart a) others
        apart_from a [] differ untouched = tt
        apart_from a (b ∷ others) differ untouched =
            let held = untouched.0 differ.0 in
            (
              record { ids = differ.0; services = held.services; bindings = held.bindings },
              apart_from a others differ.1 untouched.1,
            )
