-- ===== src/Domain/Checksum/Stamped.antt =====
-- internal/domain/model_clone.go: WithChecksum, and what Validate says of what it returns.
use asterferry.Base.{
  true, ◌≡◌, refl, none, some, String, Result, ok, err, string_keyed, arith, Result-cases, inl, inr,
  List, [], ◌∷◌,
}
use asterferry.Base.Maps.{Map}
use asterferry.Domain.Types.{Service, Assignment, DesiredSnapshot}
use asterferry.Domain.Bindings.{BindingKey, binding_keyed}
use asterferry.Domain.Validation.{Platform, Issue, plain}
use asterferry.Domain.Validation.Snapshot.{
  claim_services, claim_bindings, collect_services, listener_bindings, check_assignment,
  check_assignments, check_header, check_resources, check_structure, check_checksum,
  validate_snapshot,
}
use asterferry.Domain.Checksum.Normal.{normalize}
use asterferry.Domain.Checksum.Document.{
  ChecksumDocument, document_of, checksum_document, compute_checksum,
}

module _ (platform : Platform) (encode : ChecksumDocument → Result String String) where
  abbrev unstamped : DesiredSnapshot → DesiredSnapshot
  unstamped s = record (normalize s) { checksum = "" }

  unfoldable pub with_checksum : DesiredSnapshot → Result Issue DesiredSnapshot
  with_checksum s = elim (validate_snapshot platform (compute_checksum encode) (unstamped s)) [
    | some issue ↦ err issue
    | none ↦ elim (compute_checksum encode (unstamped s)) [
      | err message ↦ err (plain message)
      | ok checksum ↦ ok (record (unstamped s) { checksum = checksum })
    ]
  ]

  -- The checksum does not depend on the one that the snapshot carries.
  compute-unstamped :
      (s : DesiredSnapshot) (checksum : String)
      → compute_checksum encode (record s { checksum = checksum }) ≡ compute_checksum encode s
  unfolding compute_checksum checksum_document document_of normalize
  compute-unstamped s checksum = refl

  assignments-unstamped :
      (s : DesiredSnapshot) (checksum : String) (index : Map String Service) (seen : List String)
      (assigned : Map String String) (bound : Map BindingKey String) (assignments : List Assignment)
      → check_assignments platform
          (record s { checksum = checksum })
          index
          seen
          assigned
          bound
          assignments
        ≡ check_assignments platform s index seen assigned bound assignments
  unfolding check_assignments check_assignment
  assignments-unstamped s checksum index seen assigned bound [] = refl
  assignments-unstamped s checksum index seen assigned bound (a ∷ assignments) =
      elim (Result-cases (claim_services index a a.service_ids assigned)) [
        | inr failed ↦ rw failed.1
        | inl first ↦ elim (Result-cases (claim_bindings platform index a a.bindings bound)) [
          | inr failed ↦ rw (first.1, failed.1)
          | inl second ↦
              rw (first.1, second.1)
                (rw (
                  assignments-unstamped s checksum index (a.id ∷ seen) first.0 second.0
                    assignments))
        ]
      ]

  resources-unstamped :
      (s : DesiredSnapshot) (checksum : String)
      → check_resources platform (record s { checksum = checksum }) ≡ check_resources platform s
  unfolding check_resources
  resources-unstamped s checksum =
      elim (Result-cases (collect_services platform s.agent s.node_id s.services [])) [
        | inr failed ↦ ground arith
        | inl index ↦ ground (
          arith,
          assignments-unstamped s checksum index.0 [] [] (listener_bindings platform s.gateway)
              s.assignments,
        )
      ]

  structure-unstamped :
      (s : DesiredSnapshot) (checksum : String)
      → check_structure platform (record s { checksum = checksum }) ≡ check_structure platform s
  unfolding check_structure check_header
  structure-unstamped s checksum = ground (arith, resources-unstamped s checksum)

  -- If a text folds to itself, Validate accepts every snapshot that WithChecksum returns.
  pub validate-with_checksum :
      (s stamped : DesiredSnapshot)
      → ((text : String) → platform.equal_fold text text ≡ true)
      → with_checksum s ≡ ok stamped
      → validate_snapshot platform (compute_checksum encode) stamped ≡ none
  unfolding with_checksum validate_snapshot check_checksum
  validate-with_checksum s stamped folds h =
      elim (Result-cases (compute_checksum encode (unstamped s))) [
        | inr failed ↦ absurd (ground arith)
        | inl made ↦
            let same : stamped ≡ record (unstamped s) { checksum = made.0 } = ground arith in
            rw same (
              ground (
                arith,
                structure-unstamped (unstamped s) made.0,
                compute-unstamped (unstamped s) made.0,
                folds made.0,
              ))
      ]
