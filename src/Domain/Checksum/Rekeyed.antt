-- ===== src/Domain/Checksum/Rekeyed.antt =====
-- internal/domain/checksum.go: the checksum of a snapshot at rest, whose keys are encrypted, and of the same
-- snapshot on the wire, whose keys are in the clear.
use asterferry.Base.{ℕ, ◌≡◌, refl, Option, none, some, List, [], ◌∷◌, map, String, Result}
use asterferry.Base.Sorting.{sort_by, sort_by-map}
use asterferry.Domain.Types.{ObfuscationPolicy, GatewaySpec, Assignment, DesiredSnapshot}
use asterferry.Domain.Checksum.Normal.{
  normalize, normalize_gateway, normalize_assignment, assignment_less, map_spec,
}
use asterferry.Domain.Checksum.Document.{
  ChecksumDocument, has_previous, checksum_obfuscation, document_gateway, document_assignments,
  document_of, checksum_document, compute_checksum,
}

pub record KeyMaterial : Type 0 where
  pub key : List ℕ
  pub previous_key : List ℕ
  pub key_ciphertext : List ℕ
  pub previous_key_ciphertext : List ℕ

-- Other key material for the policies: encrypted, decrypted, or encrypted again.
module _ (material : ObfuscationPolicy → KeyMaterial) where
  abbrev pub rekey : ObfuscationPolicy → ObfuscationPolicy
  rekey o = record o {
    key = (material o).key;
    previous_key = (material o).previous_key;
    key_ciphertext = (material o).key_ciphertext;
    previous_key_ciphertext = (material o).previous_key_ciphertext;
  }

  abbrev rekey_gateway : GatewaySpec → GatewaySpec
  rekey_gateway g = record g { obfuscation = rekey g.obfuscation }

  abbrev rekey_assignment : Assignment → Assignment
  rekey_assignment a = record a { obfuscation = rekey a.obfuscation }

  abbrev pub rekey_snapshot : DesiredSnapshot → DesiredSnapshot
  rekey_snapshot s = record s {
    gateway = map_spec rekey_gateway s.gateway;
    assignments = map rekey_assignment s.assignments;
  }

  -- A previous key is there afterwards exactly where one was there before.
  module _ (keeps : (o : ObfuscationPolicy) → has_previous (rekey o) ≡ has_previous o) where
    obfuscation-rekey :
        (o : ObfuscationPolicy) → checksum_obfuscation (rekey o) ≡ checksum_obfuscation o
    unfolding checksum_obfuscation
    obfuscation-rekey o = rw (keeps o)

    gateway-rekey :
        (g : Option GatewaySpec)
        → document_gateway (map_spec normalize_gateway (map_spec rekey_gateway g))
          ≡ document_gateway (map_spec normalize_gateway g)
    unfolding document_gateway normalize_gateway
    gateway-rekey none = refl
    gateway-rekey (some g) = rw (obfuscation-rekey g.obfuscation)

    assignments-rekey :
        (assignments : List Assignment)
        → document_assignments (map rekey_assignment assignments) ≡ document_assignments assignments
    unfolding document_assignments
    assignments-rekey [] = refl
    assignments-rekey (a ∷ assignments) =
        rw (obfuscation-rekey a.obfuscation, assignments-rekey assignments)

    normal-rekey :
        (assignments : List Assignment)
        → map normalize_assignment (map rekey_assignment assignments)
          ≡ map rekey_assignment (map normalize_assignment assignments)
    unfolding normalize_assignment
    normal-rekey [] = refl
    normal-rekey (a ∷ assignments) = rw (normal-rekey assignments)

    -- The checksum of a snapshot, or the error, does not depend on the keys and ciphertexts of its
    -- policies, as long as a previous key is there exactly where one was: a snapshot at rest has the
    -- checksum of the same snapshot on the wire.
    pub compute_checksum-rekey :
        (encode : ChecksumDocument → Result String String) (s : DesiredSnapshot)
        → compute_checksum encode (rekey_snapshot s) ≡ compute_checksum encode s
    unfolding compute_checksum checksum_document document_of normalize
    compute_checksum-rekey encode s = rw (
      gateway-rekey s.gateway,
      normal-rekey s.assignments,
      sort_by-map assignment_less rekey_assignment (λ x y. refl)
          (map normalize_assignment s.assignments),
      assignments-rekey (sort_by assignment_less (map normalize_assignment s.assignments)),
    )
