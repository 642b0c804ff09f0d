-- ===== src/Domain/Validation/Claims.antt =====
-- The maps of DesiredSnapshot.Validate from a service or a binding to the assignment that has it, as a
-- loop that claims keys for an owner and fails at a key that another owner holds.
use asterferry.Base.{
  Bool, false, not, ◌≡◌, ◌≢◌, refl, Option, none, some, inl, inr, List, [], ◌∷◌, String,
  if◌then◌else◌, ◌==◌, string_keyed, ==-refl, ==→eq, ==-false, Keyed, All, Bool-cases, All-map,
  arith,
}
use asterferry.Base.Maps.{Map, lookup, insert, lookup-insert}
use asterferry.Base.Sets.{member}

-- `previous, exists := held[key]; exists && previous != owner`
abbrev pub is_held {ℓ} : {K : Type ℓ} ⦃keyed : Keyed K⦄ → String → K → Map K String → Bool
is_held owner key held = elim (lookup key held) [
  | none ↦ false
  | some previous ↦ not (previous == owner)
]

distinct : (a b : String) → (a == b) ≡ false → a ≢ b
distinct a b h e = ground (arith, string_keyed.same_iff a b)

module _ {ℓ} {K : Type ℓ} ⦃keyed : Keyed K⦄ (owner : String) where
  -- The keys, claimed in turn
  unfoldable pub claim_all : List K → Map K String → Option (Map K String)
  claim_all [] held = some held
  claim_all (key ∷ keys) held =
      let rest = claim_all keys (insert key owner held) in
      if is_held owner key held then none else rest

  -- A key of another owner is not among those claimed, and stays with that owner.
  pub claim_all-kept :
      (keys : List K) (held held' : Map K String) (key : K) (other : String)
      → claim_all keys held ≡ some held'
      → other ≢ owner
      → lookup key held ≡ some other
      → (member key keys ≡ false) × (lookup key held' ≡ some other)
  unfolding claim_all member
  claim_all-kept [] held held' key other done differ mine = (refl, ground arith)
  claim_all-kept (k ∷ keys) held held' key other done differ mine = ground (
    arith,
    claim_all-kept keys (insert k owner held) held' key other,
    lookup-insert k key owner held,
    keyed.same_iff k key,
    ==-false other owner differ,
  )

  -- A key that the owner holds stays with it.
  claim_all-own :
      (keys : List K) (held held' : Map K String) (key : K)
      → claim_all keys held ≡ some held'
      → lookup key held ≡ some owner
      → lookup key held' ≡ some owner
  unfolding claim_all
  claim_all-own [] held held' key done mine = ground arith
  claim_all-own (k ∷ keys) held held' key done mine =
      ground
        (arith, claim_all-own keys (insert k owner held) held' key, lookup-insert k key owner held)

  -- What another owner holds stays with it, and so does what this one holds.
  pub claim_all-held :
      (keys mine : List K) (held held' : Map K String) (other : String)
      → claim_all keys held ≡ some held'
      → All (λ key. lookup key held ≡ some other) mine
      → All (λ key. lookup key held' ≡ some other) mine
  claim_all-held keys mine held held' other done = elim (Bool-cases (other == owner)) [
    | inl same ↦
        All-map (λ key. lookup key held ≡ some other) (λ key. lookup key held' ≡ some other) mine
          (λ key h.
            rw (==→eq other owner same)
              (claim_all-own keys held held' key done (rw (← ==→eq other owner same) h)))
    | inr differs ↦
        All-map (λ key. lookup key held ≡ some other) (λ key. lookup key held' ≡ some other) mine
          (λ key h.
            (claim_all-kept keys held held' key other done (distinct other owner differs) h).1)
  ]

  -- No key that another owner holds is claimed.
  pub claim_all-apart :
      (keys mine : List K) (held held' : Map K String) (other : String)
      → claim_all keys held ≡ some held'
      → other ≢ owner
      → All (λ key. lookup key held ≡ some other) mine
      → All (λ key. member key keys ≡ false) mine
  claim_all-apart keys mine held held' other done differ =
      All-map (λ key. lookup key held ≡ some other) (λ key. member key keys ≡ false) mine
        (λ key h. (claim_all-kept keys held held' key other done differ h).0)

  -- What was claimed is the owner's.
  pub claim_all-owned :
      (keys : List K) (held held' : Map K String)
      → claim_all keys held ≡ some held'
      → All (λ key. lookup key held' ≡ some owner) keys
  unfolding claim_all
  claim_all-owned [] held held' done = tt
  claim_all-owned (k ∷ keys) held held' done = (
    claim_all-own keys (insert k owner held) held' k (ground arith)
        (rw (lookup-insert k k owner held, ==-refl k)),
    claim_all-owned keys (insert k owner held) held' (ground arith),
  )
