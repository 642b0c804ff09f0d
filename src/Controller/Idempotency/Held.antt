-- ===== src/Controller/Idempotency/Held.antt =====
-- What becomes of the idempotency keys of internal/controller/store_security.go: a key that has been used
-- stays used for its request until PruneHistory deletes it.
use asterferry.Base.{
  ℕ, ◌≤◌, ltb, [], ◌∷◌, Bool, true, false, ◌≡◌, inl, inr, some, String, ok, ◌==◌, string_keyed,
  nat_keyed, ==-refl, Bool-cases, Option-cases, arith, subst, sym,
}
use asterferry.Base.Maps.{Map, lookup, insert, lookup-insert_self, lookup-insert}
use asterferry.Text.{trim_space}
use asterferry.Controller.Idempotency.{StoredKey, idempotency_hit, prune_keys}

abbrev reserved : String → ℕ → StoredKey
reserved hash now = record { request_hash = hash; created_at = now }

-- A key that was free or used for this request is, after the call, used for this request.
pub hit-again :
    (given hash : String) (now now' : ℕ) (keys : Map String StoredKey) (hit : Bool)
    (after : Map String StoredKey)
    → (trim_space given == "") ≡ false
    → idempotency_hit given hash now keys ≡ ok (hit, after)
    → idempotency_hit given hash now' after ≡ ok (true, after)
unfolding idempotency_hit
hit-again given hash now now' keys hit after keyed h =
    let key = trim_space given in
    elim (Option-cases (lookup key keys)) [
      | inl new ↦
          let is_after : after ≡ insert key (reserved hash now) keys = ground (arith, new) in
          let held : lookup key after ≡ some (reserved hash now) =
            ground (arith, is_after, lookup-insert_self key (reserved hash now) keys) in
          ground (arith, new, held, ==-refl hash)
      | inr (stored, old) ↦ ground (arith, old)
    ]

-- A key that was used before leaves the keys as they were.
pub hit-same :
    (given hash : String) (now : ℕ) (keys after : Map String StoredKey)
    → idempotency_hit given hash now keys ≡ ok (true, after)
    → after ≡ keys
unfolding idempotency_hit
hit-same given hash now keys after h = ground arith

-- No key is forgotten or given to another request.
abbrev pub Keeps : Map String StoredKey → Map String StoredKey → Type 0
Keeps before after =
    (key : String) (stored : StoredKey)
    → lookup key before ≡ some stored
    → lookup key after ≡ some stored

pub hit-Keeps :
    (given hash : String) (now : ℕ) (keys : Map String StoredKey) (hit : Bool)
    (after : Map String StoredKey)
    → idempotency_hit given hash now keys ≡ ok (hit, after)
    → Keeps keys after
unfolding idempotency_hit
hit-Keeps given hash now keys hit after h key stored held =
    let own = trim_space given in
    elim (Option-cases (lookup own keys)) [
      | inr (other, old) ↦
          let same : after ≡ keys = ground (arith, old) in
          subst (λ keys. lookup key keys ≡ some stored) (sym same) held
      | inl new ↦ elim (Bool-cases (own == "")) [
        | inl empty ↦
            let same : after ≡ keys = ground (arith, empty) in
            subst (λ keys. lookup key keys ≡ some stored) (sym same) held
        | inr keyed ↦
            let is_after : after ≡ insert own (reserved hash now) keys =
              ground (arith, new, keyed) in
            let apart : (own == key) ≡ false =
              ground (arith, new, held, string_keyed.same_iff own key) in
            subst (λ keys. lookup key keys ≡ some stored) (sym is_after)
              (ground (arith, lookup-insert own key (reserved hash now) keys, apart, held))
      ]
    ]

-- The key has been used for the request.
abbrev pub Used : String → String → Map String StoredKey → Type 0
Used given hash keys = (now : ℕ) → idempotency_hit given hash now keys ≡ ok (true, keys)

pub Used-Keeps :
    (given hash : String) (before after : Map String StoredKey) (stored : StoredKey)
    → lookup (trim_space given) before ≡ some stored
    → lookup (trim_space given) after ≡ some stored
    → Used given hash before
    → Used given hash after
unfolding idempotency_hit
Used-Keeps given hash before after stored old kept used now =
    let first = used now in ground (arith, old, kept, first)

-- A key that is not older than the cutoff survives the pruning.
pub prune_keys-kept :
    (cutoff : ℕ) (key : String) (stored : StoredKey) (keys : Map String StoredKey)
    → cutoff ≤ stored.created_at
    → lookup key keys ≡ some stored
    → lookup key (prune_keys cutoff keys) ≡ some stored
unfolding prune_keys lookup
prune_keys-kept cutoff key stored [] young held = held
prune_keys-kept cutoff key stored ((other, row) ∷ keys) young held =
    elim (Bool-cases (ltb row.created_at cutoff)) [
      | inr recent ↦ ground (arith, recent, prune_keys-kept cutoff key stored keys)
      | inl old ↦ elim (Bool-cases (other == key)) [
        | inl here ↦
            let same : row ≡ stored = ground (arith, here, held) in
            absurd (ground (arith, old, young, same))
        | inr there ↦ ground (
          arith,
          old,
          there,
          prune_keys-kept cutoff key stored keys young (ground (arith, there, held)),
        )
      ]
    ]
