-- ===== src/Controller/Idempotency.antt =====
-- internal/controller/store_security.go: the idempotency keys of the API's writes. A request comes as its
-- hash, which is that of its JSON. The stored answer is left out, since no assignment write reads it. A
-- time is a number that is ordered as its RFC 3339 text is; a call reads the clock once.
pub mod Held
use Prim.Native.String.{len}
use asterferry.Base.{
  ℕ, Bool, true, false, ◌||◌, ◌≡◌, Option, none, some, [], ◌∷◌, String, Result, ok, err, ltb,
  if◌then◌else◌, ◌==◌, nat_keyed, string_keyed, ==-refl, arith,
}
use asterferry.Base.Maps.{Map, lookup, insert, lookup-insert_self}
use asterferry.Text.{trim_space, any_rune}

pub data KeyError : Type 0 where
  bad_key other_request not_held : KeyError

-- A row of idempotency_keys, without its key and its answer
pub record StoredKey : Type 0 where
  pub request_hash : String
  pub created_at : ℕ

unfoldable pub is_bad_key : String → Bool
is_bad_key key = ltb 128 (len key) || any_rune (λ r. r == 0 || r == 13 || r == 10) key

-- Whether the key has been used for this request, and the keys with its reservation.
unfoldable pub idempotency_hit :
    String → String → ℕ → Map String StoredKey → Result KeyError (Bool × Map String StoredKey)
idempotency_hit given hash now keys =
    let key = trim_space given in
    if is_bad_key key
    then err bad_key
    else (if key == "" then ok (false, keys) else (elim (lookup key keys) [
      | none ↦ ok (false, insert key (record { request_hash = hash; created_at = now }) keys)
      | some stored ↦ if stored.request_hash == hash then ok (true, keys) else err other_request
    ]))

-- PruneHistory's deletion of the keys whose `created_at` is before the cutoff
unfoldable pub prune_keys : ℕ → Map String StoredKey → Map String StoredKey
prune_keys cutoff [] = []
prune_keys cutoff ((key, stored) ∷ keys) =
    let rest = prune_keys cutoff keys in
    if ltb stored.created_at cutoff then rest else (key, stored) ∷ rest

-- The test that the reservation is held
unfoldable pub record_idempotency : String → String → Map String StoredKey → Option KeyError
record_idempotency given hash keys =
    let key = trim_space given in
    if is_bad_key key
    then some bad_key
    else (if key == "" then none else (elim (lookup key keys) [
      | none ↦ some not_held
      | some stored ↦ if stored.request_hash == hash then none else some not_held
    ]))
