-- ===== src/Controller/Assignments/Settled.antt =====
-- What one assignment write (internal/controller/store_assignment_write.go, store_assignment_state.go) does
-- with the idempotency keys.
use asterferry.Base.{
  ℕ, Bool, true, false, ◌≡◌, ◌⊎◌, inl, inr, refl, some, String, Result, ok, ◌>>=◌, >>=-inverse, ap,
  ◌∙◌, ◌==◌, string_keyed, nat_keyed, Bool-cases, Option-cases, Result-cases, arith, subst, sym,
}
use asterferry.Base.Maps.{Map, lookup, insert, erase}
use asterferry.Text.{trim_space}
use asterferry.Controller.Idempotency.{StoredKey, idempotency_hit, record_idempotency}
use asterferry.Controller.Idempotency.Held.{Keeps, Used, hit-again, hit-same, hit-Keeps}
use asterferry.Controller.Assignments.{
  AssignmentError, Row, Store, update_found, delete_found, recorded, keyed_hit, restated,
  matches_revision,
}

keyed_hit-inner :
    (given hash : String) (now : ℕ) (keys : Map String StoredKey)
    (found : Bool × Map String StoredKey)
    → keyed_hit given hash now keys ≡ ok found
    → idempotency_hit given hash now keys ≡ ok found
unfolding keyed_hit
keyed_hit-inner given hash now keys found h =
    elim (Result-cases (idempotency_hit given hash now keys)) [
      | inr (error, refused) ↦ absurd (ground (arith, refused))
      | inl (other, done) ↦ ground (arith, done)
    ]

pub recorded-keys :
    (given hash : String) (rows : Map String Row) (keys : Map String StoredKey) (s' : Store)
    → recorded given hash rows keys ≡ ok s'
    → s'.keys ≡ keys
unfolding recorded
recorded-keys given hash rows keys s' h = elim (Option-cases (record_idempotency given hash keys)) [
  | inl held ↦ ground (arith, held)
  | inr (e, missing) ↦ absurd (ground (arith, missing))
]

-- What a write does with the keys that it finds.
abbrev pub Settled : Bool → Map String StoredKey → Store → Store → Type 0
Settled hit keys s s' = ((hit ≡ true) × (s' ≡ s)) ⊎ (s'.keys ≡ keys)

-- A write that began with its key: what is kept of the keys, and that its own has been used.
pub begun-Settled :
    (given hash : String) (now : ℕ) (s s' : Store)
    (block : Bool × Map String StoredKey → Result AssignmentError Store)
    → ((hit : Bool) (keys : Map String StoredKey)
        → block (hit, keys) ≡ ok s'
        → Settled hit keys s s')
    → (keyed_hit given hash now s.keys >>= block) ≡ ok s'
    → Keeps s.keys s'.keys × ((trim_space given == "") ≡ false → Used given hash s'.keys)
begun-Settled given hash now s s' block settled h =
    let first = >>=-inverse (keyed_hit given hash now s.keys) block h in
    let hit = first.0.0 in
    let keys = first.0.1 in
    let inner = keyed_hit-inner given hash now s.keys first.0 first.2 in
    let same : s'.keys ≡ keys = elim (settled hit keys first.1) [
      | inr written ↦ written
      | inl (used, unchanged) ↦
          ap (λ (s : Store). s.keys) unchanged
          ∙ sym (
              hit-same given hash now s.keys keys
                (subst (λ hit. idempotency_hit given hash now s.keys ≡ ok (hit, keys)) used inner))
    ] in
    (
      subst (Keeps s.keys) (sym same) (hit-Keeps given hash now s.keys hit keys inner),
      λ keyed.
          subst (Used given hash) (sym same)
            (λ now'. hit-again given hash now now' s.keys hit keys keyed inner),
    )

pub keys-Keep : (s s' : Store) → s'.keys ≡ s.keys → Keeps s.keys s'.keys
keys-Keep s s' same key stored held = subst (λ keys. lookup key keys ≡ some stored) (sym same) held

pub update_found-Settled :
    (hashed id state given : String) (if_match now : ℕ) (s s' : Store) (hit : Bool)
    (keys : Map String StoredKey)
    → update_found hashed id state given if_match now s (hit, keys) ≡ ok s'
    → Settled hit keys s s'
unfolding update_found
update_found-Settled hashed id state given if_match now s s' hit keys h =
    elim (Option-cases (lookup id s.rows)) [
      | inl absent ↦ absurd (ground (arith, absent))
      | inr (row, present) ↦ elim (Bool-cases hit) [
        | inl replayed ↦ inl (replayed, ground (arith, present))
        | inr fresh ↦ elim (Bool-cases (matches_revision if_match row)) [
          | inr stale ↦ absurd (ground (arith, present))
          | inl current ↦
              let block = λ (row' : Row). recorded given hashed (insert id row' s.rows) keys in
              let first = >>=-inverse (restated state now row) block (ground (arith, present)) in
              inr (recorded-keys given hashed (insert id first.0 s.rows) keys s' first.1)
        ]
      ]
    ]

pub delete_found-Settled :
    (hashed id given : String) (if_match : ℕ) (s s' : Store) (hit : Bool)
    (keys : Map String StoredKey)
    → delete_found hashed id given if_match s (hit, keys) ≡ ok s'
    → Settled hit keys s s'
unfolding delete_found
delete_found-Settled hashed id given if_match s s' true keys h = inl (refl, ground arith)
delete_found-Settled hashed id given if_match s s' false keys h =
    elim (Option-cases (lookup id s.rows)) [
      | inl absent ↦ absurd (ground (arith, absent))
      | inr (row, present) ↦ elim (Bool-cases (matches_revision if_match row)) [
        | inr stale ↦ absurd (ground (arith, present))
        | inl current ↦
            inr (recorded-keys given hashed (erase id s.rows) keys s' (ground (arith, present)))
      ]
    ]
