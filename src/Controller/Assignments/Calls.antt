-- ===== src/Controller/Assignments/Calls.antt =====
-- Every call of Controller/Assignments keeps the invariant of its rows.
use asterferry.Base.{
  ℕ, Bool, true, false, ◌≡◌, inl, inr, refl, none, some, String, ok, ◌>>=◌, >>=-inverse,
  orelse-none, reject, reject-none, ◌==◌, string_keyed, nat_keyed, ltb, Bool-cases, Option-cases,
  Result-cases, arith, subst, sym, ◌∙◌,
}
use asterferry.Base.Maps.{Map, lookup, insert, erase, lookup-erase}
use asterferry.Domain.Types.{Assignment}
use asterferry.Domain.Validation.{Platform}
use asterferry.Domain.Validation.Resources.{validate_assignment}
use asterferry.Controller.Idempotency.{record_idempotency}
use asterferry.Controller.Obfuscation.{Cipher, protect_obfuscation_policy}
use asterferry.Controller.Idempotency.{StoredKey}
use asterferry.Controller.Assignments.{
  controller_owned, invalid, Row, Store, Request, update_assignment_state, delete_assignment,
  update_found, delete_found, recorded, keyed_hit, restated, max_int64, matches_revision,
  state_request, delete_request, put_request,
}
use asterferry.Controller.Assignments.Checks.{Tables, check_put}
use asterferry.Controller.Assignments.Put.{
  put_assignment, put_protected, put_found, check_given, write_put, with_default_state, requested,
}
use asterferry.Controller.Assignments.Kept.{Shrunk, Kept, restated-Kept}
use asterferry.Controller.Assignments.Exclusive.{Exclusive, Exclusive-Origin, Origin, found-insert}
use asterferry.Controller.Assignments.Placed.{write_put-Exclusive}

same-Kept : (row : Row) → Shrunk row row
same-Kept row = record { services = refl; gateway = refl; bindings = inl refl }

recorded-rows :
    (key hash : String) (rows : Map String Row) (keys : Map String StoredKey) (s' : Store)
    → recorded key hash rows keys ≡ ok s'
    → s'.rows ≡ rows
unfolding recorded
recorded-rows key hash rows keys s' h = elim (Option-cases (record_idempotency key hash keys)) [
  | inl held ↦ ground (arith, held)
  | inr (e, missing) ↦ absurd (ground (arith, missing))
]

restated-Origin :
    (id : String) (row row' : Row) (rows : Map String Row)
    → lookup id rows ≡ some row
    → Exclusive rows
    → Kept row row'
    → Origin rows (insert id row' rows)
restated-Origin id row row' rows present e kept i r found =
    elim (found-insert id i row' r rows found) [
      | inl (same, is_new) ↦ (
        row,
        subst (λ i. lookup i rows ≡ some row) same present,
        subst (Kept row) (sym is_new) kept,
      )
      | inr (other, old) ↦ (r, old, (e.lawful i r old, same-Kept r))
    ]

found-erase :
    (id i : String) (r : Row) (rows : Map String Row)
    → lookup i (erase id rows) ≡ some r
    → lookup i rows ≡ some r
found-erase id i r rows found = ground (arith, lookup-erase id i rows)

update_found-Exclusive :
    (hashed id state given : String) (if_match now : ℕ) (s : Store)
    (found : Bool × Map String StoredKey) (s' : Store)
    → (state == "applied") ≡ false
    → update_found hashed id state given if_match now s found ≡ ok s'
    → Exclusive s.rows
    → Exclusive s'.rows
unfolding update_found
update_found-Exclusive hashed id state given if_match now s (hit, keys) s' other h e =
    elim (Option-cases (lookup id s.rows)) [
      | inl absent ↦ absurd (ground (arith, absent))
      | inr (row, present) ↦ elim (Bool-cases hit) [
        | inl replayed ↦
            let same : s ≡ s' = ground (arith, present) in
            subst (λ (s : Store). Exclusive s.rows) same e
        | inr fresh ↦ elim (Bool-cases (matches_revision if_match row)) [
          | inr stale ↦ absurd (ground (arith, present))
          | inl current ↦
              let block = λ (row' : Row). recorded given hashed (insert id row' s.rows) keys in
              let first = >>=-inverse (restated state now row) block (ground (arith, present)) in
              let rows = recorded-rows given hashed (insert id first.0 s.rows) keys s' first.1 in
              subst Exclusive (sym rows) (
                Exclusive-Origin s.rows (insert id first.0 s.rows)
                  (restated-Origin id row first.0 s.rows present e
                    (restated-Kept state now row first.0 other first.2))
                  e)
        ]
      ]
    ]

delete_found-Exclusive :
    (hashed id given : String) (if_match : ℕ) (s : Store) (found : Bool × Map String StoredKey)
    (s' : Store)
    → delete_found hashed id given if_match s found ≡ ok s'
    → Exclusive s.rows
    → Exclusive s'.rows
unfolding delete_found
delete_found-Exclusive hashed id given if_match s (true, keys) s' h e =
    let same : s ≡ s' = ground arith in subst (λ (s : Store). Exclusive s.rows) same e
delete_found-Exclusive hashed id given if_match s (false, keys) s' h e =
    elim (Option-cases (lookup id s.rows)) [
      | inl absent ↦ absurd (ground (arith, absent))
      | inr (row, present) ↦ elim (Bool-cases (matches_revision if_match row)) [
        | inr stale ↦ absurd (ground (arith, present))
        | inl current ↦
            let rows =
              recorded-rows given hashed (erase id s.rows) keys s' (ground (arith, present)) in
            subst Exclusive (sym rows) (
              Exclusive-Origin s.rows (erase id s.rows)
                (λ i r found.
                  let old = found-erase id i r s.rows found in
                  (r, old, (e.lawful i r old, same-Kept r)))
                e)
      ]
    ]

module _ (platform : Platform) where
  put_found-Exclusive :
      (hashed : String) (tables : Tables) (a : Assignment) (given : String) (if_match now : ℕ)
      (s : Store) (found : Bool × Map String StoredKey) (s' : Store)
      → (a.state == "applied") ≡ false
      → put_found platform hashed tables a given if_match now s found ≡ ok s'
      → Exclusive s.rows
      → Exclusive s'.rows
  unfolding put_found
  put_found-Exclusive hashed tables a given if_match now s (true, keys) s' other h e =
      let same : s ≡ s' = ground arith in subst (λ (s : Store). Exclusive s.rows) same e
  put_found-Exclusive hashed tables a given if_match now s (false, keys) s' other h e =
      elim (Option-cases (check_put platform tables a if_match s.rows)) [
        | inr (error, refused) ↦ absurd (ground (arith, refused))
        | inl passed ↦
            let block = λ (rows : Map String Row). recorded given hashed rows keys in
            let first =
              >>=-inverse (write_put platform a now s.rows) block (ground (arith, passed)) in
            let rows = recorded-rows given hashed first.0 keys s' first.1 in
            subst Exclusive (sym rows)
              (write_put-Exclusive platform a now s.rows first.0 other first.2 e)
      ]

  given-state : (a : Assignment) → check_given platform a ≡ none → (a.state == "applied") ≡ false
  unfolding check_given
  given-state a passed =
      reject-none (a.state == "applied") controller_owned
        (orelse-none (reject (a.state == "applied") controller_owned)
          (elim (validate_assignment platform a) [ none ↦ none | some e ↦ some (invalid e) ])
          passed).0

  -- A call that succeeded: its assignment, which is not applied, is tested and protected in the same way
  -- by every call like it.
  pub put-begun :
      (cipher : Cipher) (hash : Request → String) (tables : Tables) (given : Assignment)
      (key : String) (if_match now : ℕ) (s s' : Store)
      → put_assignment platform cipher hash tables given key if_match now s ≡ ok s'
      → (p : Assignment) × ((p.state == "applied") ≡ false)
        × ((tables' : Tables) (now' : ℕ) (s'' : Store)
            → put_assignment platform cipher hash tables' given key if_match now' s''
              ≡ put_protected platform hash tables' p key if_match now' s'')
  unfolding put_assignment
  put-begun cipher hash tables given key if_match now s s' h =
      let a = with_default_state given in
      elim (Option-cases (check_given platform a)) [
        | inr (error, refused) ↦ absurd (ground (arith, refused))
        | inl passed ↦
            elim (Result-cases (protect_obfuscation_policy platform cipher a.obfuscation)) [
              | inr (error, refused) ↦ absurd (ground (arith, passed, refused))
              | inl (o, protected) ↦ elim (Bool-cases (ltb max_int64 a.generation)) [
                | inl large ↦ absurd (ground (arith, passed, protected))
                | inr small ↦ (
                  record a { obfuscation = o },
                  given-state a passed,
                  λ tables' now' s''. ground (arith, passed, protected),
                )
              ]
            ]
      ]

  pub put_assignment-Exclusive :
      (cipher : Cipher) (hash : Request → String) (tables : Tables) (given : Assignment)
      (key : String) (if_match now : ℕ) (s s' : Store)
      → put_assignment platform cipher hash tables given key if_match now s ≡ ok s'
      → Exclusive s.rows
      → Exclusive s'.rows
  unfolding put_protected
  put_assignment-Exclusive cipher hash tables given key if_match now s s' h e =
      let begun = put-begun cipher hash tables given key if_match now s s' h in
      let p = begun.0 in
      let hashed = hash (put_request (requested p) if_match) in
      let block = λ (found : Bool × Map String StoredKey).
        put_found platform hashed tables p key if_match now s found in
      let first =
        >>=-inverse (keyed_hit key hashed now s.keys) block (sym (begun.2 tables now s) ∙ h) in
      put_found-Exclusive hashed tables p key if_match now s first.0 s' begun.1 first.1 e

module _ (hash : Request → String) where
  pub update_assignment_state-Exclusive :
      (id state given : String) (if_match now : ℕ) (s s' : Store)
      → update_assignment_state hash id state given if_match now s ≡ ok s'
      → Exclusive s.rows
      → Exclusive s'.rows
  unfolding update_assignment_state
  update_assignment_state-Exclusive id state given if_match now s s' h e =
      let hashed = hash (state_request id state if_match) in
      let block = λ (found : Bool × Map String StoredKey).
        update_found hashed id state given if_match now s found in
      let other : (state == "applied") ≡ false = ground arith in
      let begun : (keyed_hit given hashed now s.keys >>= block) ≡ ok s' = ground arith in
      let first = >>=-inverse (keyed_hit given hashed now s.keys) block begun in
      update_found-Exclusive hashed id state given if_match now s first.0 s' other first.1 e

  pub delete_assignment-Exclusive :
      (id given : String) (if_match now : ℕ) (s s' : Store)
      → delete_assignment hash id given if_match now s ≡ ok s'
      → Exclusive s.rows
      → Exclusive s'.rows
  unfolding delete_assignment
  delete_assignment-Exclusive id given if_match now s s' h e =
      let hashed = hash (delete_request id if_match) in
      let block =
        λ (found : Bool × Map String StoredKey). delete_found hashed id given if_match s found in
      let first = >>=-inverse (keyed_hit given hashed now s.keys) block h in
      delete_found-Exclusive hashed id given if_match s first.0 s' first.1 e
