-- ===== src/Controller/Assignments/Placed.antt =====
-- The row that PutAssignment writes: it shares no service and no binding with the rows that stay.
use asterferry.Base.{
  ℕ, Bool, true, false, ◌≡◌, inl, inr, refl, none, some, [], ◌∷◌, List, map, String, ok, any, All,
  first_error-none, reject, reject-none, orelse-none, ◌==◌, string_keyed, ==→eq, ==-refl, All-map,
  Bool-cases, Option-cases, arith, subst,
}
use asterferry.Base.Maps.{Map, lookup}
use asterferry.Base.Sets.{member}
use asterferry.Domain.Types.{Assignment, Binding}
use asterferry.Domain.Validation.{Platform}
use asterferry.Controller.Ports.{BindingKey, binding_keyed, binding_key}
use asterferry.Controller.Scheduler.{is_inactive}
use asterferry.Controller.Assignments.{Row}
use asterferry.Controller.Assignments.Checks.{
  is_superseded, superseded, key_of, port_taken, next_revision,
}
use asterferry.Controller.Assignments.Put.{
  held_keys, stored_key, erase_all, stored, stored_bindings, stored_binding, occupies,
  check_free_bindings, check_children, check_free_services, write_put,
}
use asterferry.Controller.Assignments.Rows.{lookup-others}
use asterferry.Controller.Assignments.Kept.{Lawful}
use asterferry.Controller.Assignments.Exclusive.{
  Exclusive, Exclusive-Origin, Exclusive-insert, SharesService, SharesBinding, Beside,
}

any-member :
    (p : String → Bool) (x : String) (xs : List String)
    → any p xs ≡ false
    → member x xs ≡ true
    → p x ≡ false
unfolding member
any-member p x [] none_passes has = absurd (ground arith)
any-member p x (y ∷ xs) none_passes has =
    ground (arith, any-member p x xs, string_keyed.same_iff y x)

any-lookup :
    (p : String × Row → Bool) (id : String) (row : Row) (rows : Map String Row)
    → any p rows ≡ false
    → lookup id rows ≡ some row
    → p (id, row) ≡ false
unfolding lookup
any-lookup p id row [] none_passes found = absurd (cc)
any-lookup p id row ((other, row') ∷ rows) none_passes found =
    ground (arith, any-lookup p id row rows, string_keyed.same_iff other id)

other_way : (i j : String) → (i == j) ≡ false → (j == i) ≡ false
other_way i j h = ground (arith, string_keyed.same_iff i j, string_keyed.same_iff j i)

module _ (platform : Platform) (a : Assignment) where
  stored-Lawful :
      (revision now : ℕ) → (a.state == "applied") ≡ false → Lawful (stored platform a revision now)
  unfolding stored stored_bindings is_inactive
  stored-Lawful revision now other = record {
    applied = λ e. absurd (ground arith);
    inactive = λ e. ground arith;
  }

  module _ (rows : Map String Row) where
    abbrev others : Map String Row
    others = erase_all (superseded a rows) rows

    stored-services :
        (revision now : ℕ) → Beside SharesService a.id (stored platform a revision now) others
    unfolding stored is_superseded
    stored-services revision now j q found other (service, has_new, has_q) =
        let stays = lookup-others a j q rows found in
        let back = other_way a.id j other in
        let apart =
          any-member (λ service. member service q.assignment.service_ids) service a.service_ids in
        absurd (ground (arith, stays.1, back, apart))

  -- A key that the stored bindings hold was tested.
  held-tested :
      (rows : Map String Row) (key : BindingKey) (bs : List Binding)
      → All (λ b. any (occupies a (key_of platform b)) rows ≡ false) bs
      → member key (map stored_key (map (stored_binding platform) bs)) ≡ true
      → any (occupies a key) rows ≡ false
  unfolding member stored_binding key_of binding_key
  held-tested rows key [] tested held = absurd (ground arith)
  held-tested rows key (b ∷ bs) tested held = elim (Bool-cases (key_of platform b == key)) [
    | inl same ↦
        subst (λ key. any (occupies a key) rows ≡ false) (==→eq (key_of platform b) key same)
          tested.0
    | inr other ↦ held-tested rows key bs tested.1 (ground arith)
  ]

  free-tested :
      (rows : Map String Row)
      → is_inactive a ≡ false
      → check_free_bindings platform a rows ≡ none
      → All (λ b. any (occupies a (key_of platform b)) rows ≡ false) a.bindings
  unfolding check_free_bindings
  free-tested rows active free =
      let taken = λ (b : Binding). any (occupies a (key_of platform b)) rows in
      let tests = λ (b : Binding). reject (taken b) (port_taken a b) in
      All-map (λ b. tests b ≡ none) (λ b. taken b ≡ false) a.bindings
        (λ b free. reject-none (taken b) (port_taken a b) free)
        (first_error-none tests a.bindings (ground arith))

  held-free :
      (rows : Map String Row) (revision now : ℕ) (key : BindingKey)
      → check_free_bindings platform a rows ≡ none
      → member key (held_keys (stored platform a revision now)) ≡ true
      → any (occupies a key) rows ≡ false
  unfolding stored stored_bindings member
  held-free rows revision now key free held = elim (Bool-cases (is_inactive a)) [
    | inl inactive ↦
        let none_held : stored_bindings platform a ≡ [] = ground arith in
        absurd (ground (arith, subst (λ bs. member key (map stored_key bs) ≡ true) none_held held))
    | inr active ↦
        let all_held : stored_bindings platform a ≡ map (stored_binding platform) a.bindings =
          ground arith in
        held-tested rows key a.bindings (free-tested rows active free)
          (subst (λ bs. member key (map stored_key bs) ≡ true) all_held held)
  ]

  stored-bindings :
      (rows : Map String Row) (revision now : ℕ)
      → check_free_bindings platform a rows ≡ none
      → Beside SharesBinding a.id (stored platform a revision now) rows
  unfolding occupies stored
  stored-bindings rows revision now free j q found other (same, (key, has_new, has_q)) =
      let untaken =
        any-lookup (occupies a key) j q rows (held-free rows revision now key free has_new) found in
      let back = other_way a.id j other in
      let gateway = ==-refl q.assignment.gateway_id in
      absurd (ground (arith, untaken, back, gateway, same))

  pub write_put-Exclusive :
      (now : ℕ) (rows rows' : Map String Row)
      → (a.state == "applied") ≡ false
      → write_put platform a now rows ≡ ok rows'
      → Exclusive rows
      → Exclusive rows'
  unfolding write_put check_children
  write_put-Exclusive now rows rows' other h e =
      let rest = erase_all (superseded a rows) rows in
      let revision = next_revision (lookup a.id rows) in
      let new = stored platform a revision now in
      let stays : Exclusive rest =
        Exclusive-Origin rows rest
          (λ id row found. (
            row,
            (lookup-others a id row rows found).0,
            (
              e.lawful id row (lookup-others a id row rows found).0,
              record { services = refl; gateway = refl; bindings = inl refl },
            ),
          ))
          e in
      elim (Option-cases (check_children platform a rest)) [
        | inl passed ↦
            let free =
              orelse-none (check_free_services a rest) (check_free_bindings platform a rest)
                passed in
            subst Exclusive (ground (arith, passed)) (
              Exclusive-insert a.id new rest (stored-Lawful revision now other)
                (stored-services rows revision now) (stored-bindings rest revision now free.1)
                stays)
        | inr (error, refused) ↦ absurd (ground (arith, refused))
      ]
