-- ===== src/Controller/Assignments/Exclusive.antt =====
-- The invariant of the assignments of Controller/Assignments: what is kept when rows shrink, and what a
-- new row must bring.
use asterferry.Base.{
  true, false, ◌≡◌, ◌⊎◌, inl, inr, some, String, ◌==◌, string_keyed, ==→eq, Bool-cases, arith,
  subst, sym, ◌∙◌,
}
use asterferry.Base.Maps.{Map, lookup, insert, lookup-insert}
use asterferry.Base.Sets.{member}
use asterferry.Controller.Ports.{BindingKey, binding_keyed}
use asterferry.Controller.Assignments.{Row}
use asterferry.Controller.Assignments.Put.{held_keys}
use asterferry.Controller.Assignments.Kept.{Lawful, Shrunk, Kept}

-- Two rows have a service in common, or an address and port at one gateway.
abbrev pub SharesService : Row → Row → Type 0
SharesService r q =
    (service : String) × (member service r.assignment.service_ids ≡ true)
    × (member service q.assignment.service_ids ≡ true)

abbrev pub SharesBinding : Row → Row → Type 0
SharesBinding r q =
    (r.assignment.gateway_id ≡ q.assignment.gateway_id)
    × ((key : BindingKey) × (member key (held_keys r) ≡ true) × (member key (held_keys q) ≡ true))

-- Only one row with itself
abbrev pub Alone : (Row → Row → Type 0) → Map String Row → Type 0
Alone Shares rows =
    (i j : String) (r q : Row)
    → lookup i rows ≡ some r
    → lookup j rows ≡ some q
    → Shares r q
    → i ≡ j

-- Every assignment is lawful, a service is in one assignment, and an address and port of a gateway are
-- bound by one assignment.
pub record Exclusive (rows : Map String Row) : Type 0 where
  pub lawful : (id : String) (row : Row) → lookup id rows ≡ some row → Lawful row
  pub services : Alone SharesService rows
  pub bindings : Alone SharesBinding rows

-- Each row comes from a row of the same id, and keeps to it.
abbrev pub Origin : Map String Row → Map String Row → Type 0
Origin rows rows' =
    (id : String) (row' : Row)
    → lookup id rows' ≡ some row'
    → (row : Row) × (lookup id rows ≡ some row) × Kept row row'

held-Shrunk :
    (row row' : Row) (key : BindingKey)
    → Shrunk row row'
    → member key (held_keys row') ≡ true
    → member key (held_keys row) ≡ true
unfolding member
held-Shrunk row row' key shrunk held = elim shrunk.bindings [
  | inl e ↦ ground (arith, e)
  | inr e ↦ absurd (ground (arith, e))
]

SharesService-Shrunk :
    (r q r' q' : Row) → Shrunk r r' → Shrunk q q' → SharesService r' q' → SharesService r q
SharesService-Shrunk r q r' q' sr sq (service, has_r, has_q) =
    (service, ground (arith, sr.services), ground (arith, sq.services))

SharesBinding-Shrunk :
    (r q r' q' : Row) → Shrunk r r' → Shrunk q q' → SharesBinding r' q' → SharesBinding r q
SharesBinding-Shrunk r q r' q' sr sq (same, (key, has_r, has_q)) = (
  sym sr.gateway ∙ (same ∙ sq.gateway),
  (key, held-Shrunk r r' key sr has_r, held-Shrunk q q' key sq has_q),
)

Alone-Origin :
    (Shares : Row → Row → Type 0)
    → ((r q r' q' : Row) → Shrunk r r' → Shrunk q q' → Shares r' q' → Shares r q)
    → (rows rows' : Map String Row) → Origin rows rows'
    → Alone Shares rows
    → Alone Shares rows'
Alone-Origin Shares shrink rows rows' origin alone i j r' q' found_r found_q shared =
    let r = origin i r' found_r in
    let q = origin j q' found_q in
    alone i j r.0 q.0 r.1 q.1 (shrink r.0 q.0 r' q' r.2.1 q.2.1 shared)

pub Exclusive-Origin :
    (rows rows' : Map String Row) → Origin rows rows' → Exclusive rows → Exclusive rows'
Exclusive-Origin rows rows' origin e = record {
  lawful = λ id row' found. (origin id row' found).2.0;
  services = Alone-Origin SharesService SharesService-Shrunk rows rows' origin e.services;
  bindings = Alone-Origin SharesBinding SharesBinding-Shrunk rows rows' origin e.bindings;
}

-- A row that is found after an insertion is the new one or was there.
pub found-insert :
    (id i : String) (new r : Row) (rows : Map String Row)
    → lookup i (insert id new rows) ≡ some r
    → ((id ≡ i) × (r ≡ new)) ⊎ (((id == i) ≡ false) × (lookup i rows ≡ some r))
found-insert id i new r rows found = elim (Bool-cases (id == i)) [
  | inl same ↦ inl (==→eq id i same, ground (arith, lookup-insert id i new rows))
  | inr other ↦ inr (other, ground (arith, lookup-insert id i new rows))
]

-- No other row shares with the new one.
abbrev pub Beside : (Row → Row → Type 0) → String → Row → Map String Row → Type 0
Beside Shares id new rows =
    (j : String) (q : Row) → lookup j rows ≡ some q → (id == j) ≡ false → ¬ Shares new q

Alone-insert :
    (Shares : Row → Row → Type 0)
    → ((r q : Row) → Shares r q → Shares q r)
    → (id : String) (new : Row) (rows : Map String Row) → Beside Shares id new rows
    → Alone Shares rows
    → Alone Shares (insert id new rows)
Alone-insert Shares turn id new rows beside alone i j r q found_r found_q shared =
    elim (found-insert id i new r rows found_r) [
      | inl (is_i, new_r) ↦ elim (found-insert id j new q rows found_q) [
        | inl (is_j, new_q) ↦ sym is_i ∙ is_j
        | inr (other, old) ↦ absurd (beside j q old other (subst (λ r. Shares r q) new_r shared))
      ]
      | inr (other, old) ↦ elim (found-insert id j new q rows found_q) [
        | inl (is_j, new_q) ↦
            absurd (beside i r old other (turn r new (subst (λ q. Shares r q) new_q shared)))
        | inr (other_j, old_j) ↦ alone i j r q old old_j shared
      ]
    ]

pub Exclusive-insert :
    (id : String) (new : Row) (rows : Map String Row)
    → Lawful new
    → Beside SharesService id new rows
    → Beside SharesBinding id new rows
    → Exclusive rows
    → Exclusive (insert id new rows)
Exclusive-insert id new rows lawful services bindings e = record {
  lawful = λ i r found. elim (found-insert id i new r rows found) [
    | inl (same, is_new) ↦ subst Lawful (sym is_new) lawful
    | inr (other, old) ↦ e.lawful i r old
  ];
  services =
      Alone-insert SharesService (λ r q shared. (shared.0, shared.2, shared.1)) id new rows services
        e.services;
  bindings =
      Alone-insert SharesBinding
        (λ r q shared. (sym shared.0, (shared.1.0, shared.1.2, shared.1.1))) id new rows bindings
        e.bindings;
}
