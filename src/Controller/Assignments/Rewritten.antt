-- ===== src/Controller/Assignments/Rewritten.antt =====
-- The writes that go through the rows of Controller/Assignments in a loop.
use asterferry.Base.{
  ℕ, Bool, ◌≡◌, inl, inr, String, Result, ok, string_keyed, nat_keyed, Result-cases, arith, subst,
}
use asterferry.Domain.Types.{GatewaySpec}
use asterferry.Controller.Assignments.{
  AssignmentError, Row, Store, each_row, rewritten, apply_row, apply_node_result,
}
use asterferry.Controller.Assignments.Derived.{
  bump_row, bump_assignments_for_service, quarantine_row, quarantine_assignments_for_node,
  endpoint_row, update_assignment_endpoints,
}
use asterferry.Controller.Assignments.Rows.{each_row-lookup}
use asterferry.Controller.Assignments.Kept.{Lawful, Kept, apply_row-Kept}
use asterferry.Controller.Assignments.Raised.{bump_row-Kept, quarantine_row-Kept, endpoint_row-Kept}
use asterferry.Controller.Assignments.Exclusive.{Exclusive, Exclusive-Origin, Origin}

module _ (change : Row → Result AssignmentError Row) (s s' : Store) where
  rewritten-Exclusive :
      ((row row' : Row) → Lawful row → change row ≡ ok row' → Kept row row')
      → rewritten change s ≡ ok s'
      → Exclusive s.rows
      → Exclusive s'.rows
  unfolding rewritten
  rewritten-Exclusive kept h e = elim (Result-cases (each_row change s.rows)) [
    | inl (rows, changed) ↦
        let origin : Origin s.rows rows = λ id row' found.
          let before = each_row-lookup change id row' s.rows rows changed found in
          (before.0, before.1, kept before.0 row' (e.lawful id before.0 before.1) before.2) in
        subst Exclusive (ground (arith, changed)) (Exclusive-Origin s.rows rows origin e)
    | inr (error, refused) ↦ absurd (ground (arith, refused))
  ]

  rewritten-keys : rewritten change s ≡ ok s' → s'.keys ≡ s.keys
  unfolding rewritten
  rewritten-keys h = elim (Result-cases (each_row change s.rows)) [
    | inl (rows, changed) ↦ ground (arith, changed)
    | inr (error, refused) ↦ absurd (ground (arith, refused))
  ]

-- A write that goes through the rows: the rows are kept, and the keys stay.
abbrev pub Loops : Store → Store → Type 0
Loops s s' = (Exclusive s.rows → Exclusive s'.rows) × (s'.keys ≡ s.keys)

rewritten-Loops :
    (change : Row → Result AssignmentError Row) (s s' : Store)
    → ((row row' : Row) → Lawful row → change row ≡ ok row' → Kept row row')
    → rewritten change s ≡ ok s'
    → Loops s s'
rewritten-Loops change s s' kept h =
    (rewritten-Exclusive change s s' kept h, rewritten-keys change s s' h)

pub apply_node_result-Loops :
    (node_id : String) (generation : ℕ) (applied : Bool) (error_code : String) (now : ℕ)
    (s s' : Store)
    → apply_node_result node_id generation applied error_code now s ≡ ok s'
    → Loops s s'
unfolding apply_node_result
apply_node_result-Loops node_id generation applied error_code now s s' h =
    rewritten-Loops (apply_row node_id generation applied error_code now) s s'
      (apply_row-Kept node_id generation applied error_code now) (ground arith)

pub bump_assignments-Loops :
    (service_id : String) (now : ℕ) (s s' : Store)
    → bump_assignments_for_service service_id now s ≡ ok s'
    → Loops s s'
unfolding bump_assignments_for_service
bump_assignments-Loops service_id now s s' h =
    rewritten-Loops (bump_row service_id now) s s' (bump_row-Kept service_id now) h

pub quarantine_assignments-Loops :
    (node_id : String) (now : ℕ) (s s' : Store)
    → quarantine_assignments_for_node node_id now s ≡ ok s'
    → Loops s s'
unfolding quarantine_assignments_for_node
quarantine_assignments-Loops node_id now s s' h =
    rewritten-Loops (quarantine_row node_id now) s s' (quarantine_row-Kept node_id now) h

pub update_endpoints-Loops :
    (spec : GatewaySpec) (now : ℕ) (s s' : Store)
    → update_assignment_endpoints spec now s ≡ ok s'
    → Loops s s'
unfolding update_assignment_endpoints
update_endpoints-Loops spec now s s' h =
    rewritten-Loops (endpoint_row spec now) s s' (endpoint_row-Kept spec now) (ground arith)
