-- ===== src/Controller/Assignments/Rows.antt =====
-- The rows of the assignments as a map: what the loops of Controller/Assignments leave in it.
use asterferry.Base.{
  true, false, ◌≡◌, refl, some, [], ◌∷◌, List, String, Result, ok, ◌>>=◌, >>=-inverse, ◌==◌,
  string_keyed, arith, inl, inr, Bool-cases,
}
use asterferry.Base.Maps.{Map, lookup, erase, lookup-erase}
use asterferry.Base.Sets.{member}
use asterferry.Domain.Types.{Assignment}
use asterferry.Controller.Assignments.{AssignmentError, Row, each_row}
use asterferry.Controller.Assignments.Checks.{is_superseded, superseded}
use asterferry.Controller.Assignments.Put.{erase_all}

module _ (change : Row → Result AssignmentError Row) where
  -- A row after the loop is what its change made of the row before.
  pub each_row-lookup :
      (id : String) (row' : Row) (rows rows' : Map String Row)
      → each_row change rows ≡ ok rows'
      → lookup id rows' ≡ some row'
      → (row : Row) × (lookup id rows ≡ some row) × (change row ≡ ok row')
  unfolding each_row lookup
  each_row-lookup id row' [] rows' h found = absurd (ground arith)
  each_row-lookup id row' ((other, row) ∷ rows) rows' h found =
      let first =
        >>=-inverse (change row)
          (λ changed. each_row change rows >>= λ rest. ok ((other, changed) ∷ rest)) h in
      let second =
        >>=-inverse (each_row change rows) (λ rest. ok ((other, first.0) ∷ rest)) first.1 in
      elim (Bool-cases (other == id)) [
        | inl same ↦ (row, ground arith, ground (arith, first.2, second.1))
        | inr differ ↦
            let later = each_row-lookup id row' rows second.0 second.2 (ground (arith, second.1)) in
            (later.0, ground (arith, later.1), later.2)
      ]

pub lookup-erase_all :
    (id : String) (row : Row) (ids : List String) (rows : Map String Row)
    → lookup id (erase_all ids rows) ≡ some row
    → (lookup id rows ≡ some row) × (member id ids ≡ false)
unfolding erase_all member
lookup-erase_all id row [] rows found = (found, refl)
lookup-erase_all id row (other ∷ ids) rows found =
    let rest = lookup-erase_all id row ids (erase other rows) found in
    ground (arith, rest.0, rest.1, lookup-erase other id rows)

member-superseded :
    (a : Assignment) (id : String) (row : Row) (rows : Map String Row)
    → lookup id rows ≡ some row
    → is_superseded a (id, row) ≡ true
    → member id (superseded a rows) ≡ true
unfolding superseded lookup member
member-superseded a id row [] found old = absurd (cc)
member-superseded a id row ((other, row') ∷ rows) found old =
    ground (arith, string_keyed.same_iff other id, member-superseded a id row rows)

-- A row that PutAssignment has not deleted
pub lookup-others :
    (a : Assignment) (id : String) (row : Row) (rows : Map String Row)
    → lookup id (erase_all (superseded a rows) rows) ≡ some row
    → (lookup id rows ≡ some row) × (is_superseded a (id, row) ≡ false)
lookup-others a id row rows found =
    let rest = lookup-erase_all id row (superseded a rows) rows found in
    (rest.0, ground (arith, rest.1, member-superseded a id row rows rest.0))
