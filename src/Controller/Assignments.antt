-- ===== src/Controller/Assignments.antt =====
-- internal/controller/store_assignment_state.go, the writes of store_assignment_write.go in child
-- Put and those that follow other writes in child Derived: the assignments and their states; and of
-- PruneHistory in maintenance.go the idempotency keys. The rows of all tables with an assignment's
-- id stand together: the assignment with its services and bindings, and its acknowledgements by
-- node. A call is one transaction: what ends in an error, also one of the database, leaves the
-- tables as they were. The audit, the other tables of PruneHistory, the notifications and the lists
-- of changed assignments, which only name who is notified, are left out. An IfMatch and a retention
-- that are not positive are 0.
pub mod Checks
pub mod Put
pub mod Derived
pub mod Rows
pub mod Kept
pub mod Raised
pub mod Rewritten
pub mod Exclusive
pub mod Placed
pub mod Calls
pub mod Runs
pub mod Settled
pub mod Replay
mod Tests
use asterferry.Base.{
  ℕ, ◌+◌, ◌-◌, Bool, true, false, not, ◌&&◌, ◌||◌, Option, none, some, List, [], ◌∷◌, String,
  Result, ok, err, ◌>>=◌, ltb, leb, if◌then◌else◌, ◌==◌, nat_keyed, string_keyed,
}
use asterferry.Base.Maps.{Map, lookup, insert, erase}
use asterferry.Text.{trim_space}
use asterferry.Domain.Types.{Assignment}
use asterferry.Domain.Validation.{Issue}
use asterferry.Controller.Scheduler.{is_inactive, PortConflict}
use asterferry.Controller.Idempotency.{
  KeyError, StoredKey, idempotency_hit, record_idempotency, prune_keys,
}
use asterferry.Controller.Obfuscation.{ProtectionError}

pub data AssignmentError : Type 0 where
  no_rows identity_required generation_too_large invalid_state controller_owned : AssignmentError
  revision_exhausted generation_exhausted no_endpoints wrong_kind node_disabled endpoint_mismatch
        service_assigned :
      AssignmentError
  unknown_service foreign_service selector_mismatch foreign_binding : AssignmentError
  protocol_mismatch bind_mismatch port_mismatch port_outside_pool : AssignmentError
  revision_conflict generation_conflict : ℕ → ℕ → AssignmentError
  port_conflict : PortConflict → AssignmentError
  invalid : Issue → AssignmentError
  unprotected : ProtectionError → AssignmentError
  key : KeyError → AssignmentError

-- A row of assignment_acks, without its time
pub record Ack : Type 0 where
  pub generation : ℕ
  pub applied : Bool
  pub error_code : String

pub record Row : Type 0 where
  pub assignment : Assignment
  pub acks : Map String Ack

-- The rows by assignment id, and the idempotency keys
pub record Store : Type 0 where
  pub rows : Map String Row
  pub keys : Map String StoredKey

-- The requests as they are hashed
pub data Request : Type 0 where
  put_request : Assignment → ℕ → Request
  state_request : String → String → ℕ → Request
  delete_request : String → ℕ → Request

abbrev pub max_int64 : ℕ
max_int64 = 9223372036854775807

-- An acknowledgement of a node that has applied a generation or a later one
unfoldable pub has_applied : ℕ → Option Ack → Bool
has_applied generation none = false
has_applied generation (some ack) = ack.applied && leb generation ack.generation

-- assignmentParticipantsApplied counts distinct nodes, so the two must differ.
unfoldable pub participants_applied : Row → Bool
participants_applied row =
    not (row.assignment.gateway_id == row.assignment.agent_id)
    && has_applied row.assignment.generation (lookup row.assignment.gateway_id row.acks)
    && has_applied row.assignment.generation (lookup row.assignment.agent_id row.acks)

-- deleteAssignmentBindingsTx
unfoldable pub without_bindings : Row → Row
without_bindings row = record row { assignment = record row.assignment { bindings = [] } }

-- The write of a new state, with the next revision.
unfoldable pub with_state : String → ℕ → Row → Result AssignmentError Row
with_state state now row =
    if row.assignment.revision == max_int64
    then err revision_exhausted
    else ok (record row {
      assignment = record row.assignment {
        state = state;
        revision = row.assignment.revision + 1;
        updated_at = now;
      };
    })

-- The acknowledgement of a node for an assignment
unfoldable pub with_ack : String → Bool → String → Row → Row
with_ack node_id applied error_code row = record row {
  acks =
      insert node_id
        (record {
          generation = row.assignment.generation;
          applied = applied;
          error_code = trim_space error_code;
        })
        row.acks;
}

-- What a node's success makes of an assignment that it has acknowledged.
unfoldable pub after_applied : ℕ → Row → Result AssignmentError Row
after_applied now row =
    if row.assignment.state == "degraded"
    then ok (without_bindings row)
    else (if row.assignment.state == "applied"
        then ok row
        else (if participants_applied row then with_state "applied" now row else ok row))

-- What a node's failure makes of it.
unfoldable pub after_rejected : ℕ → Row → Result AssignmentError Row
after_rejected now row =
    if row.assignment.state == "degraded"
    then ok (without_bindings row)
    else with_state "degraded" now (without_bindings row)

-- The assignment is not of the node, is newer than what the node reports on, or is draining.
unfoldable pub is_passed : String → ℕ → Row → Bool
is_passed node_id generation row =
    (not (row.assignment.gateway_id == node_id) && not (row.assignment.agent_id == node_id))
    || ltb generation row.assignment.generation
    || row.assignment.state == "draining"

-- One round of the loop in applyNodeResultWithError
unfoldable pub apply_row : String → ℕ → Bool → String → ℕ → Row → Result AssignmentError Row
apply_row node_id generation applied error_code now row =
    let acked = with_ack node_id applied error_code row in
    if is_passed node_id generation row
    then ok row
    else (if applied then after_applied now acked else after_rejected now acked)

-- A loop over the rows, that ends at the first error.
unfoldable pub each_row :
    (Row → Result AssignmentError Row) → Map String Row → Result AssignmentError (Map String Row)
each_row change [] = ok []
each_row change ((id, row) ∷ rows) =
    let rest = each_row change rows in
    change row >>= λ row'. rest >>= λ rows'. ok ((id, row') ∷ rows')

unfoldable pub rewritten : (Row → Result AssignmentError Row) → Store → Result AssignmentError Store
rewritten change s = each_row change s.rows >>= λ rows. ok (record s { rows = rows })

-- applyNodeResultWithError
unfoldable pub apply_node_result :
    String → ℕ → Bool → String → ℕ → Store → Result AssignmentError Store
apply_node_result node_id generation applied error_code now s =
    if trim_space node_id == "" || generation == 0
    then err identity_required
    else (if ltb max_int64 generation
        then err generation_too_large
        else rewritten (apply_row node_id generation applied error_code now) s)

abbrev is_known_state : String → Bool
is_known_state state =
    state == "pending" || state == "applied" || state == "degraded" || state == "draining"

-- PruneHistory, with the time and the retention of idempotency keys
unfoldable pub prune_history : ℕ → ℕ → Store → Store
prune_history now retention s =
    if ltb 0 retention then record s { keys = prune_keys (now - retention) s.keys } else s

unfoldable pub keyed_hit :
    String
    → String
    → ℕ
    → Map String StoredKey
    → Result AssignmentError (Bool × Map String StoredKey)
keyed_hit given hash now keys = elim (idempotency_hit given hash now keys) [
  | ok found ↦ ok found
  | err e ↦ err (key e)
]

-- The end of a write: the key is recorded.
unfoldable pub recorded :
    String → String → Map String Row → Map String StoredKey → Result AssignmentError Store
recorded given hash rows keys = elim (record_idempotency given hash keys) [
  | none ↦ ok (record { rows = rows; keys = keys })
  | some e ↦ err (key e)
]

unfoldable pub matches_revision : ℕ → Row → Bool
matches_revision if_match row = not (if_match == 0) && if_match == row.assignment.revision

-- The row that UpdateAssignmentState writes
unfoldable pub restated : String → ℕ → Row → Result AssignmentError Row
restated state now row = with_state state now row >>= λ row'. ok (record row' {
  acks = [];
  assignment =
      (if is_inactive row'.assignment then (without_bindings row').assignment else row'.assignment);
})

-- The writes of UpdateAssignmentState and DeleteAssignment, once the key has been looked up
unfoldable pub update_found :
    String
    → String
    → String
    → String
    → ℕ
    → ℕ
    → Store
    → Bool × Map String StoredKey
    → Result AssignmentError Store
update_found hashed id state given if_match now s (hit, keys) = elim (lookup id s.rows) [
  | none ↦ err no_rows
  | some row ↦
      if hit
      then ok s
      else (if not (matches_revision if_match row)
          then err (revision_conflict if_match row.assignment.revision)
          else (restated state now row >>= λ row'.
              recorded given hashed (insert id row' s.rows) keys))
]

unfoldable pub delete_found :
    String
    → String
    → String
    → ℕ
    → Store
    → Bool × Map String StoredKey
    → Result AssignmentError Store
delete_found hashed id given if_match s (true, keys) = ok s
delete_found hashed id given if_match s (false, keys) = elim (lookup id s.rows) [
  | none ↦ err no_rows
  | some row ↦
      if not (matches_revision if_match row)
      then err (revision_conflict if_match row.assignment.revision)
      else recorded given hashed (erase id s.rows) keys
]

module _ (hash : Request → String) where
  unfoldable pub update_assignment_state :
      String → String → String → ℕ → ℕ → Store → Result AssignmentError Store
  update_assignment_state id state given if_match now s =
      let hashed = hash (state_request id state if_match) in
      if trim_space id == ""
      then err no_rows
      else (if not (is_known_state state)
          then err invalid_state
          else (if state == "applied"
              then err controller_owned
              else (keyed_hit given hashed now s.keys >>= λ found.
                  update_found hashed id state given if_match now s found)))

  unfoldable pub delete_assignment : String → String → ℕ → ℕ → Store → Result AssignmentError Store
  delete_assignment id given if_match now s =
      let hashed = hash (delete_request id if_match) in
      keyed_hit given hashed now s.keys >>= λ found. delete_found hashed id given if_match s found
