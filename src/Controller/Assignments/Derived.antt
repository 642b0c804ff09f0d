-- ===== src/Controller/Assignments/Derived.antt =====
-- The writes of assignments that follow other writes: bumpAssignmentsForServiceTx of
-- internal/controller/store_assignment_links.go for a changed service, quarantineAssignmentsForNodeTx of
-- store_resources.go for a node that has gone, and updateAssignmentEndpointsTx of
-- store_node_spec_validation.go for a changed gateway. Each is part of the transaction of the other write.
use asterferry.Base.{
  ℕ, ◌+◌, Bool, true, false, not, ◌&&◌, ◌||◌, List, [], ◌∷◌, String, Result, ok, err, ◌>>=◌,
  if◌then◌else◌, ◌==◌, nat_keyed, string_keyed,
}
use asterferry.Base.Sets.{member}
use asterferry.Domain.Types.{GatewaySpec, ObfuscationPolicy}
use asterferry.Controller.Scheduler.{is_inactive}
use asterferry.Controller.Assignments.{
  AssignmentError, generation_exhausted, revision_exhausted, no_endpoints, Row, Store, max_int64,
  rewritten, with_state, without_bindings,
}

abbrev pub max_uint64 : ℕ
max_uint64 = 18446744073709551615

abbrev pub unacked : Row → Row
unacked row = record row { acks = [] }

-- A new generation, which both nodes have to apply again.
unfoldable pub raised : ℕ → Row → Row
raised now row = record row {
  acks = [];
  assignment = record row.assignment {
    generation = row.assignment.generation + 1;
    state = (if is_inactive row.assignment then row.assignment.state else "pending");
    revision = row.assignment.revision + 1;
    updated_at = now;
  };
}

unfoldable pub bump_row : String → ℕ → Row → Result AssignmentError Row
bump_row service_id now row =
    if not (member service_id row.assignment.service_ids)
    then ok row
    else (if row.assignment.generation == max_uint64
        then err generation_exhausted
        else (if row.assignment.revision == max_int64
            then err revision_exhausted
            else ok (raised now row)))

unfoldable pub quarantine_row : String → ℕ → Row → Result AssignmentError Row
quarantine_row node_id now row =
    if not (row.assignment.gateway_id == node_id) && not (row.assignment.agent_id == node_id)
    then ok row
    else (if row.assignment.state == "degraded"
        then ok (unacked (without_bindings row))
        else (with_state "degraded" now (without_bindings row) >>= λ row'. ok (unacked row')))

abbrev mode_of : ObfuscationPolicy → String
mode_of o = if o.mode == "" then "standard" else o.mode

unfoldable pub same_obfuscation_policy : ObfuscationPolicy → ObfuscationPolicy → Bool
same_obfuscation_policy left right =
    mode_of left == mode_of right
    && left.key_id == right.key_id
    && left.previous_key_id == right.previous_key_id
    && left.max_padding_bytes == right.max_padding_bytes
    && (if left.handshake_shaping then right.handshake_shaping else not right.handshake_shaping)

abbrev is_empty : List String → Bool
is_empty [] = true
is_empty (x ∷ xs) = false

-- The endpoint, or the gateway's first if it has given it up
unfoldable pub endpoint_of : List String → String → String
endpoint_of [] endpoint = endpoint
endpoint_of (first ∷ endpoints) endpoint =
    if member endpoint (first ∷ endpoints) then endpoint else first

unfoldable pub with_gateway : String → ObfuscationPolicy → Row → Row
with_gateway endpoint o row = record row {
  assignment = record row.assignment {
    public_endpoint = endpoint;
    obfuscation =
        (if same_obfuscation_policy row.assignment.obfuscation o
          then row.assignment.obfuscation
          else record o { key = []; previous_key = [] });
  };
}

unfoldable pub endpoint_row : GatewaySpec → ℕ → Row → Result AssignmentError Row
endpoint_row spec now row =
    let endpoint = endpoint_of spec.public_endpoints row.assignment.public_endpoint in
    if not (row.assignment.gateway_id == spec.node_id)
      || (endpoint == row.assignment.public_endpoint
          && same_obfuscation_policy row.assignment.obfuscation spec.obfuscation)
    then ok row
    else (if row.assignment.generation == max_uint64 || row.assignment.revision == max_int64
        then err generation_exhausted
        else ok (raised now (with_gateway endpoint spec.obfuscation row)))

unfoldable pub bump_assignments_for_service : String → ℕ → Store → Result AssignmentError Store
bump_assignments_for_service service_id now = rewritten (bump_row service_id now)

unfoldable pub quarantine_assignments_for_node : String → ℕ → Store → Result AssignmentError Store
quarantine_assignments_for_node node_id now = rewritten (quarantine_row node_id now)

unfoldable pub update_assignment_endpoints : GatewaySpec → ℕ → Store → Result AssignmentError Store
update_assignment_endpoints spec now s =
    if is_empty spec.public_endpoints then err no_endpoints else rewritten (endpoint_row spec now) s
