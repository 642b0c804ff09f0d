-- ===== src/Controller/Assignments/Tests.antt =====
-- A run of the assignment writes: placed, applied by both nodes, degraded, and superseded.
use asterferry.Base.{
  ◌++◌, string_keyed, ℕ, true, false, ◌≡◌, refl, none, some, [], ◌∷◌, List, map, String,
  first_error, length,
}
use asterferry.Base.Maps.{insert, lookup, erase}
use asterferry.Base.Sets.{member}
use asterferry.Text.{trim_space, trim_left, trim_right, any_rune}
use asterferry.Domain.Types.{ObfuscationPolicy, Service, Assignment, gateway, agent}
use asterferry.Domain.Bindings.{normalized_ip}
use asterferry.Domain.Selectors.{matches, has_labels}
use asterferry.Domain.Id.{validate_id, starts_with_punctuation, ends_in_punctuation}
use asterferry.Domain.Validation.{Platform, check_id, validate_obfuscation}
use asterferry.Domain.Validation.Resources.{
  validate_assignment, check_service_ids, check_binding, check_bindings,
}
use asterferry.Controller.Ports.{normalize_bind, binding_key}
use asterferry.Controller.Scheduler.{is_inactive}
use asterferry.Controller.Idempotency.{idempotency_hit, record_idempotency, is_bad_key, prune_keys}
use asterferry.Controller.Obfuscation.{
  Cipher, protect_obfuscation_policy, with_slots, obfuscation_request_policy,
}
use asterferry.Controller.Assignments.{
  rewritten, Row, Store, Request, put_request, state_request, delete_request, apply_node_result,
  apply_row, each_row, is_passed, with_ack, after_applied, after_rejected, participants_applied,
  has_applied, with_state, without_bindings, delete_assignment, delete_found, recorded, keyed_hit,
  matches_revision, prune_history,
}
use asterferry.Controller.Assignments.Checks.{
  Tables, check_put, check_node, check_public_endpoint, check_generation, check_superseded,
  superseded, is_superseded, check_service_row, document, check_revision, check_binding_row,
  check_in_spec, gateway_spec, gateway_labels, next_revision, key_of,
}
use asterferry.Controller.Assignments.Put.{
  put_assignment, put_protected, put_found, write_put, check_given, with_default_state, requested,
  erase_all, check_children, check_free_services, check_free_bindings, occupies, stored,
  stored_bindings, stored_binding,
}
use asterferry.Controller.Assignments.Derived.{
  bump_assignments_for_service, bump_row, raised, quarantine_assignments_for_node, quarantine_row,
}
use asterferry.Controller.Assignments.Runs.{
  prune, Call, put, node_result, remove, service_changed, node_gone, run, answer, committed,
  empty_store, Orderly, run-Orderly,
}

-- Every text is an address.
abbrev platform : Platform
platform = record {
  parse = λ text. some text;
  parse_prefix = λ _. none;
  resolves = λ _ _. true;
  digest = λ _. "d";
  lower = λ text. text;
  equal_fold = λ a b. false;
}

abbrev cipher : Cipher
cipher = record { encrypt = λ key. some key; decrypt = λ text. some text }

abbrev hash : Request → String
hash (put_request a if_match) = a.id
hash (state_request id state if_match) = state
hash (delete_request id if_match) = "delete"

abbrev standard : ObfuscationPolicy
standard = record {
  mode = "standard";
  key_ciphertext = [];
  previous_key_ciphertext = [];
  key_id = "";
  previous_key_id = "";
  key = [];
  previous_key = [];
  max_padding_bytes = 0;
  handshake_shaping = false;
}

abbrev service : Service
service = record {
  id = "s";
  agent_id = "a";
  protocol = "tcp";
  local_target = "localhost:80";
  public_bind = "0.0.0.0";
  public_port = 0;
  gateway_selector = record { match_labels = [] };
  enabled = true;
  revision = 1;
  updated_at = 0;
}

abbrev tables : Tables
tables = record {
  nodes =
      ("g", record { kind = gateway; enabled = true; labels = []; gateway = none })
      ∷ ("a", record { kind = agent; enabled = true; labels = []; gateway = none })
      ∷ [];
  services = ("s", service) ∷ [];
}

abbrev placed : String → Assignment
placed id = record {
  id = id;
  gateway_id = "g";
  agent_id = "a";
  service_ids = "s" ∷ [];
  bindings = record { service_id = "s"; protocol = "tcp"; bind = "0.0.0.0"; port = 8443 } ∷ [];
  generation = 3;
  state = "";
  public_endpoint = "";
  obfuscation = standard;
  revision = 0;
  updated_at = 0;
}

abbrev applied_calls : List Call
applied_calls =
    put cipher tables (placed "x") "k" 0 10
    ∷ node_result "g" 3 true "" 11
    ∷ node_result "a" 3 true "" 12
    ∷ []

abbrev superseding_calls : List Call
superseding_calls =
    put cipher tables (placed "x") "k" 0 10
    ∷ node_result "g" 3 true "" 11
    ∷ put cipher tables (placed "y") "l" 0 12
    ∷ node_result "a" 4 false "bad" 13
    ∷ put cipher tables (placed "y") "l" 0 14
    ∷ []

abbrev overview : Store → List (String × (String × (ℕ × ℕ)))
overview s =
    map
      (λ (entry : String × Row). (
        entry.0,
        (
          entry.1.assignment.state,
          (entry.1.assignment.revision, length entry.1.assignment.bindings),
        ),
      ))
      s.rows

unfoldable result : List Call → List (String × (String × (ℕ × ℕ)))
unfolding run committed answer lookup insert erase member first_error trim_space trim_left
    trim_right any_rune normalized_ip matches has_labels validate_id starts_with_punctuation
    ends_in_punctuation check_id validate_obfuscation validate_assignment check_service_ids
    check_binding check_bindings normalize_bind binding_key is_inactive idempotency_hit
    record_idempotency is_bad_key protect_obfuscation_policy with_slots obfuscation_request_policy
    apply_node_result apply_row each_row rewritten is_passed with_ack after_applied after_rejected
    participants_applied has_applied with_state without_bindings recorded keyed_hit matches_revision
    check_put check_node check_public_endpoint check_generation check_superseded superseded
    is_superseded check_service_row document check_revision check_binding_row check_in_spec
    gateway_spec gateway_labels next_revision key_of put_assignment put_protected put_found
    write_put check_given with_default_state requested erase_all check_children check_free_services
    check_free_bindings occupies stored stored_bindings stored_binding
result calls = overview (run platform hash empty_store calls)

applied_by_both : result applied_calls ≡ ("x", ("applied", (2, 1))) ∷ []
unfolding result
applied_by_both = refl

-- A changed service has to be applied again, and the assignment of a node that has gone is degraded.
changed : result (applied_calls ++ service_changed "s" 13 ∷ []) ≡ ("x", ("pending", (3, 1))) ∷ []
unfolding result bump_assignments_for_service bump_row raised
changed = refl

gone : result (applied_calls ++ node_gone "a" 13 ∷ []) ≡ ("x", ("degraded", (3, 0))) ∷ []
unfolding result quarantine_assignments_for_node quarantine_row
gone = refl

-- The service can move only once its assignment has degraded.
moved : result superseding_calls ≡ ("y", ("pending", (1, 1))) ∷ []
unfolding result
moved = refl

run-Orderly_example : Orderly (run platform hash empty_store superseding_calls).rows
run-Orderly_example = run-Orderly platform hash superseding_calls

abbrev placed_store : Store
placed_store = record {
  rows =
      (
        "x",
        record {
          assignment = record (placed "x") { state = "pending"; revision = 1; updated_at = 10 };
          acks = [];
        },
      )
      ∷ [];
  keys = ("k", record { request_hash = "x"; created_at = 10 }) ∷ [];
}

abbrev between : List Call
between = remove "x" "" 1 15 ∷ prune 40 30 ∷ []

-- The assignment has gone in the meantime, and is not placed again.
later_store :
    run platform hash placed_store between
    ≡ record { rows = []; keys = ("k", record { request_hash = "x"; created_at = 10 }) ∷ [] }
unfolding result delete_assignment delete_found prune_history prune_keys
later_store = refl
