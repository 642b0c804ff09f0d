-- ===== src/Dataplane/Engine/Tests.antt =====
-- Runs of the data-plane engine.
use asterferry.Base.{
  ◌≤◌, true, false, ◌≡◌, ◌≢◌, refl, none, some, List, [], ◌∷◌, String, ok, sum_by, arith,
  first_error, Result, ◌==◌, string_keyed,
}
use asterferry.Base.Maps.{lookup, insert, value_or, erase}
use asterferry.Base.Sets.{member, has_repeat}
use asterferry.Text.{
  trim_space, trim_left, trim_right, any_rune, split_host_port, split_last, split_at_colon,
  split_bracketed, split_plain, split_first, is_port, atoi, digits,
}
use asterferry.Domain.Types.{
  agent, AgentSpec, Service, Assignment, DesiredSnapshot, empty_egress, ObfuscationPolicy,
}
use asterferry.Domain.Id.{validate_id, starts_with_punctuation, ends_in_punctuation}
use asterferry.Domain.Id.{is_host_port, is_endpoint, contains_control}
use asterferry.Domain.Bindings.{normalized_ip}
use asterferry.Domain.Validation.{
  Issue, Platform, check_id, is_bad_key, is_bad_value, validate_labels, validate_selector,
  validate_obfuscation, obfuscation_key_id,
}
use asterferry.Domain.Validation.Egress.{validate_egress, validate_egress_port_ranges}
use asterferry.Domain.Validation.Specs.{
  validate_agent, check_placement, check_proxies, check_routes,
}
use asterferry.Domain.Validation.Resources.{
  validate_service, validate_assignment, check_service_ids, check_binding, check_bindings,
}
use asterferry.Domain.Validation.Snapshot.{
  check_header, check_claim, claim_services, check_against, check_bound, claim_bindings,
  collect_services, seed_listeners, check_assignment, check_assignments, check_resources,
  check_structure, check_checksum, validate_snapshot,
}
use asterferry.Dataplane.Engine.Validated.{domain_checks, Vouched, apply_snapshot-Vouched}
use asterferry.Afdp.Errors.{Error, failure}
use asterferry.Afdp.Control.{
  AssignmentView, OpenMetadata, authorize_open, encode_open_validation, is_blocked, is_target,
  is_wire_id, assignment_from_domain,
}
use asterferry.Dataplane.Engine.{
  Options, Engine, OpenLease, new_engine, reserve_open, reserve_counted, reserve_stream,
  check_service, tighten, release, settle, release_stream_reservation, settle_lease, release_active,
  held,
}
use asterferry.Dataplane.Engine.Snapshot.{
  Validation, apply_snapshot, prepare, check_snapshot, is_rollback, is_same_generation,
  build_indexes, index_services, index_assignments, is_foreign, check_services, assignment_limit,
  commit, install, with_limits, Prepared,
}
use asterferry.Dataplane.Engine.Reserve.{Granted, reserve_open-Granted}
use asterferry.Dataplane.Engine.Install.{
  Installed, apply_snapshot-Installed, apply_snapshot_refused,
}
use asterferry.Dataplane.Engine.Leases.{
  Call, opens, releases, settles, installs, step, run, grant, on_lease,
}
use asterferry.Dataplane.Engine.Leases.Count.{stream_count, active_count}
use asterferry.Dataplane.Engine.Leases.Accounts.{run_accounts, started}

abbrev options : Options
options = record { kind = agent; node_id = "agent.7"; max_streams = 2; max_sessions = 0 }

abbrev fresh : Engine
fresh = record {
  kind = agent;
  node_id = "agent.7";
  max_streams = 2;
  max_sessions = 256;
  draining = false;
  closed = false;
  generation = 0;
  epoch = 0;
  gateway_spec = none;
  agent_spec = none;
  assignments = [];
  services = [];
  active = [];
  base_max_streams = 2;
  connection_limit = 0;
  buffer_limit = 0;
  streams = 0;
  sessions = 0;
  egress = empty_egress;
}

fresh_made : new_engine options ≡ ok fresh
unfolding new_engine validate_id trim_space trim_left trim_right any_rune starts_with_punctuation
    ends_in_punctuation
fresh_made = refl

abbrev no_policy : ObfuscationPolicy
no_policy = record {
  mode = "";
  key_ciphertext = [];
  previous_key_ciphertext = [];
  key_id = "";
  previous_key_id = "";
  key = [];
  previous_key = [];
  max_padding_bytes = 0;
  handshake_shaping = false;
}

abbrev dns : Service
dns = record {
  id = "dns";
  agent_id = "agent.7";
  protocol = "udp";
  local_target = "[::1]:53";
  public_bind = "0.0.0.0";
  public_port = 53;
  gateway_selector = record { match_labels = [] };
  enabled = true;
  revision = 1;
  updated_at = 0;
}

abbrev edge : Assignment
edge = record {
  id = "edge-1";
  gateway_id = "gw-1";
  agent_id = "agent.7";
  service_ids = "dns" ∷ [];
  bindings = [];
  generation = 3;
  state = "applied";
  public_endpoint = "";
  obfuscation = no_policy;
  revision = 1;
  updated_at = 0;
}

abbrev spec : AgentSpec
spec = record {
  node_id = "agent.7";
  gateway_id = "gw-1";
  gateway_selector = record { match_labels = [] };
  proxies = [];
  routes = [];
  limits = record { max_connections = 0; max_streams = 1; max_buffer_bytes = 0 };
  egress = empty_egress;
  logging = record { level = "info"; format = "text" };
  revision = 1;
}

abbrev snapshot : DesiredSnapshot
snapshot = record {
  schema_version = 1;
  node_id = "agent.7";
  generation = 3;
  checksum = "ab";
  gateway = none;
  agent = some spec;
  services = dns ∷ [];
  assignments = edge ∷ [];
}

abbrev checks : Validation
checks = record { snapshot_error = λ s. none; service_error = λ s. none }

abbrev applied : Engine
applied = (apply_snapshot checks none fresh snapshot none).0

snapshot_accepted : (apply_snapshot checks none fresh snapshot none).1 ≡ none
unfolding apply_snapshot prepare check_snapshot is_rollback is_same_generation build_indexes
    index_services index_assignments is_foreign check_services assignment_limit commit install
    with_limits tighten lookup insert assignment_from_domain
snapshot_accepted = refl

apply_snapshot-Installed_example : Installed fresh applied snapshot none
apply_snapshot-Installed_example =
    apply_snapshot-Installed checks none fresh snapshot none snapshot_accepted

-- The same snapshot, with the validation of the program
abbrev platform : Platform
platform = record {
  parse = λ text. some text;
  parse_prefix = λ _. none;
  resolves = λ _ _. true;
  digest = λ _. "d";
  lower = λ text. text;
  equal_fold = λ a b. a == b;
}

abbrev checksum : DesiredSnapshot → Result String String
checksum _ = ok "ab"

abbrev report : Issue → Error
report issue = failure "invalid"

abbrev vouched : Engine
vouched = (apply_snapshot (domain_checks platform checksum report) none fresh snapshot none).0

domain_accepted :
    (apply_snapshot (domain_checks platform checksum report) none fresh snapshot none).1 ≡ none
unfolding domain_checks validate_snapshot check_structure check_checksum check_header
    check_resources check_id collect_services seed_listeners check_assignments check_assignment
    claim_services check_claim claim_bindings check_bound check_against validate_service
    validate_assignment check_service_ids check_binding check_bindings validate_agent
    check_placement check_proxies check_routes validate_labels validate_selector
    validate_obfuscation obfuscation_key_id is_bad_key is_bad_value validate_egress
    validate_egress_port_ranges first_error validate_id starts_with_punctuation ends_in_punctuation
    is_host_port is_endpoint contains_control trim_space trim_left trim_right any_rune
    split_host_port split_last split_at_colon split_bracketed split_plain split_first is_port atoi
    digits insert lookup member has_repeat normalized_ip apply_snapshot prepare check_snapshot
    is_rollback is_same_generation build_indexes index_services index_assignments is_foreign
    check_services assignment_limit commit install with_limits tighten assignment_from_domain
domain_accepted = refl

apply_snapshot-Vouched_example : Vouched platform checksum report fresh vouched snapshot none
apply_snapshot-Vouched_example =
    apply_snapshot-Vouched platform checksum report none fresh snapshot none domain_accepted

-- A snapshot without a checksum is refused.
abbrev unsigned : DesiredSnapshot
unsigned = record snapshot { checksum = "" }

unsigned_refused :
    (apply_snapshot checks none fresh unsigned none).1
    ≡ some (failure "data-plane snapshots must include a checksum")
unfolding apply_snapshot prepare check_snapshot
unsigned_refused = refl

apply_snapshot_refused_example : (apply_snapshot checks none fresh unsigned none).0 ≡ fresh
apply_snapshot_refused_example =
    apply_snapshot_refused checks none fresh unsigned none
      (failure "data-plane snapshots must include a checksum") unsigned_refused

abbrev dns_open : OpenMetadata
dns_open = record {
  protocol = "udp";
  service_id = "dns";
  target = "[::1]:53";
  flow_id = 9;
  egress = false;
}

abbrev view : AssignmentView
view = record {
  id = "edge-1";
  agent_id = "agent.7";
  generation = 3;
  state = "applied";
  service_ids = "dns" ∷ [];
  max_streams = 1;
}

abbrev serving : Engine
serving = record fresh {
  max_streams = 1;
  generation = 3;
  epoch = 1;
  agent_spec = some spec;
  assignments = ("edge-1", view) ∷ [];
  services = ("dns", dns) ∷ [];
}

abbrev opened : Engine × OpenLease
opened = (
  record serving { streams = 1; active = ("edge-1", 1) ∷ [] },
  record { assignment_id = "edge-1"; epoch = 1; stage = held },
)

dns_opened : reserve_open serving "edge-1" dns_open ≡ ok opened
unfolding reserve_open reserve_counted reserve_stream check_service tighten lookup insert value_or
    authorize_open encode_open_validation is_wire_id validate_id trim_space trim_left trim_right
    any_rune starts_with_punctuation ends_in_punctuation is_target split_host_port split_last
    split_at_colon split_bracketed split_plain split_first is_port atoi digits member is_blocked
dns_opened = refl

reserve_open-Granted_example :
    (assignment : AssignmentView) × Granted serving opened.0 "edge-1" dns_open assignment
reserve_open-Granted_example = reserve_open-Granted serving "edge-1" dns_open opened dns_opened

abbrev indexes : Prepared
indexes = record {
  assignments = ("edge-1", view) ∷ [];
  services = ("dns", dns) ∷ [];
  gateway_spec = none;
  agent_spec = some spec;
  generation = 3;
  rollback = false;
  same_generation = false;
  previous_generation = 0;
}

-- A lease of the first snapshot is released across the installation of the second.
abbrev calls : List Call
calls =
    installs indexes
    ∷ opens "edge-1" dns_open
    ∷ releases 0
    ∷ installs (record indexes { generation = 4 })
    ∷ opens "edge-1" dns_open
    ∷ settles 1
    ∷ releases 1
    ∷ []

calls-run : (run (started fresh) calls).engine.streams ≡ 1
unfolding run step grant on_lease commit install with_limits tighten release settle
    release_stream_reservation settle_lease release_active reserve_open reserve_counted
    reserve_stream check_service lookup insert erase value_or authorize_open encode_open_validation
    is_wire_id validate_id trim_space trim_left trim_right any_rune starts_with_punctuation
    ends_in_punctuation is_target split_host_port split_last split_at_colon split_bracketed
    split_plain split_first is_port atoi digits member is_blocked
calls-run = refl

run_accounts_example :
    let s = run (started fresh) calls in
    (s.engine.streams ≡ sum_by stream_count s.leases)
    × (s.engine.streams ≤ fresh.max_streams)
    × ((id : String)
        → id ≢ ""
        → value_or id s.engine.active 0 ≡ sum_by (active_count id s.engine.epoch) s.leases)
run_accounts_example = run_accounts options fresh calls fresh_made (omega arith)
