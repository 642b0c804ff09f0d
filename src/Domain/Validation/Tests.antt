-- ===== src/Domain/Validation/Tests.antt =====
-- Runs of the validation and of WithChecksum.
use asterferry.Base.{
  ℕ, arith, Option, true, false, ◌≡◌, refl, none, some, [], ◌∷◌, String, Result, ok, first_error,
  ◌==◌, string_keyed, ==-refl,
}
use asterferry.Base.Maps.{insert, lookup}
use asterferry.Base.Sets.{member, has_repeat}
use asterferry.Base.Sorting.{sort_by, insert_by}
use asterferry.Text.{
  trim_space, trim_left, trim_right, any_rune, split_host_port, split_last, split_at_colon,
  split_bracketed, split_plain, split_first, is_port, atoi, digits,
}
use asterferry.Domain.Types.{
  ObfuscationPolicy, GatewaySpec, Service, Assignment, DesiredSnapshot, empty_egress,
}
use asterferry.Domain.Bindings.{normalized_ip}
use asterferry.Domain.Id.{
  validate_id, starts_with_punctuation, ends_in_punctuation, is_host_port, is_endpoint,
  contains_control,
}
use asterferry.Domain.Pools.{
  validate_pool, validate_ranges, has_bad_range, has_overlap, sort_ranges,
}
use asterferry.Domain.Validation.{
  Issue, invalid, Platform, check_id, is_bad_key, is_bad_value, validate_labels, validate_selector,
  validate_obfuscation, obfuscation_key_id,
}
use asterferry.Domain.Validation.Egress.{validate_egress, validate_egress_port_ranges}
use asterferry.Domain.Validation.Specs.{
  validate_gateway, validate_listener, check_listeners, validate_capacity, validate_transport,
}
use asterferry.Domain.Validation.Resources.{
  validate_service, validate_assignment, check_service_ids, check_binding, check_bindings,
}
use asterferry.Domain.Validation.Snapshot.{
  check_header, check_claim, claim_services, check_against, check_bound, claim_bindings,
  collect_services, seed_listeners, check_assignment, check_assignments, check_resources,
  check_structure, check_checksum, validate_snapshot,
}
use asterferry.Domain.Validation.Accepted.{Consistent, validate_snapshot-Consistent}
use asterferry.Domain.Checksum.Document.{
  ChecksumDocument, has_previous, checksum_obfuscation, document_gateway, document_assignments,
  document_of, checksum_document, compute_checksum,
}
use asterferry.Domain.Checksum.Normal.{
  normalize, normalize_gateway, normalize_assignment, sort_egress,
}
use asterferry.Domain.Checksum.Stamped.{with_checksum, validate-with_checksum}
use asterferry.Domain.Checksum.Rekeyed.{KeyMaterial, rekey, rekey_snapshot, compute_checksum-rekey}

-- Every text is an address, and the digest of a key has one letter.
abbrev platform : Platform
platform = record {
  parse = λ text. some text;
  parse_prefix = λ _. none;
  resolves = λ _ _. true;
  digest = λ _. "d";
  lower = λ text. text;
  equal_fold = λ a b. a == b;
}

abbrev encode : ChecksumDocument → Result String String
encode document = ok document.node_id

abbrev standard : ObfuscationPolicy
standard = record {
  mode = "camouflage";
  key_ciphertext = 1 ∷ [];
  previous_key_ciphertext = [];
  key_id = "d";
  previous_key_id = "";
  key = [];
  previous_key = [];
  max_padding_bytes = 0;
  handshake_shaping = false;
}

abbrev gateway_spec : GatewaySpec
gateway_spec = record {
  node_id = "gw";
  public_endpoints = "gw.example:4433" ∷ [];
  listeners = record { protocol = "tcp"; bind = "::"; port = 8443; enabled = true } ∷ [];
  labels = ("zone", "eu") ∷ [];
  capacity = record { max_agents = 1; max_connections = 1; max_services = 1 };
  port_pool = record { tcp = []; udp = [] };
  transport = record {
    alpn = "";
    max_streams = 1;
    max_frame_bytes = 1;
    max_datagram_bytes = 1;
    handshake_timeout_seconds = 1;
    idle_timeout_seconds = 1;
  };
  obfuscation = standard;
  egress = empty_egress;
  revision = 1;
}

abbrev service : Service
service = record {
  id = "web";
  agent_id = "ag";
  protocol = "tcp";
  local_target = "127.0.0.1:80";
  public_bind = "::";
  public_port = 0;
  gateway_selector = record { match_labels = [] };
  enabled = true;
  revision = 1;
  updated_at = 1;
}

abbrev assignment_named : String → ℕ → Assignment
assignment_named id port = record {
  id = id;
  gateway_id = "gw";
  agent_id = "ag";
  service_ids = "web" ∷ [];
  bindings = record { service_id = "web"; protocol = "tcp"; bind = "::"; port = port } ∷ [];
  generation = 3;
  state = "applied";
  public_endpoint = "";
  obfuscation = standard;
  revision = 1;
  updated_at = 1;
}

abbrev snapshot_with : Assignment → DesiredSnapshot
snapshot_with a = record {
  schema_version = 1;
  node_id = "gw";
  generation = 4;
  checksum = "";
  gateway = some gateway_spec;
  agent = none;
  services = service ∷ [];
  assignments = a ∷ [];
}

abbrev plain_snapshot : DesiredSnapshot
plain_snapshot = snapshot_with (assignment_named "as-1" 9000)

verdict : DesiredSnapshot → Option Issue
unfolding validate_snapshot check_structure check_checksum check_header check_resources check_id
    collect_services seed_listeners check_assignments check_assignment claim_services check_claim
    claim_bindings check_bound check_against validate_service validate_assignment check_service_ids
    check_binding check_bindings validate_gateway validate_listener check_listeners
    validate_capacity validate_transport validate_labels validate_selector validate_obfuscation
    obfuscation_key_id is_bad_key is_bad_value validate_egress validate_egress_port_ranges
    validate_pool validate_ranges has_bad_range has_overlap sort_ranges first_error validate_id
    starts_with_punctuation ends_in_punctuation is_host_port is_endpoint contains_control trim_space
    trim_left trim_right any_rune split_host_port split_last split_at_colon split_bracketed
    split_plain split_first is_port atoi digits insert lookup member has_repeat normalized_ip
verdict = validate_snapshot platform (compute_checksum encode)

snapshot_accepted : validate_snapshot platform (compute_checksum encode) plain_snapshot ≡ none
unfolding verdict
snapshot_accepted = refl

validate_snapshot-Consistent_example : Consistent platform plain_snapshot
validate_snapshot-Consistent_example =
    validate_snapshot-Consistent platform (compute_checksum encode) plain_snapshot snapshot_accepted

-- The binding of the gateway's listener is refused, unless the assignment has the id "listener".
listener_refused :
    verdict (snapshot_with (assignment_named "as-1" 8443))
    ≡ some (invalid "resource_conflict" "public binding is duplicated across assignments")
unfolding verdict
listener_refused = refl

listener_taken : verdict (snapshot_with (assignment_named "listener" 8443)) ≡ none
unfolding verdict
listener_taken = refl

other_port_refused :
    verdict (record plain_snapshot { services = record service { public_port = 443 } ∷ [] })
    ≡ some (invalid "port_mismatch" "binding port does not match the service public port")
unfolding verdict
other_port_refused = refl

abbrev stamped : DesiredSnapshot
stamped = record plain_snapshot { checksum = "gw" }

stamping : with_checksum platform encode plain_snapshot ≡ ok stamped
unfolding with_checksum verdict compute_checksum checksum_document document_of document_gateway
    document_assignments checksum_obfuscation normalize normalize_gateway normalize_assignment
    sort_egress sort_by insert_by
stamping = refl

validate-with_checksum_example : validate_snapshot platform (compute_checksum encode) stamped ≡ none
validate-with_checksum_example =
    validate-with_checksum platform encode plain_snapshot stamped (λ text. ==-refl text) stamping

-- The key in the clear, without the ciphertext
abbrev decrypted : ObfuscationPolicy → KeyMaterial
decrypted o = record {
  key = 7 ∷ [];
  previous_key = o.previous_key_ciphertext;
  key_ciphertext = [];
  previous_key_ciphertext = o.previous_key;
}

decrypted_keeps : (o : ObfuscationPolicy) → has_previous (rekey decrypted o) ≡ has_previous o
decrypted_keeps o = ground arith

compute_checksum-rekey_example :
    compute_checksum encode (rekey_snapshot decrypted plain_snapshot)
    ≡ compute_checksum encode plain_snapshot
compute_checksum-rekey_example =
    compute_checksum-rekey decrypted decrypted_keeps encode plain_snapshot
