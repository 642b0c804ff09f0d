-- ===== src/Dataplane/Egress/Tests.antt =====
-- Runs of the egress policy, on a network whose addresses are numbers.
use asterferry.Base.{
  ℕ, true, false, ◌≡◌, refl, none, some, any, first_error, [], ◌∷◌, String, ok, ◌==◌, string_keyed,
  nat_keyed, if◌then◌else◌, ltb,
}
use asterferry.Text.{
  trim_space, trim_left, trim_right, any_rune, split_host_port, split_last, split_at_colon,
  split_bracketed, split_plain, split_first, atoi, digits,
}
use asterferry.Domain.Types.{agent, EgressPolicy}
use asterferry.Dataplane.Engine.{Engine}
use asterferry.Dataplane.Egress.{
  Network, acquire_egress, normalize_egress_target, port_of, destination, resolve_allowed_egress,
  egress_port_allowed, entry_allows, bound_of, addresses_of, first_allowed, egress_ip_allowed,
  contains_egress_prefix, reserve_egress,
}
use asterferry.Domain.Validation.{Platform}
use asterferry.Domain.Validation.Egress.{
  validate_egress, validate_egress_port_ranges, egress_range, range_between, range_to,
}
use asterferry.Dataplane.Egress.Ranges.{covers, egress_port_allowed-validate_egress}
use asterferry.Dataplane.Egress.Allowed.{Granted, acquire_egress-Granted}

-- 10 is special, and the prefix "low" holds the numbers below 100.
abbrev net : Network ℕ
net = record {
  literal = λ host. none;
  resolve = λ host. ok (10 ∷ 20 ∷ []);
  text = λ address. if address == 20 then "20" else "other";
  is_special = λ address. address == 10;
  contains = λ value address. if value == "low" then ltb address 100 else false;
}

abbrev policy : EgressPolicy
policy = record {
  enabled = true;
  tcp_ports = "80" ∷ "8000-8080" ∷ [];
  udp_ports = [];
  allow_cidrs = "low" ∷ [];
  allow_special_cidrs = [];
  max_connections = 2;
}

abbrev engine : Engine
engine = record {
  kind = agent;
  node_id = "agent.7";
  max_streams = 2;
  max_sessions = 256;
  draining = false;
  closed = false;
  generation = 3;
  epoch = 1;
  gateway_spec = none;
  agent_spec = none;
  assignments = [];
  services = [];
  active = [];
  base_max_streams = 2;
  connection_limit = 0;
  buffer_limit = 0;
  streams = 0;
  sessions = 0;
  egress = policy;
}

abbrev granted : ℕ × (String × ℕ)
granted = (2, ("20", 8003))

second_address : acquire_egress net engine 1 "tcp" "example.org:8003" ≡ ok granted
unfolding acquire_egress normalize_egress_target port_of destination resolve_allowed_egress
    egress_port_allowed entry_allows bound_of addresses_of first_allowed egress_ip_allowed
    contains_egress_prefix reserve_egress trim_space trim_left trim_right any_rune split_host_port
    split_last split_at_colon split_bracketed split_plain split_first atoi digits
second_address = refl

acquire_egress-Granted_example :
    (host : String) × (port : ℕ) × (normalize_egress_target "tcp" "example.org:8003"
      ≡ ok (host, port))
    × Granted net engine 1 granted.0 "tcp" host port granted.1
acquire_egress-Granted_example =
    acquire_egress-Granted net engine 1 "tcp" "example.org:8003" granted second_address

-- Every text is a prefix.
abbrev platform : Platform
platform = record {
  parse = λ text. some text;
  parse_prefix = λ _. some (record { bit_len = 32; value = 0; bits = 8 });
  resolves = λ _ _. true;
  digest = λ _. "d";
  lower = λ text. text;
  equal_fold = λ a b. a == b;
}

policy_accepted : validate_egress platform policy ≡ none
unfolding validate_egress validate_egress_port_ranges egress_range range_between range_to
    first_error trim_space trim_left trim_right any_rune split_first atoi digits
policy_accepted = refl

-- A range that begins behind its end is refused.
reversed_refused : egress_range "8080-80" ≡ none
unfolding egress_range range_between range_to trim_space trim_left trim_right any_rune split_first
    atoi digits
reversed_refused = refl

egress_port_allowed-validate_egress_example :
    egress_port_allowed policy "tcp" 8042 ≡ any (covers 8042) ("80" ∷ "8000-8080" ∷ [])
egress_port_allowed-validate_egress_example =
    egress_port_allowed-validate_egress platform policy "tcp" 8042 policy_accepted
