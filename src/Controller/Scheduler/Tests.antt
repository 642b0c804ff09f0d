-- ===== src/Controller/Scheduler/Tests.antt =====
-- Runs of the port allocation and the scheduler.
use asterferry.Base.{
  ℕ, Bool, true, false, ◌≡◌, refl, Option, none, some, List, [], ◌∷◌, String, ok, err, All, any,
  ◌==◌, string_keyed, nat_keyed, if◌then◌else◌,
}
use asterferry.Base.Maps.{lookup}
use asterferry.Base.Sets.{member}
use asterferry.Text.{trim_space, trim_left, trim_right, any_rune}
use asterferry.Domain.Types.{
  gateway, Node, AgentSpec, GatewaySpec, Service, Assignment, PortPool, empty_egress,
  ObfuscationPolicy,
}
use asterferry.Domain.Id.{validate_id, starts_with_punctuation, ends_in_punctuation}
use asterferry.Domain.Selectors.{matches, has_labels}
use asterferry.Controller.Ports.{
  BindingKey, binding_keyed, failure, ranges_of, in_range, binding_key, normalize_bind, first_free,
  first_free_in, allocate_port,
}
use asterferry.Controller.Ports.Allocation.{allocate_port-exhausted}
use asterferry.Controller.Scheduler.{
  Checks, GatewayCandidate, ScheduleRequest, no_healthy_gateway, schedule, check_request,
  check_requested, sort_candidates, insert_candidate, is_before, load, active_assignment_agents,
  active_assignment_service_count, sticky, try_candidates, consider, is_eligible, has_capacity,
  used_agents, used_services, own, place, choose_port, kept_port, occupied, add_occupied,
  discard_all, bindings_by_service, prepared_request,
}
use asterferry.Controller.Scheduler.Choice.{Among}
use asterferry.Controller.Scheduler.Scheduled.{PlacedOn, Unfit, schedule-PlacedOn, schedule-Unfit}

-- An address parser that knows one address.
abbrev parse : String → Option String
parse text = if text == "::ffff:1.2.3.4" then some "1.2.3.4" else none

abbrev pool : PortPool
pool = record { tcp = record { min = 7000; max = 7002 } ∷ []; udp = [] }

abbrev in_use : List BindingKey
in_use = record { protocol = "tcp"; bind = "1.2.3.4"; port = 7000 } ∷ []

abbrev any_port : ℕ
any_port = 0

second_port : allocate_port parse "tcp" "::ffff:1.2.3.4" in_use pool 0 ≡ ok 7001
unfolding allocate_port first_free_in first_free ranges_of binding_key normalize_bind member
    trim_space trim_left trim_right
second_port = refl

abbrev one_port : PortPool
one_port = record { tcp = record { min = 7000; max = 7000 } ∷ []; udp = [] }

exhausted :
    allocate_port parse "tcp" "1.2.3.4" in_use one_port 0
    ≡ err (failure "gateway port pool is exhausted")
unfolding allocate_port first_free_in first_free ranges_of binding_key normalize_bind member
    trim_space trim_left trim_right
exhausted = refl

only_port : any (in_range 7000) (ranges_of one_port "tcp") ≡ true
unfolding ranges_of
only_port = refl

allocate_port-exhausted_example : member (binding_key parse "tcp" "1.2.3.4" 7000) in_use ≡ true
allocate_port-exhausted_example =
    allocate_port-exhausted parse "tcp" "1.2.3.4" in_use one_port
      (failure "gateway port pool is exhausted") 7000 exhausted only_port

abbrev checks : Checks
checks = record { parse = parse; agent_spec_error = λ s. none; service_error = λ s. none }

abbrev node : String → Node
node id = record {
  id = id;
  spec_kind = gateway;
  name = id;
  labels = none;
  enabled = true;
  certificate_state = "active";
  certificate_serial = "1";
  revision = 1;
}

abbrev no_policy : ObfuscationPolicy
no_policy = record {
  mode = "";
  key_ciphertext = [];
  previous_key_ciphertext = [];
  key_id = "";
  previous_key_id = "";
  key = [];
  previous_key = [];
  max_padding_bytes = 0;
  handshake_shaping = false;
}

abbrev gateway_spec : String → GatewaySpec
gateway_spec id = record {
  node_id = id;
  public_endpoints = "gw.example:443" ∷ [];
  listeners = [];
  labels = [];
  capacity = record { max_agents = 1; max_connections = 0; max_services = 0 };
  port_pool = pool;
  transport = record {
    alpn = "";
    max_streams = 0;
    max_frame_bytes = 0;
    max_datagram_bytes = 0;
    handshake_timeout_seconds = 0;
    idle_timeout_seconds = 0;
  };
  obfuscation = no_policy;
  egress = empty_egress;
  revision = 1;
}

abbrev candidate : String → Bool → GatewayCandidate
candidate id healthy = record {
  node = node id;
  spec = gateway_spec id;
  healthy = healthy;
  assignments = [];
  used_bindings = in_use;
}

abbrev web : Service
web = record {
  id = "web";
  agent_id = "agent.7";
  protocol = "tcp";
  local_target = "127.0.0.1:80";
  public_bind = "1.2.3.4";
  public_port = 0;
  gateway_selector = record { match_labels = [] };
  enabled = true;
  revision = 1;
  updated_at = 0;
}

abbrev spec : AgentSpec
spec = record {
  node_id = "";
  gateway_id = "";
  gateway_selector = record { match_labels = [] };
  proxies = [];
  routes = [];
  limits = record { max_connections = 0; max_streams = 0; max_buffer_bytes = 0 };
  egress = empty_egress;
  logging = record { level = "info"; format = "text" };
  revision = 1;
}

abbrev request : ScheduleRequest
request = record {
  agent = node "agent.7";
  agent_spec = spec;
  services = web ∷ [];
  existing = none;
  generation = 3;
}

abbrev expected : Assignment
expected = record {
  id = "agent.7-gw-2";
  gateway_id = "gw-2";
  agent_id = "agent.7";
  service_ids = "web" ∷ [];
  bindings = record { service_id = "web"; protocol = "tcp"; bind = "1.2.3.4"; port = 7001 } ∷ [];
  generation = 3;
  state = "pending";
  public_endpoint = "gw.example:443";
  obfuscation = no_policy;
  revision = 0;
  updated_at = 9;
}

abbrev candidates : List GatewayCandidate
candidates = candidate "gw-2" true ∷ candidate "gw-1" false ∷ []

scheduled : schedule checks request candidates 9 ≡ ok expected
unfolding schedule check_request check_requested sort_candidates insert_candidate is_before load
    active_assignment_agents active_assignment_service_count sticky try_candidates consider
    is_eligible has_capacity used_agents used_services own place choose_port kept_port occupied
    add_occupied discard_all bindings_by_service allocate_port first_free_in first_free ranges_of
    binding_key normalize_bind member trim_space trim_left trim_right matches has_labels validate_id
    any_rune starts_with_punctuation ends_in_punctuation lookup
scheduled = refl

schedule-PlacedOn_example :
    (c : GatewayCandidate) × Among c candidates
    × PlacedOn checks (prepared_request request) 9 c expected
schedule-PlacedOn_example = schedule-PlacedOn checks request candidates 9 expected scheduled

abbrev sick : List GatewayCandidate
sick = candidate "gw-1" false ∷ []

none_fits : schedule checks request sick 9 ≡ err no_healthy_gateway
unfolding schedule check_request check_requested sort_candidates insert_candidate sticky
    try_candidates consider is_eligible validate_id any_rune starts_with_punctuation
    ends_in_punctuation trim_space trim_left trim_right member
none_fits = refl

schedule-Unfit_example : All (Unfit checks (prepared_request request) 9) sick
schedule-Unfit_example = schedule-Unfit checks request sick 9 none_fits
