-- ===== src/Domain/Validation/Specs.antt =====
-- internal/domain: GatewaySpec.Validate and AgentSpec.Validate, and NodeSpec.Validate above them.
use Prim.Native.String.{len}
use asterferry.Base.{
  ◌*◌, ◌^◌, Bool, not, ◌&&◌, ◌||◌, Option, none, some, List, [], ◌∷◌, String, ltb, true, false,
  is_none, is_some, any, map, length, if◌then◌else◌, ◌orelse◌, reject, first_error, ◌==◌, nat_keyed,
  string_keyed,
}
use asterferry.Base.Sets.{member, has_repeat}
use asterferry.Text.{trim_space, any_rune}
use asterferry.Domain.Types.{
  NodeSpecKind, gateway, agent, other_kind, GatewaySpec, AgentSpec, Listener, Capacity,
  TransportPolicy, ProxySpec, RouteRule,
}
use asterferry.Domain.Id.{contains_control}
use asterferry.Domain.Bindings.{BindingKey, binding_keyed, normalized_ip}
use asterferry.Domain.Pools.{validate_pool}
use asterferry.Domain.Validation.{
  Issue, invalid, plain, Platform, wrap, check_id, check_endpoint, check_host_port, is_transport,
  validate_labels, validate_selector, validate_obfuscation,
}
use asterferry.Domain.Validation.Egress.{validate_egress}

-- NodeSpec
pub record NodeSpec : Type 0 where
  pub node_id : String
  pub kind : NodeSpecKind
  pub gateway_spec : Option GatewaySpec
  pub agent_spec : Option AgentSpec

abbrev pool_issue : Option String → Option Issue
pool_issue none = none
pool_issue (some message) = some (invalid "invalid_port_pool" message)

unfoldable pub validate_capacity : Capacity → Option Issue
validate_capacity c =
    reject
      (ltb (2 ^ 20) c.max_agents || ltb (2 ^ 20) c.max_services || ltb (2 ^ 20) c.max_connections)
      (invalid "invalid_capacity" "capacity values exceed the supported maximum")

unfoldable pub validate_transport : TransportPolicy → Option Issue
validate_transport t =
    reject
      (ltb (2 ^ 20) t.max_streams
        || ltb (2 ^ 20) t.max_frame_bytes
        || ltb (64 * 1024) t.max_datagram_bytes
        || ltb 86400 t.handshake_timeout_seconds
        || ltb 604800 t.idle_timeout_seconds)
      (invalid "invalid_transport" "transport limits exceed the supported maximum")
    orelse reject
        ((not (t.alpn == "") && not (t.alpn == "asterferry-data/1"))
          || ltb 255 (len t.alpn)
          || contains_control t.alpn)
        (invalid "invalid_transport" "transport ALPN is invalid")

abbrev has_bad_bytes : String → Bool
has_bad_bytes text = ltb 2048 (len text) || contains_control text

-- `country[i] < 'a' || country[i] > 'z'` for both letters of a code of length 2.
unfoldable pub is_iso_code : String → Bool
is_iso_code country = len country == 2 && not (any_rune (λ r. ltb r 97 || ltb 122 r) country)

unfoldable pub check_domain : String → Option Issue
check_domain name =
    reject
      (trim_space name == ""
        || not (trim_space name == name)
        || ltb 253 (len name)
        || contains_control name
        || any_rune (λ r. r == 32 || r == 9) name)
      (invalid "invalid_route" "route domain is invalid")

abbrev is_proxy_protocol : String → Bool
is_proxy_protocol protocol = protocol == "http" || protocol == "socks5"

abbrev is_route : String → Bool
is_route text = text == "direct" || text == "gateway"

-- The loop over the proxies, with the ids and the binds seen before.
unfoldable pub check_proxies : List String → List String → List ProxySpec → Option Issue
check_proxies ids binds [] = none
check_proxies ids binds (proxy ∷ proxies) =
    reject (is_some (check_id proxy.id) || not (is_proxy_protocol proxy.protocol))
      (invalid "invalid_proxy" "proxy id and protocol are invalid")
    orelse reject (member proxy.id ids) (invalid "duplicate_proxy" "proxy id is duplicated")
    orelse reject (proxy.bind == "") (invalid "invalid_proxy" "proxy bind is required")
    orelse reject (is_some (check_host_port proxy.bind))
        (invalid "invalid_proxy" "proxy bind must be host:port")
    orelse reject (member proxy.bind binds)
        (invalid "duplicate_proxy_bind" "proxy bind is duplicated")
    orelse reject (not (proxy.route == "") && not (is_route proxy.route))
        (invalid "invalid_proxy" "proxy route must be direct or gateway")
    orelse check_proxies (proxy.id ∷ ids) (proxy.bind ∷ binds) proxies

module _ (platform : Platform) where
  unfoldable pub validate_listener : Listener → Option Issue
  validate_listener l =
      reject (not (is_transport l.protocol)) (plain "listener protocol must be tcp or udp")
      orelse reject (l.port == 0) (plain "listener port must be non-zero")
      orelse reject (trim_space l.bind == "") (plain "listener bind is required")
      orelse reject (not (l.bind == trim_space l.bind))
          (plain "listener bind must not contain surrounding whitespace")
      orelse reject (is_none (platform.parse l.bind)) (plain "listener bind must be an IP address")

  abbrev pub listener_key : Listener → BindingKey
  listener_key l = record {
    protocol = l.protocol;
    bind = normalized_ip platform.parse l.bind;
    port = l.port;
  }

  unfoldable pub check_listeners : List BindingKey → List Listener → Option Issue
  check_listeners seen [] = none
  check_listeners seen (l ∷ listeners) =
      wrap "invalid_listener" (validate_listener l)
      orelse reject (member (listener_key l) seen)
          (invalid "duplicate_listener" "listener binding is duplicated")
      orelse check_listeners (listener_key l ∷ seen) listeners

  unfoldable pub validate_gateway : GatewaySpec → Option Issue
  validate_gateway g =
      check_id g.node_id
      orelse reject (length g.public_endpoints == 0)
          (invalid "missing_endpoint" "at least one public endpoint is required")
      orelse first_error (λ endpoint. wrap "invalid_endpoint" (check_endpoint endpoint))
          g.public_endpoints
      orelse reject (ltb 64 (length g.public_endpoints))
          (invalid "too_many_endpoints" "gateway has too many public endpoints")
      orelse reject (has_repeat [] (map trim_space g.public_endpoints))
          (invalid "duplicate_endpoint" "gateway public endpoint is duplicated")
      orelse validate_labels g.labels
      orelse reject (ltb 1024 (length g.port_pool.tcp) || ltb 1024 (length g.port_pool.udp))
          (invalid "invalid_port_pool" "gateway has too many port ranges")
      orelse reject (ltb 4096 (length g.listeners))
          (invalid "too_many_listeners" "gateway has too many listeners")
      orelse check_listeners [] g.listeners
      orelse validate_capacity g.capacity
      orelse pool_issue (validate_pool g.port_pool)
      orelse validate_transport g.transport
      orelse validate_obfuscation platform g.obfuscation
      orelse validate_egress platform g.egress

  unfoldable pub check_country : String → Option Issue
  check_country text =
      let country = trim_space text in
      reject
        (not (country == platform.lower country)
          || country == ""
          || ltb 16 (len country)
          || not (country == trim_space country)
          || contains_control country)
        (invalid "invalid_route" "route GeoIP code is invalid")
      orelse reject (not (country == "private") && not (is_iso_code country))
          (invalid "invalid_route" "route GeoIP code must be private or a two-letter ISO code")

  -- The checks of one route behind those of its name.
  unfoldable pub check_route : RouteRule → Option Issue
  check_route route =
      reject (trim_space route.destination == "" || has_bad_bytes route.destination)
        (invalid "invalid_route" "route destination is invalid")
      orelse reject (not (is_route route.destination))
          (invalid "invalid_route" "route destination must be direct or gateway")
      orelse reject
          (ltb 1024 (length route.cidrs)
            || ltb 1024 (length route.domains)
            || ltb 256 (length route.geoip))
          (invalid "invalid_route" "route contains too many match entries")
      orelse reject (any (λ cidr. is_none (platform.parse_prefix (trim_space cidr))) route.cidrs)
          (invalid "invalid_route" "route CIDR is invalid")
      orelse first_error check_domain route.domains
      orelse first_error check_country route.geoip

  unfoldable pub check_routes : List String → List RouteRule → Option Issue
  check_routes names [] = none
  check_routes names (route ∷ routes) =
      wrap "invalid_route" (check_id route.name)
      orelse reject (member route.name names) (invalid "duplicate_route" "route name is duplicated")
      orelse check_route route
      orelse check_routes (route.name ∷ names) routes

  -- The exact placement of an agent, where one is given.
  unfoldable pub check_placement : AgentSpec → Option Issue
  check_placement a =
      if a.gateway_id == ""
      then none
      else check_id a.gateway_id
        orelse reject (a.gateway_id == a.node_id)
            (invalid "invalid_gateway_binding" "agent cannot bind to itself")

  unfoldable pub validate_agent : AgentSpec → Option Issue
  validate_agent a =
      check_id a.node_id
      orelse check_placement a
      orelse reject
          (ltb (2 ^ 20) a.limits.max_connections
            || ltb (2 ^ 20) a.limits.max_streams
            || ltb (64 * 2 ^ 20) a.limits.max_buffer_bytes)
          (invalid "invalid_limits" "agent limits exceed the supported maximum")
      orelse validate_egress platform a.egress
      orelse validate_selector a.gateway_selector
      orelse reject (ltb 1024 (length a.proxies) || ltb 4096 (length a.routes))
          (invalid "agent_spec_too_large" "agent spec contains too many entries")
      orelse check_proxies [] [] a.proxies
      orelse check_routes [] a.routes

  -- The checks of NodeSpec.Validate for each kind, behind the test that exactly one spec is there.
  unfoldable pub check_spec :
      NodeSpecKind → String → Option GatewaySpec → Option AgentSpec → Option Issue
  check_spec gateway node_id none agent_spec =
      some (invalid "invalid_node_spec" "gateway configuration is required")
  check_spec gateway node_id (some g) agent_spec =
      reject (not (g.node_id == node_id))
        (invalid "node_mismatch" "gateway spec node id does not match node spec")
      orelse validate_gateway g
  check_spec agent node_id gateway_spec none =
      some (invalid "invalid_node_spec" "agent configuration is required")
  check_spec agent node_id gateway_spec (some a) =
      reject (not (a.node_id == node_id))
        (invalid "node_mismatch" "agent spec node id does not match node spec")
      orelse validate_agent a
  check_spec (other_kind text) node_id gateway_spec agent_spec =
      some (invalid "invalid_spec_kind" "node spec kind must be gateway or agent")

  abbrev is_other : NodeSpecKind → Bool
  is_other gateway = false
  is_other agent = false
  is_other (other_kind text) = true

  abbrev is_exactly_one : Option GatewaySpec → Option AgentSpec → Bool
  is_exactly_one none none = false
  is_exactly_one none (some a) = true
  is_exactly_one (some g) none = true
  is_exactly_one (some g) (some a) = false

  unfoldable pub validate_node_spec : NodeSpec → Option Issue
  validate_node_spec s =
      check_id s.node_id
      orelse reject (is_other s.kind)
          (invalid "invalid_spec_kind" "node spec kind must be gateway or agent")
      orelse reject (not (is_exactly_one s.gateway_spec s.agent_spec))
          (invalid "invalid_node_spec" "node spec must contain exactly one typed configuration")
      orelse check_spec s.kind s.node_id s.gateway_spec s.agent_spec
