-- ===== src/Domain/Types.antt =====
-- internal/domain/model_core.go: the resources. A field of a Go integer type is a number, since every
-- `Validate` refuses a negative one; `Revision` and the limits are read only when they are positive.
-- A pointer that may be nil is an `Option`. A time is a number of nanoseconds. Map fields are maps
-- with one entry a key; a node's labels may be the nil map, `none`, which Selector.Matches tells from an
-- empty one.
use asterferry.Base.{true, false, ℕ, Bool, Option, List, String}
use asterferry.Base.Maps.{Map}

pub data NodeSpecKind : Type 0 where
  gateway agent : NodeSpecKind
  other_kind : String → NodeSpecKind

abbrev pub is_gateway : NodeSpecKind → Bool
is_gateway gateway = true
is_gateway agent = false
is_gateway (other_kind text) = false

abbrev pub is_agent : NodeSpecKind → Bool
is_agent gateway = false
is_agent agent = true
is_agent (other_kind text) = false

pub record Node : Type 0 where
  pub id : String
  pub spec_kind : NodeSpecKind
  pub name : String
  pub labels : Option (Map String String)
  pub enabled : Bool
  pub certificate_state : String
  pub certificate_serial : String
  pub revision : ℕ

pub record Capacity : Type 0 where
  pub max_agents : ℕ
  pub max_connections : ℕ
  pub max_services : ℕ

pub record PortRange : Type 0 where
  pub min : ℕ
  pub max : ℕ

pub record PortPool : Type 0 where
  pub tcp : List PortRange
  pub udp : List PortRange

pub record TransportPolicy : Type 0 where
  pub alpn : String
  pub max_streams : ℕ
  pub max_frame_bytes : ℕ
  pub max_datagram_bytes : ℕ
  pub handshake_timeout_seconds : ℕ
  pub idle_timeout_seconds : ℕ

pub record ObfuscationPolicy : Type 0 where
  pub mode : String
  pub key_ciphertext : List ℕ
  pub previous_key_ciphertext : List ℕ
  pub key_id : String
  pub previous_key_id : String
  pub key : List ℕ
  pub previous_key : List ℕ
  pub max_padding_bytes : ℕ
  pub handshake_shaping : Bool

pub record Listener : Type 0 where
  pub protocol : String
  pub bind : String
  pub port : ℕ
  pub enabled : Bool

pub record EgressPolicy : Type 0 where
  pub enabled : Bool
  pub tcp_ports : List String
  pub udp_ports : List String
  pub allow_cidrs : List String
  pub allow_special_cidrs : List String
  pub max_connections : ℕ

pub record GatewaySpec : Type 0 where
  pub node_id : String
  pub public_endpoints : List String
  pub listeners : List Listener
  pub labels : Map String String
  pub capacity : Capacity
  pub port_pool : PortPool
  pub transport : TransportPolicy
  pub obfuscation : ObfuscationPolicy
  pub egress : EgressPolicy
  pub revision : ℕ

pub record Selector : Type 0 where
  pub match_labels : Map String String

pub record ProxySpec : Type 0 where
  pub id : String
  pub protocol : String
  pub bind : String
  pub route : String
  pub enabled : Bool

pub record RouteRule : Type 0 where
  pub name : String
  pub cidrs : List String
  pub domains : List String
  pub geoip : List String
  pub destination : String
  pub enabled : Bool

pub record AgentLimits : Type 0 where
  pub max_connections : ℕ
  pub max_streams : ℕ
  pub max_buffer_bytes : ℕ

pub record LoggingPolicy : Type 0 where
  pub level : String
  pub format : String

pub record AgentSpec : Type 0 where
  pub node_id : String
  pub gateway_id : String
  pub gateway_selector : Selector
  pub proxies : List ProxySpec
  pub routes : List RouteRule
  pub limits : AgentLimits
  pub egress : EgressPolicy
  pub logging : LoggingPolicy
  pub revision : ℕ

pub record Service : Type 0 where
  pub id : String
  pub agent_id : String
  pub protocol : String
  pub local_target : String
  pub public_bind : String
  pub public_port : ℕ
  pub gateway_selector : Selector
  pub enabled : Bool
  pub revision : ℕ
  pub updated_at : ℕ

pub record Binding : Type 0 where
  pub service_id : String
  pub protocol : String
  pub bind : String
  pub port : ℕ

pub record Assignment : Type 0 where
  pub id : String
  pub gateway_id : String
  pub agent_id : String
  pub service_ids : List String
  pub bindings : List Binding
  pub generation : ℕ
  pub state : String
  pub public_endpoint : String
  pub obfuscation : ObfuscationPolicy
  pub revision : ℕ
  pub updated_at : ℕ

pub record DesiredSnapshot : Type 0 where
  pub schema_version : ℕ
  pub node_id : String
  pub generation : ℕ
  pub checksum : String
  pub gateway : Option GatewaySpec
  pub agent : Option AgentSpec
  pub services : List Service
  pub assignments : List Assignment

abbrev pub empty_egress : EgressPolicy
empty_egress = record {
  enabled = Bool.false;
  tcp_ports = List.[];
  udp_ports = List.[];
  allow_cidrs = List.[];
  allow_special_cidrs = List.[];
  max_connections = 0;
}
