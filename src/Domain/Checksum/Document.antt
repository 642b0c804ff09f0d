-- ===== src/Domain/Checksum/Document.antt =====
-- internal/domain/checksum.go: the document that is hashed, and ComputeChecksum. The text of an error is
-- kept without what is formatted into it.
use asterferry.Base.{
  ℕ, Bool, ◌&&◌, ◌||◌, Option, none, some, List, [], ◌∷◌, String, Result, ok, err, ◌>>=◌, ltb, map,
  length, if◌then◌else◌, ◌==◌, string_keyed,
}
use asterferry.Base.Maps.{Map}
use asterferry.Domain.Types.{
  ObfuscationPolicy, Listener, Capacity, PortPool, TransportPolicy, EgressPolicy, GatewaySpec,
  Selector, ProxySpec, RouteRule, AgentLimits, LoggingPolicy, AgentSpec, Service, Binding,
  Assignment, DesiredSnapshot,
}
use asterferry.Domain.Checksum.Normal.{normalize}

-- The identities of the keys and the policy, without the keys
pub record ChecksumObfuscation : Type 0 where
  pub mode : String
  pub key_id : String
  pub previous_key_id : String
  pub max_padding_bytes : ℕ
  pub handshake_shaping : Bool

pub record ChecksumGateway : Type 0 where
  pub node_id : String
  pub public_endpoints : List String
  pub listeners : List Listener
  pub labels : Map String String
  pub capacity : Capacity
  pub port_pool : PortPool
  pub transport : TransportPolicy
  pub obfuscation : ChecksumObfuscation
  pub egress : EgressPolicy

pub record ChecksumAgent : Type 0 where
  pub node_id : String
  pub gateway_id : String
  pub gateway_selector : Selector
  pub proxies : List ProxySpec
  pub routes : List RouteRule
  pub limits : AgentLimits
  pub egress : EgressPolicy
  pub logging : LoggingPolicy

pub record ChecksumService : Type 0 where
  pub id : String
  pub agent_id : String
  pub protocol : String
  pub local_target : String
  pub public_bind : String
  pub public_port : ℕ
  pub gateway_selector : Selector
  pub enabled : Bool

pub record ChecksumAssignment : Type 0 where
  pub id : String
  pub gateway_id : String
  pub agent_id : String
  pub service_ids : List String
  pub bindings : List Binding
  pub generation : ℕ
  pub state : String
  pub public_endpoint : String
  pub obfuscation : ChecksumObfuscation

pub record ChecksumDocument : Type 0 where
  pub schema_version : ℕ
  pub node_id : String
  pub generation : ℕ
  pub gateway : Option ChecksumGateway
  pub agent : Option ChecksumAgent
  pub services : List ChecksumService
  pub assignments : List ChecksumAssignment

abbrev identity_of : ObfuscationPolicy → ChecksumObfuscation
identity_of o = record {
  mode = o.mode;
  key_id = o.key_id;
  previous_key_id = o.previous_key_id;
  max_padding_bytes = o.max_padding_bytes;
  handshake_shaping = o.handshake_shaping;
}

-- A key before the current one is there, in the clear or encrypted.
abbrev pub has_previous : ObfuscationPolicy → Bool
has_previous o = ltb 0 (length o.previous_key) || ltb 0 (length o.previous_key_ciphertext)

unfoldable pub checksum_obfuscation : ObfuscationPolicy → Result String ChecksumObfuscation
checksum_obfuscation o =
    if o.mode == "" || o.mode == "standard"
    then ok (identity_of o)
    else (if o.mode == "camouflage"
        then (if o.key_id == ""
            then err "checksum requires a canonical obfuscation key id"
            else (if o.previous_key_id == "" && has_previous o
                then err "checksum requires a canonical obfuscation key id: previous key"
                else ok (identity_of o)))
        else err "unsupported obfuscation mode")

abbrev gateway_document : GatewaySpec → ChecksumObfuscation → ChecksumGateway
gateway_document g obfuscation = record {
  node_id = g.node_id;
  public_endpoints = g.public_endpoints;
  listeners = g.listeners;
  labels = g.labels;
  capacity = g.capacity;
  port_pool = g.port_pool;
  transport = g.transport;
  obfuscation = obfuscation;
  egress = g.egress;
}

unfoldable pub document_gateway : Option GatewaySpec → Result String (Option ChecksumGateway)
document_gateway none = ok none
document_gateway (some g) =
    checksum_obfuscation g.obfuscation >>= λ obfuscation. ok (some (gateway_document g obfuscation))

unfoldable pub document_agent : Option AgentSpec → Option ChecksumAgent
document_agent none = none
document_agent (some a) = some (record {
  node_id = a.node_id;
  gateway_id = a.gateway_id;
  gateway_selector = a.gateway_selector;
  proxies = a.proxies;
  routes = a.routes;
  limits = a.limits;
  egress = a.egress;
  logging = a.logging;
})

unfoldable pub document_service : Service → ChecksumService
document_service s = record {
  id = s.id;
  agent_id = s.agent_id;
  protocol = s.protocol;
  local_target = s.local_target;
  public_bind = s.public_bind;
  public_port = s.public_port;
  gateway_selector = s.gateway_selector;
  enabled = s.enabled;
}

abbrev assignment_document : Assignment → ChecksumObfuscation → ChecksumAssignment
assignment_document a obfuscation = record {
  id = a.id;
  gateway_id = a.gateway_id;
  agent_id = a.agent_id;
  service_ids = a.service_ids;
  bindings = a.bindings;
  generation = a.generation;
  state = a.state;
  public_endpoint = a.public_endpoint;
  obfuscation = obfuscation;
}

-- The loop over the assignments.
unfoldable pub document_assignments : List Assignment → Result String (List ChecksumAssignment)
document_assignments [] = ok []
document_assignments (a ∷ assignments) =
    let rest = document_assignments assignments in
    checksum_obfuscation a.obfuscation >>= λ obfuscation.
    rest >>= λ others. ok (assignment_document a obfuscation ∷ others)

-- The document of a snapshot in its normal order.
unfoldable pub document_of : DesiredSnapshot → Result String ChecksumDocument
document_of s = document_gateway s.gateway >>= λ gateway_part.
    document_assignments s.assignments >>= λ assignments. ok (record {
      schema_version = s.schema_version;
      node_id = s.node_id;
      generation = s.generation;
      gateway = gateway_part;
      agent = document_agent s.agent;
      services = map document_service s.services;
      assignments = assignments;
    })

unfoldable pub checksum_document : DesiredSnapshot → Result String ChecksumDocument
checksum_document s = document_of (normalize s)

-- ComputeChecksum
unfoldable pub compute_checksum :
    (ChecksumDocument → Result String String) → DesiredSnapshot → Result String String
compute_checksum encode s = checksum_document s >>= encode
