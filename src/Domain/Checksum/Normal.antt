-- ===== src/Domain/Checksum/Normal.antt =====
-- internal/domain/model_clone.go: Normalize.
use Prim.Native.String.{◌++◌ as ◌++◌}
use asterferry.Base.{
  ℕ, zero, suc, ◌/◌, ◌%◌, Bool, Option, none, some, List, map, String, ltb, if◌then◌else◌,
}
use asterferry.Base.Sorting.{string_less, sort_by}
use asterferry.Domain.Types.{
  EgressPolicy, Listener, GatewaySpec, ProxySpec, AgentSpec, Service, Binding, Assignment,
  DesiredSnapshot,
}

-- A digit of a number in decimal
abbrev digit : ℕ → String
digit n =
    if ltb n 1
    then "0"
    else if ltb n 2
    then "1"
    else if ltb n 3
    then "2"
    else if ltb n 4
    then "3"
    else if ltb n 5
    then "4"
    else if ltb n 6
    then "5"
    else if ltb n 7
    then "6"
    else if ltb n 8
    then "7"
    else if ltb n 9
    then "8"
    else "9"

-- `%d` of a uint16, which has at most five digits: a round for each, and the number that is left.
unfoldable pub decimal : ℕ → ℕ → String
decimal zero n = ""
decimal (suc rounds) n =
    let rest = decimal rounds (n / 10) in (if ltb n 10 then "" else rest) ++ digit (n % 10)

abbrev port_text : ℕ → String
port_text = decimal 5

abbrev listener_text : Listener → String
listener_text l = l.protocol ++ "|" ++ l.bind ++ "|" ++ port_text l.port

abbrev binding_text : Binding → String
binding_text b = b.service_id ++ "|" ++ b.protocol ++ "|" ++ b.bind ++ "|" ++ port_text b.port

unfoldable pub listener_less : Listener → Listener → Bool
listener_less left right = string_less (listener_text left) (listener_text right)

unfoldable pub binding_less : Binding → Binding → Bool
binding_less left right = string_less (binding_text left) (binding_text right)

abbrev pub assignment_less : Assignment → Assignment → Bool
assignment_less left right = string_less left.id right.id

abbrev sort_strings : List String → List String
sort_strings = sort_by string_less

unfoldable pub sort_egress : EgressPolicy → EgressPolicy
sort_egress p = record p {
  tcp_ports = sort_strings p.tcp_ports;
  udp_ports = sort_strings p.udp_ports;
  allow_cidrs = sort_strings p.allow_cidrs;
  allow_special_cidrs = sort_strings p.allow_special_cidrs;
}

unfoldable pub normalize_gateway : GatewaySpec → GatewaySpec
normalize_gateway g = record g {
  listeners = sort_by listener_less g.listeners;
  egress = sort_egress g.egress;
}

unfoldable pub normalize_agent : AgentSpec → AgentSpec
normalize_agent a = record a {
  proxies = sort_by (λ (left right : ProxySpec). string_less left.id right.id) a.proxies;
  egress = sort_egress a.egress;
}

unfoldable pub normalize_assignment : Assignment → Assignment
normalize_assignment a = record a {
  service_ids = sort_strings a.service_ids;
  bindings = sort_by binding_less a.bindings;
}

abbrev pub map_spec {ℓ κ} : {A : Type ℓ} {B : Type κ} → (A → B) → Option A → Option B
map_spec f none = none
map_spec f (some spec) = some (f spec)

unfoldable pub normalize : DesiredSnapshot → DesiredSnapshot
normalize s = record s {
  gateway = map_spec normalize_gateway s.gateway;
  agent = map_spec normalize_agent s.agent;
  services = sort_by (λ (left right : Service). string_less left.id right.id) s.services;
  assignments = sort_by assignment_less (map normalize_assignment s.assignments);
}
