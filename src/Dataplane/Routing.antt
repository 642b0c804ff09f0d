-- ===== src/Dataplane/Routing.antt =====
-- internal/dataplane/routing.go: which route the rules of an agent choose for a target. `Lookup` holds
-- what other packages answer: `parse_ip` is net.ParseIP; `in_cidr` tells whether a text is a CIDR that
-- holds an address; `is_local` is IsPrivate, IsLoopback or IsLinkLocalUnicast; `country` is the ISO code
-- of an address in the GeoIP database, none when no database is loaded or the lookup fails; `lower` and
-- `equal_fold` are those of strings.
pub mod Choice
mod Tests
use Prim.Native.String.{◌++◌}
use asterferry.Base.{
  Bool, true, false, not, ◌&&◌, ◌||◌, Option, none, some, List, [], ◌∷◌, String, any, length,
  if◌then◌else◌, ◌==◌, nat_keyed, string_keyed,
}
use asterferry.Text.{
  trim_space, split_host_port, has_suffix, trim_last_dot, trim_wildcard, trim_brackets,
}
use asterferry.Domain.Types.{RouteRule, AgentSpec}

pub record Lookup (Ip : Type 0) : Type 0 where
  pub parse_ip : String → Option Ip
  pub in_cidr : String → Ip → Bool
  pub is_local : Ip → Bool
  pub country : Ip → Option String
  pub lower : String → String
  pub equal_fold : String → String → Bool

module _ {Ip : Type 0} (lookup : Lookup Ip) where
  unfoldable pub matches_cidr : Option Ip → String → Bool
  matches_cidr none value = false
  matches_cidr (some ip) value = lookup.in_cidr (trim_space value) ip

  -- The name of a rule's domain: without a last dot and without a leading "*.".
  unfoldable pub domain_name : String → String
  domain_name value = trim_wildcard (lookup.lower (trim_last_dot (trim_space value)))

  unfoldable pub matches_domain : String → String → Bool
  matches_domain host value =
      host == domain_name value || has_suffix ("." ++ domain_name value) host

  unfoldable pub is_country : Ip → String → Bool
  is_country ip code = elim (lookup.country ip) [
    | none ↦ false
    | some iso ↦ lookup.equal_fold iso code
  ]

  unfoldable pub matches_geoip : Option Ip → String → Bool
  matches_geoip none value = false
  matches_geoip (some ip) value =
      let code = lookup.lower (trim_space value) in
      (code == "private" && lookup.is_local ip) || (not (code == "private") && is_country ip code)

  -- A rule with no condition matches every target.
  unfoldable pub route_matches : RouteRule → String → Option Ip → Bool
  route_matches rule host ip =
      if length rule.cidrs == 0 && length rule.domains == 0 && length rule.geoip == 0
      then true
      else any (matches_cidr ip) rule.cidrs
        || any (matches_domain host) rule.domains
        || any (matches_geoip ip) rule.geoip

  -- The loop over the rules.
  unfoldable pub first_route : String → Option Ip → List RouteRule → String
  first_route host ip [] = "direct"
  first_route host ip (rule ∷ rules) =
      let rest = first_route host ip rules in
      if not rule.enabled
      then rest
      else (if route_matches rule host ip then lookup.lower rule.destination else rest)

  unfoldable pub target_host : String → String
  target_host host = trim_last_dot (lookup.lower (trim_space host))

  -- SelectRouteWithResolver
  unfoldable pub select_route : AgentSpec → String → String
  select_route spec target = elim (split_host_port target) [
    | none ↦ "direct"
    | some parts ↦
        let host = target_host parts.0 in
        first_route host (lookup.parse_ip (trim_brackets host)) spec.routes
  ]
