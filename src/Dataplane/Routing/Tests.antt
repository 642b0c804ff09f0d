-- ===== src/Dataplane/Routing/Tests.antt =====
-- Runs of the choice of a route.
use asterferry.Base.{
  true, false, ◌≡◌, ◌⊎◌, refl, none, some, List, [], ◌∷◌, String, ◌==◌, string_keyed, ℕ,
  first_error,
}
use asterferry.Base.Sets.{member}
use asterferry.Text.{
  trim_space, trim_left, trim_right, any_rune, split_host_port, split_last, split_at_colon,
  split_bracketed, split_plain, split_first, has_suffix, trim_last_dot, trim_wildcard,
  trim_brackets, trim_left_brackets, trim_right_brackets,
}
use asterferry.Domain.Types.{RouteRule, AgentSpec, empty_egress}
use asterferry.Domain.Id.{
  validate_id, starts_with_punctuation, ends_in_punctuation, contains_control,
}
use asterferry.Domain.Validation.{Platform, check_id, validate_selector}
use asterferry.Domain.Validation.Egress.{validate_egress, validate_egress_port_ranges}
use asterferry.Domain.Validation.Specs.{
  validate_agent, check_placement, check_proxies, check_routes, check_route, check_domain,
  check_country, is_iso_code,
}
use asterferry.Dataplane.Routing.{
  Lookup, matches_cidr, domain_name, matches_domain, matches_geoip, route_matches, first_route,
  target_host, select_route,
}
use asterferry.Dataplane.Routing.Choice.{Chosen, select_route-Chosen, select_route-validate_agent}

-- No text is an address.
abbrev lookup : Lookup ℕ
lookup = record {
  parse_ip = λ _. none;
  in_cidr = λ _ _. false;
  is_local = λ _. true;
  country = λ _. none;
  lower = λ text. text;
  equal_fold = λ a b. a == b;
}

abbrev platform : Platform
platform = record {
  parse = λ text. some text;
  parse_prefix = λ _. none;
  resolves = λ _ _. true;
  digest = λ _. "d";
  lower = λ text. text;
  equal_fold = λ a b. a == b;
}

abbrev rule : String → List String → RouteRule
rule name domains = record {
  name = name;
  cidrs = [];
  domains = domains;
  geoip = [];
  destination = "gateway";
  enabled = true;
}

abbrev spec : AgentSpec
spec = record {
  node_id = "ag";
  gateway_id = "";
  gateway_selector = record { match_labels = [] };
  proxies = [];
  routes = record (rule "off" []) { enabled = false } ∷ rule "corp" ("*.corp.example" ∷ []) ∷ [];
  limits = record { max_connections = 1; max_streams = 1; max_buffer_bytes = 1 };
  egress = empty_egress;
  logging = record { level = "info"; format = "text" };
  revision = 1;
}

abbrev target : String
target = "git.corp.example.:443"

corp_gateway : select_route lookup spec target ≡ "gateway"
unfolding select_route first_route route_matches matches_cidr matches_domain matches_geoip
    domain_name target_host trim_space trim_left trim_right any_rune split_host_port split_last
    split_at_colon split_bracketed split_plain split_first has_suffix trim_last_dot trim_wildcard
    trim_left_brackets trim_right_brackets
corp_gateway = refl

-- A name that only ends in the same letters is another domain.
other_domain : matches_domain lookup "evilcorp.example" "corp.example" ≡ false
unfolding matches_domain domain_name trim_space trim_left trim_right any_rune has_suffix
    trim_last_dot trim_wildcard
other_domain = refl

select_route-Chosen_example :
    ((split_host_port target ≡ none) × (select_route lookup spec target ≡ "direct"))
    ⊎ ((parts : String × String) × (split_host_port target ≡ some parts)
        × Chosen lookup
            (target_host lookup parts.0)
            (lookup.parse_ip (trim_brackets (target_host lookup parts.0)))
            spec.routes
            (select_route lookup spec target))
select_route-Chosen_example = select_route-Chosen lookup spec target

spec_accepted : validate_agent platform spec ≡ none
unfolding validate_agent check_placement check_proxies check_routes check_route check_domain
    check_country is_iso_code check_id validate_selector validate_egress validate_egress_port_ranges
    validate_id starts_with_punctuation ends_in_punctuation contains_control trim_space trim_left
    trim_right any_rune first_error member
spec_accepted = refl

select_route-validate_agent_example :
    (select_route lookup spec target ≡ "direct") ⊎ (select_route lookup spec target ≡ "gateway")
select_route-validate_agent_example =
    select_route-validate_agent lookup refl refl platform spec target spec_accepted
