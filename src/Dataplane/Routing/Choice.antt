-- ===== src/Dataplane/Routing/Choice.antt =====
-- Which rule decides in internal/dataplane/routing.go.
use asterferry.Base.{
  Bool, if◌then◌else◌, true, false, not, ◌&&◌, ◌≡◌, ◌⊎◌, inl, inr, refl, Option, none, some, List,
  [], ◌∷◌, ◌++◌, String, All, ◌==◌, string_keyed, ==→eq, Bool-cases, Option-cases, arith, subst,
  sym, ap,
}
use asterferry.Text.{split_host_port, trim_brackets}
use asterferry.Domain.Types.{RouteRule, AgentSpec}
use asterferry.Domain.Validation.{Platform}
use asterferry.Domain.Validation.Specs.{check_route, check_routes, validate_agent}
use asterferry.Dataplane.Routing.{Lookup, route_matches, first_route, target_host, select_route}

module _ {Ip : Type 0} (lookup : Lookup Ip) where
  -- A rule that does not decide: it is disabled, or does not match.
  abbrev pub Skipped : String → Option Ip → RouteRule → Type 0
  Skipped host ip rule = (rule.enabled && route_matches lookup rule host ip) ≡ false

  -- The rule that decides.
  pub record Decides (host : String) (ip : Option Ip) (rules : List RouteRule) (route : String)
      : Type 0 where
    pub before : List RouteRule
    pub rule : RouteRule
    pub after : List RouteRule
    pub position : rules ≡ before ++ (rule ∷ after)
    pub skipped : All (Skipped host ip) before
    pub enabled : rule.enabled ≡ true
    pub matching : route_matches lookup rule host ip ≡ true
    pub chosen : route ≡ lookup.lower rule.destination

  abbrev pub Chosen : String → Option Ip → List RouteRule → String → Type 0
  Chosen host ip rules route =
      Decides host ip rules route ⊎ ((route ≡ "direct") × All (Skipped host ip) rules)

  later :
      (host : String) (ip : Option Ip) (rule : RouteRule) (rules : List RouteRule) (route : String)
      → Skipped host ip rule
      → Chosen host ip rules route
      → Chosen host ip (rule ∷ rules) route
  later host ip rule rules route skip (inl d) = inl (record {
    before = rule ∷ d.before;
    rule = d.rule;
    after = d.after;
    position = ap (◌∷◌ rule) d.position;
    skipped = (skip, d.skipped);
    enabled = d.enabled;
    matching = d.matching;
    chosen = d.chosen;
  })
  later host ip rule rules route skip (inr (direct, skipped)) = inr (direct, (skip, skipped))

  pub first_route-Chosen :
      (host : String) (ip : Option Ip) (rules : List RouteRule)
      → Chosen host ip rules (first_route lookup host ip rules)
  unfolding first_route
  first_route-Chosen host ip [] = inr (refl, tt)
  first_route-Chosen host ip (rule ∷ rules) =
      elim (Bool-cases (rule.enabled && route_matches lookup rule host ip)) [
        | inl hit ↦ inl (record {
          before = [];
          rule = rule;
          after = rules;
          position = refl;
          skipped = tt;
          enabled = ground arith;
          matching = ground arith;
          chosen = ground arith;
        })
        | inr skip ↦
            let same : first_route lookup host ip (rule ∷ rules)
                ≡ first_route lookup host ip rules =
              ground arith in
            subst (Chosen host ip (rule ∷ rules)) (sym same) (
              later host ip rule rules (first_route lookup host ip rules) skip
                (first_route-Chosen host ip rules))
      ]

  -- SelectRouteWithResolver returns "direct" for a target that is not host:port. For any other it returns
  -- the destination, in lower case, of the first rule that is enabled and matches the target's host or
  -- address, and "direct" if no rule does.
  pub select_route-Chosen :
      (spec : AgentSpec) (target : String)
      → ((split_host_port target ≡ none) × (select_route lookup spec target ≡ "direct"))
        ⊎ ((parts : String × String) × (split_host_port target ≡ some parts)
            × Chosen
                (target_host lookup parts.0)
                (lookup.parse_ip (trim_brackets (target_host lookup parts.0)))
                spec.routes
                (select_route lookup spec target))
  unfolding select_route
  select_route-Chosen spec target = elim (Option-cases (split_host_port target)) [
    | inl failed ↦ inl (failed, ground arith)
    | inr split ↦
        let host = target_host lookup split.0.0 in
        let ip = lookup.parse_ip (trim_brackets host) in
        let made : first_route lookup host ip spec.routes ≡ select_route lookup spec target =
          ground (arith, split.1) in
        inr (
          split.0,
          split.1,
          subst (Chosen host ip spec.routes) made (first_route-Chosen host ip spec.routes),
        )
  ]

  abbrev IsRoute : String → Type 0
  IsRoute route = (route ≡ "direct") ⊎ (route ≡ "gateway")

  module _ (direct : lookup.lower "direct" ≡ "direct")
      (gateway : lookup.lower "gateway" ≡ "gateway") where
    lower-IsRoute :
        (platform : Platform) (rule : RouteRule)
        → check_route platform rule ≡ none
        → IsRoute (lookup.lower rule.destination)
    unfolding check_route
    lower-IsRoute platform rule h = elim (Bool-cases (rule.destination == "direct")) [
      | inl e ↦ inl (rw (==→eq rule.destination "direct" e) direct)
      | inr other ↦
          let e : rule.destination ≡ "gateway" = ==→eq rule.destination "gateway" (ground arith) in
          inr (rw e gateway)
    ]

    first_route-IsRoute :
        (platform : Platform) (host : String) (ip : Option Ip) (names : List String)
        (rules : List RouteRule)
        → check_routes platform names rules ≡ none
        → IsRoute (first_route lookup host ip rules)
    unfolding first_route check_routes
    first_route-IsRoute platform host ip names [] h = inl refl
    first_route-IsRoute platform host ip names (rule ∷ rules) h =
        let rest = first_route-IsRoute platform host ip (rule.name ∷ names) rules (ground arith) in
        let own = lower-IsRoute platform rule (ground arith) in
        branch rule.enabled (route_matches lookup rule host ip) own rest
      where
        branch :
            {a b : String} (enabled matching : Bool)
            → IsRoute a
            → IsRoute b
            → IsRoute (if not enabled then b else (if matching then a else b))
        branch false matching own rest = rest
        branch true true own rest = own
        branch true false own rest = rest

    -- For a spec that AgentSpec.Validate accepts, SelectRouteWithResolver returns "direct" or "gateway",
    -- if these two texts are their own lower case.
    pub select_route-validate_agent :
        (platform : Platform) (spec : AgentSpec) (target : String)
        → validate_agent platform spec ≡ none
        → (select_route lookup spec target ≡ "direct")
          ⊎ (select_route lookup spec target ≡ "gateway")
    unfolding select_route validate_agent
    select_route-validate_agent platform spec target h =
        elim (Option-cases (split_host_port target)) [
          | inl failed ↦ inl (ground arith)
          | inr split ↦
              let host = target_host lookup split.0.0 in
              let ip = lookup.parse_ip (trim_brackets host) in
              let made : first_route lookup host ip spec.routes ≡ select_route lookup spec target =
                ground (arith, split.1) in
              subst IsRoute made
                (first_route-IsRoute platform host ip [] spec.routes (ground arith))
        ]
