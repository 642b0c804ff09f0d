-- ===== src/Controller/Scheduler/Place.antt =====
-- The ports that internal/controller/scheduler_placement.go gives to the services of one candidate.
use asterferry.Base.{
  ℕ, true, false, ◌≡◌, ◌≢◌, refl, sym, none, List, [], ◌∷◌, map, String, ok, Option-cases,
  Bool-cases, Result-cases, inl, inr, nat_keyed, nat_beq, string_keyed, arith, All, ap, subst,
}
use asterferry.Base.Maps.{Map, lookup}
use asterferry.Base.Sets.{member, NoRepeat}
use asterferry.Domain.Types.{Service, Binding}
use asterferry.Domain.Selectors.{matches}
use asterferry.Controller.Ports.{BindingKey, binding_keyed, binding_key, normalize_bind}
use asterferry.Controller.Ports.Allocation.{allocate_port-Free}
use asterferry.Controller.Scheduler.{
  Checks, GatewayCandidate, Placement, placed, conflicting, refused, rejected, and_also, key_of,
  kept_port, choose_port, binding_of, place,
}

module _ (checks : Checks) (c : GatewayCandidate) (kept : Map String Binding) where
  same-key :
      (binding : Binding) (service : Service)
      → binding.protocol ≡ service.protocol
      → normalize_bind checks.parse binding.bind ≡ normalize_bind checks.parse service.public_bind
      → key_of checks binding ≡ key_of checks (binding_of service binding.port)
  unfolding binding_key
  same-key binding service p q = λ i. record { protocol = p i; bind = q i; port = binding.port }

  -- A port that is kept is not in use, and stays the service's own.
  kept-free :
      (service : Service) (bindings : List BindingKey)
      → kept_port checks kept service bindings ≢ 0
      → member
          (key_of checks (binding_of service (kept_port checks kept service bindings)))
          bindings
        ≡ false
  unfolding kept_port
  kept-free service bindings h = elim (Option-cases (lookup service.id kept)) [
    | inl q ↦ absurd (ground arith)
    | inr (binding, q) ↦
        let port : kept_port checks kept service bindings ≡ binding.port = ground arith in
        let key =
          same-key binding service
            (ground (arith, string_keyed.same_iff binding.protocol service.protocol))
            (ground (
              arith,
              string_keyed.same_iff (normalize_bind checks.parse binding.bind)
                  (normalize_bind checks.parse service.public_bind),
            )) in
        let free : member (key_of checks binding) bindings ≡ false = ground arith in
        subst (λ p. member (key_of checks (binding_of service p)) bindings ≡ false) (sym port)
          (subst (λ k. member k bindings ≡ false) key free)
  ]

  -- The chosen port's key is not in use.
  choose_port-free :
      (service : Service) (bindings : List BindingKey) (port : ℕ)
      → choose_port checks c kept service bindings ≡ ok port
      → member (key_of checks (binding_of service port)) bindings ≡ false
  unfolding choose_port
  choose_port-free service bindings port h =
      elim (Bool-cases (nat_beq (kept_port checks kept service bindings) 0)) [
        | inl none_kept ↦
            (allocate_port-Free checks.parse service.protocol service.public_bind bindings
              c.spec.port_pool service.public_port port (ground arith)).0
        | inr some_kept ↦
            let same : kept_port checks kept service bindings ≡ port = ground arith in
            subst (λ p. member (key_of checks (binding_of service p)) bindings ≡ false) same
              (kept-free service bindings (ground arith))
      ]

  -- What a placement of services has taken: one free port for each, none of them twice.
  pub record Placed (bindings : List BindingKey) (services : List Service) (taken : List Binding)
      : Type 0 where
    pub unused : All (λ (b : Binding). member (key_of checks b) bindings ≡ false) taken
    pub distinct : NoRepeat (map (key_of checks) taken)
    pub each_service :
        map (λ (b : Binding). b.service_id) taken ≡ map (λ (s : Service). s.id) services
    pub selected :
        All
          (λ (s : Service).
            (matches s.gateway_selector.match_labels c.node.labels ≡ true)
            × (checks.service_error s ≡ none))
          services

  and_also-placed :
      (b : Binding) (p : Placement) (taken : List Binding)
      → and_also b p ≡ placed taken
      → (bs : List Binding) × (p ≡ placed bs) × (taken ≡ b ∷ bs)
  and_also-placed b (placed bs) taken h = (bs, refl, ground arith)
  and_also-placed b (conflicting x) taken h = absurd (cc)
  and_also-placed b (refused x) taken h = absurd (cc)
  and_also-placed b (rejected x) taken h = absurd (cc)

  place-parts :
      (service : Service) (services : List Service) (bindings : List BindingKey)
      (taken : List Binding)
      → place checks c kept (service ∷ services) bindings ≡ placed taken
      → (port : ℕ) × (rest : List Binding) × (choose_port checks c kept service bindings ≡ ok port)
        × (place checks c kept services (key_of checks (binding_of service port) ∷ bindings)
            ≡ placed rest)
        × (taken ≡ binding_of service port ∷ rest)
        × (matches service.gateway_selector.match_labels c.node.labels ≡ true)
        × (checks.service_error service ≡ none)
  unfolding place
  place-parts service services bindings taken h =
      elim (Result-cases (choose_port checks c kept service bindings)) [
        | inr (error, q) ↦ absurd (ground arith)
        | inl (port, q) ↦
            let rest =
              place checks c kept services (key_of checks (binding_of service port) ∷ bindings) in
            let (bs, r, s) = and_also-placed (binding_of service port) rest taken (ground arith) in
            (port, bs, q, r, s, ground arith, ground arith)
      ]

  skip-key :
      (key : BindingKey) (bindings : List BindingKey) (taken : List Binding)
      → All (λ (b : Binding). member (key_of checks b) (key ∷ bindings) ≡ false) taken
      → All (λ (b : Binding). member (key_of checks b) bindings ≡ false) taken
        × (member key (map (key_of checks) taken) ≡ false)
  unfolding member
  skip-key key bindings [] a = (tt, refl)
  skip-key key bindings (b ∷ bs) a =
      let (rest, absent) = skip-key key bindings bs a.1 in
      (
        (ground arith, rest),
        ground (
          arith,
          binding_keyed.same_iff key (key_of checks b),
          binding_keyed.same_iff (key_of checks b) key,
        ),
      )

  pub place-Placed :
      (services : List Service) (bindings : List BindingKey) (taken : List Binding)
      → place checks c kept services bindings ≡ placed taken
      → Placed bindings services taken
  unfolding place
  place-Placed [] bindings taken h =
      let same : [] ≡ taken = ground arith in
      subst (Placed bindings []) same
        (record { unused = tt; distinct = tt; each_service = refl; selected = tt })
  place-Placed (service ∷ services) bindings taken h =
      let (port, rest, chosen, later, same, matched, valid) =
        place-parts service services bindings taken h in
      let key = key_of checks (binding_of service port) in
      let v = place-Placed services (key ∷ bindings) rest later in
      let (unused, absent) = skip-key key bindings rest v.unused in
      subst (Placed bindings (service ∷ services)) (sym same) (record {
        unused = (choose_port-free service bindings port chosen, unused);
        distinct = (absent, v.distinct);
        each_service = ap (◌∷◌ service.id) v.each_service;
        selected = ((matched, valid), v.selected);
      })
