-- ===== src/Controller/Ports/Allocation.antt =====
-- What internal/controller/scheduler_ports.go promises of the port it allocates.
use asterferry.Base.{
  ℕ, zero, suc, ◌+◌, ◌-◌, ◌≤◌, ◌<◌, true, false, ◌≡◌, ◌≢◌, refl, Option, none, some, List, [], ◌∷◌,
  String, ok, err, Option-cases, inl, inr, nat_keyed, subst, nat_beq, string_keyed, arith, any,
  Bool-cases,
}
use asterferry.Base.Sets.{member}
use asterferry.Domain.Types.{PortPool, PortRange}
use asterferry.Controller.Ports.{
  BindingKey, binding_keyed, PortError, ranges_of, in_range, in_ranges, port_in_pool, binding_key,
  first_free, first_free_in, allocate_port,
}

module _ (parse : String → Option String) (protocol bind : String) (used : List BindingKey) where
  -- A port whose key is not in use
  abbrev pub Free : ℕ → Type 0
  Free port = member (binding_key parse protocol bind port) used ≡ false

  first_free-some :
      (n start port : ℕ)
      → first_free parse protocol bind used n start ≡ some port
      → Free port × (start ≤ port) × (port < start + n)
  unfolding first_free
  first_free-some zero start port h = absurd (cc)
  first_free-some (suc n) start port h =
      elim (Bool-cases (member (binding_key parse protocol bind start) used)) [
        | inr free ↦
            let here : start ≡ port = ground arith in
            (subst Free here free, omega (arith, here), omega (arith, here))
        | inl taken ↦
            let (free, above, below) = first_free-some n (suc start) port (ground arith) in
            (free, omega (arith, above), omega (arith, below))
      ]

  first_free-none :
      (n start port : ℕ)
      → first_free parse protocol bind used n start ≡ none
      → start ≤ port
      → port < start + n
      → member (binding_key parse protocol bind port) used ≡ true
  unfolding first_free
  first_free-none zero start port h a b = absurd (omega arith)
  first_free-none (suc n) start port h a b =
      elim (Bool-cases (member (binding_key parse protocol bind start) used)) [
        | inr free ↦ absurd (ground arith)
        | inl taken ↦ elim (Bool-cases (nat_beq start port)) [
          | inl here ↦
              subst (λ p. member (binding_key parse protocol bind p) used ≡ true)
                ((nat_keyed.same_iff start port).0 here) taken
          | inr later ↦
              first_free-none n (suc start) port (ground arith) (ground arith) (omega (arith, b))
        ]
      ]

  first_free_in-some :
      (ranges : List PortRange) (port : ℕ)
      → first_free_in parse protocol bind used ranges ≡ some port
      → Free port × (any (in_range port) ranges ≡ true)
  unfolding first_free_in
  first_free_in-some [] port h = absurd (cc)
  first_free_in-some (r ∷ ranges) port h =
      elim (Option-cases (first_free parse protocol bind used (r.max + 1 - r.min) r.min)) [
        | inr (found, q) ↦
            let here : found ≡ port = ground arith in
            let (free, above, below) = first_free-some (r.max + 1 - r.min) r.min found q in
            (subst Free here free, ground (arith, here, above, below))
        | inl none_here ↦
            let (free, inside) = first_free_in-some ranges port (ground arith) in
            (free, ground (arith, inside))
      ]

  first_free_in-none :
      (ranges : List PortRange) (port : ℕ)
      → first_free_in parse protocol bind used ranges ≡ none
      → any (in_range port) ranges ≡ true
      → member (binding_key parse protocol bind port) used ≡ true
  unfolding first_free_in
  first_free_in-none [] port h inside = absurd (cc)
  first_free_in-none (r ∷ ranges) port h inside =
      elim (Option-cases (first_free parse protocol bind used (r.max + 1 - r.min) r.min)) [
        | inr (found, q) ↦ absurd (ground arith)
        | inl none_here ↦ elim (Bool-cases (in_range port r)) [
          | inl here ↦
              first_free-none (r.max + 1 - r.min) r.min port none_here (ground arith) (ground arith)
          | inr later ↦ first_free_in-none ranges port (ground arith) (ground arith)
        ]
      ]

  any-in_ranges :
      (ranges : List PortRange) (port : ℕ)
      → any (in_range port) ranges ≡ true
      → in_ranges ranges port ≡ true
  unfolding in_ranges
  any-in_ranges [] port h = refl
  any-in_ranges (r ∷ ranges) port h = h

  -- A port that allocatePort returns is not in use, lies in the gateway's pool for the protocol (an
  -- empty pool holds every port), and is the requested one where a port was requested.
  pub allocate_port-Free :
      (pool : PortPool) (requested port : ℕ)
      → allocate_port parse protocol bind used pool requested ≡ ok port
      → Free port × (port_in_pool pool protocol port ≡ true) × (requested ≢ 0 → port ≡ requested)
  unfolding allocate_port port_in_pool
  allocate_port-Free pool requested port h = elim (Bool-cases (nat_beq requested 0)) [
    | inr asked ↦
        let same : port ≡ requested = ground arith in
        rw same (ground arith, ground arith, λ d. refl)
    | inl unasked ↦
        let found : first_free_in parse protocol bind used (ranges_of pool protocol) ≡ some port =
          ground arith in
        let (free, inside) = first_free_in-some (ranges_of pool protocol) port found in
        (free, any-in_ranges (ranges_of pool protocol) port inside, λ d. absurd (ground arith))
  ]

  -- When no port was requested, allocatePort fails only if every port of the pool's ranges for the
  -- protocol is in use.
  pub allocate_port-exhausted :
      (pool : PortPool) (error : PortError) (port : ℕ)
      → allocate_port parse protocol bind used pool 0 ≡ err error
      → any (in_range port) (ranges_of pool protocol) ≡ true
      → member (binding_key parse protocol bind port) used ≡ true
  unfolding allocate_port
  allocate_port-exhausted pool error port h inside =
      first_free_in-none (ranges_of pool protocol) port (ground arith) inside
