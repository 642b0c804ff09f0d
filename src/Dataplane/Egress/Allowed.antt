-- ===== src/Dataplane/Egress/Allowed.antt =====
-- What a connection that internal/dataplane/egress.go grants may be.
use asterferry.Base.{
  ℕ, ◌+◌, ◌≤◌, ◌<◌, true, false, ◌||◌, ◌≡◌, ap, sym, ◌∙◌, some, List, [], ◌∷◌, String, ok,
  Result-cases, Option-cases, Bool-cases, inl, inr, nat_keyed, string_keyed, arith,
}
use asterferry.Domain.Types.{EgressPolicy}
use asterferry.Dataplane.Engine.{Engine}
use asterferry.Dataplane.Egress.{
  Network, normalize_egress_target, egress_port_allowed, egress_ip_allowed, addresses_of,
  first_allowed, resolve_allowed_egress, reserve_egress, destination, acquire_egress,
}

module _ {Address : Type 0} (net : Network Address) where
  -- An address of a host that the policy allows
  pub record AllowedAddress (policy : EgressPolicy) (host : String) (address : String)
      : Type 0 where
    pub resolved : Address
    pub known : List Address
    pub found : addresses_of net host ≡ ok known
    pub first : first_allowed net policy known ≡ some resolved
    pub allowed : egress_ip_allowed net policy resolved ≡ true
    pub same_text : address ≡ net.text resolved

  first_allowed-allowed :
      (policy : EgressPolicy) (addresses : List Address) (address : Address)
      → first_allowed net policy addresses ≡ some address
      → egress_ip_allowed net policy address ≡ true
  unfolding first_allowed
  first_allowed-allowed policy [] address h = absurd (cc)
  first_allowed-allowed policy (x ∷ xs) address h =
      elim (Bool-cases (egress_ip_allowed net policy x)) [
        | inl yes_it_is ↦
            let same : x ≡ address = ground arith in
            ap (egress_ip_allowed net policy) (sym same) ∙ yes_it_is
        | inr denied ↦ first_allowed-allowed policy xs address (ground arith)
      ]

  resolve-parts :
      (policy : EgressPolicy) (network host : String) (port : ℕ) (r : String × ℕ)
      → resolve_allowed_egress net policy network host port ≡ ok r
      → (egress_port_allowed policy network port ≡ true)
        × AllowedAddress policy host r.0
        × (r.1 ≡ port)
  unfolding resolve_allowed_egress
  resolve-parts policy network host port r h = elim (Result-cases (addresses_of net host)) [
    | inr (error, q) ↦ absurd (ground arith)
    | inl (known, q) ↦ elim (Option-cases (first_allowed net policy known)) [
      | inl nothing ↦ absurd (ground arith)
      | inr (address, f) ↦ (
        ground arith,
        record {
          resolved = address;
          known = known;
          found = q;
          first = f;
          allowed = first_allowed-allowed policy known address f;
          same_text = ground arith;
        },
        ground arith,
      )
    ]
  ]

  -- A connection that was granted
  pub record Granted (e : Engine) (opened count : ℕ) (network : String) (host : String) (port : ℕ)
      (r : String × ℕ) : Type 0 where
    pub accepting : (e.closed || e.draining) ≡ false
    pub counted : count ≤ opened + 1
    pub within_limit :
        0 < e.egress.max_connections → (count ≡ opened + 1) × (count ≤ e.egress.max_connections)
    pub same_port : r.1 ≡ port
    pub unrestricted : e.egress.enabled ≡ false → r.0 ≡ host
    pub restricted :
        e.egress.enabled ≡ true
        → (egress_port_allowed e.egress network port ≡ true) × AllowedAddress e.egress host r.0

  acquired :
      (e : Engine) (opened : ℕ) (network target : String) (parsed address : String × ℕ) (count : ℕ)
      (r : ℕ × (String × ℕ))
      → normalize_egress_target network target ≡ ok parsed
      → destination net e.egress network parsed ≡ ok address
      → reserve_egress net e.egress opened ≡ ok count
      → acquire_egress net e opened network target ≡ ok r
      → (count, address) ≡ r
  unfolding acquire_egress
  acquired e opened network target parsed address count r q d c h = ground arith

  reserve-parts :
      (policy : EgressPolicy) (opened count : ℕ)
      → reserve_egress net policy opened ≡ ok count
      → (count ≤ opened + 1)
        × (0 < policy.max_connections → (count ≡ opened + 1) × (count ≤ policy.max_connections))
  unfolding reserve_egress
  reserve-parts policy opened count h = (ground arith, λ limited. (ground arith, ground arith))

  acquire-parts :
      (e : Engine) (opened : ℕ) (network target : String) (r : ℕ × (String × ℕ))
      → acquire_egress net e opened network target ≡ ok r
      → (parsed : String × ℕ) × (normalize_egress_target network target ≡ ok parsed)
        × (destination net e.egress network parsed ≡ ok r.1)
        × (reserve_egress net e.egress opened ≡ ok r.0)
        × ((e.closed || e.draining) ≡ false)
  unfolding acquire_egress
  acquire-parts e opened network target r h =
      elim (Result-cases (normalize_egress_target network target)) [
        | inr (error, q) ↦ absurd (ground arith)
        | inl (parsed, q) ↦ elim (Result-cases (destination net e.egress network parsed)) [
          | inr (error, d) ↦ absurd (ground arith)
          | inl (address, d) ↦ elim (Result-cases (reserve_egress net e.egress opened)) [
            | inr (error, c) ↦ absurd (ground arith)
            | inl (count, c) ↦ (
              parsed,
              q,
              d
                  ∙ ap ok (
                      ap (λ (x : ℕ × (String × ℕ)). x.1)
                        (acquired e opened network target parsed address count r q d c h)),
              c
                  ∙ ap ok (
                      ap (λ (x : ℕ × (String × ℕ)). x.0)
                        (acquired e opened network target parsed address count r q d c h)),
              ground arith,
            )
          ]
        ]
      ]

  -- A connection that AcquireEgress grants was asked for with a well-formed target while the engine was
  -- accepting. Where there is a limit, it is counted and the count is within the limit. It goes to the
  -- target's port; and if the policy is enabled, that port lies in an allowed range for the network and
  -- the address is the first of the host's addresses that the policy allows.
  pub acquire_egress-Granted :
      (e : Engine) (opened : ℕ) (network target : String) (r : ℕ × (String × ℕ))
      → acquire_egress net e opened network target ≡ ok r
      → (host : String) × (port : ℕ) × (normalize_egress_target network target ≡ ok (host, port))
        × Granted e opened r.0 network host port r.1
  unfolding destination
  acquire_egress-Granted e opened network target r h =
      let (parsed, q, d, c, accepting) = acquire-parts e opened network target r h in
      let (bound, limited) = reserve-parts e.egress opened r.0 c in
      (
        parsed.0,
        parsed.1,
        q,
        record {
          accepting = accepting;
          counted = bound;
          within_limit = limited;
          same_port = elim (Bool-cases e.egress.enabled) [
            | inl on ↦ (resolve-parts e.egress network parsed.0 parsed.1 r.1 (ground arith)).2
            | inr off ↦ ground arith
          ];
          unrestricted = λ off. ground arith;
          restricted = λ on.
              let parts = resolve-parts e.egress network parsed.0 parsed.1 r.1 (ground arith) in
              (parts.0, parts.1);
        },
      )
