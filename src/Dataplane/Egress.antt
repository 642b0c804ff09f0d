-- ===== src/Dataplane/Egress.antt =====
-- internal/dataplane/egress.go: which outbound connections the engine's policy allows, and how many.
-- netip and the resolver are parameters. `literal` is the unmapped address that a host, without its
-- brackets, is; `resolve` is what LookupNetIP returns, unmapped; `is_special` is addresspolicy.IsSpecial;
-- `contains` tells whether a text is a prefix that holds an address. An address to dial is kept as its
-- host and port, which JoinHostPort joins. The limit is a Go int; 0 stands for every value that is not
-- positive.
pub mod Allowed
pub mod Ranges
mod Tests
use Prim.Native.String.{len}
use asterferry.Base.{
  ℕ, ◌+◌, ◌-◌, Bool, true, false, not, ◌&&◌, ◌||◌, Option, none, some, List, [], ◌∷◌, String,
  Result, ok, err, ◌>>=◌, ltb, leb, any, length, if◌then◌else◌, ◌==◌, nat_keyed, string_keyed,
}
use asterferry.Text.{trim_space, any_rune, has_rune, split_first, split_host_port, atoi}
use asterferry.Domain.Types.{EgressPolicy}
use asterferry.Afdp.Errors.{Error, transient, failure}
use asterferry.Dataplane.Engine.{Engine}

pub record Network (Address : Type 0) : Type 0 where
  pub literal : String → Option Address
  pub resolve : String → Result Error (List Address)
  pub text : Address → String
  pub is_special : Address → Bool
  pub contains : String → Address → Bool

-- A number from 1 to 65535
unfoldable pub port_of : String → Option ℕ
port_of text = elim (atoi text) [
  | none ↦ none
  | some parsed ↦ if parsed.0 || ltb parsed.1 1 || ltb 65535 parsed.1 then none else some parsed.1
]

abbrev has_blank : String → Bool
has_blank = any_rune (λ r. r == 0 || r == 13 || r == 10 || r == 32 || r == 9)

abbrev malformed : Error
malformed = failure "egress target must be host:port"

-- The host and the port of a target
unfoldable pub normalize_egress_target : String → String → Result Error (String × ℕ)
normalize_egress_target network target =
    if not (network == "tcp") && not (network == "udp")
    then err (failure "unsupported egress network")
    else (if not (trim_space target == target)
          || len target == 0
          || ltb 2048 (len target)
          || any_rune (λ r. r == 0 || r == 13 || r == 10) target
        then err malformed
        else (elim (split_host_port target) [
          | none ↦ err malformed
          | some parts ↦
              if trim_space parts.0 == ""
                || not (parts.0 == trim_space parts.0)
                || has_blank parts.0
                || has_blank parts.1
              then err malformed
              else (elim (port_of parts.1) [
                | none ↦ err (failure "egress target port is invalid")
                | some port ↦ ok (parts.0, port)
              ])
        ]))

-- A bound of a range. A text that is no number stands for 0, which no range may begin or end with.
unfoldable pub bound_of : String → ℕ
bound_of text = elim (atoi (trim_space text)) [
  | none ↦ 0
  | some parsed ↦ if parsed.0 then 0 else parsed.1
]

abbrev pub within : ℕ → ℕ → ℕ → Bool
within min max port = leb 1 min && leb max 65535 && leb min max && leb min port && leb port max

-- One entry of a list of port ranges holds a port.
unfoldable pub entry_allows : ℕ → String → Bool
entry_allows port value = elim (split_first 45 (trim_space value)) [
  | none ↦ within (bound_of (trim_space value)) (bound_of (trim_space value)) port
  | some parts ↦
      if has_rune 45 parts.1 then false else within (bound_of parts.0) (bound_of parts.1) port
]

unfoldable pub egress_port_allowed : EgressPolicy → String → ℕ → Bool
egress_port_allowed policy network port =
    any (entry_allows port) (if network == "udp" then policy.udp_ports else policy.tcp_ports)

module _ {Address : Type 0} (net : Network Address) where
  unfoldable pub contains_egress_prefix : List String → Address → Bool
  contains_egress_prefix values address =
      any (λ value. net.contains (trim_space value) address) values

  unfoldable pub egress_ip_allowed : EgressPolicy → Address → Bool
  egress_ip_allowed policy address =
      if net.is_special address && not (contains_egress_prefix policy.allow_special_cidrs address)
      then false
      else (if length policy.allow_cidrs == 0
          then true
          else any (λ value. net.contains (trim_space value) address) policy.allow_cidrs)

  -- The addresses of a host: itself, or what it resolves to, at most 64.
  unfoldable pub addresses_of : String → Result Error (List Address)
  addresses_of host = elim (net.literal host) [
    | some address ↦ ok (address ∷ [])
    | none ↦ elim (net.resolve host) [
      | err error ↦ err error
      | ok addresses ↦
          if ltb 64 (length addresses)
          then err (failure "egress destination resolves to too many addresses")
          else ok addresses
    ]
  ]

  unfoldable pub first_allowed : EgressPolicy → List Address → Option Address
  first_allowed policy [] = none
  first_allowed policy (address ∷ addresses) =
      let rest = first_allowed policy addresses in
      if egress_ip_allowed policy address then some address else rest

  unfoldable pub resolve_allowed_egress :
      EgressPolicy → String → String → ℕ → Result Error (String × ℕ)
  resolve_allowed_egress policy network host port =
      if not (egress_port_allowed policy network port)
      then err (failure "egress port is not allowed")
      else (elim (addresses_of host) [
        | err error ↦ err error
        | ok addresses ↦ elim (first_allowed policy addresses) [
          | some address ↦ ok (net.text address, port)
          | none ↦ err (failure "egress destination is denied by policy")
        ]
      ])

  -- `reserve`, on the count of open connections
  unfoldable pub reserve_egress : EgressPolicy → ℕ → Result Error ℕ
  reserve_egress policy opened =
      if policy.max_connections == 0
      then ok opened
      else (if leb policy.max_connections opened
          then err (transient "egress connection limit reached")
          else ok (opened + 1))

  unfoldable pub release_egress : ℕ → ℕ
  release_egress opened = opened - 1

  -- The address to dial
  unfoldable pub destination : EgressPolicy → String → String × ℕ → Result Error (String × ℕ)
  destination policy network target =
      if policy.enabled then resolve_allowed_egress policy network target.0 target.1 else ok target

  -- AcquireEgress: the new count of open connections, and the address to dial.
  unfoldable pub acquire_egress : Engine → ℕ → String → String → Result Error (ℕ × (String × ℕ))
  acquire_egress e opened network target =
      if e.closed || e.draining
      then err (failure "data-plane engine is not accepting egress")
      else (elim (normalize_egress_target network target) [
        | err error ↦ err error
        | ok parsed ↦ elim (destination e.egress network parsed) [
          | err error ↦ err error
          | ok address ↦ elim (reserve_egress e.egress opened) [
            | err error ↦ err error
            | ok count ↦ ok (count, address)
          ]
        ]
      ])
