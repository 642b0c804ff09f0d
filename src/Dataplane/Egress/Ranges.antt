-- ===== src/Dataplane/Egress/Ranges.antt =====
-- The port ranges of a policy that EgressPolicy.Validate accepts, as internal/dataplane/egress.go reads them.
use asterferry.Base.{
  ℕ, Bool, true, false, ◌&&◌, ◌≡◌, ◌≤◌, ◌⊎◌, refl, none, some, inl, inr, List, [], ◌∷◌, String, leb,
  any, is_none, if◌then◌else◌, ◌==◌, nat_keyed, string_keyed, ==→eq, arith, Option-cases,
  Bool-cases, ap, ◌∙◌,
}
use asterferry.Text.{trim_space, has_rune, split_first, atoi}
use asterferry.Text.Trimming.{atoi-trim_space}
use asterferry.Domain.Types.{EgressPolicy}
use asterferry.Domain.Validation.{Platform}
use asterferry.Domain.Validation.Egress.{
  range_to, range_between, egress_range, validate_egress_port_ranges, validate_egress,
}
use asterferry.Dataplane.Egress.{bound_of, within, entry_allows, egress_port_allowed}

bound_of-atoi : (text : String) (n : ℕ) → atoi text ≡ some (false, n) → bound_of text ≡ n
unfolding bound_of
bound_of-atoi text n h = ground (arith, atoi-trim_space text (false, n) h)

-- The range of an entry holds a port.
abbrev pub covers : ℕ → String → Bool
covers port value = elim (egress_range value) [
  | none ↦ false
  | some range ↦ leb range.0 port && leb port range.1
]

-- What the bounds of an accepted range are.
record Bounds (low : String) (range : ℕ × ℕ) : Type 0 where
  first : bound_of low ≡ range.0
  positive : 1 ≤ range.0
  ordered : range.0 ≤ range.1
  small : range.1 ≤ 65535

one-Bounds :
    (low : String) (range : ℕ × ℕ)
    → range_between low none ≡ some range
    → Bounds low range × (range.1 ≡ range.0)
unfolding range_between
one-Bounds low range h = elim (Option-cases (atoi low)) [
  | inl failed ↦ absurd (ground arith)
  | inr ((true, n), read) ↦ absurd (ground arith)
  | inr ((false, n), read) ↦ (
    record {
      first = ground (arith, bound_of-atoi low n read);
      positive = ground arith;
      ordered = ground arith;
      small = ground arith;
    },
    ground arith,
  )
]

two-Bounds :
    (low high : String) (range : ℕ × ℕ)
    → range_between low (some high) ≡ some range
    → Bounds low range × (bound_of high ≡ range.1)
unfolding range_between range_to
two-Bounds low high range h = elim (Option-cases (atoi low)) [
  | inl failed ↦ absurd (ground arith)
  | inr ((true, n), read) ↦ absurd (ground arith)
  | inr ((false, n), read) ↦ elim (Option-cases (atoi high)) [
    | inl failed ↦ absurd (ground arith)
    | inr ((true, m), last) ↦ absurd (ground arith)
    | inr ((false, m), last) ↦ (
      record {
        first = ground (arith, bound_of-atoi low n read);
        positive = ground arith;
        ordered = ground arith;
        small = ground arith;
      },
      ground (arith, bound_of-atoi high m last),
    )
  ]
]

-- The cases in which an entry is accepted.
abbrev Accepted : String → ℕ × ℕ → Type 0
Accepted value range =
    ((split_first 45 value ≡ none) × (range_between value none ≡ some range))
    ⊎ ((parts : String × String) × (split_first 45 value ≡ some parts)
        × (has_rune 45 parts.1 ≡ false)
        × (range_between parts.0 (some parts.1) ≡ some range))

egress_range-Accepted :
    (value : String) (range : ℕ × ℕ)
    → egress_range value ≡ some range
    → (trim_space value ≡ value) × Accepted value range
unfolding egress_range
egress_range-Accepted value range h = (
  ground (arith, ==→eq value (trim_space value)),
  elim (Option-cases (split_first 45 value)) [
    | inl whole ↦ inl (whole, ground arith)
    | inr parts ↦ inr (parts.0, parts.1, ground arith, ground arith)
  ],
)

within-range :
    (low high port : ℕ)
    → 1 ≤ low
    → low ≤ high
    → high ≤ 65535
    → within low high port ≡ (leb low port && leb port high)
within-range low high port positive ordered small = ground arith

-- How an entry without spaces around it is read.
reads : ℕ → String → Bool
reads port value = elim (split_first 45 value) [
  | none ↦ within (bound_of value) (bound_of value) port
  | some parts ↦
      if has_rune 45 parts.1 then false else within (bound_of parts.0) (bound_of parts.1) port
]

reads-range :
    (port : ℕ) (value : String) (range : ℕ × ℕ)
    → Accepted value range
    → reads port value ≡ (leb range.0 port && leb port range.1)
unfolding reads
reads-range port value range (inl (whole, between)) =
    let b = one-Bounds value range between in
    ground (
      arith,
      whole,
      b.0.first,
      b.1,
      within-range range.0 range.0 port b.0.positive (omega arith) (omega (arith, b.0.small, b.1)),
    )
reads-range port value range (inr (parts, split, single, between)) =
    let b = two-Bounds parts.0 parts.1 range between in
    ground (
      arith,
      split,
      single,
      b.0.first,
      b.1,
      within-range range.0 range.1 port b.0.positive b.0.ordered b.0.small,
    )

entry_allows-reads :
    (port : ℕ) (value : String) → entry_allows port value ≡ reads port (trim_space value)
unfolding entry_allows reads
entry_allows-reads port value = refl

entry_allows-covers :
    (port : ℕ) (value : String)
    → is_none (egress_range value) ≡ false
    → entry_allows port value ≡ covers port value
entry_allows-covers port value h = elim (Option-cases (egress_range value)) [
  | inl refused ↦ absurd (ground arith)
  | inr (range, found) ↦
      let accepted = egress_range-Accepted value range found in
      entry_allows-reads port value
      ∙ ap (reads port) accepted.0
      ∙ reads-range port value range accepted.1
      ∙ ground (arith, found)
]

any-covers :
    (port : ℕ) (values : List String)
    → any (λ value. is_none (egress_range value)) values ≡ false
    → any (entry_allows port) values ≡ any (covers port) values
any-covers port [] h = refl
any-covers port (value ∷ values) h =
    ground (arith, entry_allows-covers port value, any-covers port values)

-- For a policy that EgressPolicy.Validate accepts, egressPortAllowed allows a port exactly when one of
-- the policy's entries for the network, as Validate reads it, is a range that holds the port.
pub egress_port_allowed-validate_egress :
    (platform : Platform) (policy : EgressPolicy) (network : String) (port : ℕ)
    → validate_egress platform policy ≡ none
    → egress_port_allowed policy network port
      ≡ any (covers port) (if network == "udp" then policy.udp_ports else policy.tcp_ports)
unfolding egress_port_allowed validate_egress validate_egress_port_ranges
egress_port_allowed-validate_egress platform policy network port h =
    elim (Bool-cases (network == "udp")) [
      | inl udp ↦ rw udp (any-covers port policy.udp_ports (ground arith))
      | inr tcp ↦ rw tcp (any-covers port policy.tcp_ports (ground arith))
    ]
