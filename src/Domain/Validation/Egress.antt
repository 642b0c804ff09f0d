-- ===== src/Domain/Validation/Egress.antt =====
-- internal/domain/model_core.go: EgressPolicy.Validate and the port ranges of a policy.
use Prim.Native.String.{len}
use asterferry.Base.{
  ℕ, ◌^◌, Bool, false, not, ◌&&◌, ◌||◌, Option, none, some, List, String, ltb, is_none, any, length,
  if◌then◌else◌, ◌orelse◌, reject, first_error, ◌==◌, nat_keyed, string_keyed,
}
use asterferry.Text.{trim_space, has_rune, split_first, atoi}
use asterferry.AddressPolicy.{is_special_prefix}
use asterferry.Domain.Types.{EgressPolicy}
use asterferry.Domain.Validation.{Issue, invalid, Platform}

-- The second bound of a range that begins at `min`.
unfoldable pub range_to : ℕ → Option (Bool × ℕ) → Option (ℕ × ℕ)
range_to min none = none
range_to min (some max) =
    if ltb 65535 max.1 || max.0 || ltb max.1 min then none else some (min, max.1)

-- A range whose parts are `low` and `high`; one port where there is no second part.
unfoldable pub range_between : String → Option String → Option (ℕ × ℕ)
range_between low high = elim (atoi low) [
  | none ↦ none
  | some min ↦
      if min.0 || ltb min.1 1 || ltb 65535 min.1
      then none
      else (elim high [ none ↦ some (min.1, min.1) | some text ↦ range_to min.1 (atoi text) ])
]

-- The bounds of an entry that validateEgressPortRanges accepts.
unfoldable pub egress_range : String → Option (ℕ × ℕ)
egress_range value =
    if not (value == trim_space value) || value == "" || ltb 11 (len value)
    then none
    else (elim (split_first 45 value) [
      | none ↦ range_between value none
      | some parts ↦
          if has_rune 45 parts.1 || parts.0 == ""
          then none
          else range_between parts.0 (some parts.1)
    ])

unfoldable pub validate_egress_port_ranges : List String → Option Issue
validate_egress_port_ranges values =
    reject (any (λ value. is_none (egress_range value)) values)
      (invalid "invalid_egress" "egress port range is invalid")

abbrev is_bad_entry : String → Bool
is_bad_entry value = not (trim_space value == value) || ltb 64 (len value)

module _ (platform : Platform) where
  unfoldable pub is_special_entry : String → Bool
  is_special_entry value = elim (platform.parse_prefix value) [
    | none ↦ false
    | some prefix ↦ is_special_prefix prefix
  ]

  unfoldable pub validate_egress : EgressPolicy → Option Issue
  validate_egress p =
      reject (ltb (2 ^ 20) p.max_connections)
        (invalid "invalid_egress" "egress connection limit is out of range")
      orelse reject
          (ltb 4096 (length p.tcp_ports)
            || ltb 4096 (length p.udp_ports)
            || ltb 4096 (length p.allow_cidrs)
            || ltb 4096 (length p.allow_special_cidrs))
          (invalid "invalid_egress" "egress policy contains too many entries")
      orelse reject (p.enabled && length p.tcp_ports == 0 && length p.udp_ports == 0)
          (invalid "invalid_egress" "enabled egress requires TCP or UDP port ranges")
      orelse validate_egress_port_ranges p.tcp_ports
      orelse validate_egress_port_ranges p.udp_ports
      orelse reject
          (any (λ value. is_bad_entry value || is_none (platform.parse_prefix value)) p.allow_cidrs)
          (invalid "invalid_egress" "egress CIDR is invalid")
      orelse first_error
          (λ value.
            reject (is_bad_entry value)
              (invalid "invalid_egress" "special-use egress CIDR is invalid")
            orelse reject (not (is_special_entry value)) (
                invalid "invalid_egress"
                  "special-use egress CIDR must be within a special-use range"))
          p.allow_special_cidrs
