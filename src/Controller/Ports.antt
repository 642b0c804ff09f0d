-- ===== src/Controller/Ports.antt =====
-- internal/controller/scheduler_ports.go: the allocation of public ports. netip is a parameter: `parse`
-- is the text of the unmapped address that a text parses to. The key `protocol|bind|port` of a binding
-- is kept as its three parts, and a set of keys is a list.
pub mod Allocation
use asterferry.Base.{
  ℕ, zero, suc, ◌+◌, ◌-◌, Bool, true, false, not, ◌&&◌, ◌↔◌, ◌≡◌, Option, none, some, List, [], ◌∷◌,
  String, Result, ok, err, Keyed, leb, if◌then◌else◌, ◌==◌, nat_keyed, string_keyed, arith, any,
}
use asterferry.Base.Sets.{member}
use asterferry.Text.{trim_space}
use asterferry.Domain.Types.{PortPool, PortRange}
pub use asterferry.Domain.Bindings.{BindingKey, binding_keyed}

-- PortConflictError, and the errors that are texts
pub data PortError : Type 0 where
  conflict : String → String → ℕ → PortError
  failure : String → PortError

-- The ranges of a protocol
unfoldable pub ranges_of : PortPool → String → List PortRange
ranges_of pool protocol = if protocol == "tcp" then pool.tcp else pool.udp

abbrev pub in_range : ℕ → PortRange → Bool
in_range port r = leb r.min port && leb port r.max

unfoldable pub in_ranges : List PortRange → ℕ → Bool
in_ranges [] port = true
in_ranges (r ∷ ranges) port = any (in_range port) (r ∷ ranges)

unfoldable pub port_in_pool : PortPool → String → ℕ → Bool
port_in_pool pool protocol port = in_ranges (ranges_of pool protocol) port

module _ (parse : String → Option String) where
  -- normalizeBind
  unfoldable pub normalize_bind : String → String
  normalize_bind value =
      let trimmed = trim_space value in
      elim (parse trimmed) [ none ↦ trimmed | some address ↦ address ]

  unfoldable pub binding_key : String → String → ℕ → BindingKey
  binding_key protocol bind port = record {
    protocol = protocol;
    bind = normalize_bind bind;
    port = port;
  }

  module _ (protocol bind : String) (used : List BindingKey) where
    -- The inner loop, with `n` ports left.
    unfoldable pub first_free : ℕ → ℕ → Option ℕ
    first_free zero port = none
    first_free (suc n) port =
        let rest = first_free n (suc port) in
        if member (binding_key protocol bind port) used then rest else some port

    -- The loop over the ranges.
    unfoldable pub first_free_in : List PortRange → Option ℕ
    first_free_in [] = none
    first_free_in (r ∷ ranges) = elim (first_free (r.max + 1 - r.min) r.min) [
      | some port ↦ some port
      | none ↦ first_free_in ranges
    ]

    unfoldable pub allocate_port : PortPool → ℕ → Result PortError ℕ
    allocate_port pool requested =
        if not (requested == 0)
        then (if member (binding_key protocol bind requested) used
            then err (conflict protocol bind requested)
            else (if not (port_in_pool pool protocol requested)
                then err (failure "requested port is not in gateway port pool")
                else ok requested))
        else (elim (first_free_in (ranges_of pool protocol)) [
          | some port ↦ ok port
          | none ↦ err (failure "gateway port pool is exhausted")
        ])
