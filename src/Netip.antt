-- ===== src/Netip.antt =====
-- The part of Go's net/netip that the program calls, on values: an address is its width in bits (0 for
-- the zero Addr), its number and whether it has a zone; a prefix that ParsePrefix returned is the width
-- and the number of its address, which has no zone, and its length.
pub mod Subnets
use asterferry.Base.{
  ℕ, ◌-◌, ◌*◌, ◌/◌, ◌%◌, ◌^◌, Bool, false, not, ◌&&◌, if◌then◌else◌, ◌==◌, nat_keyed,
}

pub record Address : Type 0 where
  pub bit_len : ℕ
  pub value : ℕ
  pub zoned : Bool

pub record Prefix : Type 0 where
  pub bit_len : ℕ
  pub value : ℕ
  pub bits : ℕ

-- `Addr.Unmap`: an IPv4-mapped IPv6 address is its IPv4 address.
unfoldable pub unmap : Address → Address
unmap a =
    if a.bit_len == 128 && a.value / 2 ^ 32 == 65535
    then record { bit_len = 32; value = a.value % 2 ^ 32; zoned = false }
    else a

-- How many low bits of an address a prefix leaves open.
abbrev pub open_bits : Prefix → ℕ
open_bits p = p.bit_len - p.bits

-- `Prefix.Masked`
unfoldable pub masked : Prefix → Prefix
masked p = record p { value = p.value / 2 ^ open_bits p * 2 ^ open_bits p }

-- `Prefix.Addr`
abbrev pub address_of : Prefix → Address
address_of p = record { bit_len = p.bit_len; value = p.value; zoned = false }

-- `Prefix.Contains`
unfoldable pub prefix_contains : Prefix → Address → Bool
prefix_contains p a =
    not a.zoned
    && not (p.bit_len == 0)
    && p.bit_len == a.bit_len
    && a.value / 2 ^ open_bits p == p.value / 2 ^ open_bits p
