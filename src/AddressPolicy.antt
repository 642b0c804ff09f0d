-- ===== src/AddressPolicy.antt =====
-- internal/addresspolicy: the special-use address ranges, and which addresses and prefixes lie in them.
-- The texts of the table are parsed when the program starts; here they are the parsed and masked
-- prefixes.
mod Tests
use asterferry.Base.{
  ℕ, ◌+◌, ◌*◌, ◌^◌, Bool, false, true, ◌&&◌, ◌||◌, ◌≡◌, refl, List, [], ◌∷◌, leb, any, All,
  if◌then◌else◌, ◌==◌, nat_keyed, arith,
}
use asterferry.Netip.{Address, Prefix, unmap, masked, address_of, prefix_contains}
use asterferry.Netip.Subnets.{contains-inner}

abbrev ipv4 : ℕ → ℕ → ℕ → ℕ → ℕ → Prefix
ipv4 a b c d bits = record {
  bit_len = 32;
  value = a * 2 ^ 24 + b * 2 ^ 16 + c * 2 ^ 8 + d;
  bits = bits;
}

-- An IPv6 prefix with its first three groups and its last one.
abbrev ipv6 : ℕ → ℕ → ℕ → ℕ → ℕ → Prefix
ipv6 a b c z bits = record {
  bit_len = 128;
  value = a * 2 ^ 112 + b * 2 ^ 96 + c * 2 ^ 80 + z;
  bits = bits;
}

unfoldable pub special_use_prefixes : List Prefix
special_use_prefixes =
    ipv4 0 0 0 0 8
    ∷ ipv4 10 0 0 0 8
    ∷ ipv4 100 64 0 0 10
    ∷ ipv4 127 0 0 0 8
    ∷ ipv4 168 63 129 16 32
    ∷ ipv4 169 254 0 0 16
    ∷ ipv4 172 16 0 0 12
    ∷ ipv4 192 0 0 0 24
    ∷ ipv4 192 0 2 0 24
    ∷ ipv4 192 88 99 0 24
    ∷ ipv4 192 168 0 0 16
    ∷ ipv4 198 18 0 0 15
    ∷ ipv4 198 51 100 0 24
    ∷ ipv4 203 0 113 0 24
    ∷ ipv4 224 0 0 0 4
    ∷ ipv4 240 0 0 0 4
    ∷ ipv6 0 0 0 0 128
    ∷ ipv6 0 0 0 1 128
    ∷ ipv6 0x100 0 0 0 64
    ∷ ipv6 0x2001 2 0 0 48
    ∷ ipv6 0x2001 0x10 0 0 28
    ∷ ipv6 0x2001 0xdb8 0 0 32
    ∷ ipv6 0xfc00 0 0 0 7
    ∷ ipv6 0xfe80 0 0 0 10
    ∷ ipv6 0xff00 0 0 0 8
    ∷ []

-- The loop of IsSpecial and of Contains
unfoldable pub contains_any : List Prefix → Address → Bool
contains_any [] a = false
contains_any (p ∷ prefixes) a = prefix_contains p a || contains_any prefixes a

unfoldable pub is_special : Address → Bool
is_special a = contains_any special_use_prefixes (unmap a)

-- The test of one special range in IsSpecialPrefix
unfoldable pub is_inside : Prefix → Prefix → Bool
is_inside p special =
    p.bit_len == special.bit_len
    && leb special.bits p.bits
    && prefix_contains special (address_of p)

unfoldable pub is_special_prefix : Prefix → Bool
is_special_prefix p = any (is_inside (masked p)) special_use_prefixes

-- `Contains`
unfoldable pub contains : List Prefix → Address → Bool
contains prefixes a = contains_any prefixes (unmap a)

inside-contains :
    (specials : List Prefix) (p : Prefix) (a : Address)
    → any (is_inside (masked p)) specials ≡ true
    → prefix_contains p a ≡ true
    → contains_any specials a ≡ true
unfolding is_inside contains_any masked
inside-contains [] p a inside held = inside
inside-contains (special ∷ specials) p a inside held =
    ground (arith, inside-contains specials p a, contains-inner special p a)

-- An address that Contains finds in a list of prefixes is special, if each of the prefixes is one that
-- IsSpecialPrefix accepts: no such prefix lets a public address in, also none that is IPv4-mapped.
pub contains-special :
    (prefixes : List Prefix) (a : Address)
    → All (λ p. is_special_prefix p ≡ true) prefixes
    → contains prefixes a ≡ true
    → is_special a ≡ true
unfolding contains contains_any is_special is_special_prefix
contains-special [] a accepted held = absurd (cc)
contains-special (p ∷ prefixes) a accepted held = ground (
  arith,
  inside-contains special_use_prefixes p (unmap a) accepted.0,
  contains-special prefixes a accepted.1,
)
