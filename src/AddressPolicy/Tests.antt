-- ===== src/AddressPolicy/Tests.antt =====
-- Runs of the address policy.
use asterferry.Base.{◌+◌, ◌*◌, ◌^◌, true, false, ◌≡◌, refl, [], ◌∷◌}
use asterferry.Netip.{Address, Prefix, unmap, masked, prefix_contains}
use asterferry.AddressPolicy.{
  special_use_prefixes, is_special, is_special_prefix, is_inside, contains, contains_any,
  contains-special,
}

abbrev mapped_loopback : Address
mapped_loopback = record { bit_len = 128; value = 65535 * 2 ^ 32 + 127 * 2 ^ 24 + 1; zoned = false }

abbrev loopback : Prefix
loopback = record { bit_len = 32; value = 127 * 2 ^ 24 + 5; bits = 16 }

-- 10.0.0.0/7 holds public addresses too.
broad_refused : is_special_prefix (record { bit_len = 32; value = 10 * 2 ^ 24; bits = 7 }) ≡ false
unfolding is_special_prefix special_use_prefixes is_inside masked prefix_contains
broad_refused = refl

public_address : is_special (record { bit_len = 32; value = 2 ^ 24 + 1; zoned = false }) ≡ false
unfolding is_special contains_any special_use_prefixes prefix_contains unmap
public_address = refl

loopback_accepted : is_special_prefix loopback ≡ true
unfolding is_special_prefix special_use_prefixes is_inside masked prefix_contains
loopback_accepted = refl

loopback_contains : contains (loopback ∷ []) mapped_loopback ≡ true
unfolding contains contains_any prefix_contains unmap
loopback_contains = refl

contains-special_example : is_special mapped_loopback ≡ true
contains-special_example =
    contains-special (loopback ∷ []) mapped_loopback (loopback_accepted, tt) loopback_contains
