-- ===== src/Domain/Tests.antt =====
-- Runs of the domain checks.
use asterferry.Base.{true, false, ◌≡◌, ◌↔◌, refl, none, some, [], ◌∷◌, String}
use asterferry.Text.{
  trim_space, trim_left, trim_right, any_rune, split_host_port, split_last, split_at_colon,
  split_bracketed, split_plain, split_first, is_port, atoi, digits,
}
use asterferry.Domain.Types.{PortPool}
use asterferry.Domain.Id.{
  validate_id, starts_with_punctuation, ends_in_punctuation, is_host_port, is_endpoint,
  contains_control,
}
use asterferry.Domain.Id.Alphabet.{IsId, validate_id-IsId}
use asterferry.Domain.Selectors.{matches}
use asterferry.Domain.Pools.{
  validate_pool, validate_ranges, has_bad_range, has_overlap, overlaps_from, sort_ranges,
  insert_range, Apart, validate_pool-Apart,
}

dashed_refused : validate_id "gw-" ≡ some "id must not end with punctuation"
unfolding validate_id trim_space trim_left trim_right any_rune starts_with_punctuation
    ends_in_punctuation
dashed_refused = refl

endpoint_accepted : is_endpoint "[fe80::1]:443" ≡ true
unfolding is_endpoint is_host_port contains_control trim_space trim_left trim_right any_rune
    split_host_port split_last split_at_colon split_bracketed split_plain split_first is_port atoi
    digits
endpoint_accepted = refl

-- A nil label map fails a selector that an empty one with the same reading passes.
nil_labels : matches (("zone", "") ∷ []) none ≡ false
unfolding matches
nil_labels = refl

abbrev gateway_name : String
gateway_name = "Gw_7.eu-1"

validate_id-IsId_example : (validate_id gateway_name ≡ none) ↔ IsId gateway_name
validate_id-IsId_example = validate_id-IsId gateway_name

abbrev pool : PortPool
pool = record {
  tcp = record { min = 9000; max = 9010 } ∷ record { min = 7000; max = 7002 } ∷ [];
  udp = record { min = 53; max = 53 } ∷ [];
}

pool_accepted : validate_pool pool ≡ none
unfolding validate_pool validate_ranges has_bad_range has_overlap overlaps_from sort_ranges
    insert_range
pool_accepted = refl

validate_pool-Apart_example : Apart pool.tcp × Apart pool.udp
validate_pool-Apart_example = validate_pool-Apart pool pool_accepted
