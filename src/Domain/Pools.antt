-- ===== src/Domain/Pools.antt =====
-- internal/domain/model_validation_network.go: PortPool.Validate. The `range` over the two protocols is
-- taken as TCP before UDP: Go leaves the order open, and it decides only which message is returned.
use asterferry.Base.{
  ℕ, ◌≤◌, Bool, false, ◌&&◌, ◌||◌, ◌≡◌, refl, Option, none, some, inl, inr, List, [], ◌∷◌, String,
  ltb, leb, if◌then◌else◌, ◌==◌, nat_keyed, arith, sum_by, Bool-cases,
}
use asterferry.Domain.Types.{PortRange, PortPool}

-- The order of `sort.Slice`
abbrev range_before : PortRange → PortRange → Bool
range_before a b = if a.min == b.min then ltb a.max b.max else ltb a.min b.min

unfoldable pub insert_range : PortRange → List PortRange → List PortRange
insert_range r [] = r ∷ []
insert_range r (s ∷ ranges) =
    let rest = insert_range r ranges in if range_before s r then s ∷ rest else r ∷ s ∷ ranges

unfoldable pub sort_ranges : List PortRange → List PortRange
sort_ranges [] = []
sort_ranges (r ∷ ranges) = insert_range r (sort_ranges ranges)

-- The first loop: some range is empty or holds port 0.
unfoldable pub has_bad_range : List PortRange → Bool
has_bad_range [] = false
has_bad_range (r ∷ ranges) = r.min == 0 || ltb r.max r.min || has_bad_range ranges

-- The second loop, behind a range of the sorted list.
unfoldable pub overlaps_from : PortRange → List PortRange → Bool
overlaps_from previous [] = false
overlaps_from previous (r ∷ ranges) = leb r.min previous.max || overlaps_from r ranges

unfoldable pub has_overlap : List PortRange → Bool
has_overlap [] = false
has_overlap (r ∷ ranges) = overlaps_from r ranges

unfoldable pub validate_ranges : List PortRange → Option String
validate_ranges ranges =
    if has_bad_range ranges
    then some "port range is invalid"
    else (if has_overlap (sort_ranges ranges) then some "port ranges overlap" else none)

unfoldable pub validate_pool : PortPool → Option String
validate_pool pool = elim (validate_ranges pool.tcp) [
  | some message ↦ some message
  | none ↦ validate_ranges pool.udp
]

-- How many ranges of a list hold a port.
abbrev pub hits : ℕ → List PortRange → ℕ
hits port = sum_by (λ (r : PortRange). if leb r.min port && leb port r.max then 1 else 0)

hits-insert_range :
    (port : ℕ) (r : PortRange) (ranges : List PortRange)
    → hits port (insert_range r ranges) ≡ hits port (r ∷ ranges)
unfolding insert_range
hits-insert_range port r [] = refl
hits-insert_range port r (s ∷ ranges) = ground (arith, hits-insert_range port r ranges)

hits-sort_ranges :
    (port : ℕ) (ranges : List PortRange) → hits port (sort_ranges ranges) ≡ hits port ranges
unfolding sort_ranges
hits-sort_ranges port [] = refl
hits-sort_ranges port (r ∷ ranges) =
    omega (arith, hits-insert_range port r (sort_ranges ranges), hits-sort_ranges port ranges)

bad-insert_range :
    (r : PortRange) (ranges : List PortRange)
    → has_bad_range (insert_range r ranges) ≡ has_bad_range (r ∷ ranges)
unfolding insert_range has_bad_range
bad-insert_range r [] = refl
bad-insert_range r (s ∷ ranges) = ground (arith, bad-insert_range r ranges)

bad-sort_ranges :
    (ranges : List PortRange) → has_bad_range (sort_ranges ranges) ≡ has_bad_range ranges
unfolding sort_ranges has_bad_range
bad-sort_ranges [] = refl
bad-sort_ranges (r ∷ ranges) =
    ground (arith, bad-insert_range r (sort_ranges ranges), bad-sort_ranges ranges)

-- A port that is not above a range is in none of the ranges behind it.
hits-below :
    (port : ℕ) (previous : PortRange) (ranges : List PortRange)
    → has_bad_range ranges ≡ false
    → overlaps_from previous ranges ≡ false
    → port ≤ previous.max
    → hits port ranges ≡ 0
unfolding overlaps_from has_bad_range
hits-below port previous [] bad apart below = refl
hits-below port previous (r ∷ ranges) bad apart below = ground (arith, hits-below port r ranges)

hits-le :
    (port : ℕ) (previous : PortRange) (ranges : List PortRange)
    → has_bad_range (previous ∷ ranges) ≡ false
    → overlaps_from previous ranges ≡ false
    → hits port (previous ∷ ranges) ≤ 1
unfolding overlaps_from has_bad_range
hits-le port previous [] bad apart = ground arith
hits-le port previous (r ∷ ranges) bad apart = elim (Bool-cases (leb port previous.max)) [
  | inl below ↦
      ground
        (arith, hits-below port previous (r ∷ ranges) (ground arith) (ground arith) (ground arith))
  | inr above ↦ ground (arith, hits-le port r ranges (ground arith) (ground arith))
]

sorted-hits-le :
    (port : ℕ) (ranges : List PortRange)
    → has_bad_range ranges ≡ false
    → has_overlap ranges ≡ false
    → hits port ranges ≤ 1
unfolding has_overlap
sorted-hits-le port [] bad apart = omega arith
sorted-hits-le port (r ∷ ranges) bad apart = hits-le port r ranges bad apart

hits-zero : (ranges : List PortRange) → has_bad_range ranges ≡ false → hits 0 ranges ≡ 0
unfolding has_bad_range
hits-zero [] bad = refl
hits-zero (r ∷ ranges) bad = ground (arith, hits-zero ranges)

-- What holds of the ranges of one protocol that were accepted.
pub record Apart (ranges : List PortRange) : Type 0 where
  pub at_most_one : (port : ℕ) → hits port ranges ≤ 1
  pub no_zero : hits 0 ranges ≡ 0

validate_ranges-Apart : (ranges : List PortRange) → validate_ranges ranges ≡ none → Apart ranges
unfolding validate_ranges
validate_ranges-Apart ranges h = record {
  at_most_one = λ port. omega (
    arith,
    hits-sort_ranges port ranges,
    sorted-hits-le port (sort_ranges ranges) (ground (arith, bad-sort_ranges ranges))
        (ground arith),
  );
  no_zero = hits-zero ranges (ground arith);
}

-- In a pool that PortPool.Validate accepts, no port lies in two ranges of the same protocol, whatever
-- the order of the ranges, and port 0 lies in none.
pub validate_pool-Apart :
    (pool : PortPool) → validate_pool pool ≡ none → Apart pool.tcp × Apart pool.udp
unfolding validate_pool
validate_pool-Apart pool h =
    (validate_ranges-Apart pool.tcp (ground arith), validate_ranges-Apart pool.udp (ground arith))
