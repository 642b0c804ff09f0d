-- ===== src/Afdp/Control/Capabilities.antt =====
-- internal/afdp/protocol_capabilities.go: sorting and intersecting capability lists. `sort.Strings` is
-- an insertion sort by the order of the bytes.
use Prim.Native.Nat.{Ordering}
use Prim.Native.String.{compare}
use asterferry.Base.{
  Bool, true, false, not, ◌&&◌, ◌||◌, ◌≡◌, refl, List, [], ◌∷◌, String, if◌then◌else◌, ◌==◌,
  string_keyed, arith,
}
use asterferry.Base.Sets.{member, NoRepeat}

-- `right < left`
abbrev pub string_before : String → String → Bool
string_before right left = elim (compare right left) [ Ordering.lt ↦ true | _ ↦ false ]

unfoldable pub insert_string : String → List String → List String
insert_string x [] = x ∷ []
insert_string x (y ∷ ys) =
    let rest = insert_string x ys in if string_before y x then y ∷ rest else x ∷ y ∷ ys

unfoldable pub sort_strings : List String → List String
sort_strings [] = []
sort_strings (x ∷ xs) = insert_string x (sort_strings xs)

unfoldable pub canonical_capabilities : List String → List String
canonical_capabilities = sort_strings

unfoldable pub canonical_service_ids : List String → List String
canonical_service_ids = sort_strings

abbrev pub default_capabilities : List String
default_capabilities = "http" ∷ "socks5" ∷ "tcp" ∷ "udp" ∷ []

-- The loop over the local capabilities, with those kept before.
unfoldable pub intersect : List String → List String → List String → List String
intersect peer seen [] = []
intersect peer seen (capability ∷ local) =
    let kept = intersect peer (capability ∷ seen) local in
    let dropped = intersect peer seen local in
    if not (member capability peer)
    then dropped
    else (if member capability seen then dropped else capability ∷ kept)

-- The list that stands in for an empty local one.
unfoldable pub offered : List String → List String
offered [] = default_capabilities
offered (x ∷ xs) = x ∷ xs

unfoldable pub negotiate_capabilities : List String → List String → List String
negotiate_capabilities local peer = canonical_capabilities (intersect peer [] (offered local))

member-insert_string :
    (key x : String) (ys : List String)
    → member key (insert_string x ys) ≡ (x == key || member key ys)
unfolding insert_string member
member-insert_string key x [] = refl
member-insert_string key x (y ∷ ys) = ground (arith, member-insert_string key x ys)

pub member-sort_strings :
    (key : String) (xs : List String) → member key (sort_strings xs) ≡ member key xs
unfolding sort_strings member
member-sort_strings key [] = refl
member-sort_strings key (x ∷ xs) =
    ground (arith, member-sort_strings key xs, member-insert_string key x (sort_strings xs))

NoRepeat-insert_string :
    (x : String) (ys : List String)
    → member x ys ≡ false
    → NoRepeat ys
    → NoRepeat (insert_string x ys)
unfolding insert_string member
NoRepeat-insert_string x [] h n = (refl, tt)
NoRepeat-insert_string x (y ∷ ys) h n = ground (
  arith,
  NoRepeat-insert_string x ys,
  member-insert_string y x ys,
  string_keyed.same_iff x y,
  string_keyed.same_iff y x,
)

pub NoRepeat-sort_strings : (xs : List String) → NoRepeat xs → NoRepeat (sort_strings xs)
unfolding sort_strings
NoRepeat-sort_strings [] n = tt
NoRepeat-sort_strings (x ∷ xs) n =
    NoRepeat-insert_string x (sort_strings xs) (rw (member-sort_strings x xs) n.0)
      (NoRepeat-sort_strings xs n.1)

member-nil : (key : String) → member key [] ≡ false
unfolding member
member-nil key = refl

member-intersect :
    (key : String) (peer seen local : List String)
    → member key (intersect peer seen local)
      ≡ (member key local && member key peer && not (member key seen))
unfolding intersect member
member-intersect key peer seen [] = ground arith
member-intersect key peer seen (x ∷ local) = ground (
  arith,
  member-intersect key peer (x ∷ seen) local,
  member-intersect key peer seen local,
  string_keyed.same_iff x key,
)

NoRepeat-intersect : (peer seen local : List String) → NoRepeat (intersect peer seen local)
unfolding intersect member
NoRepeat-intersect peer seen [] = tt
NoRepeat-intersect peer seen (x ∷ local) = ground (
  arith,
  NoRepeat-intersect peer (x ∷ seen) local,
  NoRepeat-intersect peer seen local,
  member-intersect x peer (x ∷ seen) local,
  string_keyed.same_iff x x,
)

-- NegotiateCapabilities returns each capability once, and returns exactly those that both the peer
-- and the local list offer; an empty local list stands for the four default capabilities.
pub negotiate_capabilities-common :
    (local peer : List String)
    → NoRepeat (negotiate_capabilities local peer)
      × ((key : String)
          → member key (negotiate_capabilities local peer)
            ≡ (member key (offered local) && member key peer))
unfolding negotiate_capabilities canonical_capabilities
negotiate_capabilities-common local peer = (
  NoRepeat-sort_strings common (NoRepeat-intersect peer [] (offered local)),
  λ key. ground (
    arith,
    member-sort_strings key common,
    member-intersect key peer [] (offered local),
    member-nil key,
  ),
)
  where
    common : List String
    common = intersect peer [] (offered local)
