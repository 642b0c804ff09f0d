-- ===== src/Base/Maps/Count.antt =====
-- Sums, lengths and predicates over the entries of a map, under insertion and deletion.
use asterferry.Base.Tests.{if◌then◌else◌}
use asterferry.Base.Equality.{Keyed, ◌==◌}
use asterferry.Base.Lists.{length, All, sum_by}
use asterferry.Base.Maps.{Map, lookup, insert, erase, lookup-erase, lookup-insert, length-erase-le}
use Prim.Native.Nat.{ℕ, suc, ◌+◌, ◌≤◌}
use mathlib.Core.Bool.{true, false}
use mathlib.Core.Path.{◌≡◌, refl, ap, subst}
use mathlib.Core.List.{[], ◌∷◌}
use mathlib.Core.Option.{none, some}
use native.Mathlib.Omega.{arith}

module _ {ℓ κ} {K : Type ℓ} {V : Type κ} ⦃keyed : Keyed K⦄ where
  -- No key occurs twice: what the type `map` gives for nothing.
  abbrev pub Unique : Map K V → Type (ℓ ⊔ κ)
  Unique [] = Unit
  Unique ((k, v) ∷ m) = (lookup k m ≡ none) × Unique m

  pub erase-absent : (k : K) (m : Map K V) → lookup k m ≡ none → erase k m ≡ m
  unfolding lookup erase
  erase-absent k [] h = refl
  erase-absent k ((j, v) ∷ m) h = ground (arith, erase-absent k m)

  pub Unique-erase : (k : K) (m : Map K V) → Unique m → Unique (erase k m)
  unfolding erase
  Unique-erase k [] u = tt
  Unique-erase k ((j, v) ∷ m) u = ground (arith, Unique-erase k m u.1, lookup-erase k j m)

  pub Unique-insert : (k : K) (v : V) (m : Map K V) → Unique m → Unique (insert k v m)
  unfolding insert lookup
  Unique-insert k v [] u = (refl, tt)
  Unique-insert k v ((j, w) ∷ m) u = ground (
    arith,
    Unique-insert k v m u.1,
    lookup-insert k j v m,
    keyed.same_iff j k,
    keyed.same_iff k j,
  )

  pub length-insert_new :
      (k : K) (v : V) (m : Map K V) → lookup k m ≡ none → length (insert k v m) ≡ suc (length m)
  unfolding lookup insert
  length-insert_new k v [] h = refl
  length-insert_new k v ((j, w) ∷ m) h = ground (arith, length-insert_new k v m)

  pub length-insert_old :
      (k : K) (v w : V) (m : Map K V) → lookup k m ≡ some w → length (insert k v m) ≡ length m
  unfolding lookup insert
  length-insert_old k v w [] h = cc
  length-insert_old k v w ((j, x) ∷ m) h = ground (arith, length-insert_old k v w m)

  pub length-erase_old :
      (k : K) (w : V) (m : Map K V) → lookup k m ≡ some w → suc (length (erase k m)) ≤ length m
  unfolding lookup erase
  length-erase_old k w [] h = cc
  length-erase_old k w ((j, x) ∷ m) h = ground (arith, length-erase_old k w m, length-erase-le k m)

  module _ {μ} (P : K × V → Type μ) where
    pub All-insert : (k : K) (v : V) (m : Map K V) → P (k, v) → All P m → All P (insert k v m)
    unfolding insert
    All-insert k v [] p h = (p, tt)
    All-insert k v ((j, w) ∷ m) p h =
        elim (j == k) as (λ b. All P (if b then (k, v) ∷ m else (j, w) ∷ insert k v m)) [
          | true ↦ (p, h.1)
          | false ↦ (h.0, All-insert k v m p h.1)
        ]

    pub All-erase : (k : K) (m : Map K V) → All P m → All P (erase k m)
    unfolding erase
    All-erase k [] h = tt
    All-erase k ((j, w) ∷ m) h =
        elim (j == k) as (λ b. All P (if b then erase k m else (j, w) ∷ erase k m)) [
          | true ↦ All-erase k m h.1
          | false ↦ (h.0, All-erase k m h.1)
        ]

  pub All-lookup {μ} :
      (P : V → Type μ) (k : K) (v : V) (m : Map K V)
      → All (λ (p : K × V). P p.1) m
      → lookup k m ≡ some v
      → P v
  unfolding lookup
  All-lookup P k v [] a h = absurd (cc)
  All-lookup P k v ((j, w) ∷ m) a h =
      (elim (j == k) as (λ b. (if b then some w else lookup k m) ≡ some v → P v) [
        | true ↦ λ q. let same : w ≡ v = cc in subst P same a.0
        | false ↦ All-lookup P k v m a.1
      ])
        h

  module _ (f : V → ℕ) where
    -- The sum of a measure over all entries.
    abbrev pub total : Map K V → ℕ
    total = sum_by (λ (p : K × V). f p.1)

    pub total-erase :
        (k : K) (v : V) (m : Map K V)
        → Unique m
        → lookup k m ≡ some v
        → f v + total (erase k m) ≡ total m
    unfolding lookup erase
    total-erase k v [] u h = absurd (cc)
    total-erase k v ((j, w) ∷ m) u h =
        ground (arith, total-erase k v m u.1, keyed.same_iff j k, ap total (erase-absent j m u.0))

    pub total-insert_new :
        (k : K) (v : V) (m : Map K V) → lookup k m ≡ none → total (insert k v m) ≡ f v + total m
    unfolding lookup insert
    total-insert_new k v [] h = refl
    total-insert_new k v ((j, w) ∷ m) h = ground (arith, total-insert_new k v m)

    pub total-insert_old :
        (k : K) (v w : V) (m : Map K V)
        → lookup k m ≡ some w
        → total (insert k v m) + f w ≡ total m + f v
    unfolding lookup insert
    total-insert_old k v w [] h = absurd (cc)
    total-insert_old k v w ((j, x) ∷ m) h = ground (arith, total-insert_old k v w m)
