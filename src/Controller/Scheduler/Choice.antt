-- ===== src/Controller/Scheduler/Choice.antt =====
-- Which gateway internal/controller/scheduler_placement.go chooses, and when it chooses none.
use asterferry.Base.{
  true, false, ◌≡◌, ◌⊎◌, refl, Option, List, [], ◌∷◌, map, inl, inr, if◌then◌else◌, nat_keyed,
  string_keyed, arith, All,
}
use asterferry.Base.Sets.{member, member-append}
use asterferry.Domain.Types.{Assignment, Binding}
use asterferry.Controller.Ports.{BindingKey, binding_keyed}
use asterferry.Controller.Scheduler.{
  Checks, GatewayCandidate, key_of, sort_candidates, insert_candidate, is_before, is_inactive,
  is_existing, add_occupied,
}

-- The candidate is one of a list.
abbrev pub Among : GatewayCandidate → List GatewayCandidate → Type 0
Among c [] = ⊥
Among c (d ∷ ds) = (c ≡ d) ⊎ Among c ds

module _ (existing : Option Assignment) where
  insert-Among :
      (c d : GatewayCandidate) (ds : List GatewayCandidate)
      → Among c (insert_candidate existing d ds)
      → (c ≡ d) ⊎ Among c ds
  unfolding insert_candidate
  insert-Among c d [] h = h
  insert-Among c d (x ∷ xs) h =
      (elim (is_before existing x d)
          as (λ b.
            Among c (if b then x ∷ insert_candidate existing d xs else d ∷ x ∷ xs)
            → (c ≡ d) ⊎ Among c (x ∷ xs)) [
              | true ↦ λ q. elim q [
                | inl here ↦ inr (inl here)
                | inr later ↦ elim (insert-Among c d xs later) [
                  | inl a ↦ inl a
                  | inr b ↦ inr (inr b)
                ]
              ]
              | false ↦ λ q. q
            ])
        h

  pub sort-Among :
      (c : GatewayCandidate) (ds : List GatewayCandidate)
      → Among c (sort_candidates existing ds)
      → Among c ds
  unfolding sort_candidates
  sort-Among c [] h = h
  sort-Among c (d ∷ ds) h = elim (insert-Among c d (sort_candidates existing ds) h) [
    | inl here ↦ inl here
    | inr later ↦ inr (sort-Among c ds later)
  ]

  module _ (P : GatewayCandidate → Type 0) where
    insert-All :
        (d : GatewayCandidate) (ds : List GatewayCandidate)
        → All P (insert_candidate existing d ds)
        → P d × All P ds
    unfolding insert_candidate
    insert-All d [] h = h
    insert-All d (x ∷ xs) h =
        (elim (is_before existing x d)
            as (λ b.
              All P (if b then x ∷ insert_candidate existing d xs else d ∷ x ∷ xs)
              → P d × All P (x ∷ xs)) [
                | true ↦ λ q. let (a, b) = insert-All d xs q.1 in (a, (q.0, b))
                | false ↦ λ q. q
              ])
          h

    pub sort-All : (ds : List GatewayCandidate) → All P (sort_candidates existing ds) → All P ds
    unfolding sort_candidates
    sort-All [] h = tt
    sort-All (d ∷ ds) h =
        let (a, b) = insert-All d (sort_candidates existing ds) h in (a, sort-All ds b)

module _ (checks : Checks) where
  -- Every binding of an assignment that stays in place is occupied.
  add_occupied-member :
      (existing : Option Assignment) (x : Assignment) (xs : List Assignment)
      (used : List BindingKey) (key : BindingKey)
      → member key (add_occupied checks existing xs used) ≡ true
      → member key (add_occupied checks existing (x ∷ xs) used) ≡ true
  unfolding add_occupied
  add_occupied-member existing x xs used key h = ground (
    arith,
    member-append key (map (key_of checks) x.bindings) (add_occupied checks existing xs used),
  )

  add_occupied-here :
      (existing : Option Assignment) (x : Assignment) (xs : List Assignment)
      (used : List BindingKey) (key : BindingKey)
      → is_inactive x ≡ false
      → is_existing existing x ≡ false
      → member key (map (key_of checks) x.bindings) ≡ true
      → member key (add_occupied checks existing (x ∷ xs) used) ≡ true
  unfolding add_occupied
  add_occupied-here existing x xs used key a b h = ground (
    arith,
    member-append key (map (key_of checks) x.bindings) (add_occupied checks existing xs used),
  )

  -- A key that is not in use differs from every key that was taken.
  unused-member :
      (key : BindingKey) (used : List BindingKey) (taken : List Binding)
      → member key used ≡ true
      → All (λ (b : Binding). member (key_of checks b) used ≡ false) taken
      → member key (map (key_of checks) taken) ≡ false
  unfolding member
  unused-member key used [] h a = refl
  unused-member key used (b ∷ bs) h a =
      ground
        (arith, unused-member key used bs h a.1, a.0, binding_keyed.same_iff (key_of checks b) key)

  -- No binding that was taken is one of an assignment that stays in place on the same gateway.
  abbrev pub ApartFrom : Option Assignment → List Binding → Assignment → Type 0
  ApartFrom existing taken other =
      is_inactive other ≡ false
      → is_existing existing other ≡ false
      → (key : BindingKey) → member key (map (key_of checks) other.bindings) ≡ true
      → member key (map (key_of checks) taken) ≡ false

  pub apart :
      (existing : Option Assignment) (others : List Assignment) (used all_used : List BindingKey)
      (taken : List Binding)
      → ((key : BindingKey)
          → member key (add_occupied checks existing others used) ≡ true
          → member key all_used ≡ true)
      → All (λ (b : Binding). member (key_of checks b) all_used ≡ false) taken
      → All (ApartFrom existing taken) others
  apart existing [] used all_used taken within a = tt
  apart existing (x ∷ xs) used all_used taken within a = (
    λ active other key h.
        unused-member key all_used taken
          (within key (add_occupied-here existing x xs used key active other h)) a,
    apart existing xs used all_used taken
        (λ key h. within key (add_occupied-member existing x xs used key h)) a,
  )
