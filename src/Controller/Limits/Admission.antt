-- ===== src/Controller/Limits/Admission.antt =====
-- The bounds of the admission limiter of internal/controller/admission.go.
use asterferry.Base.{
  ℕ, zero, suc, ◌+◌, ◌-◌, ◌≤◌, ◌<◌, true, false, ◌||◌, ◌≡◌, refl, ap, ◌∙◌, some, List, [], ◌∷◌,
  String, leb, length, if◌then◌else◌, ◌==◌, ==-refl, nat_keyed, string_keyed, arith, Option-cases,
  Bool-cases, inl, inr, ◌⊎◌, subst, All,
}
use asterferry.Base.Maps.{
  Map, lookup, insert, erase, length-erase-le, length-insert-le, lookup-insert_self,
}
use asterferry.Base.Maps.Count.{All-insert, All-erase, All-lookup}
use asterferry.Controller.Limits.{
  AdmissionBucket, AdmissionLimiter, new_admission_limiter, drop_idle, drop_first, with_room,
  admission_bucket, admission_key, admit,
}

drop_idle-length-le :
    (now window : ℕ) (entries : Map String AdmissionBucket)
    → length (drop_idle now window entries) ≤ length entries
unfolding drop_idle
drop_idle-length-le now window [] = omega arith
drop_idle-length-le now window ((key, bucket) ∷ entries) =
    ground (arith, drop_idle-length-le now window entries)

drop_first-length :
    (entries : Map String AdmissionBucket) (n : ℕ)
    → length entries ≤ suc n
    → length (drop_first entries) ≤ n
unfolding drop_first erase
drop_first-length [] n h = omega arith
drop_first-length ((key, bucket) ∷ entries) n h =
    ground (arith, length-erase-le key entries, ==-refl key)

with_room-length :
    (l : AdmissionLimiter) (now n : ℕ)
    → l.max_entries ≡ suc n
    → length l.entries ≤ suc n
    → length (with_room l now) ≤ n
unfolding with_room
with_room-length l now n m h = ground (
  arith,
  drop_idle-length-le now l.window l.entries,
  drop_first-length (drop_idle now l.window l.entries) n,
)

-- No bucket has counted more requests than the limit.
abbrev pub Limited : AdmissionLimiter → Type 0
Limited l = All (λ (entry : String × AdmissionBucket). entry.1.count ≤ l.limit) l.entries

drop_idle-All :
    (P : String × AdmissionBucket → Type 0) (now window : ℕ) (entries : Map String AdmissionBucket)
    → All P entries
    → All P (drop_idle now window entries)
unfolding drop_idle
drop_idle-All P now window [] a = tt
drop_idle-All P now window ((key, bucket) ∷ entries) a =
    elim (leb window (now - bucket.last_seen))
      as (λ b. All P (
        if b then drop_idle now window entries else (key, bucket) ∷ drop_idle now window entries)) [
          | true ↦ drop_idle-All P now window entries a.1
          | false ↦ (a.0, drop_idle-All P now window entries a.1)
        ]

drop_first-All :
    (P : String × AdmissionBucket → Type 0) (entries : Map String AdmissionBucket)
    → All P entries
    → All P (drop_first entries)
unfolding drop_first
drop_first-All P [] a = tt
drop_first-All P ((key, bucket) ∷ entries) a = All-erase P key ((key, bucket) ∷ entries) a

with_room-All :
    (P : String × AdmissionBucket → Type 0) (l : AdmissionLimiter) (now : ℕ)
    → All P l.entries
    → All P (with_room l now)
unfolding with_room
with_room-All P l now a =
    elim (leb l.max_entries (length l.entries))
      as (λ b. All P (
        if b
        then (if leb l.max_entries (length (drop_idle now l.window l.entries))
            then drop_first (drop_idle now l.window l.entries)
            else drop_idle now l.window l.entries)
        else l.entries)) [
          | false ↦ a
          | true ↦
              elim (leb l.max_entries (length (drop_idle now l.window l.entries)))
                as (λ b. All P (
                  if b
                  then drop_first (drop_idle now l.window l.entries)
                  else drop_idle now l.window l.entries)) [
                    | true ↦
                        drop_first-All P (drop_idle now l.window l.entries)
                          (drop_idle-All P now l.window l.entries a)
                    | false ↦ drop_idle-All P now l.window l.entries a
                  ]
        ]

admission_bucket-count :
    (l : AdmissionLimiter) (now : ℕ) (name : String) (entries : Map String AdmissionBucket)
    → All (λ (entry : String × AdmissionBucket). entry.1.count ≤ l.limit) entries
    → (admission_bucket l now (lookup name entries)).count ≤ l.limit
unfolding admission_bucket
admission_bucket-count l now name entries a = elim (Option-cases (lookup name entries)) [
  | inl q ↦ ground arith
  | inr (bucket, q) ↦
      ground
        (arith, All-lookup (λ (b : AdmissionBucket). b.count ≤ l.limit) name bucket entries a q)
]

-- The limiter after one request
record Admitted (l l' : AdmissionLimiter) : Type 0 where
  same_limit : l'.limit ≡ l.limit
  same_max : l'.max_entries ≡ l.max_entries
  fits : length l'.entries ≤ l.max_entries
  limited : All (λ (entry : String × AdmissionBucket). entry.1.count ≤ l.limit) l'.entries

abbrev asked_bucket : AdmissionLimiter → ℕ → String → AdmissionBucket
asked_bucket l now key = admission_bucket l now (lookup (admission_key key) (with_room l now))

-- The three ends of `admit`.
admit-cases :
    (l : AdmissionLimiter) (now : ℕ) (key : String)
    → (((admit l now key).0 ≡ l) × ((admit l now key).1 ≡ true))
      ⊎ (((leb l.limit (asked_bucket l now key).count ≡ true)
            × ((admit l now key).0 ≡ record l {
              entries = insert (admission_key key) (asked_bucket l now key) (with_room l now);
            })
            × (1000000000 ≤ (admit l now key).2))
          ⊎ ((leb l.limit (asked_bucket l now key).count ≡ false)
              × ((admit l now key).1 ≡ true)
              × ((admit l now key).0 ≡ record l {
                entries =
                    insert
                      (admission_key key)
                      (record (asked_bucket l now key) {
                        count = (asked_bucket l now key).count + 1;
                      })
                      (with_room l now);
              })))
unfolding admit
admit-cases l now key = elim (Bool-cases (l.limit == 0 || l.window == 0)) [
  | inl off ↦ inl (ground arith, ground arith)
  | inr on ↦ elim (Bool-cases (leb l.limit (asked_bucket l now key).count)) [
    | inl full ↦ inr (inl (full, ground arith, ground arith))
    | inr room ↦ inr (inr (room, ground arith, ground arith))
  ]
]

admit-Admitted :
    (l : AdmissionLimiter) (now n : ℕ) (key : String)
    → l.max_entries ≡ suc n
    → length l.entries ≤ l.max_entries
    → Limited l
    → Admitted l (admit l now key).0
admit-Admitted l now n key m fits limited =
    let name = admission_key key in
    let bucket = asked_bucket l now key in
    let room =
      with_room-All (λ (entry : String × AdmissionBucket). entry.1.count ≤ l.limit) l now limited in
    let small = with_room-length l now n m (omega (arith, m, fits)) in
    let count = admission_bucket-count l now name (with_room l now) room in
    elim (admit-cases l now key) [
      | inl (same, granted) ↦
          rw same (record { same_limit = refl; same_max = refl; fits = fits; limited = limited })
      | inr (inl (full, same, wait)) ↦ rw same (record {
        same_limit = refl;
        same_max = refl;
        fits = omega (arith, length-insert-le name bucket (with_room l now), small, m);
        limited =
            All-insert (λ (entry : String × AdmissionBucket). entry.1.count ≤ l.limit) name bucket
              (with_room l now) count room;
      })
      | inr (inr (free, granted, same)) ↦
          let next : AdmissionBucket = record bucket { count = bucket.count + 1 } in
          rw same (record {
            same_limit = refl;
            same_max = refl;
            fits = omega (arith, length-insert-le name next (with_room l now), small, m);
            limited =
                All-insert (λ (entry : String × AdmissionBucket). entry.1.count ≤ l.limit) name next
                  (with_room l now) (ground arith) room;
          })
    ]

-- The requests that arrive, with the time and the peer of each.
pub admits : AdmissionLimiter → List (ℕ × String) → AdmissionLimiter
admits l [] = l
admits l (request ∷ requests) = admits (admit l request.0 request.1).0 requests

admits-Admitted :
    (l : AdmissionLimiter) (n : ℕ) (requests : List (ℕ × String))
    → l.max_entries ≡ suc n
    → length l.entries ≤ l.max_entries
    → Limited l
    → Admitted l (admits l requests)
unfolding admits
admits-Admitted l n [] m fits limited = record {
  same_limit = refl;
  same_max = refl;
  fits = fits;
  limited = limited;
}
admits-Admitted l n (request ∷ requests) m fits limited =
    let l' : AdmissionLimiter = (admit l request.0 request.1).0 in
    let a = admit-Admitted l request.0 n request.1 m fits limited in
    let b =
      admits-Admitted l' n requests (a.same_max ∙ m) (omega (arith, a.fits, a.same_max))
        (rw a.same_limit a.limited) in
    record {
      same_limit = b.same_limit ∙ a.same_limit;
      same_max = b.same_max ∙ a.same_max;
      fits = omega (arith, b.fits, a.same_max);
      limited =
          subst
            (λ k.
              All (λ (entry : String × AdmissionBucket). entry.1.count ≤ k)
                (admits l' requests).entries)
            a.same_limit b.limited;
    }

-- After any requests at any times, an admission limiter that may keep at least one entry keeps at most
-- as many as it may, and no entry has counted more requests than the limit.
pub admits_bounds :
    (limit window max_entries : ℕ) (requests : List (ℕ × String))
    → 0 < max_entries
    → let l = admits (new_admission_limiter limit window max_entries) requests in
      (length l.entries ≤ max_entries)
      × All (λ (entry : String × AdmissionBucket). entry.1.count ≤ limit) l.entries
unfolding new_admission_limiter
admits_bounds limit window zero requests h = absurd (omega arith)
admits_bounds limit window (suc n) requests h =
    let a =
      admits-Admitted (new_admission_limiter limit window (suc n)) n requests refl (omega arith)
        tt in
    (a.fits, a.limited)

-- A request that is refused finds, under the limits of `admits_bounds`, a bucket that has counted the
-- limit in the window it stands in, and is told to wait for at least a second.
pub admit-refused :
    (l : AdmissionLimiter) (now : ℕ) (key : String)
    → Limited l
    → (admit l now key).1 ≡ false
    → (bucket : AdmissionBucket) × (lookup (admission_key key) (admit l now key).0.entries
        ≡ some bucket)
      × (bucket.count ≡ l.limit)
      × (1000000000 ≤ (admit l now key).2)
admit-refused l now key limited h =
    let name = admission_key key in
    let room =
      with_room-All (λ (entry : String × AdmissionBucket). entry.1.count ≤ l.limit) l now limited in
    let count = admission_bucket-count l now name (with_room l now) room in
    elim (admit-cases l now key) [
      | inl (same, granted) ↦ absurd (ground arith)
      | inr (inl (full, same, wait)) ↦ (
        asked_bucket l now key,
        ap (λ (x : AdmissionLimiter). lookup name x.entries) same
            ∙ lookup-insert_self name (asked_bucket l now key) (with_room l now),
        ground (arith, count),
        wait,
      )
      | inr (inr (free, granted, same)) ↦ absurd (ground arith)
    ]
