-- ===== src/Controller/Limits/Login.antt =====
-- The bounds and the lockout of the login limiter of internal/controller/ratelimit.go.
use asterferry.Base.{
  ℕ, zero, suc, ◌≤◌, ◌<◌, ◌≡◌, refl, none, some, List, [], ◌∷◌, String, length, ==-refl, nat_keyed,
  string_keyed, arith, Option-cases, inl, inr,
}
use asterferry.Base.Maps.{Map, lookup, erase, length-erase-le, length-insert-le}
use asterferry.Base.Maps.Count.{length-insert_old}
use asterferry.Controller.Limits.{
  LoginBucket, LoginLimiter, new_login_limiter, purge_some, evict_for_insert, unique_keys,
  allow_key, allow_keys, allow, current_bucket, counted, fail_key, fail_keys, failure, forget_keys,
  success,
}

purge_some-length-le :
    (l : LoginLimiter) (now n : ℕ) (entries : Map String LoginBucket)
    → length (purge_some l now n entries) ≤ length entries
unfolding purge_some
purge_some-length-le l now zero entries = omega arith
purge_some-length-le l now (suc n) [] = omega arith
purge_some-length-le l now (suc n) ((key, bucket) ∷ entries) =
    ground (arith, purge_some-length-le l now n entries)

evict_for_insert-length :
    (l : LoginLimiter) (entries : Map String LoginBucket)
    → 0 < l.max_entries
    → length entries ≤ l.max_entries
    → length (evict_for_insert l entries) < l.max_entries
unfolding evict_for_insert erase
evict_for_insert-length l [] h b = omega arith
evict_for_insert-length l ((key, bucket) ∷ entries) h b =
    ground (arith, length-erase-le key entries, ==-refl key)

fail_key-length :
    (l : LoginLimiter) (now : ℕ) (key : String) (entries : Map String LoginBucket)
    → 0 < l.max_entries
    → length entries ≤ l.max_entries
    → length (fail_key l now key entries) ≤ l.max_entries
unfolding fail_key
fail_key-length l now key entries h b = elim (Option-cases (lookup key entries)) [
  | inl q ↦ ground (
    arith,
    evict_for_insert-length l entries h b,
    length-insert-le key (counted l now (current_bucket l now none)) (evict_for_insert l entries),
  )
  | inr (old, q) ↦
      ground (
        arith,
        length-insert_old key (counted l now (current_bucket l now (some old))) old entries q,
      )
]

fail_keys-length :
    (l : LoginLimiter) (now : ℕ) (keys : List String) (entries : Map String LoginBucket)
    → 0 < l.max_entries
    → length entries ≤ l.max_entries
    → length (fail_keys l now keys entries) ≤ l.max_entries
unfolding fail_keys
fail_keys-length l now [] entries h b = b
fail_keys-length l now (key ∷ keys) entries h b =
    fail_keys-length l now keys (fail_key l now key entries) h
      (fail_key-length l now key entries h b)

allow_key-length :
    (l : LoginLimiter) (now : ℕ) (key : String) (state : Map String LoginBucket × ℕ)
    → length (allow_key l now key state).0 ≤ length state.0
unfolding allow_key
allow_key-length l now key state = ground (arith, length-erase-le key state.0)

allow_keys-length :
    (l : LoginLimiter) (now : ℕ) (keys : List String) (state : Map String LoginBucket × ℕ)
    → length (allow_keys l now keys state).0 ≤ length state.0
unfolding allow_keys
allow_keys-length l now [] state = omega arith
allow_keys-length l now (key ∷ keys) state = omega (
  arith,
  allow_keys-length l now keys (allow_key l now key state),
  allow_key-length l now key state,
)

forget_keys-length :
    (keys : List String) (entries : Map String LoginBucket)
    → length (forget_keys keys entries) ≤ length entries
unfolding forget_keys
forget_keys-length [] entries = omega arith
forget_keys-length (key ∷ keys) entries =
    omega (arith, forget_keys-length keys (erase key entries), length-erase-le key entries)

-- The calls of the login handler, from any number of requests.
pub data Call : Type 0 where
  allows fails : ℕ → List String → Call
  succeeds : List String → Call

pub step : LoginLimiter → Call → LoginLimiter
step l (allows now keys) = (allow l now keys).0
step l (fails now keys) = failure l now keys
step l (succeeds keys) = success l keys

pub run : LoginLimiter → List Call → LoginLimiter
run l [] = l
run l (c ∷ cs) = run (step l c) cs

step-length :
    (l : LoginLimiter) (c : Call)
    → 0 < l.max_entries
    → length l.entries ≤ l.max_entries
    → (length (step l c).entries ≤ l.max_entries) × ((step l c).max_entries ≡ l.max_entries)
unfolding step allow failure success
step-length l (allows now keys) h b = (
  omega (
    arith,
    allow_keys-length l now (unique_keys [] keys) (purge_some l now 64 l.entries, 0),
    purge_some-length-le l now 64 l.entries,
  ),
  refl,
)
step-length l (fails now keys) h b = (
  fail_keys-length l now (unique_keys [] keys) (purge_some l now 64 l.entries) h
      (omega (arith, purge_some-length-le l now 64 l.entries)),
  refl,
)
step-length l (succeeds keys) h b =
    (omega (arith, forget_keys-length (unique_keys [] keys) l.entries), refl)

run-length :
    (l : LoginLimiter) (cs : List Call)
    → 0 < l.max_entries
    → length l.entries ≤ l.max_entries
    → length (run l cs).entries ≤ l.max_entries
unfolding run
run-length l [] h b = b
run-length l (c ∷ cs) h b =
    let (fits, same) = step-length l c h b in
    omega
      (arith, same, run-length (step l c) cs (omega (arith, same, h)) (omega (arith, same, fits)))

-- After any sequence of attempts, failures and successes under any keys, the login limiter keeps at
-- most 10000 entries.
pub run_entries : (cs : List Call) → length (run new_login_limiter cs).entries ≤ 10000
unfolding new_login_limiter
run_entries cs = run-length new_login_limiter cs (omega arith) (omega arith)
