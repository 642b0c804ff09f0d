-- ===== src/Controller/Limits/Lockout.antt =====
-- Failures that follow each other within one window lock a key out (internal/controller/ratelimit.go).
use asterferry.Base.{
  ℕ, zero, suc, ◌+◌, ◌-◌, ◌≤◌, ◌<◌, false, ◌≡◌, ◌≢◌, refl, ap, ◌∙◌, none, some, List, [], ◌∷◌,
  String, is_none, length, if◌then◌else◌, ==-false, nat_keyed, string_keyed, arith, subst,
}
use asterferry.Base.Maps.{Map, lookup, lookup-insert_self}
use asterferry.Base.Sets.{member}
use asterferry.Controller.Limits.{
  LoginBucket, LoginLimiter, is_stale, purge_some, evict_for_insert, unique_keys, allow_key,
  allow_keys, allow, current_bucket, counted, fail_key, fail_keys, failure,
}

purge_some-none :
    (l : LoginLimiter) (now n : ℕ) (key : String) (entries : Map String LoginBucket)
    → lookup key entries ≡ none
    → lookup key (purge_some l now n entries) ≡ none
unfolding purge_some lookup
purge_some-none l now zero key entries h = h
purge_some-none l now (suc n) key [] h = refl
purge_some-none l now (suc n) key ((other, bucket) ∷ entries) h =
    ground (arith, purge_some-none l now n key entries)

purge_some-kept :
    (l : LoginLimiter) (now n : ℕ) (key : String) (bucket : LoginBucket)
    (entries : Map String LoginBucket)
    → lookup key entries ≡ some bucket
    → is_stale l now bucket ≡ false
    → lookup key (purge_some l now n entries) ≡ some bucket
unfolding purge_some lookup
purge_some-kept l now zero key bucket entries h s = h
purge_some-kept l now (suc n) key bucket [] h s = absurd (cc)
purge_some-kept l now (suc n) key bucket ((other, found) ∷ entries) h s =
    ground (arith, purge_some-kept l now n key bucket entries)

module _ (key : String) (named : key ≢ "") where
  one_key : unique_keys [] (key ∷ []) ≡ key ∷ []
  unfolding unique_keys member
  one_key = rw (==-false key "" named) refl

  failure-bucket :
      (l : LoginLimiter) (now : ℕ)
      → lookup key (failure l now (key ∷ [])).entries
        ≡ some (counted l now (current_bucket l now (lookup key (purge_some l now 64 l.entries))))
  unfolding failure fail_keys fail_key
  failure-bucket l now = rw one_key (
      lookup-insert_self key
        (counted l now (current_bucket l now (lookup key (purge_some l now 64 l.entries))))
        (if is_none (lookup key (purge_some l now 64 l.entries))
          then evict_for_insert l (purge_some l now 64 l.entries)
          else purge_some l now 64 l.entries))

  -- The key's bucket after `n` failures, from `start` to `last`, within one window.
  record Streak (l : LoginLimiter) (start last n : ℕ) : Type 0 where
    bucket : LoginBucket
    found : lookup key l.entries ≡ some bucket
    count : bucket.failures ≡ n
    began : bucket.window_start ≡ start
    seen : bucket.last_seen ≡ last
    blocked : l.failure_cap ≤ n → bucket.blocked_till ≡ last + l.block

  first-Streak :
      (l : LoginLimiter) (start : ℕ)
      → lookup key l.entries ≡ none
      → Streak (failure l start (key ∷ [])) start start 1
  unfolding current_bucket failure
  first-Streak l start absent = record {
    bucket = counted l start (current_bucket l start none);
    found =
        failure-bucket l start
        ∙ ap (λ o. some (counted l start (current_bucket l start o)))
            (purge_some-none l start 64 key l.entries absent);
    count = refl;
    began = refl;
    seen = refl;
    blocked = λ h. ground arith;
  }

  next-Streak :
      (l : LoginLimiter) (start last now n : ℕ)
      → 0 < start
      → start ≤ last
      → last ≤ now
      → now < start + l.window
      → l.window ≤ l.idle_expiry
      → Streak l start last n
      → Streak (failure l now (key ∷ [])) start now (suc n)
  unfolding current_bucket is_stale failure
  next-Streak l start last now n pos order later inside idle s = record {
    bucket = counted l now s.bucket;
    found =
        failure-bucket l now
        ∙ ap (λ o. some (counted l now (current_bucket l now o)))
            (purge_some-kept l now 64 key s.bucket l.entries s.found
              (ground (arith, s.began, s.seen)))
        ∙ ap (λ b. some (counted l now b)) same;
    count = omega (arith, s.count);
    began = s.began;
    seen = refl;
    blocked = λ h. ground (arith, s.count);
  }
    where
      same : current_bucket l now (some s.bucket) ≡ s.bucket
      same = ground (arith, s.began)

  -- Failures at the given times, one after the other.
  pub fails : LoginLimiter → List ℕ → LoginLimiter
  fails l [] = l
  fails l (now ∷ times) = fails (failure l now (key ∷ [])) times

  -- The times do not go back, and stay within the window that began at `start`.
  abbrev pub Within : ℕ → ℕ → List ℕ → Type 0
  Within limit last [] = Unit
  Within limit last (now ∷ times) = (last ≤ now) × (now < limit) × Within limit now times

  abbrev pub last_of : ℕ → List ℕ → ℕ
  last_of last [] = last
  last_of last (now ∷ times) = last_of now times

  fails-Streak :
      (l : LoginLimiter) (start last n : ℕ) (times : List ℕ)
      → 0 < start
      → start ≤ last
      → Within (start + l.window) last times
      → l.window ≤ l.idle_expiry
      → Streak l start last n
      → Streak (fails l times) start (last_of last times) (n + length times)
  unfolding fails failure
  fails-Streak l start last n [] pos order w idle s = subst (Streak l start last) (omega arith) s
  fails-Streak l start last n (now ∷ times) pos order w idle s =
      subst (Streak (fails (failure l now (key ∷ [])) times) start (last_of now times))
        (omega arith)
        (fails-Streak (failure l now (key ∷ [])) start now (suc n) times pos
          (omega (arith, order, w.0)) w.2 idle
          (next-Streak l start last now n pos order w.0 w.1 idle s))

  started-Streak :
      (l : LoginLimiter) (start : ℕ) (times : List ℕ)
      → lookup key l.entries ≡ none
      → 0 < start
      → Within (start + l.window) start times
      → l.window ≤ l.idle_expiry
      → Streak
          (fails (failure l start (key ∷ [])) times)
          start
          (last_of start times)
          (1 + length times)
  unfolding failure
  started-Streak l start times absent pos w window =
      fails-Streak (failure l start (key ∷ [])) start start 1 times pos (omega arith) w window
        (first-Streak l start absent)

  refused :
      (l : LoginLimiter) (start last n now : ℕ)
      → l.failure_cap ≤ n
      → last ≤ now
      → now < last + l.block
      → l.block ≤ l.idle_expiry
      → Streak l start last n
      → ((allow l now (key ∷ [])).1 ≡ false) × ((allow l now (key ∷ [])).2 ≡ last + l.block - now)
  unfolding allow allow_keys allow_key is_stale
  refused l start last n now enough later early idle s =
      let till = s.blocked enough in
      let kept =
        purge_some-kept l now 64 key s.bucket l.entries s.found (ground (arith, s.seen, till)) in
      rw one_key (ground (arith, kept, till), ground (arith, kept, till))

  fails-limits :
      (l : LoginLimiter) (times : List ℕ)
      → ((fails l times).failure_cap ≡ l.failure_cap)
        × ((fails l times).block ≡ l.block)
        × ((fails l times).idle_expiry ≡ l.idle_expiry)
  unfolding fails failure
  fails-limits l [] = (refl, refl, refl)
  fails-limits l (now ∷ times) = fails-limits (failure l now (key ∷ [])) times

  -- A key that is not empty and has no bucket, for which failure is called at a positive time and
  -- then at further times, all within one window and not going back, each time with that key alone
  -- and with no other call of the limiter in between, is locked out once the failures reach the cap:
  -- if the next call is an allow of that key alone, before the block time has passed since the last
  -- of them, it is refused, and told to wait for exactly the rest of that time. The window and the
  -- block are at most the idle expiry.
  pub fails-lockout :
      (l : LoginLimiter) (start now : ℕ) (times : List ℕ)
      → lookup key l.entries ≡ none
      → 0 < start
      → Within (start + l.window) start times
      → l.window ≤ l.idle_expiry
      → l.block ≤ l.idle_expiry
      → l.failure_cap ≤ 1 + length times
      → last_of start times ≤ now
      → now < last_of start times + l.block
      → let r = allow (fails l (start ∷ times)) now (key ∷ []) in
        (r.1 ≡ false) × (r.2 ≡ last_of start times + l.block - now)
  unfolding fails
  fails-lockout l start now times absent pos w window idle enough later early =
      let l' : LoginLimiter = fails (failure l start (key ∷ [])) times in
      let (same_cap, same_block, same_idle) = kept_limits in
      let s : Streak l' start (last_of start times) (1 + length times) = streak in
      let (blocked, wait) =
        refused l' start (last_of start times) (1 + length times) now
          (omega (arith, same_cap, enough)) later (omega (arith, same_block, early))
          (omega (arith, same_block, same_idle, idle)) s in
      (blocked, omega (arith, wait, same_block))
    where
      kept_limits :
          ((fails (failure l start (key ∷ [])) times).failure_cap ≡ l.failure_cap)
          × ((fails (failure l start (key ∷ [])) times).block ≡ l.block)
          × ((fails (failure l start (key ∷ [])) times).idle_expiry ≡ l.idle_expiry)
      kept_limits = fails-limits l (start ∷ times)

      streak :
          Streak
            (fails (failure l start (key ∷ [])) times)
            start
            (last_of start times)
            (1 + length times)
      streak = started-Streak l start times absent pos w window
