-- ===== src/Controller/Limits.antt =====
-- internal/controller/ratelimit.go, the limiter of failed logins, and admission.go, the limiter of
-- requests by peer. A time is a number of nanoseconds and 0 is the zero `time.Time`; a difference
-- `now.Sub(t) >= d` is `d ≤ now - t`, which agrees with the signed comparison since every duration here
-- is positive. The mutex makes each method one step.
pub mod Login
pub mod Lockout
pub mod Admission
mod Tests
use asterferry.Base.{
  ℕ, zero, suc, ◌+◌, ◌-◌, Bool, true, false, not, ◌&&◌, ◌||◌, Option, none, some, List, [], ◌∷◌,
  String, Keyed, ltb, leb, is_none, length, if◌then◌else◌, ◌==◌, nat_keyed, string_keyed,
}
use asterferry.Base.Maps.{Map, lookup, insert, erase, value_or}
use asterferry.Base.Sets.{member}
use asterferry.Text.{trim_space}

-- `!t.IsZero() && now.Sub(t) >= d`
abbrev pub is_over : ℕ → ℕ → ℕ → Bool
is_over now t d = not (t == 0) && leb d (now - t)

pub record LoginBucket : Type 0 where
  pub failures : ℕ
  pub window_start : ℕ
  pub blocked_till : ℕ
  pub last_seen : ℕ

pub record LoginLimiter : Type 0 where
  pub entries : Map String LoginBucket
  pub max_entries : ℕ
  pub failure_cap : ℕ
  pub window : ℕ
  pub block : ℕ
  pub idle_expiry : ℕ

unfoldable pub new_login_limiter : LoginLimiter
new_login_limiter = record {
  entries = [];
  max_entries = 10000;
  failure_cap = 5;
  window = 60000000000;
  block = 60000000000;
  idle_expiry = 600000000000;
}

-- A bucket that a purge deletes
unfoldable pub is_stale : LoginLimiter → ℕ → LoginBucket → Bool
is_stale l now bucket =
    is_over now bucket.last_seen l.idle_expiry
    || (not (ltb now bucket.blocked_till) && is_over now bucket.window_start l.window)

-- purgeSomeLocked, with `n` entries left to check
unfoldable pub purge_some : LoginLimiter → ℕ → ℕ → Map String LoginBucket → Map String LoginBucket
purge_some l now zero entries = entries
purge_some l now (suc n) [] = []
purge_some l now (suc n) ((key, bucket) ∷ entries) =
    let rest = purge_some l now n entries in
    if is_stale l now bucket then rest else (key, bucket) ∷ rest

-- evictForInsertLocked: the first entry that the map yields goes when the map is full.
unfoldable pub evict_for_insert : LoginLimiter → Map String LoginBucket → Map String LoginBucket
evict_for_insert l [] = []
evict_for_insert l ((key, bucket) ∷ entries) =
    if l.max_entries == 0 || ltb (length ((key, bucket) ∷ entries)) l.max_entries
    then (key, bucket) ∷ entries
    else erase key ((key, bucket) ∷ entries)

-- uniqueKeys, with the keys seen before
unfoldable pub unique_keys : List String → List String → List String
unique_keys seen [] = []
unique_keys seen (key ∷ keys) =
    let kept = unique_keys (key ∷ seen) keys in
    let dropped = unique_keys seen keys in
    if key == "" || member key seen then dropped else key ∷ kept

-- One round of the loop of `allow`: the entries, and the longest wait so far.
unfoldable pub allow_key :
    LoginLimiter → ℕ → String → Map String LoginBucket × ℕ → Map String LoginBucket × ℕ
allow_key l now key state = elim (lookup key state.0) [
  | none ↦ state
  | some bucket ↦
      if not (ltb now bucket.blocked_till)
      then (if is_over now bucket.window_start l.window
          then (erase key state.0, state.1)
          else state)
      else (if ltb state.1 (bucket.blocked_till - now)
          then (state.0, bucket.blocked_till - now)
          else state)
]

unfoldable pub allow_keys :
    LoginLimiter → ℕ → List String → Map String LoginBucket × ℕ → Map String LoginBucket × ℕ
allow_keys l now [] state = state
allow_keys l now (key ∷ keys) state = allow_keys l now keys (allow_key l now key state)

-- `allow`: the limiter, whether the attempt may go on, and how long to wait otherwise.
unfoldable pub allow : LoginLimiter → ℕ → List String → LoginLimiter × Bool × ℕ
allow l now keys =
    let state = allow_keys l now (unique_keys [] keys) (purge_some l now 64 l.entries, 0) in
    (record l { entries = state.0 }, state.1 == 0, state.1)

abbrev fresh_bucket : ℕ → LoginBucket
fresh_bucket now = record { failures = 0; window_start = now; blocked_till = 0; last_seen = 0 }

-- The bucket of a failed attempt: a new window where the last one is over.
unfoldable pub current_bucket : LoginLimiter → ℕ → Option LoginBucket → LoginBucket
current_bucket l now none = fresh_bucket now
current_bucket l now (some bucket) =
    if bucket.window_start == 0 || leb l.window (now - bucket.window_start)
    then fresh_bucket now
    else bucket

abbrev pub counted : LoginLimiter → ℕ → LoginBucket → LoginBucket
counted l now bucket = record {
  failures = bucket.failures + 1;
  window_start = bucket.window_start;
  blocked_till =
      if leb l.failure_cap (bucket.failures + 1) then now + l.block else bucket.blocked_till;
  last_seen = now;
}

-- One round of the loop of `failure`.
unfoldable pub fail_key :
    LoginLimiter → ℕ → String → Map String LoginBucket → Map String LoginBucket
fail_key l now key entries =
    let room = if is_none (lookup key entries) then evict_for_insert l entries else entries in
    insert key (counted l now (current_bucket l now (lookup key entries))) room

unfoldable pub fail_keys :
    LoginLimiter → ℕ → List String → Map String LoginBucket → Map String LoginBucket
fail_keys l now [] entries = entries
fail_keys l now (key ∷ keys) entries = fail_keys l now keys (fail_key l now key entries)

unfoldable pub failure : LoginLimiter → ℕ → List String → LoginLimiter
failure l now keys = record l {
  entries = fail_keys l now (unique_keys [] keys) (purge_some l now 64 l.entries);
}

unfoldable pub forget_keys : List String → Map String LoginBucket → Map String LoginBucket
forget_keys [] entries = entries
forget_keys (key ∷ keys) entries = forget_keys keys (erase key entries)

unfoldable pub success : LoginLimiter → List String → LoginLimiter
success l keys = record l { entries = forget_keys (unique_keys [] keys) l.entries }

pub record AdmissionBucket : Type 0 where
  pub window_start : ℕ
  pub count : ℕ
  pub last_seen : ℕ

pub record AdmissionLimiter : Type 0 where
  pub entries : Map String AdmissionBucket
  pub limit : ℕ
  pub window : ℕ
  pub max_entries : ℕ

unfoldable pub new_admission_limiter : ℕ → ℕ → ℕ → AdmissionLimiter
new_admission_limiter limit window max_entries = record {
  entries = [];
  limit = limit;
  window = window;
  max_entries = max_entries;
}

-- The loop that deletes the buckets that were not seen for a window.
unfoldable pub drop_idle : ℕ → ℕ → Map String AdmissionBucket → Map String AdmissionBucket
drop_idle now window [] = []
drop_idle now window ((key, bucket) ∷ entries) =
    let rest = drop_idle now window entries in
    if leb window (now - bucket.last_seen) then rest else (key, bucket) ∷ rest

unfoldable pub drop_first : Map String AdmissionBucket → Map String AdmissionBucket
drop_first [] = []
drop_first ((key, bucket) ∷ entries) = erase key ((key, bucket) ∷ entries)

unfoldable pub with_room : AdmissionLimiter → ℕ → Map String AdmissionBucket
with_room l now =
    if leb l.max_entries (length l.entries)
    then (if leb l.max_entries (length (drop_idle now l.window l.entries))
        then drop_first (drop_idle now l.window l.entries)
        else drop_idle now l.window l.entries)
    else l.entries

abbrev new_window : ℕ → AdmissionBucket
new_window now = record { window_start = now; count = 0; last_seen = now }

-- The bucket of a request: a new window where the last one is over.
unfoldable pub admission_bucket : AdmissionLimiter → ℕ → Option AdmissionBucket → AdmissionBucket
admission_bucket l now none = new_window now
admission_bucket l now (some bucket) =
    if bucket.window_start == 0 || leb l.window (now - bucket.window_start)
    then new_window now
    else record bucket { last_seen = now }

abbrev pub admission_key : String → String
admission_key key = if trim_space key == "" then "unknown" else key

abbrev second : ℕ
second = 1000000000

-- `allow` of the admission limiter; a limit or window that is not positive is 0 here.
unfoldable pub admit : AdmissionLimiter → ℕ → String → AdmissionLimiter × Bool × ℕ
admit l now key =
    let entries = with_room l now in
    let name = admission_key key in
    let bucket = admission_bucket l now (lookup name entries) in
    let retry = l.window - (now - bucket.window_start) in
    if l.limit == 0 || l.window == 0
    then (l, true, 0)
    else (if leb l.limit bucket.count
        then (
          record l { entries = insert name bucket entries },
          false,
          if ltb retry second then second else retry,
        )
        else (
          record l { entries = insert name (record bucket { count = bucket.count + 1 }) entries },
          true,
          0,
        ))
