-- ===== src/Controller/Limits/Tests.antt =====
-- Runs of the two limiters.
use asterferry.Base.{
  ℕ, ◌+◌, ◌-◌, ◌≤◌, false, ◌≡◌, ◌≢◌, refl, List, [], ◌∷◌, String, length, All, string_keyed, arith,
}
use asterferry.Base.Maps.{lookup, insert}
use asterferry.Text.{trim_space, trim_left, trim_right}
use asterferry.Controller.Limits.{
  new_login_limiter, allow, AdmissionLimiter, AdmissionBucket, new_admission_limiter, admit,
  admission_bucket, with_room,
}
use asterferry.Controller.Limits.Login.{Call, allows, fails, succeeds, run, run_entries}
use asterferry.Controller.Limits.Lockout.{fails as fails_at, fails-lockout}
use asterferry.Controller.Limits.Admission.{admits, admits_bounds}

abbrev attempts : List Call
attempts =
    allows 5 ("ip:a" ∷ "user:b" ∷ [])
    ∷ fails 6 ("ip:a" ∷ "user:b" ∷ [])
    ∷ succeeds ("user:b" ∷ [])
    ∷ []

run_entries_example : length (run new_login_limiter attempts).entries ≤ 10000
run_entries_example = run_entries attempts

abbrev address : String
address = "ip:a"

abbrev no_key : String
no_key = ""

named : address ≢ no_key
named = cc

-- Five failures within a second; ten seconds later the address has 51 seconds to wait.
fails-lockout_example :
    let r =
      allow
        (fails_at address named new_login_limiter
          (1000000000 ∷ 1100000000 ∷ 1200000000 ∷ 1300000000 ∷ 2000000000 ∷ []))
        11000000000
        (address ∷ []) in
    (r.1 ≡ false) × (r.2 ≡ 2000000000 + new_login_limiter.block - 11000000000)
unfolding new_login_limiter lookup
fails-lockout_example =
    fails-lockout address named new_login_limiter 1000000000 11000000000
      (1100000000 ∷ 1200000000 ∷ 1300000000 ∷ 2000000000 ∷ []) refl (omega arith)
      (
        omega arith,
        omega arith,
        (omega arith, omega arith, (omega arith, omega arith, (omega arith, omega arith, tt))),
      )
      (omega arith) (omega arith) (omega arith) (omega arith) (omega arith)

abbrev requests : List (ℕ × String)
requests = (1, "a") ∷ (2, "a") ∷ (3, "b") ∷ []

admits_bounds_example :
    let l = admits (new_admission_limiter 1 100 1) requests in
    (length l.entries ≤ 1) × All (λ (entry : String × AdmissionBucket). entry.1.count ≤ 1) l.entries
admits_bounds_example = admits_bounds 1 100 1 requests (omega arith)

abbrev full : AdmissionLimiter
full = record {
  entries = ("a", record { window_start = 1; count = 1; last_seen = 1 }) ∷ [];
  limit = 1;
  window = 100;
  max_entries = 4;
}

full_refuses : (admit full 2 "a").1 ≡ false
unfolding admit admission_bucket with_room lookup insert trim_space trim_left trim_right
full_refuses = refl
