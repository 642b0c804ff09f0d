-- ===== src/Node/Reconnect/Bounds.antt =====
-- The delays that an Agent waits between attempts.
use native.Mathlib.Nat.{pow-suc}
use asterferry.Base.{ℕ, zero, suc, ◌*◌, ◌^◌, ◌≤◌, min, ◌≡◌, List, [], ◌∷◌, arith}
use asterferry.Node.Reconnect.{
  ReconnectState, Call, apply, wait, new_agent_reconnect_state, next_wait, step, run, second,
  max_agent_reconnect_backoff,
}

pub record InRange (s : ReconnectState) : Type 0 where
  pub least : second ≤ s.backoff
  pub most : s.backoff ≤ max_agent_reconnect_backoff

step-InRange : (s : ReconnectState) (c : Call) → InRange s → InRange (step s c)
unfolding step
step-InRange s (apply event) h = ground arith
step-InRange s wait h = ground arith

run-InRange : (s : ReconnectState) (cs : List Call) → InRange s → InRange (run s cs)
unfolding run
run-InRange s [] h = h
run-InRange s (c ∷ cs) h = run-InRange (step s c) cs (step-InRange s c h)

-- Whatever events and waits came before, the next delay lies between 1 and 30 seconds.
pub next_wait_bounds :
    (cs : List Call)
    → let delay = (next_wait (run new_agent_reconnect_state cs)).0 in
      (second ≤ delay) × (delay ≤ max_agent_reconnect_backoff)
unfolding new_agent_reconnect_state next_wait
next_wait_bounds cs = ground (
  arith,
  run-InRange new_agent_reconnect_state cs (record { least = omega arith; most = omega arith }),
)

-- The state after `n` waits with no event in between.
pub waits : ℕ → ReconnectState → ReconnectState
waits zero s = s
waits (suc n) s = (next_wait (waits n s)).1

pow_pos : (n : ℕ) → 1 ≤ 2 ^ n
pow_pos zero = omega arith
pow_pos (suc n) = omega (arith, pow_pos n, pow-suc 2 n)

waits-backoff :
    (n : ℕ) (s : ReconnectState)
    → s.backoff ≡ second
    → (waits n s).backoff ≡ min (second * 2 ^ n) max_agent_reconnect_backoff
unfolding waits next_wait
waits-backoff zero s h = omega arith
waits-backoff (suc n) s h = ground (arith, waits-backoff n s h, pow-suc 2 n, pow_pos n)

-- The delays double from 1 second and stop at 30.
pub next_wait-waits :
    (n : ℕ) (s : ReconnectState)
    → s.backoff ≡ second
    → (next_wait (waits n s)).0 ≡ min (second * 2 ^ n) max_agent_reconnect_backoff
unfolding next_wait
next_wait-waits n s h = ground (arith, waits-backoff n s h, pow_pos n)
