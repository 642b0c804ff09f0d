-- ===== src/Afdp/Reassembly/Limits.antt =====
-- The reassembler's limits over every sequence of calls.
use asterferry.Base.{ℕ, ◌*◌, ◌≤◌, ◌≡◌, refl, List, [], ◌∷◌, ok, length, arith, ◌∙◌, ap}
use asterferry.Afdp.Reassembly.{
  Reassembler, new_reassembler, expire_locked, remember, drop_flow, finish, add_fragment,
  add_locked, add, in_flight,
}
use asterferry.Afdp.Reassembly.Invariant.{Inv, new-Inv, new-empty, expire_locked-Inv, add-Inv}

-- The calls that a receiver makes, from one goroutine or several: the mutex puts them in some order.
pub data Call : Type 0 where
  adds : List ℕ → ℕ → ℕ → Call
  expires : ℕ → Call

pub step : Reassembler → Call → Reassembler
step r (adds bytes now clock) = (add r bytes now clock).0
step r (expires now) = expire_locked r now

pub run : Reassembler → List Call → Reassembler
run r [] = r
run r (c ∷ cs) = run (step r c) cs

step-Inv : (r : Reassembler) (c : Call) → Inv r → Inv (step r c)
unfolding step
step-Inv r (adds bytes now clock) v = add-Inv r bytes now clock v
step-Inv r (expires now) v = expire_locked-Inv r now v

run-Inv : (r : Reassembler) (cs : List Call) → Inv r → Inv (run r cs)
unfolding run
run-Inv r [] v = v
run-Inv r (c ∷ cs) v = run-Inv (step r c) cs (step-Inv r c v)

abbrev limits : Reassembler → ℕ × ℕ
limits r = (r.max_flows, r.max_bytes)

step-limits : (r : Reassembler) (c : Call) → limits (step r c) ≡ limits r
unfolding step add add_locked add_fragment finish remember drop_flow expire_locked
step-limits r (adds bytes now clock) = ground arith
step-limits r (expires now) = refl

run-limits : (r : Reassembler) (cs : List Call) → limits (run r cs) ≡ limits r
unfolding run
run-limits r [] = refl
run-limits r (c ∷ cs) = run-limits (step r c) cs ∙ step-limits r c

-- From a new reassembler, after any sequence of Add and Expire calls, the flows and bytes in flight
-- are within the limits and at most twice as many completed flows are remembered.
pub run_bounds :
    (flows bytes payload timeout : ℕ) (r : Reassembler) (cs : List Call)
    → new_reassembler flows bytes payload timeout ≡ ok r
    → let s = run r cs in
      ((in_flight s).0 ≤ flows) × ((in_flight s).1 ≤ bytes) × (length s.completed ≤ flows * 2)
unfolding in_flight
run_bounds flows bytes payload timeout r cs h = omega (
  arith,
  run-Inv r cs (new-Inv flows bytes payload timeout r h),
  ap (λ (p : ℕ × ℕ). p.0) (run-limits r cs),
  ap (λ (p : ℕ × ℕ). p.1) (run-limits r cs),
  ap (λ (s : Reassembler). s.max_flows) (new-empty flows bytes payload timeout r h).0,
  ap (λ (s : Reassembler). s.max_bytes) (new-empty flows bytes payload timeout r h).0,
)
