-- ===== src/Netip/Subnets.antt =====
-- A prefix inside another holds only addresses of the other.
use asterferry.Base.{
  ℕ, zero, suc, ◌+◌, ◌-◌, ◌*◌, ◌/◌, ◌^◌, ◌≤◌, ◌<◌, true, ◌≡◌, sym, ◌∙◌, ap, arith, nat_keyed,
}
use asterferry.Netip.{Address, Prefix, open_bits, masked, address_of, prefix_contains}
use native.Mathlib.Numerals.{unary_clauses}
use native.Mathlib.Nat.{div-div-eq-div-mul, mul-div_cancel, pow-suc, mul_assoc, mul-one, add-suc}

pow-add : (n m : ℕ) → 2 ^ (n + m) ≡ 2 ^ n * 2 ^ m
pow-add n zero = simp unary_clauses (sym (mul-one (2 ^ n)))
pow-add n (suc m) =
    rw (add-suc n m, pow-suc 2 (n + m), pow-suc 2 m, pow-add n m) (mul_assoc (2 ^ n) (2 ^ m) 2)

pow_pos : (n : ℕ) → 0 < 2 ^ n
pow_pos zero = omega arith
pow_pos (suc n) = rw (pow-suc 2 n) (omega (arith, pow_pos n))

-- Fewer bits of an address follow from more.
coarser : (v j k : ℕ) → j ≤ k → v / 2 ^ k ≡ v / 2 ^ j / 2 ^ (k - j)
coarser v j k h = sym (
    div-div-eq-div-mul v (2 ^ j) (2 ^ (k - j))
    ∙ ap (λ (n : ℕ). v / n) (sym (pow-add j (k - j)))
    ∙ ap (λ (n : ℕ). v / 2 ^ n) (omega arith))

-- Clearing the low bits keeps the others.
cleared : (v j k : ℕ) → j ≤ k → v / 2 ^ j * 2 ^ j / 2 ^ k ≡ v / 2 ^ k
cleared v j k h =
    coarser (v / 2 ^ j * 2 ^ j) j k h
    ∙ ap (λ (n : ℕ). n / 2 ^ (k - j)) (mul-div_cancel (v / 2 ^ j) (pow_pos j))
    ∙ sym (coarser v j k h)

-- A prefix that is as long as another, and whose masked address the other holds, lies in the other.
pub contains-inner :
    (outer p : Prefix) (a : Address)
    → outer.bit_len ≡ p.bit_len
    → outer.bits ≤ p.bits
    → prefix_contains outer (address_of (masked p)) ≡ true
    → prefix_contains p a ≡ true
    → prefix_contains outer a ≡ true
unfolding prefix_contains masked
contains-inner outer p a family longer inside held = ground (
  arith,
  cleared p.value (open_bits p) (open_bits outer) (omega arith),
  coarser p.value (open_bits p) (open_bits outer) (omega arith),
  coarser a.value (open_bits p) (open_bits outer) (omega arith),
)
