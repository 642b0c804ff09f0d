-- ===== src/Text/Trimming.antt =====
-- Texts that strings.TrimSpace leaves alone; what strconv.Atoi reads is one.
use Prim.Native.Char.{code}
use Prim.Native.String.{[] as [], ◌∷◌ as ◌∷◌}
use asterferry.Base.{
  ℕ, ◌+◌, ◌-◌, ◌*◌, Bool, false, ◌||◌, ◌≡◌, refl, some, inl, inr, String, ◌==◌, nat_keyed,
  string_keyed, arith, Bool-cases, Option-cases,
}
use asterferry.Text.{is_space, any_rune, trim_left, trim_right, trim_space, digits, atoi}

pub trim_left-same : (s : String) → any_rune is_space s ≡ false → trim_left s ≡ s
unfolding trim_left any_rune
trim_left-same [] h = refl
trim_left-same (c ∷ s) h = ground arith

pub trim_right-same : (s : String) → any_rune is_space s ≡ false → trim_right s ≡ s
unfolding trim_right any_rune
trim_right-same [] h = refl
trim_right-same (c ∷ s) h = ground (arith, trim_right-same s)

pub trim_space-same : (s : String) → any_rune is_space s ≡ false → trim_space s ≡ s
unfolding trim_space
trim_space-same s h = rw (trim_right-same s h) (trim_left-same s h)

digits-no_space : (n m : ℕ) (s : String) → digits n s ≡ some m → any_rune is_space s ≡ false
unfolding digits any_rune
digits-no_space n m [] h = refl
digits-no_space n m (c ∷ s) h = ground (arith, digits-no_space (n * 10 + (code c - 48)) m s)

-- A text that is read as a number has no spaces around it.
pub atoi-trim_space : (s : String) (parsed : Bool × ℕ) → atoi s ≡ some parsed → trim_space s ≡ s
unfolding atoi any_rune
atoi-trim_space [] parsed h = absurd (cc)
atoi-trim_space (c ∷ s) parsed h =
    trim_space-same (c ∷ s) (elim (Bool-cases (code c == 45 || code c == 43)) [
      | inl signed ↦ elim (Option-cases (digits 0 s)) [
        | inl failed ↦ absurd (ground arith)
        | inr number ↦ ground (arith, digits-no_space 0 number.0 s number.1)
      ]
      | inr bare ↦ elim (Option-cases (digits 0 (c ∷ s))) [
        | inl failed ↦ absurd (ground arith)
        | inr number ↦ digits-no_space 0 number.0 (c ∷ s) number.1
      ]
    ])
