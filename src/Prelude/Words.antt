-- ===== src/Prelude/Words.antt =====
-- Machine words: Rust's `leading_zeros` and powers of two.
use Prim.Native.Nat.{ℕ, zero, suc, ◌+◌, ◌*◌, ◌/◌, ◌^◌, ◌≤◌, ◌<◌}
use mathlib.Core.Path.{◌≡◌, ap}
use mathlib.Core.Logic.{inl, inr}
use mathlib.Core.Bool.{true, false}
use native.Mathlib.Nat.{pow-suc, pow-le-pow_right, zero-add, suc-add, lt-mul-div-succ, div-eq_of_lt}
use native.Mathlib.Omega.{arith}
use trackone.Prelude.Tests.{◌==◌, if◌then◌else◌, Bool-cases}

-- The zero bits above the highest set bit of a number of `w` bits.
unfoldable pub leading_zeros : ℕ → ℕ → ℕ
leading_zeros zero n = 0
leading_zeros (suc w) n = if n / 2 ^ w == 0 then suc (leading_zeros w n) else 0

pub pow-pos : (e : ℕ) → 0 < 2 ^ e
pow-pos zero = omega arith
pow-pos (suc e) = rw pow-suc (omega (arith, pow-pos e))

pub pow_double : (e : ℕ) → 2 ^ suc e ≡ 2 * 2 ^ e
pow_double e = rw pow-suc (omega arith)

pub pow_add : (d b : ℕ) → 2 ^ (d + b) ≡ 2 ^ d * 2 ^ b
pow_add zero b = rw zero-add (omega arith)
pow_add (suc d) b =
    rw (suc-add, pow_double (d + b), pow_double d)
      (omega (arith, ap (λ (t : ℕ). 2 * t) (pow_add d b)))

pub pow_mono : (a b : ℕ) → a ≤ b → 2 ^ a ≤ 2 ^ b
pow_mono a b h = pow-le-pow_right (omega arith) h

test_below : (w n : ℕ) → (n / 2 ^ w == 0) ≡ true → n < 2 ^ w
test_below w n e = ground (arith, lt-mul-div-succ n (pow-pos w))

test_above : (w n : ℕ) → (n / 2 ^ w == 0) ≡ false → 2 ^ w ≤ n
test_above w n e = ground (arith, λ (h : n < 2 ^ w). div-eq_of_lt h)

pub leading_zeros-lt : (w n : ℕ) → 0 < n → n < 2 ^ w → leading_zeros w n < w
unfolding leading_zeros
leading_zeros-lt zero n p h = absurd (omega arith)
leading_zeros-lt (suc w) n p h = elim (Bool-cases (n / 2 ^ w == 0)) [
  | inl low ↦ rw low (omega (arith, leading_zeros-lt w n p (test_below w n low)))
  | inr high ↦ rw high (omega arith)
]

-- The highest set bit of `n` stands at `e = w - 1 - leading_zeros w n`.
pub leading_zeros_bounds :
    (w n e : ℕ) → 0 < n → n < 2 ^ w → leading_zeros w n + suc e ≡ w → (2 ^ e ≤ n) × (n < 2 ^ suc e)
unfolding leading_zeros
leading_zeros_bounds zero n e p h = absurd (omega arith)
leading_zeros_bounds (suc w) n e p h = elim (Bool-cases (n / 2 ^ w == 0)) [
  | inl low ↦ rw low (λ q. leading_zeros_bounds w n e p (test_below w n low) (omega arith))
  | inr high ↦ rw high (λ q. let same : e ≡ w = omega arith in rw same (test_above w n high, h))
]
