-- ===== src/Ledger/Vtl/Merkle/Split.antt =====
-- The split point of merkle.rs, and batch limits that divide it.
use trackone.Prelude.{ℕ, suc, ◌+◌, ◌-◌, ◌*◌, ◌/◌, ◌^◌, ◌≤◌, ◌<◌, ◌≡◌, refl, arith}
use native.Mathlib.Nat.{mul-div_cancel}
use native.Mathlib.Decide.{dec_lt}
use trackone.Prelude.Words.{
  leading_zeros, leading_zeros-lt, leading_zeros_bounds, pow-pos, pow_add, pow_mono, pow_double,
}
use trackone.Ledger.Vtl.Merkle.{split_size}

-- The split point is the largest power of two below the size.
pub split_size_bounds :
    (n : ℕ) → 2 ≤ n → n ≤ 2 ^ 64 → (e : ℕ) × (split_size n ≡ 2 ^ e) × (2 ^ e < n) × (n ≤ 2 ^ suc e)
unfolding split_size
split_size_bounds n lo hi =
    (63 - leading_zeros 64 (n - 1), refl, omega (arith, bounds), omega (arith, bounds))
  where
    few : leading_zeros 64 (n - 1) < 64
    few = leading_zeros-lt 64 (n - 1) (omega arith) (omega arith)

    bounds :
        (2 ^ (63 - leading_zeros 64 (n - 1)) ≤ n - 1)
        × (n - 1 < 2 ^ suc (63 - leading_zeros 64 (n - 1)))
    bounds =
        leading_zeros_bounds 64 (n - 1) (63 - leading_zeros 64 (n - 1)) (omega arith) (omega arith)
          (omega (arith, few))

pow_lt : (a b : ℕ) → 2 ^ a < 2 ^ suc b → a ≤ b
pow_lt a b h = elim (dec_lt b a) [
  | yes p ↦ absurd (omega (arith, pow_mono (suc b) a p))
  | no p ↦ omega arith
]

-- A batch limit that a size exceeds divides the size's split point.
pub split_size_of_limit :
    (n b : ℕ) → 2 ^ b < n → n ≤ 2 ^ 64 → split_size n ≡ split_size n / 2 ^ b * 2 ^ b
split_size_of_limit n b lo hi =
    let (e, q, below, above) = split_size_bounds n (omega (arith, pow-pos b)) hi in
    let b≤e : b ≤ e = pow_lt b e (omega arith) in
    let same : e - b + b ≡ e = omega arith in
    let product : 2 ^ e ≡ 2 ^ (e - b) * 2 ^ b = rw same at (pow_add (e - b) b) in
    rw (q, product, mul-div_cancel (2 ^ (e - b)) (pow-pos b)) refl

-- Both parts of a split fit one level less.
pub split_halves :
    (f n : ℕ)
    → 2 ≤ n
    → n ≤ 2 ^ 64
    → n ≤ 2 ^ suc f
    → (0 < split_size n) × (split_size n < n) × (split_size n ≤ 2 ^ f) × (n - split_size n ≤ 2 ^ f)
split_halves f n lo hi fits =
    let (e, q, below, above) = split_size_bounds n lo hi in
    let e≤f : e ≤ f = pow_lt e f (omega arith) in
    let mono : 2 ^ e ≤ 2 ^ f = pow_mono e f e≤f in
    rw q (pow-pos e, below, mono, omega (arith, pow_double e))
