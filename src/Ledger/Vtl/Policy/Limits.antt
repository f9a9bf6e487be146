-- ===== src/Ledger/Vtl/Policy/Limits.antt =====
-- What the checks of a closure policy accept and refuse.
use trackone.Prelude.{
  ℕ, zero, suc, ◌^◌, ◌<◌, ◌≡◌, ◌↔◌, arith, inl, inr, true, false, ◌==◌, Bool-cases,
}
use trackone.Prelude.Words.{pow-pos, pow_mono}
use trackone.Ledger.Vtl.Policy.{
  ClosurePolicy, passed, is_power_of_two, validate_batch_record_limit, is_zero_limit, validate,
  validate_limits,
}

is_power_of_two_sound : (w n : ℕ) → is_power_of_two w n ≡ true → (e : ℕ) × (e < w) × (n ≡ 2 ^ e)
unfolding is_power_of_two
is_power_of_two_sound zero n h = cc
is_power_of_two_sound (suc w) n h = elim (Bool-cases (n == 2 ^ w)) [
  | inl here ↦ (w, omega arith, ground arith)
  | inr there ↦ let (e, lo, q) = is_power_of_two_sound w n (rw there at h) in (e, omega arith, q)
]

is_power_of_two_complete : (w e : ℕ) → e < w → is_power_of_two w (2 ^ e) ≡ true
unfolding is_power_of_two
is_power_of_two_complete zero e h = absurd (omega arith)
is_power_of_two_complete (suc w) e h = elim (Bool-cases (e == w)) [
  | inl here ↦ ground arith
  | inr there ↦ ground (arith, is_power_of_two_complete w e)
]

-- An accepted batch limit is a power of two below 2 ^ 64.
pub valid_limit :
    (limit : ℕ) → validate_batch_record_limit limit ≡ passed → (b : ℕ) × (b < 64) × (limit ≡ 2 ^ b)
unfolding validate_batch_record_limit
valid_limit limit h = is_power_of_two_sound 64 limit (ground arith)

-- The policies that the code means: a positive interval, a batch limit that is a power of two below
-- 2^64, and no optional limit of zero.
pub record IsPolicy (p : ClosurePolicy) : Type 0 where
  pub some_interval : 0 < p.interval_ms
  pub exponent : ℕ
  pub exponent_lt : exponent < 64
  pub batch_power : p.batch_record_limit ≡ 2 ^ exponent
  pub some_records : is_zero_limit p.record_limit ≡ false
  pub some_bytes : is_zero_limit p.size_limit_bytes ≡ false

accepted_limit : (b : ℕ) → b < 64 → validate_batch_record_limit (2 ^ b) ≡ passed
unfolding validate_batch_record_limit
accepted_limit b h =
    ground (arith, is_power_of_two_complete 64 b h, pow-pos b, pow_mono b 63 (omega arith))

validate-IsPolicy : (p : ClosurePolicy) → validate p ≡ passed → IsPolicy p
unfolding validate validate_limits
validate-IsPolicy p h =
    let limit : validate_batch_record_limit p.batch_record_limit ≡ passed = ground arith in
    let (b, below, power) = valid_limit p.batch_record_limit limit in
    record {
      some_interval = ground arith;
      exponent = b;
      exponent_lt = below;
      batch_power = power;
      some_records = ground arith;
      some_bytes = ground arith;
    }

IsPolicy-validate : (p : ClosurePolicy) → IsPolicy p → validate p ≡ passed
unfolding validate validate_limits
IsPolicy-validate p q =
    let limit : validate_batch_record_limit p.batch_record_limit ≡ passed =
      rw q.batch_power (accepted_limit q.exponent q.exponent_lt) in
    ground (arith, limit, q.some_interval, q.some_records, q.some_bytes)

-- A closure policy is accepted exactly when its interval is positive, its batch limit is a power of
-- two below 2^64, and neither optional limit is zero.
pub validate_exact : (p : ClosurePolicy) → (validate p ≡ passed) ↔ IsPolicy p
validate_exact p = (validate-IsPolicy p, IsPolicy-validate p)
