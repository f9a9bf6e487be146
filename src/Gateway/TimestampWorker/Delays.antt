-- ===== src/Gateway/TimestampWorker/Delays.antt =====
-- timestamp_worker.rs: the bounds of the retry delays, and how they grow.
use trackone.Prelude.{ℕ, zero, suc, ◌+◌, ◌*◌, ◌^◌, ◌≤◌, ◌<◌, ◌≡◌, ap, arith, lt→ltb}
use Prim.Native.Nat.{min}
use native.Mathlib.Decide.{dec_lt}
use native.Mathlib.Nat.{mul-suc, suc-mul, mul_left_comm}
use trackone.Prelude.Integers.{ℤ, pos}
use trackone.Prelude.Outcome.{done}
use trackone.Prelude.Words.{pow-pos, pow_mono, pow_double}
use trackone.Gateway.TimestampWorker.{
  TimestampWorkerConfig, validate_config, shift_of, factor_of, saturating_mul, retry_delay_ms,
}

-- What an accepted configuration says of the delays.
record IsOrdered (c : TimestampWorkerConfig) : Type 0 where
  positive : 0 < c.retry_initial_ms
  ordered : c.retry_initial_ms ≤ c.retry_max_ms
  one_day : c.retry_max_ms ≤ 86_400_000

validate_config-IsOrdered :
    (c : TimestampWorkerConfig) {u : Unit {0}} → validate_config c ≡ done u → IsOrdered c
unfolding validate_config
validate_config-IsOrdered c h = record {
  positive = ground arith;
  ordered = ground arith;
  one_day = ground arith;
}

factor-pos : (shift : ℕ) → 0 < factor_of shift
unfolding factor_of
factor-pos shift = ground (arith, pow-pos shift)

factor_large : (shift : ℕ) → 63 ≤ shift → 2 ^ 63 ≤ factor_of shift
unfolding factor_of
factor_large shift h = ground (arith, pow_mono 63 shift h)

factor_next : (shift : ℕ) → shift < 63 → factor_of (suc shift) ≡ 2 * factor_of shift
unfolding factor_of
factor_next shift h =
    rw (lt→ltb shift 64 (omega arith), lt→ltb (suc shift) 64 (omega arith)) (pow_double shift)

le_product : (a b : ℕ) → 0 < b → a ≤ a * b
le_product a zero h = absurd (omega arith)
le_product a (suc b) h = simp mul-suc (omega arith)

-- From the 63rd doubling on the factor makes every delay the longest.
large_product : (a b : ℕ) → 0 < a → 2 ^ 63 ≤ b → 2 ^ 63 ≤ a * b
large_product zero b h k = absurd (omega arith)
large_product (suc a) b h k = simp suc-mul (omega arith)

twice_product : (a b : ℕ) → a * (2 * b) ≡ 2 * (a * b)
twice_product a b = omega (arith, mul_left_comm a 2 b)

delay_steps :
    (initial longest shift : ℕ)
    → 0 < initial
    → initial ≤ longest
    → longest ≤ 86_400_000
    → min (saturating_mul initial (factor_of (suc shift))) longest
      ≡ min (2 * min (saturating_mul initial (factor_of shift)) longest) longest
unfolding saturating_mul
delay_steps initial longest shift some_delay ordered day = elim (dec_lt shift 63) [
  | yes near ↦ omega (
    arith,
    ap (λ (f : ℕ). initial * f) (factor_next shift near),
    twice_product initial (factor_of shift),
  )
  | no far ↦ omega (
    arith,
    large_product initial (factor_of shift) some_delay (factor_large shift (omega arith)),
    large_product initial (factor_of (suc shift)) some_delay
        (factor_large (suc shift) (omega arith)),
  )
]

shift_of-suc : (n : ℕ) → n < 2 ^ 32 → shift_of (pos (suc n)) ≡ n
unfolding shift_of
shift_of-suc n h = ground arith

within :
    (c : TimestampWorkerConfig) (shift : ℕ)
    → IsOrdered c
    → (c.retry_initial_ms
        ≤ min (saturating_mul c.retry_initial_ms (factor_of shift)) c.retry_max_ms)
      × (min (saturating_mul c.retry_initial_ms (factor_of shift)) c.retry_max_ms ≤ c.retry_max_ms)
unfolding saturating_mul
within c shift o =
    let least = le_product c.retry_initial_ms (factor_of shift) (factor-pos shift) in
    (omega (arith, least, o.ordered, o.one_day), omega arith)

first_delay :
    (c : TimestampWorkerConfig)
    → IsOrdered c
    → min (saturating_mul c.retry_initial_ms (factor_of 0)) c.retry_max_ms ≡ c.retry_initial_ms
unfolding saturating_mul factor_of
first_delay c o = omega (arith, o.ordered, o.one_day)

-- Under an accepted configuration every retry delay, for any attempt number, lies between the
-- initial and the longest delay, which is at most a day. The first attempt waits for the initial
-- delay, and each further one, up to attempt 2^32, for twice the delay before it or for the longest
-- delay, whichever is less.
pub retry_delay_ms_bounds :
    (c : TimestampWorkerConfig) {u : Unit {0}}
    → validate_config c ≡ done u
    → ((attempt : ℤ)
        → (c.retry_initial_ms ≤ retry_delay_ms c attempt)
          × (retry_delay_ms c attempt ≤ c.retry_max_ms)
          × (c.retry_max_ms ≤ 86_400_000))
      × (retry_delay_ms c (pos 1) ≡ c.retry_initial_ms)
      × ((n : ℕ)
          → n + 1 < 2 ^ 32
          → retry_delay_ms c (pos (suc (suc n)))
            ≡ min (2 * retry_delay_ms c (pos (suc n))) c.retry_max_ms)
unfolding retry_delay_ms
retry_delay_ms_bounds c h =
    let o = validate_config-IsOrdered c h in
    (
      λ attempt. let (least, most) = within c (shift_of attempt) o in (least, most, o.one_day),
      first_delay c o,
      λ n small.
          simp (shift_of-suc n (omega arith), shift_of-suc (suc n) (omega arith))
            (delay_steps c.retry_initial_ms c.retry_max_ms n o.positive o.ordered o.one_day),
    )
