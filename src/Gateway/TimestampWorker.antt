-- ===== src/Gateway/TimestampWorker.antt =====
-- timestamp_worker.rs of the gateway service: the worker's configuration and its retry delays.
pub mod Delays
use trackone.Prelude.{
  ℕ, zero, suc, ◌+◌, ◌-◌, ◌*◌, ◌^◌, Bool, true, false, ◌&&◌, ◌||◌, not, ltb, leb, ◌==◌,
  if◌then◌else◌,
}
use Prim.Native.Nat.{min}
use trackone.Prelude.Integers.{ℤ, pos, negsuc}
use trackone.Prelude.Outcome.{Outcome, done, failed}
use trackone.Gateway.Producer.{ProducerError, timestamp_configuration}

pub record TimestampWorkerConfig : Type 0 where
  pub concurrency : ℕ
  pub max_attempts : ℕ
  pub retry_initial_ms : ℕ
  pub retry_max_ms : ℕ

abbrev pub default_config : TimestampWorkerConfig
default_config = record {
  concurrency = 2;
  max_attempts = 20;
  retry_initial_ms = 5_000;
  retry_max_ms = 300_000;
}

unfoldable pub validate_config : TimestampWorkerConfig → Outcome ProducerError (Unit {0})
validate_config c =
    if not (leb 1 c.concurrency && leb c.concurrency 16)
      || not (leb 1 c.max_attempts && leb c.max_attempts 1_000)
      || c.retry_initial_ms == 0
      || ltb c.retry_max_ms c.retry_initial_ms
      || ltb 86_400_000 c.retry_max_ms
    then failed (
        timestamp_configuration
          "TSA worker concurrency must be 1-16, attempts 1-1000, and retry delays positive, ordered, and at most one day")
    else done tt

-- `u32::try_from(attempt.saturating_sub(1)).unwrap_or(u32::MAX)`.
unfoldable pub shift_of : ℤ → ℕ
shift_of (pos zero) = 2 ^ 32 - 1
shift_of (pos (suc n)) = if ltb n (2 ^ 32) then n else 2 ^ 32 - 1
shift_of (negsuc n) = 2 ^ 32 - 1

-- `1_u64.checked_shl(shift).unwrap_or(u64::MAX)`.
unfoldable pub factor_of : ℕ → ℕ
factor_of shift = if ltb shift 64 then 2 ^ shift else 2 ^ 64 - 1

-- `u64::saturating_mul`.
unfoldable pub saturating_mul : ℕ → ℕ → ℕ
saturating_mul a b = min (a * b) (2 ^ 64 - 1)

unfoldable pub retry_delay_ms : TimestampWorkerConfig → ℤ → ℕ
unfolding shift_of factor_of saturating_mul
retry_delay_ms c attempt =
    min (saturating_mul c.retry_initial_ms (factor_of (shift_of attempt))) c.retry_max_ms
