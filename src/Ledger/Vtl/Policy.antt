-- ===== src/Ledger/Vtl/Policy.antt =====
-- The closure policy of vtl.rs, its limits and their validation.
pub mod Limits
use trackone.Prelude.{
  ◌⊎◌, inl, inr, ℕ, zero, suc, ◌+◌, ◌^◌, ◌≤◌, ◌<◌, ◌≡◌, refl, arith, Bool, true, false, ◌||◌, not,
  Option, none, some, ltb, ◌==◌, if◌then◌else◌, ◌↔◌,
}
use mathlib.Core.Bool.{cond}

pub data EmptyMode : Type 0 where
  emit suppress : EmptyMode

pub record ClosurePolicy : Type 0 where
  pub interval_ms : ℕ
  pub batch_record_limit : ℕ
  pub record_limit : Option ℕ
  pub size_limit_bytes : Option ℕ
  pub empty_mode : EmptyMode

pub data ClosurePolicyError : Type 0 where
  interval batch_record_limit record_limit size_limit_bytes : ClosurePolicyError

-- Rust's `Result<(), E>`.
pub data Checked (E : Type 0) : Type 0 where
  passed : Checked E
  failed : E → Checked E

pub Checked-cases : {E : Type 0} (c : Checked E) → (c ≡ passed) ⊎ ((e : E) × (c ≡ failed e))
Checked-cases passed = inl refl
Checked-cases (failed e) = inr (e, refl)

abbrev pub max_batch_record_limit : ℕ
max_batch_record_limit = 2 ^ 63

-- Rust's `u64::is_power_of_two`: `n` is one of the powers `2 ^ e` with `e < w`.
unfoldable pub is_power_of_two : ℕ → ℕ → Bool
is_power_of_two zero n = false
is_power_of_two (suc w) n = n == 2 ^ w || is_power_of_two w n

unfoldable pub validate_batch_record_limit : ℕ → Checked ClosurePolicyError
validate_batch_record_limit limit =
    if limit == 0 || ltb max_batch_record_limit limit || not (is_power_of_two 64 limit)
    then failed batch_record_limit
    else passed

abbrev pub is_zero_limit : Option ℕ → Bool
is_zero_limit none = false
is_zero_limit (some n) = n == 0

-- The rest of `validate`, behind the `?` of the batch limit's check.
unfoldable pub validate_limits :
    ClosurePolicy → Checked ClosurePolicyError → Checked ClosurePolicyError
validate_limits p (failed e) = failed e
validate_limits p passed =
    if is_zero_limit p.record_limit
    then failed record_limit
    else if is_zero_limit p.size_limit_bytes
    then failed size_limit_bytes
    else passed

unfoldable pub validate : ClosurePolicy → Checked ClosurePolicyError
unfolding validate_limits
validate p =
    if p.interval_ms == 0
    then failed interval
    else validate_limits p (validate_batch_record_limit p.batch_record_limit)
