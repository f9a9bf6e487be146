-- ===== src/Gateway/Producer/Counters.antt =====
-- producer.rs: the checked counters.
use trackone.Prelude.{
  ℕ, ◌+◌, ◌^◌, ◌<◌, ◌≡◌, sym, inl, inr, some, String, arith, ltb, leb, Bool-cases,
}
use trackone.Prelude.Outcome.{done, done-injective}
use trackone.Gateway.Producer.{ProducerError, checked_add, ok_or, count_u64}

pub count_u64-fits : (n : ℕ) (counter : String) → n < 2 ^ 64 → count_u64 n counter ≡ done n
unfolding count_u64
count_u64-fits n counter h = ground arith

pub checked_add-fits : (a b : ℕ) → a + b < 2 ^ 64 → checked_add a b ≡ some (a + b)
unfolding checked_add
checked_add-fits a b h = ground arith

pub count_u64-done : (n : ℕ) (counter : String) {m : ℕ} → count_u64 n counter ≡ done m → m ≡ n
unfolding count_u64
count_u64-done n counter h = elim (Bool-cases (ltb n (2 ^ 64))) [
  | inl fits ↦ sym (done-injective (rw fits at h))
  | inr large ↦ absurd (cc (rw large at h))
]

pub checked_add-some : (a b : ℕ) {c : ℕ} → checked_add a b ≡ some c → c ≡ a + b
unfolding checked_add
checked_add-some a b h = ground arith

pub checked_add-done :
    (a b : ℕ) (e : ProducerError) {c : ℕ} → ok_or (checked_add a b) e ≡ done c → c ≡ a + b
unfolding checked_add
checked_add-done a b e h = elim (Bool-cases (leb (2 ^ 64) (a + b))) [
  | inl large ↦ absurd (cc (rw large at h))
  | inr fits ↦ sym (done-injective (rw fits at h))
]
