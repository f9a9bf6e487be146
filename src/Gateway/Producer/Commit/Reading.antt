-- ===== src/Gateway/Producer/Commit/Reading.antt =====
-- producer.rs: what `safe_now` has checked of the clock's time.
use trackone.Prelude.{
  ℕ, ◌≤◌, ◌≡◌, refl, ap, ◌∙◌, arith, Bool, true, false, not, inl, inr, Bool-cases, if◌then◌else◌,
}
use trackone.Prelude.Outcome.{done, failed, Outcome-cases, done-injective}
use trackone.Gateway.Producer.{ProducerState, ProducerError, clock_discontinuity}
use trackone.Gateway.Producer.Monad.{Clock}
use trackone.Gateway.Producer.Commit.{safe_now}

checked_time :
    (bad : Bool) (e : ProducerError) {t now : ℕ}
    → (if bad then failed e else done t) ≡ done now
    → (bad ≡ false) × (t ≡ now)
checked_time true e h = cc
checked_time false e h = (refl, done-injective h)

pub safe_now-done :
    (clock : Clock) (s : ProducerState) (now : ℕ)
    → safe_now clock s ≡ done now
    → (s.open_interval.opened_at_ms ≤ now) × (clock.now_ms ≡ done now)
unfolding safe_now
safe_now-done clock s now h = elim (Bool-cases (not s.active)) [
  | inl off ↦ absurd (cc (rw (off, safe_now) at h))
  | inr on ↦ elim (Outcome-cases clock.now_ms) [
    | inr (e, bad) ↦ absurd (cc (rw (on, bad, safe_now) at h))
    | inl (t, e) ↦
        let (order, same) = checked_time _ clock_discontinuity (rw (on, e, safe_now) at h) in
        (ground (arith, order, same), e ∙ ap done same)
  ]
]
