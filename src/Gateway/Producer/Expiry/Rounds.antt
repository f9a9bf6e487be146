-- ===== src/Gateway/Producer/Expiry/Rounds.antt =====
-- producer.rs: one round of `close_expired`, and how the rounds end.
use trackone.Prelude.{
  ℕ, suc, ◌+◌, ◌-◌, ◌^◌, ◌≤◌, ◌<◌, ◌≡◌, ◌⊎◌, refl, sym, ◌∙◌, arith, false, inl, inr, Option, some,
  [], length, ltb, Bool-cases, ltb→lt, not_ltb→le, le→not_ltb,
}
use trackone.Prelude.Outcome.{done, failed, ◌>>=◌, Outcome-cases}
use trackone.Ledger.Hash.{Bytes, Hash}
use trackone.Gateway.Producer.{
  ProducerState, SealedSegment, interval, serial_exhausted, checked_add,
}
use trackone.Gateway.Producer.Construct.{construct_segment}
use trackone.Gateway.Producer.Construct.Sealed.{IsLedger, construct_segment_cases}
use trackone.Gateway.Producer.Counters.{checked_add-fits}
use trackone.Gateway.Producer.Construct.Kept.{Closed, construct_segment_closes}
use trackone.Gateway.Producer.Expiry.{close_rounds, and_later}

module _ (sha256 : Bytes → Hash) (digests : (message : Bytes) → length (sha256 message) ≡ 32) where
  -- A step of the loop that closes the interval, and goes on.
  pub record Next (s : ProducerState) (now : ℕ) : Type 0 where
    pub segment : Option SealedSegment
    pub state : ProducerState
    pub closed :
        Closed sha256 s
          (s.open_interval.opened_at_ms + s.open_interval.policy.interval_ms)
          segment
          state
    pub in_time : s.open_interval.opened_at_ms + s.open_interval.policy.interval_ms ≤ now
    pub step :
        (rounds : ℕ)
        → close_rounds sha256 (suc rounds) s now
          ≡ (close_rounds sha256 rounds state now >>= λ p. done (and_later segment p.0, p.1))

  abbrev pub Round : ProducerState → ℕ → Type 0
  Round s now =
      ((now - s.open_interval.opened_at_ms < s.open_interval.policy.interval_ms)
        × ((rounds : ℕ) → close_rounds sha256 (suc rounds) s now ≡ done ([], s)))
      ⊎ (((s.next_segment_number ≡ 2 ^ 64 - 1)
            × ((rounds : ℕ) → close_rounds sha256 (suc rounds) s now ≡ failed serial_exhausted))
          ⊎ Next s now)

  pub round :
      (s : ProducerState) (now : ℕ)
      → IsLedger sha256 s
      → length s.open_interval.records < 2 ^ 64
      → s.open_interval.opened_at_ms ≤ now
      → now < 2 ^ 64
      → Round s now
  unfolding close_rounds
  round s now l small ordered word =
      elim (Bool-cases
        (ltb (now - s.open_interval.opened_at_ms) s.open_interval.policy.interval_ms)) [
          | inl early ↦ inl (ltb→lt _ _ early, λ rounds. rw (past, early, close_rounds) refl)
          | inr late ↦
              let due : s.open_interval.policy.interval_ms ≤ now - s.open_interval.opened_at_ms =
                not_ltb→le _ _ late in
              let boundary : checked_add s.open_interval.opened_at_ms
                    s.open_interval.policy.interval_ms
                  ≡ some (s.open_interval.opened_at_ms + s.open_interval.policy.interval_ms) =
                checked_add-fits _ _ (omega arith) in
              elim (Outcome-cases (
                construct_segment sha256 s
                  (s.open_interval.opened_at_ms + s.open_interval.policy.interval_ms) interval)) [
                    | inl ((o, t), e) ↦ inr (
                        inr (record {
                          segment = o;
                          state = t;
                          closed =
                              construct_segment_closes sha256 digests s _ interval o t l small e;
                          in_time = omega arith;
                          step = λ rounds. rw (past, late, boundary, e, close_rounds) refl;
                        }))
                    | inr (bad, e) ↦
                        elim (construct_segment_cases sha256 digests s
                          (s.open_interval.opened_at_ms + s.open_interval.policy.interval_ms)
                          interval l small) [
                            | inl (_, e') ↦ absurd (cc (sym e ∙ e'))
                            | inr (inl (last, e')) ↦ inr (
                                inl (
                                  last,
                                  λ rounds. rw (past, late, boundary, e', close_rounds) refl,
                                ))
                            | inr (inr sealing) ↦ absurd (cc (sym e ∙ sealing.result))
                          ]
                  ]
        ]
    where
      past : ltb now s.open_interval.opened_at_ms ≡ false
      past = le→not_ltb _ _ ordered
