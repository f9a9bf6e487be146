-- ===== src/Gateway/Producer/Expiry.antt =====
-- producer.rs: `close_expired`, which closes every interval that has elapsed.
pub mod Rounds
pub mod Ends
use trackone.Prelude.{
  ℕ, zero, suc, ◌+◌, ◌-◌, Bool, true, false, Option, none, some, List, [], ◌∷◌, ltb,
}
use trackone.Prelude.Outcome.{Outcome, done, failed, ◌>>=◌}
use trackone.Ledger.Hash.{Bytes, Hash}
use trackone.Gateway.Producer.{
  ProducerState, SealedSegment, interval, ProducerError, clock_discontinuity, checked_add, ok_or,
}
use trackone.Gateway.Producer.Construct.{construct_segment}

-- `if let Some(segment)` and `push`.
abbrev pub and_later : Option SealedSegment → List SealedSegment → List SealedSegment
and_later none later = later
and_later (some segment) later = segment ∷ later

module _ (sha256 : Bytes → Hash) where
  -- The loop, at most `rounds` times round.
  unfoldable pub close_rounds :
      ℕ → ProducerState → ℕ → Outcome ProducerError (List SealedSegment × ProducerState)
  unfolding construct_segment
  close_rounds zero s now = done ([], s)
  close_rounds (suc rounds) s now = elim (ltb now s.open_interval.opened_at_ms) [
    | true ↦ failed clock_discontinuity
    | false ↦ elim (ltb (now - s.open_interval.opened_at_ms) s.open_interval.policy.interval_ms) [
      | true ↦ done ([], s)
      | false ↦ do
        boundary ←
            ok_or (checked_add s.open_interval.opened_at_ms s.open_interval.policy.interval_ms)
              clock_discontinuity
        (segment, s) ← construct_segment sha256 s boundary interval
        (later, s) ← close_rounds rounds s now
        done (and_later segment later, s)
    ]
  ]

  -- Each round opens the interval at least one millisecond later.
  unfoldable pub close_expired :
      ProducerState → ℕ → Outcome ProducerError (List SealedSegment × ProducerState)
  unfolding close_rounds
  close_expired s now = close_rounds (suc (now - s.open_interval.opened_at_ms)) s now
