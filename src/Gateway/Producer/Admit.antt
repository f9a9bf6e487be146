-- ===== src/Gateway/Producer/Admit.antt =====
-- producer.rs: the loop of `admit_batch_inner` over the records of a batch.
pub mod Conserved
use trackone.Prelude.{
  ℕ, zero, suc, ◌+◌, Bool, true, false, Option, none, some, List, [], ◌∷◌, ◌++◌, length, leb,
}
use trackone.Prelude.Outcome.{Outcome, done, failed, ◌>>=◌}
use trackone.Ledger.Hash.{Bytes, Hash}
use trackone.Ledger.Vtl.Error.{Result, ok, err}
use trackone.Ledger.Vtl.Record.{validate_canonical_record}
use trackone.Gateway.Producer.{
  OpenInterval, ProducerState, SealedSegment, CloseReason, size_limit, record_limit, highest,
  ProducerError, counter_overflow, invalid_record, record_at, checked_add, ok_or, count_u64,
}
use trackone.Gateway.Producer.Construct.{construct_segment}
use trackone.Gateway.Producer.Expiry.{and_later}

-- The checks of the records, from the record at `index` on.
unfoldable pub validate_records : ℕ → List Bytes → Outcome ProducerError (Unit {0})
validate_records index [] = done tt
validate_records index (r ∷ rs) = elim (validate_canonical_record r) [
  | err e ↦ failed (invalid_record (record_at index e))
  | ok metadata ↦ validate_records (suc index) rs
]

-- A record behind the open ones.
unfoldable pub pushed : ProducerState → Bytes → ℕ → ProducerState
pushed s r byte_count = record {
  revision = s.revision;
  active = s.active;
  ledger_id = s.ledger_id;
  site_id = s.site_id;
  next_segment_number = s.next_segment_number;
  predecessor_cbor = s.predecessor_cbor;
  open_interval = record {
    opened_at_ms = s.open_interval.opened_at_ms;
    clock_continuity_id = s.open_interval.clock_continuity_id;
    policy = s.open_interval.policy;
    records = s.open_interval.records ++ (r ∷ []);
    byte_count = byte_count;
  };
  next_policy = s.next_policy;
}

-- `is_some_and(|limit| value >= limit)`.
abbrev pub reaches : Option ℕ → ℕ → Bool
reaches none value = false
reaches (some limit) value = leb limit value

-- `bool::then_some`, flattened.
abbrev pub if_reached : Bool → CloseReason → List CloseReason
if_reached true reason = reason ∷ []
if_reached false reason = []

-- Why the open interval is to be closed, if it is.
unfoldable pub limit_reached : OpenInterval → Option CloseReason
unfolding highest
limit_reached o = highest (
    if_reached (reaches o.policy.size_limit_bytes o.byte_count) size_limit
    ++ if_reached (reaches o.policy.record_limit (length o.records)) record_limit)

module _ (sha256 : Bytes → Hash) where
  unfoldable pub close_if_full :
      ProducerState → ℕ → Outcome ProducerError (Option SealedSegment × ProducerState)
  unfolding limit_reached construct_segment
  close_if_full s now = elim (limit_reached s.open_interval) [
    | none ↦ done (none, s)
    | some reason ↦ construct_segment sha256 s now reason
  ]

  unfoldable pub admit_record :
      ProducerState → ℕ → Bytes → Outcome ProducerError (Option SealedSegment × ProducerState)
  unfolding close_if_full pushed
  admit_record s now r = do
    len ← count_u64 (length r) "interval byte"
    byte_count ←
        ok_or (checked_add s.open_interval.byte_count len) (counter_overflow "interval byte")
    close_if_full (pushed s r byte_count) now

  -- The numbers of the segments that the records went to, the segments sealed, and the state.
  unfoldable pub admit_records :
      ProducerState
      → ℕ
      → List Bytes
      → Outcome ProducerError (List ℕ × List SealedSegment × ProducerState)
  unfolding admit_record
  admit_records s now [] = done ([], [], s)
  admit_records s now (r ∷ rs) = do
    (segment, t) ← admit_record s now r
    (numbers, later, u) ← admit_records t now rs
    done (s.next_segment_number ∷ numbers, and_later segment later, u)
