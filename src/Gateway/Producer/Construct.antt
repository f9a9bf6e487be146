-- ===== src/Gateway/Producer/Construct.antt =====
-- producer.rs: `construct_segment`, which closes the open interval.
--
-- The source changes a copy of the state in place and every caller drops the copy when an error is
-- returned: the model returns the changed copy with the segment. `seal_open` counts the failures in
-- an event counter and is otherwise `construct_segment`; the counters are left out.
pub mod Content
pub mod Sealed
pub mod Kept
use trackone.Prelude.{
  ℕ, ◌+◌, ◌-◌, ◌^◌, Bool, true, false, ◌&&◌, not, Option, none, some, List, [], ◌∷◌, length, ◌==◌,
  if◌then◌else◌,
}
use trackone.Prelude.Outcome.{Outcome, done, failed, ◌>>=◌, ◌>>◌}
use trackone.Ledger.Hash.{Bytes, Hash}
use trackone.Ledger.Hex.{sha256_hex}
use trackone.Ledger.Vtl.Policy.{ClosurePolicy, EmptyMode, emit, suppress}
use trackone.Ledger.Vtl.Merkle.{
  MerkleResult, merkle_root_from_records, batch_roots_from_leaf_hashes,
}
use trackone.Ledger.Vtl.Segment.{SegmentRecord, canonical_cbor_bytes, Built, built, refused}
use trackone.Ledger.Vtl.Chain.{SegmentContent, SegmentConstructionError, new_epoch, new_successor}
use trackone.Gateway.Producer.{
  OpenInterval, ProducerState, SealedSegment, CloseReason, shutdown, recovery, ProducerError,
  ConstructionFault, serial_exhausted, invalid_configuration, bad_setting, construction,
  segment_fault, artifact_fault, concurrent_writer, as_str, checked_add, ok_or, count_u64,
}

-- `map_err`.
abbrev pub built_or : {E A : Type 0} → (E → ConstructionFault) → Built E A → Outcome ProducerError A
built_or wrap (built a) = done a
built_or wrap (refused e) = failed (construction (wrap e))

abbrev pub no_records : List Bytes → Bool
no_records [] = true
no_records (r ∷ rs) = false

abbrev pub is_suppress : EmptyMode → Bool
is_suppress suppress = true
is_suppress emit = false

abbrev pub closes_empty : CloseReason → Bool
closes_empty shutdown = true
closes_empty recovery = true
closes_empty _ = false

abbrev pub is_some : Option Bytes → Bool
is_some none = false
is_some (some artifact) = true

-- The state once the interval's records are taken: the next interval is open.
unfoldable pub reopened : ProducerState → ℕ → ProducerState
reopened s next_opened_at_ms = record {
  revision = s.revision;
  active = s.active;
  ledger_id = s.ledger_id;
  site_id = s.site_id;
  next_segment_number = s.next_segment_number;
  predecessor_cbor = s.predecessor_cbor;
  open_interval = record {
    opened_at_ms = next_opened_at_ms;
    clock_continuity_id = s.open_interval.clock_continuity_id;
    policy = s.next_policy;
    records = [];
    byte_count = 0;
  };
  next_policy = s.next_policy;
}

-- The state behind a sealed segment.
unfoldable pub advanced : ProducerState → Bytes → ℕ → ProducerState
advanced s artifact number = record {
  revision = s.revision;
  active = s.active;
  ledger_id = s.ledger_id;
  site_id = s.site_id;
  next_segment_number = number;
  predecessor_cbor = some artifact;
  open_interval = s.open_interval;
  next_policy = s.next_policy;
}

unfoldable pub segment_content : ClosurePolicy → CloseReason → ℕ → List Hash → Hash → SegmentContent
segment_content policy reason record_count batch_roots root = record {
  closure_policy = policy;
  close_reason = as_str reason;
  record_count = record_count;
  batch_roots = batch_roots;
  segment_root = root;
}

module _ (sha256 : Bytes → Hash) where
  -- The next segment of the chain, or its first one.
  unfoldable pub chain_segment :
      Option Bytes → Bytes → SegmentContent → Built SegmentConstructionError SegmentRecord
  chain_segment (some predecessor) ledger_id content = new_successor sha256 predecessor content
  chain_segment none ledger_id content = new_epoch sha256 ledger_id content

  unfoldable pub sealed_segment : CloseReason → List Bytes → ℕ → Bytes → SealedSegment
  sealed_segment reason records number artifact = record {
    segment_number = number;
    close_reason = reason;
    artifact_cbor = artifact;
    artifact_sha256 = sha256_hex sha256 artifact;
    records = records;
  }

  -- `construct_segment` behind its guards, from `merkle_root_from_records` on.
  unfoldable pub commit_records :
      ProducerState
      → ClosurePolicy
      → CloseReason
      → List Bytes
      → Outcome ProducerError (Option SealedSegment × ProducerState)
  unfolding chain_segment sealed_segment
  commit_records s policy reason records = do
    let merkle = merkle_root_from_records sha256 records
    batch_roots ←
        ok_or (batch_roots_from_leaf_hashes sha256 merkle.leaf_hashes policy.batch_record_limit) (
          invalid_configuration
            (bad_setting "batch_record_limit must be a power of two no greater than 2^63"))
    record_count ← count_u64 (length merkle.leaf_hashes) "segment record"
    segment ← built_or segment_fault (
        chain_segment s.predecessor_cbor s.ledger_id
          (segment_content policy reason record_count batch_roots merkle.root))
    number ←
        if segment.segment_number == s.next_segment_number
        then done segment.segment_number
        else failed concurrent_writer
    artifact_cbor ← built_or artifact_fault (canonical_cbor_bytes sha256 segment)
    next_number ← ok_or (checked_add s.next_segment_number 1) serial_exhausted
    done (
      some (sealed_segment reason records number artifact_cbor),
      advanced s artifact_cbor next_number,
    )

  unfoldable pub construct_segment :
      ProducerState → ℕ → CloseReason → Outcome ProducerError (Option SealedSegment × ProducerState)
  unfolding commit_records reopened
  construct_segment s next_opened_at_ms reason =
      let records = s.open_interval.records in
      let policy = s.open_interval.policy in
      let taken = reopened s next_opened_at_ms in
      if no_records records && (is_suppress policy.empty_mode && not (closes_empty reason))
      then done (none, taken)
      else if taken.next_segment_number == 2 ^ 64 - 1 && is_some taken.predecessor_cbor
      then failed serial_exhausted
      else commit_records taken policy reason records
