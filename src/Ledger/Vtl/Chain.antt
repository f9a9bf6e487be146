-- ===== src/Ledger/Vtl/Chain.antt =====
-- The constructors of vtl.rs: an epoch segment, and the successor of an artifact.
pub mod Links
use trackone.Prelude.{
  ℕ, zero, suc, ◌+◌, ◌^◌, Bool, true, false, Option, none, some, List, [], ◌∷◌, String, leb,
  if◌then◌else◌,
}
use trackone.Ledger.Hash.{Bytes, Hash}
use trackone.Ledger.Vtl.Policy.{ClosurePolicy, Checked, passed, failed}
use trackone.Ledger.Vtl.Error.{SegmentDecodeError, Result, ok, err}
use trackone.Ledger.Vtl.Segment.{
  SegmentRecord, SegmentInvariantError, commitment_profile_id, zero_sha256, validate_detailed,
  Built, built, refused,
}
use trackone.Ledger.Vtl.Decode.{decode_segment_record}

pub data SegmentConstructionError : Type 0 where
  invalid_predecessor : SegmentDecodeError → SegmentConstructionError
  segment_number_exhausted : SegmentConstructionError
  invariant : SegmentInvariantError → SegmentConstructionError

pub record SegmentChainPosition : Type 0 where
  pub ledger_id : Bytes
  pub segment_number : ℕ
  pub predecessor_sha256 : Hash

-- What a new segment commits to, wherever it stands in its chain.
pub record SegmentContent : Type 0 where
  pub closure_policy : ClosurePolicy
  pub close_reason : Bytes
  pub record_count : ℕ
  pub batch_roots : List Hash
  pub segment_root : Hash

-- `u64::checked_add(1)`.
unfoldable pub checked_suc : ℕ → Option ℕ
checked_suc n = if leb (2 ^ 64) (n + 1) then none else some (n + 1)

unfoldable pub segment_at : SegmentChainPosition → SegmentContent → SegmentRecord
segment_at position content = record {
  profile_id = commitment_profile_id;
  ledger_id = position.ledger_id;
  segment_number = position.segment_number;
  closure_policy = content.closure_policy;
  close_reason = content.close_reason;
  prev_segment_sha256 = position.predecessor_sha256;
  record_count = content.record_count;
  batch_roots = content.batch_roots;
  segment_root = content.segment_root;
}

module _ (sha256 : Bytes → Hash) where
  unfoldable pub new_at_position :
      SegmentChainPosition → SegmentContent → Built SegmentConstructionError SegmentRecord
  unfolding segment_at
  new_at_position position content = elim (validate_detailed sha256 (segment_at position content)) [
    | failed e ↦ refused (invariant e)
    | passed ↦ built (segment_at position content)
  ]

  unfoldable pub new_epoch : Bytes → SegmentContent → Built SegmentConstructionError SegmentRecord
  unfolding new_at_position
  new_epoch ledger_id content =
      new_at_position
        (record { ledger_id = ledger_id; segment_number = 0; predecessor_sha256 = zero_sha256 })
        content

  -- Behind the predecessor's decoding.
  unfoldable pub successor_of :
      Bytes → SegmentContent → SegmentRecord → Built SegmentConstructionError SegmentRecord
  unfolding new_at_position
  successor_of predecessor_bytes content predecessor =
      elim (checked_suc predecessor.segment_number) [
        | none ↦ refused segment_number_exhausted
        | some number ↦
            new_at_position
              (record {
                ledger_id = predecessor.ledger_id;
                segment_number = number;
                predecessor_sha256 = sha256 predecessor_bytes;
              })
              content
      ]

  unfoldable pub new_successor :
      Bytes → SegmentContent → Built SegmentConstructionError SegmentRecord
  unfolding successor_of
  new_successor predecessor_bytes content = elim (decode_segment_record sha256 predecessor_bytes) [
    | err e ↦ refused (invalid_predecessor e)
    | ok predecessor ↦ successor_of predecessor_bytes content predecessor
  ]
