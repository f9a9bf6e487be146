-- ===== src/Examples/Segments.antt =====
-- A ledger of two segments under a short checksum in the place of SHA-256.
use trackone.Prelude.{
  ℕ, ◌+◌, ◌*◌, ◌%◌, ◌≡◌, ◌↔◌, refl, arith, none, some, List, [], ◌∷◌, length, map,
}
use mathlib.Core.List.{Perm}
use mathlib.Core.List.Perm
use trackone.Prelude.Bytes.{to_be_bytes, length-to_be_bytes}
use trackone.Prelude.Text.{codes}
use trackone.Ledger.Hash.{Bytes, Hash}
use trackone.Ledger.Vtl.Policy.{
  ClosurePolicy, emit, passed, validate, validate_limits, validate_batch_record_limit,
  is_power_of_two,
}
use trackone.Ledger.Vtl.Policy.Limits.{IsPolicy, validate_exact}
use trackone.Ledger.Vtl.Merkle.{
  split_size, mth, node, prefixed_hash, merkle_root_from_leaf_hashes, merkle_root_from_records,
  batch_roots_from_leaf_hashes, compose_batch_roots, compose_batch_range, compose_fuel,
}
use trackone.Ledger.Vtl.Merkle.Compose.{compose_batch_roots-batch_roots}
use trackone.Ledger.Vtl.Merkle.Tree.{IsTreeHash, mth-IsTreeHash}
use trackone.Ledger.Vtl.Merkle.Sorted.{
  merkle_root_from_records-perm, merkle_root_from_records_leaves, IsSorted,
}
use trackone.Ledger.Vtl.Error.{ok}
use trackone.Ledger.Vtl.Segment.{
  SegmentRecord, commitment_profile_id, zero_sha256, validate_detailed, canonical_cbor_bytes, built,
  segment_bytes, valid_hex, valid_close_reason, validate_roots, validate_empty,
}
use trackone.Ledger.Vtl.Segment.Value.{IsTyped}
use trackone.Ledger.Vtl.Decode.{decode_segment_record}
use trackone.Ledger.Vtl.Decode.RoundTrip.{decode_segment_record-canonical}
use trackone.Ledger.Vtl.Decode.Exact.{decode_segment_record_exact}
use trackone.Ledger.Vtl.Chain.{SegmentContent, new_epoch, segment_at, new_successor}
use trackone.Ledger.Vtl.Chain.Links.{
  Follows, Produced, opened, extended, new_epoch_complete, new_successor_complete,
  new_successor-Follows, Produced_decodes,
}
use trackone.Ledger.Vtl.Segment.Valid.{canonical_cbor_bytes_valid}

pub checksum : ℕ → Bytes → ℕ
checksum acc [] = acc
checksum acc (b ∷ bs) = checksum ((acc * 31 + b) % 65521) bs

unfoldable pub toy_digest : Bytes → Hash
unfolding checksum
toy_digest bytes = to_be_bytes 32 (checksum 1 bytes)

abbrev pub ledger : Bytes
ledger = codes "0123456789abcdef0123456789abcdef"

abbrev pub policy : ClosurePolicy
policy = record {
  interval_ms = 1000;
  batch_record_limit = 2;
  record_limit = none;
  size_limit_bytes = some 1024;
  empty_mode = emit;
}

abbrev pub first_leaf : Hash
first_leaf = toy_digest (0 ∷ 1 ∷ [])

abbrev pub second_leaf : Hash
second_leaf = toy_digest (0 ∷ 2 ∷ [])

abbrev pub third_leaf : Hash
third_leaf = toy_digest (0 ∷ 3 ∷ [])

abbrev pub three_leaves : List Hash
three_leaves = first_leaf ∷ second_leaf ∷ third_leaf ∷ []

abbrev pub two_roots : List Hash
two_roots = node toy_digest first_leaf second_leaf ∷ third_leaf ∷ []

abbrev pub content : SegmentContent
content = record {
  closure_policy = policy;
  close_reason = codes "record_limit";
  record_count = 3;
  batch_roots = two_roots;
  segment_root = node toy_digest (node toy_digest first_leaf second_leaf) third_leaf;
}

abbrev pub epoch_segment : SegmentRecord
epoch_segment = record {
  profile_id = commitment_profile_id;
  ledger_id = ledger;
  segment_number = 0;
  closure_policy = policy;
  close_reason = codes "record_limit";
  prev_segment_sha256 = zero_sha256;
  record_count = 3;
  batch_roots = two_roots;
  segment_root = node toy_digest (node toy_digest first_leaf second_leaf) third_leaf;
}

pub length-toy_digest : (bytes : Bytes) → length (toy_digest bytes) ≡ 32
unfolding toy_digest
length-toy_digest bytes = length-to_be_bytes 32 (checksum 1 bytes)

pub epoch_segment-IsTyped : IsTyped epoch_segment
unfolding prefixed_hash node
epoch_segment-IsTyped = record {
  interval_word = omega arith;
  limit_word = omega arith;
  record_limit_word = tt;
  size_limit_word = omega arith;
  number_word = omega arith;
  count_word = omega arith;
  roots_word = omega arith;
  roots_digests = (length-toy_digest _, (length-toy_digest _, tt));
  prev_digest = refl;
  root_digest = length-toy_digest _;
}

pub epoch_segment_valid : validate_detailed toy_digest epoch_segment ≡ passed
unfolding validate_detailed validate validate_limits validate_batch_record_limit is_power_of_two
    toy_digest valid_hex valid_close_reason validate_roots validate_empty compose_batch_roots
    compose_batch_range compose_fuel node prefixed_hash split_size to_be_bytes
epoch_segment_valid = refl

decode_segment_record-canonical_example :
    (artifact : Bytes) × (canonical_cbor_bytes toy_digest epoch_segment ≡ built artifact)
    × (decode_segment_record toy_digest artifact ≡ ok epoch_segment)
decode_segment_record-canonical_example =
    decode_segment_record-canonical toy_digest epoch_segment epoch_segment-IsTyped
      epoch_segment_valid

limit_accepted : validate_batch_record_limit 2 ≡ passed
unfolding validate_batch_record_limit is_power_of_two
limit_accepted = refl

compose_batch_roots-batch_roots_example :
    (roots : List Hash) × (batch_roots_from_leaf_hashes toy_digest three_leaves 2 ≡ some roots)
    × (compose_batch_roots toy_digest roots 3 2
        ≡ some (merkle_root_from_leaf_hashes toy_digest three_leaves))
compose_batch_roots-batch_roots_example =
    compose_batch_roots-batch_roots toy_digest 2 three_leaves limit_accepted (omega arith)
      (omega arith)

mth-IsTreeHash_example : IsTreeHash toy_digest three_leaves (mth toy_digest three_leaves)
mth-IsTreeHash_example = mth-IsTreeHash toy_digest three_leaves (omega arith)

abbrev pub epoch_artifact : Bytes
epoch_artifact = segment_bytes epoch_segment

pub epoch_built_from_content : new_epoch toy_digest ledger content ≡ built epoch_segment
unfolding segment_at
epoch_built_from_content = new_epoch_complete toy_digest ledger content epoch_segment_valid

pub epoch_artifact_built : canonical_cbor_bytes toy_digest epoch_segment ≡ built epoch_artifact
epoch_artifact_built = canonical_cbor_bytes_valid toy_digest epoch_segment epoch_segment_valid

abbrev pub epoch_history : Produced toy_digest ledger epoch_segment epoch_artifact
epoch_history = opened content epoch_built_from_content epoch_segment-IsTyped epoch_artifact_built

pub epoch_artifact_decodes : decode_segment_record toy_digest epoch_artifact ≡ ok epoch_segment
epoch_artifact_decodes = (Produced_decodes toy_digest ledger epoch_history).0

decode_segment_record_exact_example :
    (validate_detailed toy_digest epoch_segment ≡ passed)
    × (canonical_cbor_bytes toy_digest epoch_segment ≡ built epoch_artifact)
decode_segment_record_exact_example =
    decode_segment_record_exact toy_digest epoch_artifact epoch_segment epoch_artifact_decodes

-- An empty segment behind the first one.
abbrev pub closing : SegmentContent
closing = record {
  closure_policy = policy;
  close_reason = codes "shutdown";
  record_count = 0;
  batch_roots = [];
  segment_root = toy_digest [];
}

abbrev pub closing_segment : SegmentRecord
closing_segment = record {
  profile_id = commitment_profile_id;
  ledger_id = ledger;
  segment_number = 1;
  closure_policy = policy;
  close_reason = codes "shutdown";
  prev_segment_sha256 = toy_digest epoch_artifact;
  record_count = 0;
  batch_roots = [];
  segment_root = toy_digest [];
}

pub closing_segment-IsTyped : IsTyped closing_segment
closing_segment-IsTyped = record {
  interval_word = omega arith;
  limit_word = omega arith;
  record_limit_word = tt;
  size_limit_word = omega arith;
  number_word = omega arith;
  count_word = omega arith;
  roots_word = omega arith;
  roots_digests = tt;
  prev_digest = length-toy_digest _;
  root_digest = length-toy_digest _;
}

pub closing_segment_valid : validate_detailed toy_digest closing_segment ≡ passed
unfolding validate_detailed validate validate_limits validate_batch_record_limit is_power_of_two
    toy_digest valid_hex valid_close_reason validate_roots validate_empty to_be_bytes
closing_segment_valid = refl

pub closing_built : new_successor toy_digest epoch_artifact closing ≡ built closing_segment
unfolding segment_at
closing_built =
    new_successor_complete toy_digest epoch_artifact closing epoch_segment epoch_artifact_decodes
      (omega arith) closing_segment_valid

pub closing_artifact_built :
    canonical_cbor_bytes toy_digest closing_segment ≡ built (segment_bytes closing_segment)
closing_artifact_built = canonical_cbor_bytes_valid toy_digest closing_segment closing_segment_valid

abbrev pub two_segments : Produced toy_digest ledger closing_segment (segment_bytes closing_segment)
two_segments =
    extended closing epoch_history closing_built closing_segment-IsTyped closing_artifact_built

new_successor-Follows_example :
    (p : SegmentRecord) × (decode_segment_record toy_digest epoch_artifact ≡ ok p)
    × Follows toy_digest epoch_artifact p closing_segment
new_successor-Follows_example =
    new_successor-Follows toy_digest epoch_artifact closing closing_segment closing_built

Produced_decodes_example :
    (decode_segment_record toy_digest (segment_bytes closing_segment) ≡ ok closing_segment)
    × (ledger ≡ ledger)
Produced_decodes_example = Produced_decodes toy_digest ledger two_segments

swapped : Perm {A = Bytes} ((1 ∷ []) ∷ (2 ∷ []) ∷ []) ((2 ∷ []) ∷ (1 ∷ []) ∷ [])
swapped = Perm.swap (2 ∷ []) (1 ∷ []) []

merkle_root_from_records-perm_example :
    merkle_root_from_records toy_digest ((1 ∷ []) ∷ (2 ∷ []) ∷ [])
    ≡ merkle_root_from_records toy_digest ((2 ∷ []) ∷ (1 ∷ []) ∷ [])
merkle_root_from_records-perm_example = merkle_root_from_records-perm toy_digest swapped

merkle_root_from_records_leaves_example :
    let result = merkle_root_from_records toy_digest ((2 ∷ []) ∷ (1 ∷ []) ∷ []) in
    Perm result.leaf_hashes (map (λ r. toy_digest (0 ∷ r)) ((2 ∷ []) ∷ (1 ∷ []) ∷ []))
    × IsSorted result.leaf_hashes
    × (result.root ≡ merkle_root_from_leaf_hashes toy_digest result.leaf_hashes)
merkle_root_from_records_leaves_example =
    merkle_root_from_records_leaves toy_digest ((2 ∷ []) ∷ (1 ∷ []) ∷ [])

validate_exact_example : (validate policy ≡ passed) ↔ IsPolicy policy
validate_exact_example = validate_exact policy
