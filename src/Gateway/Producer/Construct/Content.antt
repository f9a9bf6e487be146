-- ===== src/Gateway/Producer/Construct/Content.antt =====
-- producer.rs: the content that `construct_segment` seals meets the invariants of a segment.
use trackone.Prelude.{
  ℕ, ◌^◌, ◌≤◌, ◌<◌, ◌≡◌, refl, sym, ◌∙◌, arith, true, false, ◌&&◌, not, some, List, [], ◌∷◌, map,
  length, All,
}
use mathlib.Core.Path.{subst}
use trackone.Prelude.Text.{codes, bytes_eq_refl}
use trackone.Ledger.Hash.{Bytes, Hash}
use trackone.Ledger.Vtl.Policy.{ClosurePolicy, passed, validate, validate_batch_record_limit}
use trackone.Ledger.Vtl.Merkle.{
  merkle_root_from_records, batch_roots_from_leaf_hashes, compose_batch_roots, mth,
  merkle_root_from_leaf_hashes, chunks, mth_fuel, sort,
}
use trackone.Ledger.Vtl.Merkle.Digests.{IsDigest, record_leaves, batch_roots-IsDigest}
use trackone.Ledger.Vtl.Merkle.Compose.{compose_batch_roots-batch_roots}
use trackone.Ledger.Vtl.Segment.{
  SegmentRecord, zero_sha256, valid_hex, valid_close_reason, validate_detailed, validate_empty,
  is_one_of,
}
use trackone.Ledger.Vtl.Segment.Value.{IsTyped, IsOptionalWord}
use trackone.Ledger.Vtl.Segment.Complete.{validate_detailed_complete}
use trackone.Ledger.Vtl.Chain.{SegmentChainPosition, segment_at}
use trackone.Gateway.Producer.{
  CloseReason, recovery, shutdown, reconfigure, size_limit, record_limit, interval, manual, as_str,
}
use trackone.Gateway.Producer.Construct.{segment_content, no_records, is_suppress, closes_empty}

pub valid_close_reason-as_str : (reason : CloseReason) → valid_close_reason (as_str reason) ≡ true
unfolding valid_close_reason as_str
valid_close_reason-as_str recovery = refl
valid_close_reason-as_str shutdown = refl
valid_close_reason-as_str reconfigure = refl
valid_close_reason-as_str size_limit = refl
valid_close_reason-as_str record_limit = refl
valid_close_reason-as_str interval = refl
valid_close_reason-as_str manual = refl

-- A policy whose fields fit their types.
pub record IsTypedPolicy (p : ClosurePolicy) : Type 0 where
  pub interval_word : p.interval_ms < 2 ^ 64
  pub limit_word : p.batch_record_limit < 2 ^ 64
  pub record_limit_word : IsOptionalWord p.record_limit
  pub size_limit_word : IsOptionalWord p.size_limit_bytes

closes_empty_text :
    (reason : CloseReason)
    → is_one_of (codes "shutdown" ∷ codes "recovery" ∷ []) (as_str reason) ≡ closes_empty reason
unfolding as_str
closes_empty_text recovery = refl
closes_empty_text shutdown = refl
closes_empty_text reconfigure = refl
closes_empty_text size_limit = refl
closes_empty_text record_limit = refl
closes_empty_text interval = refl
closes_empty_text manual = refl

valid_batch_limit :
    (p : ClosurePolicy)
    → validate p ≡ passed
    → validate_batch_record_limit p.batch_record_limit ≡ passed
unfolding validate
valid_batch_limit p h = ground arith

-- What the guard in front of the sealing leaves.
abbrev pub Kept : ClosurePolicy → CloseReason → List Bytes → Type 0
Kept policy reason records =
    (no_records records && (is_suppress policy.empty_mode && not (closes_empty reason))) ≡ false

module _ (sha256 : Bytes → Hash) where
  abbrev pub leaves_of : List Bytes → List Hash
  leaves_of records = (merkle_root_from_records sha256 records).leaf_hashes

  -- What the sealing of some records finds on its way.
  pub record Sealable (policy : ClosurePolicy) (records : List Bytes) (roots : List Hash)
      : Type 0 where
    pub found :
        batch_roots_from_leaf_hashes sha256 (leaves_of records) policy.batch_record_limit
        ≡ some roots
    pub count : length (leaves_of records) ≡ length records
    pub roots_digests : All IsDigest roots
    pub few_roots : length roots ≤ length records
    pub root_digest : IsDigest (merkle_root_from_records sha256 records).root
    pub composed :
        0 < length records
        → compose_batch_roots sha256 roots (length (leaves_of records)) policy.batch_record_limit
          ≡ some (merkle_root_from_records sha256 records).root

  abbrev pub sealed_at :
      SegmentChainPosition → ClosurePolicy → CloseReason → List Bytes → List Hash → SegmentRecord
  sealed_at p policy reason records roots = segment_at p (
      segment_content policy reason (length (leaves_of records)) roots
        (merkle_root_from_records sha256 records).root)

module _ (sha256 : Bytes → Hash) (digests : (message : Bytes) → length (sha256 message) ≡ 32) where
  root_of :
      (records : List Bytes)
      → some (merkle_root_from_leaf_hashes sha256 (leaves_of sha256 records))
        ≡ some (merkle_root_from_records sha256 records).root
  unfolding merkle_root_from_records merkle_root_from_leaf_hashes
  root_of records = refl

  roots_exist :
      (limit : ℕ) (leaves : List Hash)
      → validate_batch_record_limit limit ≡ passed
      → (roots : List Hash) × (batch_roots_from_leaf_hashes sha256 leaves limit ≡ some roots)
  unfolding batch_roots_from_leaf_hashes
  roots_exist limit leaves valid =
      (map (mth sha256) (chunks limit leaves), rw (valid, batch_roots_from_leaf_hashes) refl)

  pub sealable :
      (policy : ClosurePolicy) (records : List Bytes)
      → validate policy ≡ passed
      → length records < 2 ^ 64
      → (roots : List Hash) × Sealable sha256 policy records roots
  sealable policy records valid small =
      let limit : ℕ = policy.batch_record_limit in
      let leaves : List Hash = leaves_of sha256 records in
      let ok : validate_batch_record_limit limit ≡ passed = valid_batch_limit policy valid in
      let (count, all, root) = record_leaves sha256 digests records small in
      let (roots, found) = roots_exist limit leaves ok in
      let (digests_of, few) =
        batch_roots-IsDigest sha256 digests leaves limit roots ok (omega (arith, count)) all
          found in
      (
        roots,
        record {
          found = found;
          count = count;
          roots_digests = digests_of;
          few_roots = omega (arith, few, count);
          root_digest = root;
          composed = λ pos.
              let (others, found', composed) =
                compose_batch_roots-batch_roots sha256 limit leaves ok (omega (arith, count))
                  (omega (arith, count)) in
              let same : others ≡ roots = cc (sym found' ∙ found) in
              subst
                (λ (r : List Hash).
                  compose_batch_roots sha256 r (length leaves) limit
                  ≡ some (merkle_root_from_records sha256 records).root)
                same (composed ∙ root_of records);
        },
      )

  empty_valid :
      (p : SegmentChainPosition) (policy : ClosurePolicy) (reason : CloseReason)
      → Kept policy reason []
      → validate_empty sha256 (sealed_at sha256 p policy reason [] []) ≡ passed
  unfolding validate_empty segment_at segment_content merkle_root_from_records mth mth_fuel sort
  empty_valid p policy reason kept =
      ground (arith, bytes_eq_refl (sha256 []), closes_empty_text reason)

  pub segment_valid :
      (p : SegmentChainPosition) (policy : ClosurePolicy) (reason : CloseReason)
      (records : List Bytes) (roots : List Hash)
      → validate policy ≡ passed
      → valid_hex p.ledger_id 32 ≡ true
      → (p.segment_number ≡ 0 → p.predecessor_sha256 ≡ zero_sha256)
      → Kept policy reason records
      → Sealable sha256 policy records roots
      → validate_detailed sha256 (sealed_at sha256 p policy reason records roots) ≡ passed
  unfolding segment_at segment_content
  segment_valid p policy reason records roots valid hex first kept s =
      validate_detailed_complete sha256 (sealed_at sha256 p policy reason records roots) hex refl
        valid (valid_close_reason-as_str reason) first
        (λ none_sealed. no_leaves records roots (omega (arith, s.count)) s kept)
        (λ pos. s.composed (omega (arith, s.count, pos)))
    where
      no_leaves :
          (rs : List Bytes) (hs : List Hash)
          → length rs ≡ 0
          → Sealable sha256 policy rs hs
          → Kept policy reason rs
          → validate_empty sha256 (sealed_at sha256 p policy reason rs hs) ≡ passed
      no_leaves [] [] h t kept = empty_valid p policy reason kept
      no_leaves [] (x ∷ xs) h t kept = absurd (omega (arith, t.few_roots))
      no_leaves (x ∷ xs) hs h t kept = absurd (omega arith)

  pub segment-IsTyped :
      (p : SegmentChainPosition) (policy : ClosurePolicy) (reason : CloseReason)
      (records : List Bytes) (roots : List Hash)
      → IsTypedPolicy policy
      → p.segment_number < 2 ^ 64
      → IsDigest p.predecessor_sha256
      → length records < 2 ^ 64
      → Sealable sha256 policy records roots
      → IsTyped (sealed_at sha256 p policy reason records roots)
  unfolding segment_at segment_content
  segment-IsTyped p policy reason records roots typed number prev small s = record {
    interval_word = typed.interval_word;
    limit_word = typed.limit_word;
    record_limit_word = typed.record_limit_word;
    size_limit_word = typed.size_limit_word;
    number_word = number;
    count_word = omega (arith, s.count);
    roots_word = omega (arith, s.few_roots);
    roots_digests = s.roots_digests;
    prev_digest = prev;
    root_digest = s.root_digest;
  }
