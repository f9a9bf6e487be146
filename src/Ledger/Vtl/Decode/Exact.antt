-- ===== src/Ledger/Vtl/Decode/Exact.antt =====
-- vtl.rs: what a decoded segment says of the bytes it came from.
use trackone.Prelude.{◌≡◌, ap, ◌∙◌, inl, inr, length, Bool-cases}
use trackone.Prelude.Text.{bytes_eq, bytes_eq→eq}
use trackone.Ledger.Hash.{Bytes, Hash}
use trackone.Ledger.Vtl.Policy.{passed, Checked-cases}
use trackone.Ledger.Vtl.Error.{ok, require, >>=-eq-ok, ok-injective}
use trackone.Ledger.Vtl.Cbor.{parse_cbor_value, max_levels}
use trackone.Ledger.Vtl.Segment.{
  SegmentRecord, validate_detailed, canonical_cbor_bytes, segment_bytes, built,
}
use trackone.Ledger.Vtl.Segment.Valid.{canonical_cbor_bytes_valid}
use trackone.Ledger.Vtl.Decode.{check_record, decode_segment_record, segment_of_value, all_read}

module _ (sha256 : Bytes → Hash) where
  check_record_sound :
      (input : Bytes) (r s : SegmentRecord)
      → check_record sha256 input r ≡ ok s
      → (validate_detailed sha256 s ≡ passed) × (canonical_cbor_bytes sha256 s ≡ built input)
  unfolding check_record
  check_record_sound input r s h = elim (Checked-cases (validate_detailed sha256 r)) [
    | inr (e, bad) ↦ absurd (cc (rw bad at h))
    | inl valid ↦
        let bytes = canonical_cbor_bytes_valid sha256 r valid in
        elim (Bool-cases (bytes_eq (segment_bytes r) input)) [
          | inr differ ↦ absurd (cc (rw (valid, bytes, differ) at h))
          | inl same ↦
              let e : r ≡ s = ok-injective (rw (valid, bytes, same) at h) in
              rw (← e) (valid, bytes ∙ ap built (bytes_eq→eq (segment_bytes r) input same))
        ]
  ]

  -- Whatever bytes are decoded, the record is valid and its canonical artifact is those bytes.
  pub decode_segment_record_exact :
      (input : Bytes) (r : SegmentRecord)
      → decode_segment_record sha256 input ≡ ok r
      → (validate_detailed sha256 r ≡ passed) × (canonical_cbor_bytes sha256 r ≡ built input)
  unfolding decode_segment_record
  decode_segment_record_exact input r h =
      let (parsed, _, h') = >>=-eq-ok (parse_cbor_value max_levels (input, length input)) _ h in
      let (_, _, h'') = >>=-eq-ok (require (all_read parsed.1.0) _) _ h' in
      let (s, _, checked) = >>=-eq-ok (segment_of_value parsed.0) _ h'' in
      check_record_sound input s r checked
