-- ===== src/Ledger/Vtl/Decode/RoundTrip.antt =====
-- vtl.rs: artifacts of valid segments through the decoder.
use mathlib.Core.List.{append-nil}
use trackone.Prelude.{
  ℕ, ◌-◌, ◌≡◌, refl, arith, Option, none, some, List, [], ◌∷◌, length, All, String, true, eq→==,
}
use trackone.Prelude.Text.{bytes_eq, bytes_eq_refl}
use trackone.Ledger.Hash.{Bytes, Hash}
use trackone.Ledger.Vtl.Policy.{ClosurePolicy, EmptyMode, emit, suppress, passed, validate}
use trackone.Ledger.Vtl.Error.{ok}
use trackone.Ledger.Vtl.Cbor.{CborValue, parse_cbor_value, max_levels, bytes}
use trackone.Ledger.Vtl.Cbor.Values.{encode, weight, weight-le-length}
use trackone.Ledger.Vtl.Cbor.RoundTrip.{parse_cbor_value-encode}
use trackone.Ledger.Vtl.Segment.{
  SegmentRecord, validate_detailed, canonical_cbor_bytes, segment_bytes, built, empty_mode_text,
  commitment_profile_id,
}
use trackone.Ledger.Vtl.Segment.Valid.{validated_fields, canonical_cbor_bytes_valid}
use trackone.Ledger.Vtl.Segment.Value.{
  segment_value, policy_value, optional_value, root_items, IsTyped, encode-segment_value,
  segment_value-IsCanonical, depth-segment_value,
}
use trackone.Ledger.Vtl.Decode.{
  into_map, take_value, take_text, take_uint, take_sha256, take_sha256_array, optional_uint,
  no_fields_left, empty_mode_of, decode_policy, segment_of_value, as_sha256, as_sha256_items,
  as_optional_uint, check_record, valid_policy, decode_segment_record,
}

as_optional_uint-optional_value :
    (name : String) (o : Option ℕ) → as_optional_uint name (optional_value o) ≡ ok o
unfolding as_optional_uint optional_value
as_optional_uint-optional_value name none = refl
as_optional_uint-optional_value name (some n) = refl

empty_mode_of-text : (m : EmptyMode) → empty_mode_of (empty_mode_text m) ≡ ok m
unfolding empty_mode_of empty_mode_text
empty_mode_of-text emit = refl
empty_mode_of-text suppress = refl

as_sha256-bytes : (name : String) (h : Hash) → length h ≡ 32 → as_sha256 name (bytes h) ≡ ok h
unfolding as_sha256
as_sha256-bytes name h size = rw (eq→== (length h) 32 size) refl

as_sha256_items-root_items :
    (name : String) (roots : List Hash)
    → All (λ (h : Hash). length h ≡ 32) roots
    → as_sha256_items name (root_items roots) ≡ ok roots
unfolding as_sha256_items root_items
as_sha256_items-root_items name [] h = refl
as_sha256_items-root_items name (root ∷ roots) h =
    rw (as_sha256-bytes name root h.0, as_sha256_items-root_items name roots h.1) refl

decode_policy-policy_value :
    (p : ClosurePolicy) → validate p ≡ passed → decode_policy (policy_value p) ≡ ok p
unfolding decode_policy policy_value into_map take_uint take_text take_value optional_uint
    no_fields_left
decode_policy-policy_value p valid =
    rw
      (
        as_optional_uint-optional_value "record_limit" p.record_limit,
        as_optional_uint-optional_value "size_limit_bytes" p.size_limit_bytes,
        empty_mode_of-text p.empty_mode,
      )
      (rw (valid, valid_policy) refl)

bytes_eq→profile :
    (r : SegmentRecord)
    → r.profile_id ≡ commitment_profile_id
    → bytes_eq r.profile_id commitment_profile_id ≡ true
bytes_eq→profile r e = rw e (bytes_eq_refl commitment_profile_id)

segment_of_value-segment_value :
    (r : SegmentRecord)
    → IsTyped r
    → r.profile_id ≡ commitment_profile_id
    → validate r.closure_policy ≡ passed
    → segment_of_value (segment_value r) ≡ ok r
unfolding segment_of_value segment_value into_map take_uint take_text take_value take_sha256
    take_sha256_array no_fields_left
segment_of_value-segment_value r t profile policy =
    rw
      (
        bytes_eq→profile r profile,
        decode_policy-policy_value r.closure_policy policy,
        as_sha256-bytes "prev_segment_sha256" r.prev_segment_sha256 t.prev_digest,
        as_sha256_items-root_items "batch_roots" r.batch_roots t.roots_digests,
        as_sha256-bytes "segment_root" r.segment_root t.root_digest,
      )
      refl

module _ (sha256 : Bytes → Hash) where
  check_record_valid :
      (r : SegmentRecord)
      → validate_detailed sha256 r ≡ passed
      → check_record sha256 (segment_bytes r) r ≡ ok r
  unfolding check_record
  check_record_valid r valid =
      rw (valid, canonical_cbor_bytes_valid sha256 r valid, bytes_eq_refl (segment_bytes r)) refl

  parse_segment_bytes :
      (r : SegmentRecord)
      → IsTyped r
      → validate_detailed sha256 r ≡ passed
      → (left : ℕ) × (parse_cbor_value max_levels (segment_bytes r, length (segment_bytes r))
          ≡ ok (segment_value r, ([], left)))
  parse_segment_bytes r t valid =
      let v : CborValue = segment_value r in
      (
        length (segment_bytes r) - weight v,
        rw (append-nil, encode-segment_value r) at
            (parse_cbor_value-encode max_levels v (length (encode v)) []
              (segment_value-IsCanonical sha256 r t valid) (omega (arith, depth-segment_value r))
              (weight-le-length v)),
      )

  -- A valid segment whose fields lie in the ranges of their types is what its artifact decodes to.
  pub decode_segment_record-canonical :
      (r : SegmentRecord)
      → IsTyped r
      → validate_detailed sha256 r ≡ passed
      → (artifact : Bytes) × (canonical_cbor_bytes sha256 r ≡ built artifact)
        × (decode_segment_record sha256 artifact ≡ ok r)
  unfolding decode_segment_record
  decode_segment_record-canonical r t valid =
      let (_, profile, policy, _) = validated_fields sha256 r valid in
      let (left, parsed) = parse_segment_bytes r t valid in
      (
        segment_bytes r,
        canonical_cbor_bytes_valid sha256 r valid,
        rw (parsed, segment_of_value-segment_value r t profile policy, check_record_valid r valid)
            refl,
      )
