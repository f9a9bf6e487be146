-- ===== src/Examples/Codec.antt =====
-- A small CBOR value and its heads; the verdict on the ledger of two segments.
use trackone.Prelude.{◌+◌, ◌^◌, ◌<◌, ◌≡◌, refl, ap, ◌≤◌, arith, some, [], ◌∷◌, ◌++◌, All}
use trackone.Prelude.Bytes.{IsByte, to_be_bytes}
use trackone.Prelude.Text.{codes}
use trackone.Prelude.Utf8.{valid_utf8}
use trackone.Ledger.Hash.{Bytes}
use trackone.Ledger.Vtl.Error.{ok}
use trackone.Ledger.Vtl.Cbor.{
  CborValue, uint, array, map, null, nil, cons, end, entry, put_head, read_head, parse_cbor_value,
  out_of_order,
}
use trackone.Ledger.Vtl.Cbor.Values.{encode, weight, depth, IsCanonical}
use trackone.Ledger.Vtl.Cbor.Heads.{read_head-put_head, read_head_sound}
use trackone.Ledger.Vtl.Cbor.RoundTrip.{parse_cbor_value-encode}
use trackone.Ledger.Vtl.Segment.{SegmentRecord}
use trackone.Ledger.Vtl.Decode.{decode_segment_record}
use trackone.Evidence.Conclusions.{Conclusions, VerificationScope, new, validated}
use trackone.Evidence.Chain.{artifact, validate_chain, concluded}
use trackone.Evidence.Chain.Verdict.{validate_chain-Produced, validated_link}
use trackone.Examples.Segments.{toy_digest, two_segments, closing_segment, epoch_artifact}

-- `{"a": [300, null]}`.
abbrev small_map : CborValue
small_map = map (entry (codes "a") (array (cons (uint 300) (cons null nil))) end)

small_map-IsCanonical : IsCanonical small_map
unfolding IsCanonical valid_utf8 out_of_order
small_map-IsCanonical =
    (omega arith, (refl, omega arith, refl, (omega arith, (omega arith, (tt, tt))), tt))

depth-small_map : depth small_map ≤ 3
unfolding depth
depth-small_map = omega arith

weight-small_map : weight small_map ≤ 9
unfolding weight
weight-small_map = omega arith

parse_cbor_value-encode_example :
    parse_cbor_value 3 (encode small_map ++ (7 ∷ []), 9) ≡ ok (small_map, (7 ∷ [], 4))
unfolding weight
parse_cbor_value-encode_example =
    parse_cbor_value-encode 3 small_map 9 (7 ∷ []) small_map-IsCanonical depth-small_map
      weight-small_map

read_head-put_head_example :
    read_head "truncated CBOR item" (put_head 3 70000 ++ (1 ∷ [])) ≡ ok (3, 70000, 1 ∷ [])
read_head-put_head_example =
    read_head-put_head "truncated CBOR item" 3 70000 (1 ∷ []) (omega arith) (omega arith)

abbrev four_bytes : Bytes
four_bytes = 0x19 ∷ 1 ∷ 44 ∷ 5 ∷ []

four_bytes-IsByte : All IsByte four_bytes
four_bytes-IsByte = (omega arith, (omega arith, (omega arith, (omega arith, tt))))

four_bytes_read : read_head "truncated CBOR item" four_bytes ≡ ok (0, 300, 5 ∷ [])
unfolding put_head to_be_bytes
four_bytes_read =
    read_head-put_head "truncated CBOR item" 0 300 (5 ∷ []) (omega arith) (omega arith)

read_head_sound_example : (four_bytes ≡ put_head 0 300 ++ (5 ∷ [])) × (300 < 2 ^ 64) × (0 < 8)
read_head_sound_example =
    read_head_sound "truncated CBOR item" four_bytes 0 300 (5 ∷ []) four_bytes-IsByte
      four_bytes_read

abbrev fresh : Conclusions
fresh = new VerificationScope.public_recompute

validate_chain-Produced_example :
    validate_chain toy_digest (artifact epoch_artifact) closing_segment fresh
    ≡ concluded validated fresh
validate_chain-Produced_example = validate_chain-Produced toy_digest two_segments fresh

closing_validated :
    (validate_chain toy_digest (artifact epoch_artifact) closing_segment fresh).chain_status
    ≡ some validated
closing_validated =
    ap (λ (c : Conclusions). c.chain_status) (validate_chain-Produced toy_digest two_segments fresh)

validated_link_example :
    (bytes : Bytes) × (p : SegmentRecord) × (artifact epoch_artifact ≡ artifact bytes)
    × (decode_segment_record toy_digest bytes ≡ ok p)
    × (p.ledger_id ≡ closing_segment.ledger_id)
    × (p.profile_id ≡ closing_segment.profile_id)
    × (1 ≡ p.segment_number + 1)
    × (toy_digest bytes ≡ closing_segment.prev_segment_sha256)
validated_link_example =
    validated_link toy_digest (artifact epoch_artifact) closing_segment fresh closing_validated
