-- ===== src/Ledger/Vtl/Segment/Value.antt =====
-- vtl.rs: the artifact of a segment as one CBOR value.
use mathlib.Core.List.{append-nil}
use trackone.Prelude.{
  ℕ, suc, ◌≤◌, ◌<◌, ◌^◌, ◌≡◌, refl, ap, arith, Option, none, some, List, [], ◌∷◌, ◌++◌, length, All,
}
use trackone.Prelude.Text.{codes}
use trackone.Prelude.Utf8.{valid_utf8}
use trackone.Ledger.Hash.{Bytes, Hash}
use trackone.Ledger.Vtl.Policy.{ClosurePolicy, EmptyMode, emit, suppress, passed}
use trackone.Ledger.Vtl.Merkle.{bytes_le}
use trackone.Ledger.Vtl.Cbor.{
  CborValue, uint, bytes, text, array, map, null, Items, nil, cons, end, entry, put_head, cbor_text,
  cbor_bytes, out_of_order,
}
use trackone.Ledger.Vtl.Cbor.Values.{
  encode, encode_items, count_items, IsCanonical, AllCanonical, depth, depth_items,
}
use trackone.Ledger.Vtl.Segment.{
  SegmentRecord, segment_bytes, encode_policy, encode_roots, optional_uint_bytes, empty_mode_text,
  validate_detailed, commitment_profile_id,
}
use trackone.Ledger.Vtl.Segment.Valid.{validated_fields, valid_hex-utf8, close_reason_short}

unfoldable pub optional_value : Option ℕ → CborValue
optional_value none = null
optional_value (some n) = uint n

unfoldable pub policy_value : ClosurePolicy → CborValue
policy_value p = map (
    entry (codes "version") (uint 1) (
      entry (codes "empty_mode") (text (empty_mode_text p.empty_mode)) (
        entry (codes "interval_ms") (uint p.interval_ms) (
          entry (codes "record_limit") (optional_value p.record_limit) (
            entry (codes "size_limit_bytes") (optional_value p.size_limit_bytes)
              (entry (codes "batch_record_limit") (uint p.batch_record_limit) end))))))

unfoldable pub root_items : List Hash → Items
root_items [] = nil
root_items (root ∷ roots) = cons (bytes root) (root_items roots)

unfoldable pub segment_value : SegmentRecord → CborValue
segment_value r = map (
    entry (codes "version") (uint 1) (
      entry (codes "ledger_id") (text r.ledger_id) (
        entry (codes "batch_roots") (array (root_items r.batch_roots)) (
          entry (codes "close_reason") (text r.close_reason) (
            entry (codes "record_count") (uint r.record_count) (
              entry (codes "segment_root") (bytes r.segment_root) (
                entry (codes "closure_policy") (policy_value r.closure_policy) (
                  entry (codes "segment_number") (uint r.segment_number) (
                    entry (codes "prev_segment_sha256") (bytes r.prev_segment_sha256)
                      (entry (codes "commitment_profile_id") (text r.profile_id) end))))))))))

encode-optional_value : (o : Option ℕ) → encode (optional_value o) ≡ optional_uint_bytes o
unfolding encode optional_value optional_uint_bytes
encode-optional_value none = refl
encode-optional_value (some n) = refl

encode-policy_value : (p : ClosurePolicy) → encode (policy_value p) ≡ encode_policy p
unfolding encode policy_value encode_policy
encode-policy_value p =
    rw (append-nil, encode-optional_value p.record_limit, encode-optional_value p.size_limit_bytes)
      refl

count-root_items : (roots : List Hash) → count_items (root_items roots) ≡ length roots
unfolding root_items
count-root_items [] = refl
count-root_items (root ∷ roots) = ap suc (count-root_items roots)

encode-root_items : (roots : List Hash) → encode_items (root_items roots) ≡ encode_roots roots
unfolding encode root_items encode_roots
encode-root_items [] = refl
encode-root_items (root ∷ roots) = ap (◌++◌ (cbor_bytes root)) (encode-root_items roots)

-- The artifact is the encoding of that value.
pub encode-segment_value : (r : SegmentRecord) → encode (segment_value r) ≡ segment_bytes r
unfolding encode segment_value segment_bytes
encode-segment_value r =
    rw
      (
        append-nil,
        encode-policy_value r.closure_policy,
        encode-root_items r.batch_roots,
        count-root_items r.batch_roots,
      )
      refl

abbrev pub IsOptionalWord : Option ℕ → Type 0
IsOptionalWord none = Unit {0}
IsOptionalWord (some n) = n < 2 ^ 64

-- The ranges that the source's types give: `u64` fields, and digests of 32 bytes.
pub record IsTyped (r : SegmentRecord) : Type 0 where
  pub interval_word : r.closure_policy.interval_ms < 2 ^ 64
  pub limit_word : r.closure_policy.batch_record_limit < 2 ^ 64
  pub record_limit_word : IsOptionalWord r.closure_policy.record_limit
  pub size_limit_word : IsOptionalWord r.closure_policy.size_limit_bytes
  pub number_word : r.segment_number < 2 ^ 64
  pub count_word : r.record_count < 2 ^ 64
  pub roots_word : length r.batch_roots < 2 ^ 64
  pub roots_digests : All (λ (h : Hash). length h ≡ 32) r.batch_roots
  pub prev_digest : length r.prev_segment_sha256 ≡ 32
  pub root_digest : length r.segment_root ≡ 32

optional_value-IsCanonical : (o : Option ℕ) → IsOptionalWord o → IsCanonical (optional_value o)
unfolding optional_value IsCanonical
optional_value-IsCanonical none h = tt
optional_value-IsCanonical (some n) h = h

empty_mode-IsCanonical : (m : EmptyMode) → IsCanonical (text (empty_mode_text m))
unfolding empty_mode_text IsCanonical valid_utf8
empty_mode-IsCanonical emit = (omega arith, refl)
empty_mode-IsCanonical suppress = (omega arith, refl)

root_items-AllCanonical :
    (roots : List Hash) → All (λ (h : Hash). length h ≡ 32) roots → AllCanonical (root_items roots)
unfolding root_items IsCanonical
root_items-AllCanonical [] h = tt
root_items-AllCanonical (root ∷ roots) h = (omega (arith, h.0), root_items-AllCanonical roots h.1)

policy_value-IsCanonical :
    (r : SegmentRecord) → IsTyped r → IsCanonical (policy_value r.closure_policy)
unfolding policy_value IsCanonical out_of_order cbor_text put_head bytes_le valid_utf8
policy_value-IsCanonical r t = (
  omega arith,
  (
    refl,
    omega arith,
    refl,
    omega arith,
    (
      refl,
      omega arith,
      refl,
      empty_mode-IsCanonical r.closure_policy.empty_mode,
      (
        refl,
        omega arith,
        refl,
        t.interval_word,
        (
          refl,
          omega arith,
          refl,
          optional_value-IsCanonical r.closure_policy.record_limit t.record_limit_word,
          (
            refl,
            omega arith,
            refl,
            optional_value-IsCanonical r.closure_policy.size_limit_bytes t.size_limit_word,
            (refl, omega arith, refl, t.limit_word, tt),
          ),
        ),
      ),
    ),
  ),
)

segment_value-IsCanonical_of_texts :
    (r : SegmentRecord)
    → IsTyped r
    → IsCanonical (text r.ledger_id)
    → IsCanonical (text r.close_reason)
    → IsCanonical (text r.profile_id)
    → IsCanonical (segment_value r)
unfolding segment_value IsCanonical out_of_order cbor_text put_head bytes_le valid_utf8
segment_value-IsCanonical_of_texts r t ledger reason profile = (
  omega arith,
  (
    refl,
    omega arith,
    refl,
    omega arith,
    (
      refl,
      omega arith,
      refl,
      ledger,
      (
        refl,
        omega arith,
        refl,
        (
          rw (count-root_items r.batch_roots) t.roots_word,
          root_items-AllCanonical r.batch_roots t.roots_digests,
        ),
        (
          refl,
          omega arith,
          refl,
          reason,
          (
            refl,
            omega arith,
            refl,
            t.count_word,
            (
              refl,
              omega arith,
              refl,
              omega (arith, t.root_digest),
              (
                refl,
                omega arith,
                refl,
                policy_value-IsCanonical r t,
                (
                  refl,
                  omega arith,
                  refl,
                  t.number_word,
                  (
                    refl,
                    omega arith,
                    refl,
                    omega (arith, t.prev_digest),
                    (refl, omega arith, refl, profile, tt),
                  ),
                ),
              ),
            ),
          ),
        ),
      ),
    ),
  ),
)

profile-IsCanonical : IsCanonical (text commitment_profile_id)
unfolding IsCanonical valid_utf8
profile-IsCanonical = (omega arith, refl)

depth-optional_value : (o : Option ℕ) → depth (optional_value o) ≡ 1
unfolding depth optional_value
depth-optional_value none = refl
depth-optional_value (some n) = refl

depth-root_items : (roots : List Hash) → depth_items (root_items roots) ≤ 1
unfolding depth root_items
depth-root_items [] = omega arith
depth-root_items (root ∷ roots) = omega (arith, depth-root_items roots)

depth-policy_value : (p : ClosurePolicy) → depth (policy_value p) ≡ 2
unfolding depth policy_value
depth-policy_value p =
    rw (depth-optional_value p.record_limit, depth-optional_value p.size_limit_bytes) refl

-- An artifact nests three levels.
pub depth-segment_value : (r : SegmentRecord) → depth (segment_value r) ≤ 3
unfolding depth segment_value
depth-segment_value r =
    rw (depth-policy_value r.closure_policy) (omega (arith, depth-root_items r.batch_roots))

-- The value of a validated segment is canonical.
pub segment_value-IsCanonical :
    (sha256 : Bytes → Hash) (r : SegmentRecord)
    → IsTyped r
    → validate_detailed sha256 r ≡ passed
    → IsCanonical (segment_value r)
segment_value-IsCanonical sha256 r t h =
    let (hex, profile, _, reason) = validated_fields sha256 r h in
    let (size, utf8) = valid_hex-utf8 r.ledger_id 32 hex in
    segment_value-IsCanonical_of_texts r t (unfold IsCanonical in (omega arith, utf8))
      (unfold IsCanonical in close_reason_short r.close_reason reason)
      (rw profile profile-IsCanonical)
