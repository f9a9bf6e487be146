-- ===== src/Ledger/Vtl/Segment.antt =====
-- The segment record of vtl.rs: its invariants and its deterministic CBOR artifact.
pub mod Value
pub mod Valid
pub mod Complete
use trackone.Prelude.{
  ℕ, zero, suc, ◌+◌, ◌-◌, ◌/◌, Bool, true, false, ◌&&◌, ◌||◌, not, Option, none, some, List, [],
  ◌∷◌, ◌++◌, String, leb, ◌==◌, if◌then◌else◌, length,
}
use trackone.Prelude.Text.{codes, bytes_eq}
use trackone.Ledger.Hash.{Bytes, Hash}
use trackone.Ledger.Vtl.Policy.{
  ClosurePolicy, EmptyMode, emit, suppress, Checked, passed, failed, validate,
}
use trackone.Ledger.Vtl.Merkle.{compose_batch_roots}
use trackone.Ledger.Vtl.Cbor.{cbor_uint, cbor_text, cbor_bytes, cbor_null, cbor_map, cbor_array}

abbrev pub commitment_profile_id : Bytes
commitment_profile_id = codes "c08ade4e-1785-4eb6-9648-b7003d76288d"

abbrev zeros : ℕ → Bytes
zeros zero = []
zeros (suc n) = 0 ∷ zeros n

abbrev pub zero_sha256 : Hash
zero_sha256 = zeros 32

pub record SegmentRecord : Type 0 where
  pub profile_id : Bytes
  pub ledger_id : Bytes
  pub segment_number : ℕ
  pub closure_policy : ClosurePolicy
  pub close_reason : Bytes
  pub prev_segment_sha256 : Hash
  pub record_count : ℕ
  pub batch_roots : List Hash
  pub segment_root : Hash

pub data SegmentInvariantError : Type 0 where
  segment_hex_field segment_identity_or_closure_policy epoch_predecessor_not_zero empty_segment
        batch_root_cardinality segment_root_mismatch :
      SegmentInvariantError

-- `Display`.
unfoldable pub message : SegmentInvariantError → String
message segment_hex_field = "segment hex field is invalid"
message segment_identity_or_closure_policy = "segment identity or closure policy is invalid"
message epoch_predecessor_not_zero = "epoch segment must use zero predecessor"
message empty_segment = "empty segment is invalid"
message batch_root_cardinality = "batch root cardinality is invalid"
message segment_root_mismatch = "segment root does not match composed batch roots"

all_hex : Bytes → Bool
all_hex [] = true
all_hex (b ∷ bs) = (leb b'0' b && leb b b'9' || leb b'a' b && leb b b'f') && all_hex bs

unfoldable pub valid_hex : Bytes → ℕ → Bool
unfolding all_hex
valid_hex value len = length value == len && all_hex value

abbrev pub close_reasons : List Bytes
close_reasons =
    codes "interval"
    ∷ codes "reconfigure"
    ∷ codes "record_limit"
    ∷ codes "size_limit"
    ∷ codes "shutdown"
    ∷ codes "recovery"
    ∷ codes "manual"
    ∷ []

-- `matches!` against literals.
abbrev pub is_one_of : List Bytes → Bytes → Bool
is_one_of [] value = false
is_one_of (t ∷ ts) value = bytes_eq value t || is_one_of ts value

unfoldable pub valid_close_reason : Bytes → Bool
valid_close_reason value = is_one_of close_reasons value

abbrev pub is_failed : {E : Type 0} → Checked E → Bool
is_failed passed = false
is_failed (failed e) = true

abbrev is_emit : EmptyMode → Bool
is_emit emit = true
is_emit suppress = false

abbrev same_root : Option Hash → Hash → Bool
same_root none root = false
same_root (some composed) root = bytes_eq composed root

abbrev is_empty : List Hash → Bool
is_empty [] = true
is_empty (root ∷ roots) = false

-- `EmptyMode::as_str`.
unfoldable pub empty_mode_text : EmptyMode → Bytes
empty_mode_text emit = codes "emit"
empty_mode_text suppress = codes "suppress"

unfoldable pub optional_uint_bytes : Option ℕ → Bytes
unfolding cbor_uint cbor_null
optional_uint_bytes none = cbor_null
optional_uint_bytes (some v) = cbor_uint v

-- `key`.
unfoldable pub key : String → Bytes
unfolding cbor_text
key name = cbor_text (codes name)

unfoldable pub encode_policy : ClosurePolicy → Bytes
unfolding key cbor_uint cbor_text cbor_map optional_uint_bytes empty_mode_text
encode_policy policy = cbor_map 6 (
    key "version"
    ++ (cbor_uint 1
        ++ (key "empty_mode"
            ++ (cbor_text (empty_mode_text policy.empty_mode)
                ++ (key "interval_ms"
                    ++ (cbor_uint policy.interval_ms
                        ++ (key "record_limit"
                            ++ (optional_uint_bytes policy.record_limit
                                ++ (key "size_limit_bytes"
                                    ++ (optional_uint_bytes policy.size_limit_bytes
                                        ++ (key "batch_record_limit"
                                            ++ cbor_uint policy.batch_record_limit)))))))))))

unfoldable pub encode_roots : List Hash → Bytes
encode_roots [] = []
encode_roots (root ∷ roots) = cbor_bytes root ++ encode_roots roots

-- The body of `canonical_cbor_bytes`, behind its validation.
unfoldable pub segment_bytes : SegmentRecord → Bytes
unfolding key cbor_uint cbor_text cbor_bytes cbor_map cbor_array encode_policy encode_roots
segment_bytes r = cbor_map 10 (
    key "version"
    ++ (cbor_uint 1
        ++ (key "ledger_id"
            ++ (cbor_text r.ledger_id
                ++ (key "batch_roots"
                    ++ (cbor_array (length r.batch_roots) (encode_roots r.batch_roots)
                        ++ (key "close_reason"
                            ++ (cbor_text r.close_reason
                                ++ (key "record_count"
                                    ++ (cbor_uint r.record_count
                                        ++ (key "segment_root"
                                            ++ (cbor_bytes r.segment_root
                                                ++ (key "closure_policy"
                                                    ++ (encode_policy r.closure_policy
                                                        ++ (key "segment_number"
                                                            ++ (cbor_uint r.segment_number
                                                            ++ (key "prev_segment_sha256"
                                                            ++ (cbor_bytes r.prev_segment_sha256
                                                            ++ (key "commitment_profile_id"
                                                            ++ cbor_text
                                                            r.profile_id)))))))))))))))))))

-- Rust's `Result<T, E>` at the error types of the constructors.
pub data Built (E A : Type 0) : Type 0 where
  built : A → Built E A
  refused : E → Built E A

module _ (sha256 : Bytes → Hash) where
  -- The checks of an empty segment.
  unfoldable pub validate_empty : SegmentRecord → Checked SegmentInvariantError
  validate_empty r =
      if not (is_empty r.batch_roots)
        || not (bytes_eq r.segment_root (sha256 []))
        || (not (is_emit r.closure_policy.empty_mode)
            && not (is_one_of (codes "shutdown" ∷ codes "recovery" ∷ []) r.close_reason))
      then failed empty_segment
      else passed

  -- The checks of a segment that has records.
  unfoldable pub validate_roots : SegmentRecord → Checked SegmentInvariantError
  validate_roots r =
      let limit = r.closure_policy.batch_record_limit in
      if not (length r.batch_roots == 1 + (r.record_count - 1) / limit)
      then failed batch_root_cardinality
      else if not
          (same_root (compose_batch_roots sha256 r.batch_roots r.record_count limit) r.segment_root)
      then failed segment_root_mismatch
      else passed

  unfoldable pub validate_detailed : SegmentRecord → Checked SegmentInvariantError
  validate_detailed r =
      if not (valid_hex r.ledger_id 32)
      then failed segment_hex_field
      else if not (bytes_eq r.profile_id commitment_profile_id)
          || is_failed (validate r.closure_policy)
          || not (valid_close_reason r.close_reason)
      then failed segment_identity_or_closure_policy
      else if r.segment_number == 0 && not (bytes_eq r.prev_segment_sha256 zero_sha256)
      then failed epoch_predecessor_not_zero
      else if r.record_count == 0
      then validate_empty r
      else validate_roots r

  -- `canonical_cbor_bytes`; `validate` reports the error's text.
  unfoldable pub canonical_cbor_bytes : SegmentRecord → Built String Bytes
  canonical_cbor_bytes r = elim (validate_detailed r) [
    | failed e ↦ refused (message e)
    | passed ↦ built (segment_bytes r)
  ]
