-- ===== src/Ledger/Vtl/Decode.antt =====
-- `decode_segment_record` of vtl.rs: from artifact bytes to a validated segment record.
--
-- The map of fields is the list of entries as parsed. Its keys are distinct, since the parser wants
-- them in strictly ascending order; `into_keys().next()` is the least key by bytes.
pub mod Exact
pub mod RoundTrip
use trackone.Prelude.{
  ℕ, zero, suc, ◌+◌, ◌-◌, Bool, true, false, not, Option, none, some, List, [], ◌∷◌, ◌++◌, String,
  ◌==◌, if◌then◌else◌, length,
}
use trackone.Prelude.Text.{codes, bytes_eq}
use trackone.Ledger.Hash.{Bytes, Hash}
use trackone.Ledger.Vtl.Policy.{
  ClosurePolicy, ClosurePolicyError, EmptyMode, emit, suppress, Checked, passed, failed, validate,
}
use trackone.Ledger.Vtl.Policy
use trackone.Ledger.Vtl.Merkle.{bytes_le}
use trackone.Ledger.Vtl.Error.{
  Result, ok, err, ◌>>=◌, ◌>>◌, require, malformed, non_canonical, missing_field, unexpected_field,
  invalid_field, invariant,
}
use trackone.Ledger.Vtl.Cbor.{
  CborValue, uint, bytes, text, array, map, null, Items, nil, cons, Entries, end, entry,
  parse_cbor_value, max_levels,
}
use trackone.Ledger.Vtl.Segment.{
  SegmentRecord, SegmentInvariantError, commitment_profile_id, message, validate_detailed,
  canonical_cbor_bytes, Built, built, refused,
}

unfoldable pub into_map : CborValue → Result Entries
into_map (map entries) = ok entries
into_map _ = err (invalid_field "segment artifact must be a CBOR map")

-- `BTreeMap::remove`: the value, and the other entries.
remove : Bytes → Entries → Option (CborValue × Entries)
remove name end = none
remove name (entry k v es) = elim (bytes_eq k name) [
  | true ↦ some (v, es)
  | false ↦ elim (remove name es) [ none ↦ none | some (w, others) ↦ some (w, entry k v others) ]
]

unfoldable pub take_value : String → Entries → Result (CborValue × Entries)
unfolding remove
take_value name fields = elim (remove (codes name) fields) [
  | none ↦ err (missing_field name)
  | some found ↦ ok found
]

as_text : String → CborValue → Result Bytes
as_text name (text value) = ok value
as_text name _ = err (invalid_field name)

as_uint : String → CborValue → Result ℕ
as_uint name (uint value) = ok value
as_uint name _ = err (invalid_field name)

-- `Vec<u8>` to `[u8; 32]`.
as_sha256 : String → CborValue → Result Hash
as_sha256 name (bytes value) = if length value == 32 then ok value else err (invalid_field name)
as_sha256 name _ = err (invalid_field name)

as_sha256_items : String → Items → Result (List Hash)
unfolding as_sha256
as_sha256_items name nil = ok []
as_sha256_items name (cons item items) = do
  hash ← as_sha256 name item
  hashes ← as_sha256_items name items
  ok (hash ∷ hashes)

as_sha256_array : String → CborValue → Result (List Hash)
unfolding as_sha256_items
as_sha256_array name (array items) = as_sha256_items name items
as_sha256_array name _ = err (invalid_field name)

as_optional_uint : String → CborValue → Result (Option ℕ)
as_optional_uint name null = ok none
as_optional_uint name (uint value) = ok (some value)
as_optional_uint name _ = err (invalid_field name)

unfoldable pub take_text : String → Entries → Result (Bytes × Entries)
unfolding take_value as_text
take_text name fields = do
  (value, fields) ← take_value name fields
  value ← as_text name value
  ok (value, fields)

unfoldable pub take_uint : String → Entries → Result (ℕ × Entries)
unfolding take_value as_uint
take_uint name fields = do
  (value, fields) ← take_value name fields
  value ← as_uint name value
  ok (value, fields)

unfoldable pub take_sha256 : String → Entries → Result (Hash × Entries)
unfolding take_value as_sha256
take_sha256 name fields = do
  (value, fields) ← take_value name fields
  value ← as_sha256 name value
  ok (value, fields)

unfoldable pub take_sha256_array : String → Entries → Result (List Hash × Entries)
unfolding take_value as_sha256_array
take_sha256_array name fields = do
  (value, fields) ← take_value name fields
  value ← as_sha256_array name value
  ok (value, fields)

unfoldable pub optional_uint : String → Entries → Result (Option ℕ × Entries)
unfolding take_value as_optional_uint
optional_uint name fields = do
  (value, fields) ← take_value name fields
  value ← as_optional_uint name value
  ok (value, fields)

-- The least key, by bytes.
least_key : Bytes → Entries → Bytes
least_key least end = least
least_key least (entry k v es) = least_key (if bytes_le least k then least else k) es

unfoldable pub no_fields_left : Entries → Result (Unit {0})
unfolding least_key
no_fields_left end = ok tt
no_fields_left (entry k v es) = err (unexpected_field (least_key k es))

unfoldable pub empty_mode_of : Bytes → Result EmptyMode
empty_mode_of value =
    if bytes_eq value (codes "emit")
    then ok emit
    else if bytes_eq value (codes "suppress")
    then ok suppress
    else err (invalid_field "invalid empty_mode")

policy_message : ClosurePolicyError → String
policy_message ClosurePolicyError.interval = "closure policy limits must be positive"
policy_message ClosurePolicyError.batch_record_limit = "closure policy limits must be positive"
policy_message ClosurePolicyError.record_limit = "record_limit"
policy_message ClosurePolicyError.size_limit_bytes = "size_limit_bytes"

valid_policy : ClosurePolicy → Result ClosurePolicy
unfolding policy_message
valid_policy policy = elim (validate policy) [
  | failed e ↦ err (invalid_field (policy_message e))
  | passed ↦ ok policy
]

unfoldable pub decode_policy : CborValue → Result ClosurePolicy
unfolding valid_policy
decode_policy value = do
  fields ← into_map value
  (version, fields) ← take_uint "version" fields
  require (version == 1) (invalid_field "closure policy version must be 1")
  (interval_ms, fields) ← take_uint "interval_ms" fields
  (batch_record_limit, fields) ← take_uint "batch_record_limit" fields
  (record_limit, fields) ← optional_uint "record_limit" fields
  (size_limit_bytes, fields) ← optional_uint "size_limit_bytes" fields
  (mode, fields) ← take_text "empty_mode" fields
  empty_mode ← empty_mode_of mode
  no_fields_left fields
  valid_policy (record {
    interval_ms = interval_ms;
    batch_record_limit = batch_record_limit;
    record_limit = record_limit;
    size_limit_bytes = size_limit_bytes;
    empty_mode = empty_mode;
  })

-- From the parsed value to the record, up to its cross-field checks.
unfoldable pub segment_of_value : CborValue → Result SegmentRecord
segment_of_value value = do
  fields ← into_map value
  (version, fields) ← take_uint "version" fields
  require (version == 1) (invalid_field "segment version must be 1")
  (profile, fields) ← take_text "commitment_profile_id" fields
  require (bytes_eq profile commitment_profile_id) (invalid_field "unsupported commitment profile")
  (ledger_id, fields) ← take_text "ledger_id" fields
  (segment_number, fields) ← take_uint "segment_number" fields
  (policy, fields) ← take_value "closure_policy" fields
  closure_policy ← decode_policy policy
  (close_reason, fields) ← take_text "close_reason" fields
  (prev_segment_sha256, fields) ← take_sha256 "prev_segment_sha256" fields
  (record_count, fields) ← take_uint "record_count" fields
  (batch_roots, fields) ← take_sha256_array "batch_roots" fields
  (segment_root, fields) ← take_sha256 "segment_root" fields
  no_fields_left fields
  ok (record {
    profile_id = profile;
    ledger_id = ledger_id;
    segment_number = segment_number;
    closure_policy = closure_policy;
    close_reason = close_reason;
    prev_segment_sha256 = prev_segment_sha256;
    record_count = record_count;
    batch_roots = batch_roots;
    segment_root = segment_root;
  })

abbrev of_check : Checked SegmentInvariantError → Result (Unit {0})
of_check passed = ok tt
of_check (failed e) = err (invariant (message e))

abbrev of_build : Built String Bytes → Result Bytes
of_build (built artifact) = ok artifact
of_build (refused reason) = err (invariant reason)

abbrev all_read : Bytes → Bool
all_read [] = true
all_read (b ∷ bs) = false

module _ (sha256 : Bytes → Hash) where
  -- The record is checked, and its artifact must be the input.
  check_record : Bytes → SegmentRecord → Result SegmentRecord
  check_record input r = do
    of_check (validate_detailed sha256 r)
    canonical ← of_build (canonical_cbor_bytes sha256 r)
    require (bytes_eq canonical input)
        (non_canonical "segment CBOR does not round-trip canonically")
    ok r

  unfoldable pub decode_segment_record : Bytes → Result SegmentRecord
  unfolding check_record
  decode_segment_record input = do
    (value, (rest, _)) ← parse_cbor_value max_levels (input, length input)
    require (all_read rest) (malformed "segment CBOR has trailing bytes")
    r ← segment_of_value value
    check_record input r
