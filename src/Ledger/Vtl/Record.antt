-- ===== src/Ledger/Vtl/Record.antt =====
-- `validate_canonical_record` of vtl.rs: the seven-element array that a ledger commits to.
--
-- Readers are modelled as in Cbor: the bytes from the position on, and the item budget.
pub mod Metadata
use trackone.Prelude.{
  ℕ, zero, suc, ◌+◌, ◌-◌, ◌/◌, ◌%◌, Bool, true, false, ◌&&◌, ◌||◌, not, Option, none, some, List,
  [], ◌∷◌, String, ltb, leb, ◌==◌, if◌then◌else◌, length, take,
}
use trackone.Prelude.Text.{bytes_eq}
use trackone.Prelude.Utf8.{valid_utf8}
use trackone.Prelude.Bytes.{from_be_bytes}
use trackone.Ledger.Hash.{Bytes}
use trackone.Ledger.Floats.{canonical_float_bytes, decode_f16, widen}
use trackone.Ledger.Vtl.Error.{
  Result, ok, err, ◌>>=◌, ◌>>◌, require, malformed, non_canonical, resource_limit, invalid_field,
}
use trackone.Ledger.Vtl.Cbor.{
  read, read_cbor_argument, read_typed_argument, ensure_collection_fits, consume_item, out_of_order,
  State, max_levels,
}

pub record CanonicalRecordMetadataV1 : Type 0 where
  pub version : ℕ
  pub device_id : Bytes
  pub fc : ℕ
  pub ingest_time : ℕ
  pub device_time : Option ℕ
  pub kind : ℕ

unfoldable pub read_uint_item : String → Bytes → Result (ℕ × Bytes)
read_uint_item field bytes = do
  (major, value, rest) ← read_typed_argument bytes
  require (major == 0) (invalid_field field)
  ok (value, rest)

unfoldable pub read_device_id : Bytes → Result (Bytes × Bytes)
read_device_id bytes = do
  (major, len, rest) ← read_typed_argument bytes
  require (major == 2 && len == 8) (invalid_field "device_id must be an eight-byte string")
  read 8 "truncated device_id" rest

-- `bytes.get(pos) == Some(&0xf6)`.
unfoldable pub read_device_time : Bytes → Result (Option ℕ × Bytes)
unfolding read_uint_item
read_device_time [] = do (value, rest) ← read_uint_item "device_time" []; ok (some value, rest)
read_device_time (b ∷ bs) = elim (b == 0xf6) [
  | true ↦ ok (none, bs)
  | false ↦ do (value, rest) ← read_uint_item "device_time" (b ∷ bs); ok (some value, rest)
]

-- `encoded` is `bytes[start..end]`.
unfoldable pub validate_float_encoding : Bytes → ℕ → Result (Unit {0})
validate_float_encoding encoded value = elim (canonical_float_bytes value) [
  | none ↦ err (invalid_field "non-finite CBOR float")
  | some canonical ↦
      require (bytes_eq canonical encoded)
        (non_canonical "CBOR float is not encoded at its shortest exact width")
]

-- A float of `width` bytes behind its initial byte.
unfoldable pub validate_float : ℕ → ℕ → (ℕ → ℕ) → Bytes → Result Bytes
unfolding validate_float_encoding
validate_float initial width value rest = do
  (part, rest) ← read width "truncated CBOR float" rest
  validate_float_encoding (initial ∷ part) (value (from_be_bytes part))
  ok rest

unfoldable pub validate_simple_or_float : ℕ → Bytes → Result Bytes
unfolding validate_float
validate_simple_or_float initial rest =
    let ai = initial % 32 in
    if leb 20 ai && leb ai 22
    then ok rest
    else if ai == 25
    then validate_float initial 2 decode_f16 rest
    else if ai == 26
    then validate_float initial 4 widen rest
    else if ai == 27
    then validate_float initial 8 (λ bits. bits) rest
    else err (invalid_field "unsupported CBOR simple value")

-- A loop over the entries of a collection.
unfoldable pub repeat_item : (State → Result State) → ℕ → State → Result State
repeat_item item zero s = ok s
repeat_item item (suc len) s = do s ← item s; repeat_item item len s

-- A map key: its raw bytes, and what is behind them.
unfoldable pub read_map_key : Bytes → Result (Bytes × Bytes)
read_map_key [] = err (malformed "truncated CBOR map key")
read_map_key (initial ∷ bytes) = do
  require (initial / 32 == 3) (invalid_field "commitment map keys must be text")
  (key_len, rest) ← read_cbor_argument (initial % 32) bytes
  (key, rest) ← read key_len "truncated CBOR map key" rest
  require (valid_utf8 key) (malformed "CBOR map key is not UTF-8")
  ok (take (suc (length bytes) - length rest) (initial ∷ bytes), rest)

unfoldable pub validate_entries : (State → Result State) → Option Bytes → ℕ → State → Result State
unfolding read_map_key
validate_entries item previous_key zero s = ok s
validate_entries item previous_key (suc len) (bytes, budget) = do
  (raw_key, rest) ← read_map_key bytes
  require (not (out_of_order previous_key raw_key))
      (non_canonical "CBOR map keys are not in deterministic order")
  s ← item (rest, budget)
  validate_entries item (some raw_key) len s

unfoldable pub validate_commitment_map : (State → Result State) → ℕ → State → Result State
unfolding validate_entries
validate_commitment_map item len (rest, budget) = do
  ensure_collection_fits len 2 rest
  validate_entries item none len (rest, budget)

unfoldable pub validate_string : ℕ → ℕ → State → Result State
validate_string major len (rest, budget) = do
  (value, rest) ← read len "truncated CBOR string" rest
  require (not (major == 3) || valid_utf8 value) (malformed "CBOR text is not UTF-8")
  ok (rest, budget)

unfoldable pub validate_commitment_array : (State → Result State) → ℕ → State → Result State
unfolding repeat_item
validate_commitment_array item len (rest, budget) = do
  ensure_collection_fits len 1 rest
  repeat_item item len (rest, budget)

-- Behind the item's argument. Three bits make a major type of at most 7, and 7 went elsewhere.
unfoldable pub validate_body : (State → Result State) → ℕ → ℕ → State → Result State
unfolding validate_commitment_map validate_commitment_array validate_string
validate_body item major len s =
    if major == 0 || major == 1
    then ok s
    else if major == 2 || major == 3
    then validate_string major len s
    else if major == 4
    then validate_commitment_array item len s
    else if major == 5
    then validate_commitment_map item len s
    else if major == 6
    then err (invalid_field "CBOR tags are not permitted in commitment bytes")
    else err (malformed "invalid CBOR major type")

-- Behind the item's place in the budget.
unfoldable pub validate_item : (State → Result State) → State → Result State
unfolding validate_body validate_simple_or_float
validate_item item ([], budget) = err (malformed "truncated CBOR payload item")
validate_item item (initial ∷ rest, budget) = elim (initial / 32 == 7) [
  | true ↦ do rest ← validate_simple_or_float initial rest; ok (rest, budget)
  | false ↦ do
    (len, rest) ← read_cbor_argument (initial % 32) rest
    validate_body item (initial / 32) len (rest, budget)
]

-- At depth 33 - `levels`: the source refuses a depth above 32.
unfoldable pub validate_commitment_value : ℕ → State → Result State
unfolding validate_item
validate_commitment_value zero s =
    err (resource_limit "CBOR nesting depth exceeds the supported limit")
validate_commitment_value (suc levels) (rest, budget) = do
  budget ← consume_item budget
  validate_item (validate_commitment_value levels) (rest, budget)

abbrev pub is_empty : Bytes → Bool
is_empty [] = true
is_empty (b ∷ bs) = false

-- The metadata in front of the payload, and what is behind it.
unfoldable pub read_metadata : Bytes → Result (CanonicalRecordMetadataV1 × Bytes)
unfolding read_uint_item read_device_id read_device_time
read_metadata bytes = do
  (major, len, rest) ← read_typed_argument bytes
  require (major == 4 && len == 7) (invalid_field "canonical record must be a seven-element array")
  (version, rest) ← read_uint_item "record version" rest
  require (version == 1) (invalid_field "record version must be 1")
  (device_id, rest) ← read_device_id rest
  (fc, rest) ← read_uint_item "fc" rest
  (ingest_time, rest) ← read_uint_item "ingest_time" rest
  (device_time, rest) ← read_device_time rest
  (kind, rest) ← read_uint_item "kind" rest
  ok (
    record {
      version = 1;
      device_id = device_id;
      fc = fc;
      ingest_time = ingest_time;
      device_time = device_time;
      kind = kind;
    },
    rest,
  )

-- The budget is as many items as the record has bytes.
unfoldable pub validate_canonical_record : Bytes → Result CanonicalRecordMetadataV1
unfolding read_metadata validate_commitment_value
validate_canonical_record bytes = do
  (metadata, rest) ← read_metadata bytes
  (rest, budget) ← validate_commitment_value max_levels (rest, length bytes)
  require (is_empty rest) (malformed "canonical record has trailing bytes")
  ok metadata
