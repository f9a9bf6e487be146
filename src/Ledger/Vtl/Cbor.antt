-- ===== src/Ledger/Vtl/Cbor.antt =====
-- The deterministic CBOR subset of vtl.rs: its writers, and the parser of segment artifacts.
--
-- A writer appends to `out`: the model returns the bytes that it appends. A reader's `bytes` and
-- `pos` are the bytes from `pos` on; `end <= bytes.len()` is that enough of them are left, and a
-- slice's length is below 2 ^ 63, so that `checked_add` on a position never fails first.
-- Allocation never fails.
pub mod Heads
pub mod Values
pub mod RoundTrip
use trackone.Prelude.{
  ℕ, zero, suc, ◌+◌, ◌-◌, ◌*◌, ◌/◌, ◌%◌, ◌^◌, Bool, true, false, ◌&&◌, ◌||◌, not, Option, none,
  some, List, [], ◌∷◌, ◌++◌, String, ltb, leb, ◌==◌, if◌then◌else◌, length, take, drop,
}
use trackone.Prelude.Bytes.{to_be_bytes, from_be_bytes}
use trackone.Prelude.Utf8.{valid_utf8}
use trackone.Ledger.Hash.{Bytes}
use trackone.Ledger.Vtl.Error.{
  Result, ok, err, ◌>>=◌, ◌>>◌, require, malformed, non_canonical, resource_limit, invalid_field,
}
use trackone.Ledger.Vtl.Merkle.{bytes_le}

-- `CborValue`. A text is its bytes.
mutual
  pub data CborValue : Type 0 where
    uint : ℕ → CborValue
    bytes : Bytes → CborValue
    text : Bytes → CborValue
    array : Items → CborValue
    map : Entries → CborValue
    null : CborValue

  pub data Items : Type 0 where
    nil : Items
    cons : CborValue → Items → Items

  pub data Entries : Type 0 where
    end : Entries
    entry : Bytes → CborValue → Entries → Entries

-- `put_head`. The low five bits of `major << 5` are free, so that `|` is a sum.
unfoldable pub put_head : ℕ → ℕ → Bytes
put_head major n =
    if ltb n 24
    then (major * 32 + n) ∷ []
    else if leb n 0xff
    then (major * 32 + 24) ∷ to_be_bytes 1 n
    else if leb n 0xffff
    then (major * 32 + 25) ∷ to_be_bytes 2 n
    else if leb n 0xffff_ffff
    then (major * 32 + 26) ∷ to_be_bytes 4 n
    else (major * 32 + 27) ∷ to_be_bytes 8 n

unfoldable pub cbor_uint : ℕ → Bytes
unfolding put_head
cbor_uint value = put_head 0 value

unfoldable pub cbor_text : Bytes → Bytes
unfolding put_head
cbor_text value = put_head 3 (length value) ++ value

unfoldable pub cbor_bytes : Bytes → Bytes
unfolding put_head
cbor_bytes value = put_head 2 (length value) ++ value

unfoldable pub cbor_null : Bytes
cbor_null = 0xf6 ∷ []

unfoldable pub cbor_map : ℕ → Bytes → Bytes
unfolding put_head
cbor_map len body = put_head 5 len ++ body

unfoldable pub cbor_array : ℕ → Bytes → Bytes
unfolding put_head
cbor_array len body = put_head 4 len ++ body

-- The slice of `width` bytes at the position, and the bytes behind it.
unfoldable pub read : ℕ → String → Bytes → Result (Bytes × Bytes)
read width message rest =
    if leb width (length rest)
    then ok (take width rest, drop width rest)
    else err (malformed message)

-- An argument that is not above `least` had a shorter form.
unfoldable pub shortest : ℕ → ℕ → Bytes → Result (ℕ × Bytes)
shortest least value rest =
    if leb value least
    then err (non_canonical "CBOR argument is not shortest")
    else ok (value, rest)

-- `read_cbor_argument` at one width.
unfoldable pub read_argument : ℕ → ℕ → Bytes → Result (ℕ × Bytes)
unfolding read from_be_bytes shortest
read_argument width least rest = do
  (part, rest) ← read width "truncated CBOR argument" rest
  shortest least (from_be_bytes part) rest

unfoldable pub read_cbor_argument : ℕ → Bytes → Result (ℕ × Bytes)
unfolding read_argument
read_cbor_argument ai rest =
    if ltb ai 24
    then ok (ai, rest)
    else if ai == 24
    then read_argument 1 23 rest
    else if ai == 25
    then read_argument 2 0xff rest
    else if ai == 26
    then read_argument 4 0xffff rest
    else if ai == 27
    then read_argument 8 0xffff_ffff rest
    else err (non_canonical "indefinite or reserved CBOR argument")

-- The initial byte's high three bits, and the argument.
unfoldable pub read_head : String → Bytes → Result (ℕ × ℕ × Bytes)
unfolding read_cbor_argument
read_head message [] = err (malformed message)
read_head message (initial ∷ rest) = do
  (argument, rest) ← read_cbor_argument (initial % 32) rest
  ok (initial / 32, argument, rest)

unfoldable pub read_typed_argument : Bytes → Result (ℕ × ℕ × Bytes)
unfolding read_head
read_typed_argument rest = read_head "truncated CBOR item" rest

-- `usize` is 64 bits wide, so that `try_from` does not fail.
pub ensure_collection_fits : ℕ → ℕ → Bytes → Result (Unit {0})
ensure_collection_fits len minimum_items_per_entry rest =
    if leb (2 ^ 64) (len * minimum_items_per_entry)
    then err (resource_limit "CBOR collection size overflows platform")
    else if ltb (length rest) (len * minimum_items_per_entry)
    then err (malformed "CBOR collection length exceeds remaining input")
    else ok tt

-- `DecodeBudget::consume_item`.
unfoldable pub consume_item : ℕ → Result ℕ
consume_item zero = err (resource_limit "CBOR item budget exceeded")
consume_item (suc remaining_items) = ok remaining_items

-- The position and the budget.
abbrev pub State : Type 0
State = Bytes × ℕ

-- The raw key does not come behind the previous one: by length, then by bytes.
unfoldable pub out_of_order : Option Bytes → Bytes → Bool
out_of_order none raw_key = false
out_of_order (some previous) raw_key =
    ltb (length raw_key) (length previous)
    || (length previous == length raw_key && bytes_le raw_key previous)

pub parse_items : (State → Result (CborValue × State)) → ℕ → State → Result (Items × State)
parse_items parse zero s = ok (nil, s)
parse_items parse (suc len) s = do
  (item, s) ← parse s
  (items, s) ← parse_items parse len s
  ok (cons item items, s)

pub text_key : CborValue → Result Bytes
text_key (text key) = ok key
text_key _ = err (invalid_field "segment map keys must be text")

pub parse_entries :
    (State → Result (CborValue × State)) → Option Bytes → ℕ → State → Result (Entries × State)
unfolding out_of_order text_key bytes_le
parse_entries parse previous_key zero s = ok (end, s)
parse_entries parse previous_key (suc len) (rest, budget) = do
  (key, (after, budget)) ← parse (rest, budget)
  let raw_key = take (length rest - length after) rest
  require (not (out_of_order previous_key raw_key))
      (non_canonical "CBOR map keys are not in deterministic order")
  key ← text_key key
  (value, s) ← parse (after, budget)
  (entries, s) ← parse_entries parse (some raw_key) len s
  ok (entry key value entries, s)

parse_bytes : ℕ → State → Result (CborValue × State)
unfolding read
parse_bytes len (rest, budget) = do
  (value, rest) ← read len "truncated CBOR byte string" rest
  ok (bytes value, (rest, budget))

parse_text : ℕ → State → Result (CborValue × State)
unfolding read valid_utf8
parse_text len (rest, budget) = do
  (value, rest) ← read len "truncated CBOR text" rest
  require (valid_utf8 value) (malformed "CBOR text is not UTF-8")
  ok (text value, (rest, budget))

parse_array : (State → Result (CborValue × State)) → ℕ → State → Result (CborValue × State)
unfolding ensure_collection_fits parse_items
parse_array parse len (rest, budget) = do
  ensure_collection_fits len 1 rest
  (items, s) ← parse_items parse len (rest, budget)
  ok (array items, s)

parse_map : (State → Result (CborValue × State)) → ℕ → State → Result (CborValue × State)
unfolding ensure_collection_fits parse_entries
parse_map parse len (rest, budget) = do
  ensure_collection_fits len 2 rest
  (entries, s) ← parse_entries parse none len (rest, budget)
  ok (map entries, s)

-- What `parse_cbor_value` does behind the head of the item. `initial & 0x1f == 22` is that the
-- argument is 22, since larger arguments take an additional information of 24 or more.
pub parse_body : (State → Result (CborValue × State)) → ℕ → ℕ → State → Result (CborValue × State)
unfolding parse_bytes parse_text parse_array parse_map
parse_body parse major len s =
    if major == 0
    then ok (uint len, s)
    else if major == 2
    then parse_bytes len s
    else if major == 3
    then parse_text len s
    else if major == 4
    then parse_array parse len s
    else if major == 5
    then parse_map parse len s
    else if major == 7 && len == 22
    then ok (null, s)
    else err (invalid_field "unsupported CBOR value in segment artifact")

-- `parse_cbor_value` at depth 33 - `levels`: the source refuses a depth above 32.
unfoldable pub parse_cbor_value : ℕ → State → Result (CborValue × State)
unfolding consume_item read_head parse_body
parse_cbor_value zero s = err (resource_limit "CBOR nesting depth exceeds the supported limit")
parse_cbor_value (suc levels) (rest, budget) = do
  budget ← consume_item budget
  (major, len, rest) ← read_head "truncated CBOR item" rest
  parse_body (parse_cbor_value levels) major len (rest, budget)

abbrev pub max_levels : ℕ
max_levels = 33
