-- ===== src/Ledger/Vtl/Cbor/RoundTrip.antt =====
-- vtl.rs: canonical values through the parser.
use trackone.Prelude.{
  ℕ, zero, suc, ◌+◌, ◌-◌, ◌*◌, ◌^◌, ◌≤◌, ◌<◌, ◌≡◌, refl, ◌∙◌, arith, true, false, Option, none,
  some, ◌++◌, length, take, length-append, take-append, lt→not_leb, le→not_ltb,
}
use mathlib.Core.List.{append_assoc}
use native.Mathlib.Nat.{suc-add, zero-add, add_assoc}
use trackone.Prelude.Utf8.{valid_utf8}
use trackone.Ledger.Hash.{Bytes}
use trackone.Ledger.Vtl.Error.{Result, ok}
use trackone.Ledger.Vtl.Cbor.{
  CborValue, uint, bytes, text, array, map, null, Items, nil, cons, Entries, end, entry, put_head,
  cbor_uint, cbor_text, cbor_bytes, cbor_null, cbor_map, cbor_array, out_of_order, State,
  consume_item, parse_body, parse_bytes, parse_text, parse_array, parse_map, parse_items,
  parse_entries, parse_cbor_value, ensure_collection_fits,
}
use trackone.Ledger.Vtl.Cbor.Heads.{read_head-put_head, read-append}
use trackone.Ledger.Vtl.Cbor.Values.{
  count_items, count_entries, encode, encode_items, encode_entries, weight, weight_items,
  weight_entries, depth, depth_items, depth_entries, IsCanonical, AllCanonical, Ascending,
  count_items-le, count_entries-le,
}

parse_head :
    (levels major n budget : ℕ) (rest : Bytes)
    → major < 8
    → n < 2 ^ 64
    → parse_cbor_value (suc levels) (put_head major n ++ rest, suc budget)
      ≡ parse_body (parse_cbor_value levels) major n (rest, budget)
unfolding parse_cbor_value consume_item
parse_head levels major n budget rest hm hn =
    rw (read_head-put_head "truncated CBOR item" major n rest hm hn) refl

parse_uint :
    (levels n budget : ℕ) (rest : Bytes)
    → n < 2 ^ 64
    → parse_cbor_value (suc levels) (cbor_uint n ++ rest, suc budget) ≡ ok (uint n, (rest, budget))
unfolding cbor_uint
parse_uint levels n budget rest h =
    parse_head levels 0 n budget rest (omega arith) h ∙ unfold parse_body in refl

parse_bytes-cbor_bytes :
    (levels budget : ℕ) (value rest : Bytes)
    → length value < 2 ^ 64
    → parse_cbor_value (suc levels) (cbor_bytes value ++ rest, suc budget)
      ≡ ok (bytes value, (rest, budget))
unfolding cbor_bytes
parse_bytes-cbor_bytes levels budget value rest h =
    rw (append_assoc (put_head 2 (length value)) value rest) (
      parse_head levels 2 (length value) budget (value ++ rest) (omega arith) h
      ∙ unfold parse_body parse_bytes in
        rw (read-append "truncated CBOR byte string" value rest (length value) refl) refl)

parse_text-cbor_text :
    (levels budget : ℕ) (value rest : Bytes)
    → length value < 2 ^ 64
    → valid_utf8 value ≡ true
    → parse_cbor_value (suc levels) (cbor_text value ++ rest, suc budget)
      ≡ ok (text value, (rest, budget))
unfolding cbor_text
parse_text-cbor_text levels budget value rest h utf8 =
    rw (append_assoc (put_head 3 (length value)) value rest) (
      parse_head levels 3 (length value) budget (value ++ rest) (omega arith) h
      ∙ unfold parse_body parse_text in
        rw (read-append "truncated CBOR text" value rest (length value) refl, utf8) refl)

fits_lem :
    (len minimum : ℕ) (rest : Bytes)
    → len * minimum < 2 ^ 64
    → len * minimum ≤ length rest
    → ensure_collection_fits len minimum rest ≡ ok tt
unfolding ensure_collection_fits
fits_lem len minimum rest small enough =
    rw (lt→not_leb (2 ^ 64) (len * minimum) small, le→not_ltb (length rest) (len * minimum) enough)
      refl

raw_key_lem : (raw rest : Bytes) → take (length (raw ++ rest) - length rest) (raw ++ rest) ≡ raw
raw_key_lem raw rest =
    let size : length (raw ++ rest) - length rest ≡ length raw =
      omega (arith, length-append raw rest) in
    rw size (take-append raw rest)

parse_null :
    (levels budget : ℕ) (rest : Bytes)
    → parse_cbor_value (suc levels) (cbor_null ++ rest, suc budget) ≡ ok (null, (rest, budget))
unfolding cbor_null parse_cbor_value
parse_null levels budget rest = refl

array_step :
    (vs : Items) (levels budget : ℕ) (rest : Bytes) (s : State)
    → count_items vs < 2 ^ 64
    → parse_items (parse_cbor_value levels) (count_items vs) (encode_items vs ++ rest, budget)
      ≡ ok (vs, s)
    → parse_cbor_value
        (suc levels)
        (cbor_array (count_items vs) (encode_items vs) ++ rest, suc budget)
      ≡ ok (array vs, s)
unfolding cbor_array
array_step vs levels budget rest s h got =
    rw (append_assoc (put_head 4 (count_items vs)) (encode_items vs) rest) (
      parse_head levels 4 (count_items vs) budget (encode_items vs ++ rest) (omega arith) h
      ∙ unfold parse_body parse_array in
        rw
          (
            fits_lem (count_items vs) 1 (encode_items vs ++ rest) (omega arith)
                (count_items-le vs rest),
            got,
          )
          refl)

map_step :
    (es : Entries) (levels budget : ℕ) (rest : Bytes) (s : State)
    → count_entries es < 2 ^ 63
    → parse_entries
        (parse_cbor_value levels)
        none
        (count_entries es)
        (encode_entries es ++ rest, budget)
      ≡ ok (es, s)
    → parse_cbor_value
        (suc levels)
        (cbor_map (count_entries es) (encode_entries es) ++ rest, suc budget)
      ≡ ok (map es, s)
unfolding cbor_map
map_step es levels budget rest s h got =
    rw (append_assoc (put_head 5 (count_entries es)) (encode_entries es) rest) (
      parse_head levels 5 (count_entries es) budget (encode_entries es ++ rest) (omega arith)
        (omega arith)
      ∙ unfold parse_body parse_map in
        rw
          (
            fits_lem (count_entries es) 2 (encode_entries es ++ rest) (omega arith)
                (count_entries-le es rest),
            got,
          )
          refl)

items_step :
    (parse : State → Result (CborValue × State)) (v : CborValue) (vs : Items) (len : ℕ)
    (s t u : State)
    → parse s ≡ ok (v, t)
    → parse_items parse len t ≡ ok (vs, u)
    → parse_items parse (suc len) s ≡ ok (cons v vs, u)
unfolding parse_items
items_step parse v vs len s t u first others = rw (first, others) refl

entries_step :
    (levels budget : ℕ) (previous : Option Bytes) (k : Bytes) (v : CborValue) (es : Entries)
    (len : ℕ) (rest : Bytes) (t u : State)
    → out_of_order previous (cbor_text k) ≡ false
    → length k < 2 ^ 64
    → valid_utf8 k ≡ true
    → parse_cbor_value (suc levels) (rest, budget) ≡ ok (v, t)
    → parse_entries (parse_cbor_value (suc levels)) (some (cbor_text k)) len t ≡ ok (es, u)
    → parse_entries
        (parse_cbor_value (suc levels))
        previous
        (suc len)
        (cbor_text k ++ rest, suc budget)
      ≡ ok (entry k v es, u)
unfolding parse_entries
entries_step levels budget previous k v es len rest t u order small utf8 value others =
    rw
      (
        parse_text-cbor_text levels budget k rest small utf8,
        raw_key_lem (cbor_text k) rest,
        order,
        value,
        others,
      )
      refl

items_end :
    (parse : State → Result (CborValue × State)) (s : State) → parse_items parse 0 s ≡ ok (nil, s)
unfolding parse_items
items_end parse s = refl

entries_end :
    (parse : State → Result (CborValue × State)) (previous : Option Bytes) (s : State)
    → parse_entries parse previous 0 s ≡ ok (end, s)
unfolding parse_entries
entries_end parse previous (rest, budget) = refl

mutual
  unfolding encode weight depth IsCanonical

  parse_encode :
      (v : CborValue) (levels budget : ℕ) (rest : Bytes)
      → IsCanonical v
      → depth v ≤ levels
      → parse_cbor_value levels (encode v ++ rest, weight v + budget) ≡ ok (v, (rest, budget))
  parse_encode (uint n) zero budget rest c d = absurd (omega arith)
  parse_encode (uint n) (suc levels) budget rest c d =
      rw suc-add (rw zero-add (parse_uint levels n budget rest c))
  parse_encode (bytes b) zero budget rest c d = absurd (omega arith)
  parse_encode (bytes b) (suc levels) budget rest c d =
      rw suc-add (rw zero-add (parse_bytes-cbor_bytes levels budget b rest c))
  parse_encode (text t) zero budget rest c d = absurd (omega arith)
  parse_encode (text t) (suc levels) budget rest c d =
      rw suc-add (rw zero-add (parse_text-cbor_text levels budget t rest c.0 c.1))
  parse_encode (array vs) zero budget rest c d = absurd (omega arith)
  parse_encode (array vs) (suc levels) budget rest c d = rw suc-add (
      array_step vs levels (weight_items vs + budget) rest (rest, budget) c.0
        (parse_items-encode vs levels budget rest c.1 (omega arith)))
  parse_encode (map es) zero budget rest c d = absurd (omega arith)
  parse_encode (map es) (suc levels) budget rest c d = rw suc-add (
      map_step es levels (weight_entries es + budget) rest (rest, budget) c.0
        (parse_entries-encode es none levels budget rest c.1 (omega arith)))
  parse_encode null zero budget rest c d = absurd (omega arith)
  parse_encode null (suc levels) budget rest c d =
      rw suc-add (rw zero-add (parse_null levels budget rest))

  parse_items-encode :
      (vs : Items) (levels budget : ℕ) (rest : Bytes)
      → AllCanonical vs
      → depth_items vs ≤ levels
      → parse_items
          (parse_cbor_value levels)
          (count_items vs)
          (encode_items vs ++ rest, weight_items vs + budget)
        ≡ ok (vs, (rest, budget))
  parse_items-encode nil levels budget rest c d =
      rw zero-add (items_end (parse_cbor_value levels) (rest, budget))
  parse_items-encode (cons v vs) levels budget rest c d =
      rw
        (
          append_assoc (encode v) (encode_items vs) rest,
          add_assoc (weight v) (weight_items vs) budget,
        )
        (items_step (parse_cbor_value levels) v vs (count_items vs) _ _ _
          (parse_encode v levels (weight_items vs + budget) (encode_items vs ++ rest) c.0
            (omega arith))
          (parse_items-encode vs levels budget rest c.1 (omega arith)))

  parse_entries-encode :
      (es : Entries) (previous : Option Bytes) (levels budget : ℕ) (rest : Bytes)
      → Ascending previous es
      → depth_entries es ≤ levels
      → parse_entries
          (parse_cbor_value levels)
          previous
          (count_entries es)
          (encode_entries es ++ rest, weight_entries es + budget)
        ≡ ok (es, (rest, budget))
  parse_entries-encode end previous levels budget rest c d =
      rw zero-add (entries_end (parse_cbor_value levels) previous (rest, budget))
  parse_entries-encode (entry k v es) previous zero budget rest c d = absurd (omega arith)
  parse_entries-encode (entry k v es) previous (suc levels) budget rest
        (order, small, utf8, cv, ces) d =
      rw
        (
          append_assoc (cbor_text k) (encode v ++ encode_entries es) rest,
          append_assoc (encode v) (encode_entries es) rest,
          suc-add,
          add_assoc (weight v) (weight_entries es) budget,
        )
        (entries_step levels (weight v + (weight_entries es + budget)) previous k v es
          (count_entries es) (encode v ++ (encode_entries es ++ rest)) _ _ order small utf8
          (parse_encode v (suc levels) (weight_entries es + budget) (encode_entries es ++ rest) cv
            (omega arith))
          (parse_entries-encode es (some (cbor_text k)) (suc levels) budget rest ces (omega arith)))

-- Every canonical value of at most `levels` levels is read back from its encoding, whatever
-- follows it, when the budget covers its items; the rest of the input and of the budget are left.
pub parse_cbor_value-encode :
    (levels : ℕ) (v : CborValue) (budget : ℕ) (rest : Bytes)
    → IsCanonical v
    → depth v ≤ levels
    → weight v ≤ budget
    → parse_cbor_value levels (encode v ++ rest, budget) ≡ ok (v, (rest, budget - weight v))
parse_cbor_value-encode levels v budget rest c d w =
    let split : weight v + (budget - weight v) ≡ budget = omega arith in
    rw split at (parse_encode v levels (budget - weight v) rest c d)
