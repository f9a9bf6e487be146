-- ===== src/Ledger/Vtl/Cbor/Values.antt =====
-- The deterministic encoding of a value, described without the parser: heads, contents, and map
-- entries in ascending key order.
use trackone.Prelude.{
  ℕ, suc, ◌+◌, ◌*◌, ◌^◌, ◌≤◌, ◌<◌, ◌≡◌, true, false, Option, none, some, [], ◌++◌, length,
  length-append, arith,
}
use Prim.Native.Nat.{max}
use mathlib.Core.List.{append-nil, append_assoc}
use trackone.Prelude.Utf8.{valid_utf8}
use trackone.Ledger.Hash.{Bytes}
use trackone.Ledger.Vtl.Cbor.{
  CborValue, uint, bytes, text, array, map, null, Items, nil, cons, Entries, end, entry, put_head,
  cbor_uint, cbor_text, cbor_bytes, cbor_null, cbor_map, cbor_array, out_of_order,
}

abbrev pub count_items : Items → ℕ
count_items nil = 0
count_items (cons v vs) = suc (count_items vs)

abbrev pub count_entries : Entries → ℕ
count_entries end = 0
count_entries (entry k v es) = suc (count_entries es)

unfoldable mutual
  pub encode : CborValue → Bytes
  encode (uint n) = cbor_uint n
  encode (bytes b) = cbor_bytes b
  encode (text t) = cbor_text t
  encode (array vs) = cbor_array (count_items vs) (encode_items vs)
  encode (map es) = cbor_map (count_entries es) (encode_entries es)
  encode null = cbor_null

  pub encode_items : Items → Bytes
  encode_items nil = []
  encode_items (cons v vs) = encode v ++ encode_items vs

  pub encode_entries : Entries → Bytes
  encode_entries end = []
  encode_entries (entry k v es) = cbor_text k ++ (encode v ++ encode_entries es)

-- The items that a value takes from the budget, keys included.
unfoldable mutual
  pub weight : CborValue → ℕ
  weight (uint n) = 1
  weight (bytes b) = 1
  weight (text t) = 1
  weight (array vs) = suc (weight_items vs)
  weight (map es) = suc (weight_entries es)
  weight null = 1

  pub weight_items : Items → ℕ
  weight_items nil = 0
  weight_items (cons v vs) = weight v + weight_items vs

  pub weight_entries : Entries → ℕ
  weight_entries end = 0
  weight_entries (entry k v es) = suc (weight v + weight_entries es)

-- How deep a value nests; what stands in no collection has depth 1.
unfoldable mutual
  pub depth : CborValue → ℕ
  depth (uint n) = 1
  depth (bytes b) = 1
  depth (text t) = 1
  depth (array vs) = suc (depth_items vs)
  depth (map es) = suc (depth_entries es)
  depth null = 1

  pub depth_items : Items → ℕ
  depth_items nil = 0
  depth_items (cons v vs) = max (depth v) (depth_items vs)

  pub depth_entries : Entries → ℕ
  depth_entries end = 0
  depth_entries (entry k v es) = max 1 (max (depth v) (depth_entries es))

-- Numbers and lengths of 64 bits, texts of UTF-8, and the keys of a map ascending, where
-- `previous` is the encoded key in front.
unfoldable mutual
  pub IsCanonical : CborValue → Type 0
  IsCanonical (uint n) = n < 2 ^ 64
  IsCanonical (bytes b) = length b < 2 ^ 64
  IsCanonical (text t) = (length t < 2 ^ 64) × (valid_utf8 t ≡ true)
  IsCanonical (array vs) = (count_items vs < 2 ^ 64) × AllCanonical vs
  IsCanonical (map es) = (count_entries es < 2 ^ 63) × Ascending none es
  IsCanonical null = Unit {0}

  pub AllCanonical : Items → Type 0
  AllCanonical nil = Unit {0}
  AllCanonical (cons v vs) = IsCanonical v × AllCanonical vs

  pub Ascending : Option Bytes → Entries → Type 0
  Ascending previous end = Unit {0}
  Ascending previous (entry k v es) =
      (out_of_order previous (cbor_text k) ≡ false)
      × (length k < 2 ^ 64)
      × (valid_utf8 k ≡ true)
      × IsCanonical v
      × Ascending (some (cbor_text k)) es

put_head-pos : (major n : ℕ) (rest : Bytes) → 1 ≤ length (put_head major n ++ rest)
unfolding put_head
put_head-pos major n rest = ground arith

cbor_text-pos : (k rest : Bytes) → 1 + length rest ≤ length (cbor_text k ++ rest)
unfolding cbor_text
cbor_text-pos k rest =
    omega (arith, length-append (put_head 3 (length k) ++ k) rest, put_head-pos 3 (length k) k)

cbor_array-pos : (n : ℕ) (body : Bytes) → 1 + length body ≤ length (cbor_array n body)
unfolding cbor_array
cbor_array-pos n body =
    omega (arith, length-append (put_head 4 n) body, rw append-nil at (put_head-pos 4 n []))

cbor_map-pos : (n : ℕ) (body : Bytes) → 1 + length body ≤ length (cbor_map n body)
unfolding cbor_map
cbor_map-pos n body =
    omega (arith, length-append (put_head 5 n) body, rw append-nil at (put_head-pos 5 n []))

pub encode-pos : (v : CborValue) → 1 ≤ length (encode v)
unfolding encode cbor_bytes cbor_text cbor_array cbor_map cbor_uint cbor_null
encode-pos (uint n) = rw (← append-nil (put_head 0 n)) (put_head-pos 0 n [])
encode-pos (bytes b) = put_head-pos 2 (length b) b
encode-pos (text t) = put_head-pos 3 (length t) t
encode-pos (array vs) = put_head-pos 4 (count_items vs) (encode_items vs)
encode-pos (map es) = put_head-pos 5 (count_entries es) (encode_entries es)
encode-pos null = omega arith

-- Each item takes a byte at least, each entry two.
pub count_items-le :
    (vs : Items) (rest : Bytes) → count_items vs * 1 ≤ length (encode_items vs ++ rest)
unfolding encode
count_items-le nil rest = omega arith
count_items-le (cons v vs) rest = rw (append_assoc (encode v) (encode_items vs) rest) (
    omega (
      arith,
      length-append (encode v) (encode_items vs ++ rest),
      encode-pos v,
      count_items-le vs rest,
    ))

pub count_entries-le :
    (es : Entries) (rest : Bytes) → count_entries es * 2 ≤ length (encode_entries es ++ rest)
unfolding encode
count_entries-le end rest = omega arith
count_entries-le (entry k v es) rest =
    rw
      (
        append_assoc (cbor_text k) (encode v ++ encode_entries es) rest,
        append_assoc (encode v) (encode_entries es) rest,
      )
      (omega (
        arith,
        cbor_text-pos k (encode v ++ (encode_entries es ++ rest)),
        length-append (encode v) (encode_entries es ++ rest),
        encode-pos v,
        count_entries-le es rest,
      ))

-- A value has no more items than bytes, so that a budget of its length is enough.
mutual
  unfolding encode weight cbor_array cbor_map

  weight-le : (v : CborValue) → weight v ≤ length (encode v)
  weight-le (uint n) = encode-pos (uint n)
  weight-le (bytes b) = encode-pos (bytes b)
  weight-le (text t) = encode-pos (text t)
  weight-le (array vs) =
      omega (arith, cbor_array-pos (count_items vs) (encode_items vs), weight_items-le vs)
  weight-le (map es) =
      omega (arith, cbor_map-pos (count_entries es) (encode_entries es), weight_entries-le es)
  weight-le null = encode-pos null

  weight_items-le : (vs : Items) → weight_items vs ≤ length (encode_items vs)
  weight_items-le nil = omega arith
  weight_items-le (cons v vs) =
      omega (arith, length-append (encode v) (encode_items vs), weight-le v, weight_items-le vs)

  weight_entries-le : (es : Entries) → weight_entries es ≤ length (encode_entries es)
  weight_entries-le end = omega arith
  weight_entries-le (entry k v es) = omega (
    arith,
    cbor_text-pos k (encode v ++ encode_entries es),
    length-append (encode v) (encode_entries es),
    weight-le v,
    weight_entries-le es,
  )

pub weight-le-length : (v : CborValue) → weight v ≤ length (encode v)
weight-le-length v = weight-le v
