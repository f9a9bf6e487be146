-- ===== src/Ledger/Floats.antt =====
-- crates/trackone-ledger/src/c_cbor.rs: the shortest CBOR encoding of a float.
--
-- An `f64` is its 64 bits, an `f32` its 32 bits. `|` on disjoint bits is a sum, and a shift is a
-- product or a quotient by a power of two. The casts between the two types are IEEE 754's: to
-- `f64` exactly, to `f32` rounded to the nearest value, ties to even.
use trackone.Prelude.{
  ℕ, ◌+◌, ◌-◌, ◌*◌, ◌/◌, ◌%◌, ◌^◌, Bool, ◌&&◌, ◌||◌, not, Option, none, some, ◌∷◌, ltb, leb, ◌==◌,
  if◌then◌else◌,
}
use trackone.Prelude.Words.{leading_zeros}
use trackone.Prelude.Bytes.{to_be_bytes}
use trackone.Ledger.Hash.{Bytes}

abbrev pub sign64 : ℕ → ℕ
sign64 bits = bits / 2 ^ 63

abbrev pub exponent64 : ℕ → ℕ
exponent64 bits = bits / 2 ^ 52 % 2048

abbrev pub mantissa64 : ℕ → ℕ
mantissa64 bits = bits % 2 ^ 52

-- `f64::is_finite`.
unfoldable pub is_finite : ℕ → Bool
is_finite bits = not (exponent64 bits == 2047)

-- The highest set bit of a number of `w` bits that is not zero.
unfoldable pub highest_bit : ℕ → ℕ → ℕ
unfolding leading_zeros
highest_bit w n = w - 1 - leading_zeros w n

-- The bits, without the sign, of `n * 2 ^ (base - 1023)`, for an `n` of `w` bits that is not zero.
unfoldable pub scaled : ℕ → ℕ → ℕ → ℕ
unfolding highest_bit
scaled base w n = let h = highest_bit w n in (base + h) * 2 ^ 52 + (n - 2 ^ h) * 2 ^ (52 - h)

-- `f32 as f64`.
unfoldable pub widen : ℕ → ℕ
unfolding scaled
widen bits =
    let sign = bits / 2 ^ 31 in
    let exponent = bits / 2 ^ 23 % 256 in
    let fraction = bits % 2 ^ 23 in
    sign * 2 ^ 63
    + (if exponent == 255
        then 2047 * 2 ^ 52 + fraction * 2 ^ 29
        else if exponent == 0
        then (if fraction == 0 then 0 else scaled 874 23 fraction)
        else (exponent + 896) * 2 ^ 52 + fraction * 2 ^ 29)

-- A quotient rounded by its remainder and half of its divisor.
unfoldable pub round_even : ℕ → ℕ → ℕ → ℕ
round_even quotient remainder half =
    if ltb half remainder || (remainder == half && quotient % 2 == 1)
    then quotient + 1
    else quotient

-- `f64 as f32`, for a finite number. A carry out of the fraction goes to the exponent.
unfoldable pub narrow : ℕ → ℕ
unfolding round_even
narrow bits =
    let exponent = exponent64 bits in
    let mantissa = mantissa64 bits in
    let significand = if exponent == 0 then mantissa else 2 ^ 52 + mantissa in
    let shift = 926 - exponent in
    sign64 bits * 2 ^ 31
    + (if leb 1151 exponent
        then 255 * 2 ^ 23
        else if leb 897 exponent
        then round_even ((exponent - 896) * 2 ^ 23 + mantissa / 2 ^ 29) (mantissa % 2 ^ 29) (2 ^ 28)
        else round_even (significand / 2 ^ shift) (significand % 2 ^ shift) (2 ^ (shift - 1)))

-- `unbiased` is `exponent64 bits - 1023`: the source's bounds -24, -14 and 15 are 999, 1009 and 1038.
unfoldable pub try_encode_as_f16 : ℕ → Option Bytes
try_encode_as_f16 bits =
    let sign = sign64 bits in
    let exponent = exponent64 bits in
    let mantissa = mantissa64 bits in
    let full_sig = 2 ^ 52 + mantissa in
    let total_shift = 1051 - exponent in
    if bits % 2 ^ 63 == 0
    then some (to_be_bytes 2 (sign * 2 ^ 15))
    else if ltb exponent 999 || ltb 1038 exponent
    then none
    else if leb 1009 exponent
    then (if mantissa % 2 ^ 42 == 0
        then some (to_be_bytes 2 (sign * 2 ^ 15 + (exponent - 1008) * 2 ^ 10 + mantissa / 2 ^ 42))
        else none)
    else if full_sig % 2 ^ total_shift == 0
    then some (to_be_bytes 2 (sign * 2 ^ 15 + full_sig / 2 ^ total_shift))
    else none

-- `cbor_float` and `canonical_float_bytes`; `none` is the error on a number that is not finite.
unfoldable pub canonical_float_bytes : ℕ → Option Bytes
unfolding is_finite try_encode_as_f16 narrow widen
canonical_float_bytes bits = if not (is_finite bits) then none else elim (try_encode_as_f16 bits) [
  | some f16_bytes ↦ some (0xf9 ∷ f16_bytes)
  | none ↦
      let f32_val = narrow bits in
      if widen f32_val == bits
      then some (0xfa ∷ to_be_bytes 4 f32_val)
      else some (0xfb ∷ to_be_bytes 8 bits)
]

-- `decode_f16` of vtl.rs. Its products with powers of two are exact.
unfoldable pub decode_f16 : ℕ → ℕ
unfolding scaled
decode_f16 bits =
    let sign = bits / 2 ^ 15 in
    let exponent = bits / 2 ^ 10 % 32 in
    let fraction = bits % 2 ^ 10 in
    if exponent == 31 && not (fraction == 0)
    then 0x7ff8_0000_0000_0000
    else sign * 2 ^ 63
      + (if exponent == 0
          then (if fraction == 0 then 0 else scaled 999 10 fraction)
          else if exponent == 31
          then 2047 * 2 ^ 52
          else (exponent + 1008) * 2 ^ 52 + fraction * 2 ^ 42)
