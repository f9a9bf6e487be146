-- ===== src/Ingest/Nonce/Prefix.antt =====
-- crates/trackone-ingest/src/nonce.rs: which nonces the prefix check lets through.
use trackone.Prelude.{
  ℕ, ◌^◌, ◌<◌, ◌≡◌, refl, sym, ap, ◌∙◌, List, ◌++◌, ==_refl, ==→eq, length, take, drop, take-append,
  drop-append, take-append-drop, length-append, length-take, length-drop, All, All-take, All-drop,
  arith,
}
use mathlib.Core.Path.{ap₂}
use trackone.Prelude.Bytes.{
  to_be_bytes, from_be_bytes, IsByte, length-to_be_bytes, from_be_bytes-to_be_bytes,
  to_be_bytes-from_be_bytes,
}
use trackone.Prelude.Text.{bytes_eq_refl, bytes_eq→eq}
use trackone.Prelude.Outcome.{done}
use trackone.Ingest.Nonce.{framed_nonce, validate_nonce_prefix}

framed_nonce_front :
    (salt8 : List ℕ) (fc : ℕ) (tail8 : List ℕ)
    → length salt8 ≡ 8
    → take 8 (framed_nonce salt8 fc tail8) ≡ salt8
unfolding framed_nonce
framed_nonce_front salt8 fc tail8 h =
    ap (λ n. take n (salt8 ++ (to_be_bytes 8 fc ++ tail8))) (sym h)
    ∙ take-append salt8 (to_be_bytes 8 fc ++ tail8)

pub framed_nonce_counter :
    (salt8 : List ℕ) (fc : ℕ) (tail8 : List ℕ)
    → length salt8 ≡ 8
    → take 8 (drop 8 (framed_nonce salt8 fc tail8)) ≡ to_be_bytes 8 fc
unfolding framed_nonce
framed_nonce_counter salt8 fc tail8 h =
    ap (take 8) (
      ap (λ n. drop n (salt8 ++ (to_be_bytes 8 fc ++ tail8))) (sym h)
      ∙ drop-append salt8 (to_be_bytes 8 fc ++ tail8))
    ∙ ap (λ n. take n (to_be_bytes 8 fc ++ tail8)) (sym (length-to_be_bytes 8 fc))
    ∙ take-append (to_be_bytes 8 fc) tail8

length-framed_nonce :
    (salt8 : List ℕ) (fc : ℕ) (tail8 : List ℕ)
    → length salt8 ≡ 8
    → length tail8 ≡ 8
    → length (framed_nonce salt8 fc tail8) ≡ 24
unfolding framed_nonce
length-framed_nonce salt8 fc tail8 h k = omega (
  arith,
  length-append salt8 (to_be_bytes 8 fc ++ tail8),
  length-append (to_be_bytes 8 fc) tail8,
  length-to_be_bytes 8 fc,
)

-- The framed nonce of a salt and a tail of 8 bytes each and a counter of 32 bits passes the check for
-- that salt and that counter.
pub validate_nonce_prefix-framed_nonce :
    (salt8 : List ℕ) (fc : ℕ) (tail8 : List ℕ)
    → length salt8 ≡ 8
    → length tail8 ≡ 8
    → fc < 2 ^ 32
    → validate_nonce_prefix (framed_nonce salt8 fc tail8) salt8 fc ≡ done tt
unfolding validate_nonce_prefix
validate_nonce_prefix-framed_nonce salt8 fc tail8 h k b =
    rw
      (
        length-framed_nonce salt8 fc tail8 h k,
        framed_nonce_front salt8 fc tail8 h,
        framed_nonce_counter salt8 fc tail8 h,
        from_be_bytes-to_be_bytes 8 fc (omega arith),
        h,
        bytes_eq_refl salt8,
        ==_refl fc,
      )
      refl

-- A nonce of bytes that passes the check has 24 of them and is the framed nonce of the salt, which
-- has 8 bytes, the counter, and its own last 8 bytes.
pub validate_nonce_prefix_exact :
    (nonce salt8 : List ℕ) (fc : ℕ)
    → All IsByte nonce
    → validate_nonce_prefix nonce salt8 fc ≡ done tt
    → (nonce ≡ framed_nonce salt8 fc (drop 8 (drop 8 nonce)))
      × (length salt8 ≡ 8)
      × (length nonce ≡ 24)
unfolding validate_nonce_prefix framed_nonce
validate_nonce_prefix_exact nonce salt8 fc bytes h =
    let size : length nonce ≡ 24 = ground (arith, ==→eq (length nonce) 24) in
    let salt_size : length salt8 ≡ 8 = ground (arith, ==→eq (length salt8) 8) in
    let salt : take 8 nonce ≡ salt8 = bytes_eq→eq (take 8 nonce) salt8 (ground arith) in
    let counter : from_be_bytes (take 8 (drop 8 nonce)) ≡ fc =
      ==→eq (from_be_bytes (take 8 (drop 8 nonce))) fc (ground arith) in
    let middle : List ℕ = take 8 (drop 8 nonce) in
    let middle_size : length middle ≡ 8 =
      omega (arith, length-take 8 (drop 8 nonce), length-drop 8 nonce) in
    let digits : take 8 (drop 8 nonce) ≡ to_be_bytes 8 fc =
      sym (
        to_be_bytes-from_be_bytes middle
          (All-take IsByte 8 (drop 8 nonce) (All-drop IsByte 8 nonce bytes)))
      ∙ ap (λ w. to_be_bytes w (from_be_bytes middle)) middle_size
      ∙ ap (to_be_bytes 8) counter in
    (
      sym (take-append-drop 8 nonce)
          ∙ ap₂ ◌++◌ salt (
              sym (take-append-drop 8 (drop 8 nonce))
              ∙ ap (λ t. t ++ drop 8 (drop 8 nonce)) digits),
      salt_size,
      size,
    )
