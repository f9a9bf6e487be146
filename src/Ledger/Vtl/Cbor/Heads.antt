-- ===== src/Ledger/Vtl/Cbor/Heads.antt =====
-- vtl.rs: item heads, written and read.
use trackone.Prelude.{
  ℕ, ◌+◌, ◌*◌, ◌/◌, ◌%◌, ◌^◌, ◌≤◌, ◌<◌, ◌≡◌, refl, ap, sym, ◌∙◌, arith, String, [], ◌∷◌, ◌++◌, true,
  ltb, leb, ◌==◌, length, take, drop, inl, inr, Bool-cases, length-append, take-append, drop-append,
  take-append-drop, ==→eq, le→not_ltb, All-front, length-take, le→leb, lt→not_leb, All, leb→le,
}
use mathlib.Core.Path.{subst, subst₂, ap₂}
use native.Mathlib.Nat.{min-eq_left}
use trackone.Prelude.Bytes.{
  to_be_bytes, from_be_bytes, from_be_bytes-to_be_bytes, length-to_be_bytes, IsByte,
  to_be_bytes-from_be_bytes, from_be_bytes-lt,
}
use trackone.Ledger.Hash.{Bytes}
use trackone.Ledger.Vtl.Error.{ok, ok-injective, >>=-eq-ok}
use trackone.Ledger.Vtl.Cbor.{
  put_head, read, read_argument, read_cbor_argument, read_head, shortest,
}

-- A read of `width` bytes that are there.
pub read-append :
    (message : String) (part rest : Bytes) (width : ℕ)
    → length part ≡ width
    → read width message (part ++ rest) ≡ ok (part, rest)
unfolding read
read-append message part rest width e =
    rw
      (
        ← e,
        le→leb (length part) (length (part ++ rest)) (omega (arith, length-append part rest)),
        take-append part rest,
        drop-append part rest,
      )
      refl

read_argument-to_be_bytes :
    (width least n : ℕ) (rest : Bytes)
    → least < n
    → n < 256 ^ width
    → read_argument width least (to_be_bytes width n ++ rest) ≡ ok (n, rest)
unfolding read_argument
read_argument-to_be_bytes width least n rest above fits =
    rw
      (
        read-append "truncated CBOR argument" (to_be_bytes width n) rest width
            (length-to_be_bytes width n),
        from_be_bytes-to_be_bytes width n fits,
        lt→not_leb n least above,
      )
      refl

head_step :
    (message : String) (major ai n : ℕ) (tail rest : Bytes)
    → major < 8
    → ai < 32
    → read_cbor_argument ai tail ≡ ok (n, rest)
    → read_head message ((major * 32 + ai) ∷ tail) ≡ ok (major, n, rest)
unfolding read_head
head_step message major ai n tail rest hm ha e =
    let low : (major * 32 + ai) % 32 ≡ ai = omega arith in
    let high : (major * 32 + ai) / 32 ≡ major = omega arith in rw (low, high, e) refl

-- The head that `put_head` writes for a 64-bit argument is read back, and what follows is left.
pub read_head-put_head :
    (message : String) (major n : ℕ) (rest : Bytes)
    → major < 8
    → n < 2 ^ 64
    → read_head message (put_head major n ++ rest) ≡ ok (major, n, rest)
unfolding put_head read_cbor_argument
read_head-put_head message major n rest hm hn = elim (Bool-cases (ltb n 24)) [
  | inl tiny ↦
      rw (tiny, put_head)
        (head_step message major n n rest rest hm (ground arith)
          (rw (tiny, read_cbor_argument) refl))
  | inr a ↦ elim (Bool-cases (leb n 0xff)) [
    | inl one ↦
        rw (a, one, put_head) (wide 24 1 23 (omega arith) refl (ground arith) (ground arith))
    | inr b ↦ elim (Bool-cases (leb n 0xffff)) [
      | inl two ↦
          rw (a, b, two, put_head) (wide 25 2 0xff (omega arith) refl (ground arith) (ground arith))
      | inr c ↦ elim (Bool-cases (leb n 0xffff_ffff)) [
        | inl four ↦
            rw (a, b, c, four, put_head)
              (wide 26 4 0xffff (omega arith) refl (ground arith) (ground arith))
        | inr d ↦
            rw (a, b, c, d, put_head)
              (wide 27 8 0xffff_ffff (omega arith) refl (ground arith) (omega arith))
      ]
    ]
  ]
]
  where
    wide :
        (ai width least : ℕ)
        → ai < 32
        → read_cbor_argument ai (to_be_bytes width n ++ rest)
          ≡ read_argument width least (to_be_bytes width n ++ rest)
        → least < n
        → n < 256 ^ width
        → read_head message (((major * 32 + ai) ∷ to_be_bytes width n) ++ rest)
          ≡ ok (major, n, rest)
    wide ai width least ha same above fits =
        head_step message major ai n (to_be_bytes width n ++ rest) rest hm ha
          (same ∙ read_argument-to_be_bytes width least n rest above fits)

-- What a successful read returns.
pub read_sound :
    (width : ℕ) (message : String) (rest part after : Bytes)
    → read width message rest ≡ ok (part, after)
    → (rest ≡ part ++ after) × (length part ≡ width)
unfolding read
read_sound width message rest part after h = elim (Bool-cases (leb width (length rest))) [
  | inl fits ↦
      let e : (take width rest, drop width rest) ≡ (part, after) = ok-injective (rw fits at h) in
      let front : take width rest ≡ part = ap (λ (p : Bytes × Bytes). p.0) e in
      let back : drop width rest ≡ after = ap (λ (p : Bytes × Bytes). p.1) e in
      let enough : width ≤ length rest = leb→le width (length rest) fits in
      let size : length (take width rest) ≡ width = length-take width rest ∙ min-eq_left enough in
      (rw (← front, ← back) (sym (take-append-drop width rest)), rw (← front) size)
  | inr short ↦ absurd (cc (rw short at h))
]

shortest_sound :
    (least value n : ℕ) (rest after : Bytes)
    → shortest least value rest ≡ ok (n, after)
    → (value ≡ n) × (rest ≡ after) × (least < n)
unfolding shortest
shortest_sound least value n rest after h = ground arith

read_argument_sound :
    (width least : ℕ) (rest : Bytes) (n : ℕ) (after : Bytes)
    → All IsByte rest
    → read_argument width least rest ≡ ok (n, after)
    → (rest ≡ to_be_bytes width n ++ after) × (least < n) × (n < 256 ^ width)
unfolding read_argument
read_argument_sound width least rest n after bs h =
    let (p, got, checked) = >>=-eq-ok (read width "truncated CBOR argument" rest) _ h in
    let part : Bytes = p.0 in
    let back : Bytes = p.1 in
    let (split, size) = read_sound width "truncated CBOR argument" rest part back got in
    let (value, tail, above) = shortest_sound least (from_be_bytes part) n back after checked in
    let part_bytes : All IsByte part = All-front IsByte part back (subst (All IsByte) split bs) in
    let written : to_be_bytes (length part) (from_be_bytes part) ≡ part =
      to_be_bytes-from_be_bytes part part_bytes in
    let bound : from_be_bytes part < 256 ^ length part = from_be_bytes-lt part part_bytes in
    (
      split ∙ ap₂ ◌++◌ (sym (subst₂ (λ w v. to_be_bytes w v ≡ part) size value written)) tail,
      above,
      subst₂ (λ w v. v < 256 ^ w) size value bound,
    )

put_head_one :
    (major n : ℕ) → 23 < n → n < 256 ^ 1 → put_head major n ≡ (major * 32 + 24) ∷ to_be_bytes 1 n
unfolding put_head
put_head_one major n lo hi = rw (le→not_ltb n 24 lo, le→leb n 0xff (omega arith), put_head) refl

put_head_two :
    (major n : ℕ) → 0xff < n → n < 256 ^ 2 → put_head major n ≡ (major * 32 + 25) ∷ to_be_bytes 2 n
unfolding put_head
put_head_two major n lo hi =
    rw
      (le→not_ltb n 24 (omega arith), lt→not_leb n 0xff lo, le→leb n 0xffff (omega arith), put_head)
      refl

put_head_four :
    (major n : ℕ)
    → 0xffff < n
    → n < 256 ^ 4
    → put_head major n ≡ (major * 32 + 26) ∷ to_be_bytes 4 n
unfolding put_head
put_head_four major n lo hi =
    rw
      (
        le→not_ltb n 24 (omega arith),
        lt→not_leb n 0xff (omega arith),
        lt→not_leb n 0xffff lo,
        le→leb n 0xffff_ffff (omega arith),
        put_head,
      )
      refl

put_head_eight :
    (major n : ℕ) → 0xffff_ffff < n → put_head major n ≡ (major * 32 + 27) ∷ to_be_bytes 8 n
unfolding put_head
put_head_eight major n lo =
    rw
      (
        le→not_ltb n 24 (omega arith),
        lt→not_leb n 0xff (omega arith),
        lt→not_leb n 0xffff (omega arith),
        lt→not_leb n 0xffff_ffff lo,
        put_head,
      )
      refl

-- Additional information, argument and rest fit together as `put_head` writes them.
argument_sound :
    (major ai : ℕ) (rest : Bytes) (n : ℕ) (after : Bytes)
    → All IsByte rest
    → read_cbor_argument ai rest ≡ ok (n, after)
    → ((major * 32 + ai) ∷ rest ≡ put_head major n ++ after) × (n < 2 ^ 64)
unfolding read_cbor_argument put_head
argument_sound major ai rest n after bs h = elim (Bool-cases (ltb ai 24)) [
  | inl tiny ↦ let e : ok (ai, rest) ≡ ok (n, after) = rw tiny at h in ground arith
  | inr a ↦ elim (Bool-cases (ai == 24)) [
    | inl one ↦
        wide 24 1 23 one (rw (a, one) at h) (λ lo hi. (put_head_one major n lo hi, omega arith))
    | inr b ↦ elim (Bool-cases (ai == 25)) [
      | inl two ↦
          wide 25 2 0xff two (rw (a, b, two) at h)
            (λ lo hi. (put_head_two major n lo hi, omega arith))
      | inr c ↦ elim (Bool-cases (ai == 26)) [
        | inl four ↦
            wide 26 4 0xffff four (rw (a, b, c, four) at h)
              (λ lo hi. (put_head_four major n lo hi, omega arith))
        | inr d ↦ elim (Bool-cases (ai == 27)) [
          | inl eight ↦
              wide 27 8 0xffff_ffff eight (rw (a, b, c, d, eight) at h)
                (λ lo hi. (put_head_eight major n lo, omega arith))
          | inr e ↦ absurd (cc (rw (a, b, c, d, e) at h))
        ]
      ]
    ]
  ]
]
  where
    wide :
        (code width least : ℕ)
        → (ai == code) ≡ true
        → read_argument width least rest ≡ ok (n, after)
        → (least < n
            → n < 256 ^ width
            → (put_head major n ≡ (major * 32 + code) ∷ to_be_bytes width n) × (n < 2 ^ 64))
        → ((major * 32 + ai) ∷ rest ≡ put_head major n ++ after) × (n < 2 ^ 64)
    wide code width least same got shape =
        let (split, above, fits) = read_argument_sound width least rest n after bs got in
        let (form, bound) = shape above fits in (rw (==→eq ai code same, form, split) refl, bound)

-- A head that is read is the one that `put_head` writes: no item has a second head.
pub read_head_sound :
    (message : String) (rest : Bytes) (major n : ℕ) (after : Bytes)
    → All IsByte rest
    → read_head message rest ≡ ok (major, n, after)
    → (rest ≡ put_head major n ++ after) × (n < 2 ^ 64) × (major < 8)
unfolding read_head
read_head_sound message [] major n after bs h = cc
read_head_sound message (initial ∷ rest) major n after bs h =
    let ((value, back), got, last) = >>=-eq-ok (read_cbor_argument (initial % 32) rest) _ h in
    let e : (initial / 32, value, back) ≡ (major, n, after) = ok-injective last in
    let high : initial / 32 ≡ major = ap (λ (q : ℕ × ℕ × Bytes). q.0) e in
    let argument : value ≡ n = ap (λ (q : ℕ × ℕ × Bytes). q.1) e in
    let tail : back ≡ after = ap (λ (q : ℕ × ℕ × Bytes). q.2) e in
    let initial_split : initial ≡ initial / 32 * 32 + initial % 32 = omega arith in
    let (form, bound) = argument_sound (initial / 32) (initial % 32) rest value back bs.1 got in
    (
      ap (λ (i : ℕ). i ∷ rest) initial_split ∙ form ∙ ap₂ ◌++◌ (ap₂ put_head high argument) tail,
      subst (λ v. v < 2 ^ 64) argument bound,
      subst (λ m. m < 8) high (omega (arith, bs.0)),
    )
