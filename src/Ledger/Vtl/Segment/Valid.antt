-- ===== src/Ledger/Vtl/Segment/Valid.antt =====
-- vtl.rs: the texts of a validated segment.
use trackone.Prelude.{
  ℕ, ◌<◌, ◌^◌, ◌≡◌, refl, arith, true, List, [], ◌∷◌, inl, inr, sym, length, All, Bool-cases,
}
use mathlib.Core.Path.{subst}
use trackone.Prelude.Text.{bytes_eq, bytes_eq→eq}
use trackone.Prelude.Utf8.{valid_utf8, utf8_ascii}
use trackone.Ledger.Hash.{Bytes, Hash}
use trackone.Ledger.Vtl.Policy.{passed, validate, Checked-cases}
use trackone.Ledger.Vtl.Segment.{
  SegmentRecord, commitment_profile_id, valid_hex, all_hex, valid_close_reason, close_reasons,
  is_one_of, validate_detailed, canonical_cbor_bytes, segment_bytes, built,
}

all_hex-ascii : (bs : Bytes) → all_hex bs ≡ true → All (λ b. b < 128) bs
unfolding all_hex
all_hex-ascii [] h = tt
all_hex-ascii (b ∷ bs) h = (ground arith, all_hex-ascii bs (ground arith))

pub valid_hex-utf8 :
    (value : Bytes) (len : ℕ)
    → valid_hex value len ≡ true
    → (length value ≡ len) × (valid_utf8 value ≡ true)
unfolding valid_hex
valid_hex-utf8 value len h = (ground arith, utf8_ascii value (all_hex-ascii value (ground arith)))

All-is_one_of {ℓ} :
    (P : Bytes → Type ℓ) (ts : List Bytes) (value : Bytes)
    → All P ts
    → is_one_of ts value ≡ true
    → P value
All-is_one_of P [] value h m = absurd (cc m)
All-is_one_of P (t ∷ ts) value h m = elim (Bool-cases (bytes_eq value t)) [
  | inl same ↦ subst P (sym (bytes_eq→eq value t same)) h.0
  | inr other ↦ All-is_one_of P ts value h.1 (rw other at m)
]

abbrev IsShortText : Bytes → Type 0
IsShortText t = (length t < 2 ^ 64) × (valid_utf8 t ≡ true)

close_reasons_short : All IsShortText close_reasons
unfolding valid_utf8
close_reasons_short =
    ((
      (omega arith, refl),
      (
        (omega arith, refl),
        (
          (omega arith, refl),
          (
            (omega arith, refl),
            ((omega arith, refl), ((omega arith, refl), ((omega arith, refl), tt))),
          ),
        ),
      ),
    ))

pub close_reason_short : (value : Bytes) → valid_close_reason value ≡ true → IsShortText value
unfolding valid_close_reason
close_reason_short value h = All-is_one_of IsShortText close_reasons value close_reasons_short h

module _ (sha256 : Bytes → Hash) where
  pub canonical_cbor_bytes_valid :
      (r : SegmentRecord)
      → validate_detailed sha256 r ≡ passed
      → canonical_cbor_bytes sha256 r ≡ built (segment_bytes r)
  unfolding canonical_cbor_bytes
  canonical_cbor_bytes_valid r valid = rw (valid, canonical_cbor_bytes) refl

  pub validated_fields :
      (r : SegmentRecord)
      → validate_detailed sha256 r ≡ passed
      → (valid_hex r.ledger_id 32 ≡ true)
        × (r.profile_id ≡ commitment_profile_id)
        × (validate r.closure_policy ≡ passed)
        × (valid_close_reason r.close_reason ≡ true)
  unfolding validate_detailed
  validated_fields r h = elim (Bool-cases (valid_hex r.ledger_id 32)) [
    | inr bad ↦ absurd (cc (rw bad at h))
    | inl hex ↦ elim (Bool-cases (bytes_eq r.profile_id commitment_profile_id)) [
      | inr bad ↦ absurd (cc (rw (hex, bad) at h))
      | inl profile ↦ elim (Checked-cases (validate r.closure_policy)) [
        | inr (e, bad) ↦ absurd (cc (rw (hex, profile, bad) at h))
        | inl policy ↦ elim (Bool-cases (valid_close_reason r.close_reason)) [
          | inr bad ↦ absurd (cc (rw (hex, profile, policy, bad) at h))
          | inl reason ↦ (hex, bytes_eq→eq _ _ profile, policy, reason)
        ]
      ]
    ]
  ]
