-- ===== src/Ingest/Audit/Reasons.antt =====
-- crates/trackone-ingest/src/admission.rs: the records of refusals.
use trackone.Prelude.{
  ℕ, zero, suc, get_or, &&_split, ◌*◌, ◌/◌, ◌%◌, ◌<◌, ◌≡◌, refl, true, List, [], ◌∷◌, length, All,
  arith, Option,
}
use trackone.Prelude.Bytes.{IsByte}
use trackone.Prelude.Text.{codes}
use trackone.Prelude.Outcome.{done}
use trackone.Ingest.RejectReason.{
  RejectReason, as_str, salt8_length, ck_up_length, nonce_length, tag_length, empty_ciphertext,
  ciphertext_too_large, nonce_salt_mismatch, nonce_fc_mismatch, unsupported_flags,
  unsupported_message_type, header_device_id_mismatch, decrypt_failed, invalid_fact,
  invalid_ingest_profile, payload_device_id_mismatch, payload_fc_mismatch, duplicate, out_of_window,
  continuity_break, resync_required, replay_namespace_empty, replay_namespace_mismatch,
}
use trackone.Ingest.Audit.{
  RejectionSource, parse, decrypt, replay, source_as_str, rejection_sources, rejection_reasons,
  lists_text, hex_digit, encode_hex, hash_rejected_line, trim_line_ends, is_lower_hex,
  all_lower_hex, validate_rejection_record, new,
}

listed_reason : (r : RejectReason) → lists_text rejection_reasons (codes (as_str r)) ≡ true
unfolding lists_text as_str
listed_reason salt8_length = refl
listed_reason ck_up_length = refl
listed_reason nonce_length = refl
listed_reason tag_length = refl
listed_reason empty_ciphertext = refl
listed_reason ciphertext_too_large = refl
listed_reason nonce_salt_mismatch = refl
listed_reason nonce_fc_mismatch = refl
listed_reason unsupported_flags = refl
listed_reason unsupported_message_type = refl
listed_reason header_device_id_mismatch = refl
listed_reason decrypt_failed = refl
listed_reason invalid_fact = refl
listed_reason invalid_ingest_profile = refl
listed_reason payload_device_id_mismatch = refl
listed_reason payload_fc_mismatch = refl
listed_reason duplicate = refl
listed_reason out_of_window = refl
listed_reason continuity_break = refl
listed_reason resync_required = refl
listed_reason replay_namespace_empty = refl
listed_reason replay_namespace_mismatch = refl

listed_source :
    (s : RejectionSource) → lists_text rejection_sources (codes (source_as_str s)) ≡ true
unfolding lists_text source_as_str
listed_source parse = refl
listed_source decrypt = refl
listed_source replay = refl

lower_hex_at :
    (n : ℕ) (bs : List ℕ)
    → all_lower_hex bs ≡ true
    → n < length bs
    → is_lower_hex (get_or bs n 0) ≡ true
unfolding all_lower_hex
lower_hex_at n [] h k = absurd (omega (arith, k))
lower_hex_at zero (b ∷ bs) h k = (&&_split (is_lower_hex b) (all_lower_hex bs) h).0
lower_hex_at (suc n) (b ∷ bs) h k =
    lower_hex_at n bs (&&_split (is_lower_hex b) (all_lower_hex bs) h).1 (omega arith)

-- Every digit below 16 is written in lower case.
all_digits : (n : ℕ) → n < 16 → is_lower_hex (hex_digit n) ≡ true
unfolding all_lower_hex
all_digits n h = lower_hex_at n (codes "0123456789abcdef") refl h

encode_hex-all_lower_hex : (bs : List ℕ) → All IsByte bs → all_lower_hex (encode_hex bs) ≡ true
unfolding all_lower_hex encode_hex
encode_hex-all_lower_hex [] h = refl
encode_hex-all_lower_hex (b ∷ bs) h =
    rw
      (
        all_digits (b / 16) (omega (arith, h.0)),
        all_digits (b % 16) (omega arith),
        encode_hex-all_lower_hex bs h.1,
      )
      refl

length-encode_hex : (bs : List ℕ) → length (encode_hex bs) ≡ 2 * length bs
unfolding encode_hex
length-encode_hex [] = refl
length-encode_hex (b ∷ bs) = omega (arith, length-encode_hex bs)

-- Whatever line is refused, for whatever reason and at whatever stage, its record is accepted by the
-- audit's validation, where the hash yields 32 bytes.
pub new-hash_rejected_line :
    (sha256 : List ℕ → List ℕ)
    → ((bytes : List ℕ) → (length (sha256 bytes) ≡ 32) × All IsByte (sha256 bytes))
    → (device_id : List ℕ) (fc : Option ℕ) (reason : RejectReason) (observed line : List ℕ)
      (source : RejectionSource)
    → new device_id fc (codes (as_str reason)) observed (hash_rejected_line sha256 line) source
      ≡ done (record {
        device_id = device_id;
        fc = fc;
        reason = codes (as_str reason);
        observed_at_utc = observed;
        frame_sha256 = hash_rejected_line sha256 line;
        source = codes (source_as_str source);
      })
unfolding new validate_rejection_record hash_rejected_line
new-hash_rejected_line sha256 hash device_id fc reason observed line source =
    let digest : List ℕ = sha256 (trim_line_ends line) in
    let size : length (encode_hex digest) ≡ 64 =
      omega (arith, length-encode_hex digest, (hash (trim_line_ends line)).0) in
    rw
      (
        listed_source source,
        listed_reason reason,
        size,
        encode_hex-all_lower_hex digest (hash (trim_line_ends line)).1,
      )
      refl
