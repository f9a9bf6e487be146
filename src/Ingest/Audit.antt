-- ===== src/Ingest/Audit.antt =====
-- crates/trackone-ingest/src/admission.rs: the audit records of refused frames.
--
-- A text is the list of its bytes. SHA-256 is a parameter.
pub mod Reasons
use trackone.Prelude.{
  ℕ, ◌/◌, ◌%◌, Bool, true, false, ◌&&◌, ◌||◌, not, Option, none, some, List, [], ◌∷◌, ◌++◌, String,
  ltb, leb, ◌==◌, length, get_or, if◌then◌else◌,
}
use trackone.Prelude.Text.{codes, bytes_eq}
use trackone.Prelude.Outcome.{Outcome, done, failed, ◌>>◌}

pub data RejectionSource : Type 0 where
  parse decrypt replay : RejectionSource

unfoldable pub source_as_str : RejectionSource → String
source_as_str parse = "parse"
source_as_str decrypt = "decrypt"
source_as_str replay = "replay"

pub record RejectionRecord : Type 0 where
  pub device_id : List ℕ
  pub fc : Option ℕ
  pub reason : List ℕ
  pub observed_at_utc : List ℕ
  pub frame_sha256 : List ℕ
  pub source : List ℕ

pub data RejectionAuditError : Type 0 where
  unknown_source unknown_reason invalid_frame_hash : RejectionAuditError

abbrev pub rejection_sources : List String
rejection_sources = "parse" ∷ "decrypt" ∷ "replay" ∷ []

abbrev pub rejection_reasons : List String
rejection_reasons =
    "line_too_long" ∷ "invalid_json" ∷ "not_dict" ∷ "missing_frame_fields"
    ∷ "unexpected_frame_fields" ∷ "invalid_hdr" ∷ "invalid_frame_types" ∷ "missing_hdr_fields"
    ∷ "unexpected_hdr_fields" ∷ "invalid_hdr_types" ∷ "dev_id_range" ∷ "msg_type_range" ∷ "fc_range"
    ∷ "flags_range" ∷ "invalid_ingest_profile" ∷ "unsupported_flags" ∷ "unsupported_message_type"
    ∷ "header_device_id_mismatch" ∷ "unknown_device" ∷ "missing_pod_id" ∷ "invalid_pod_id"
    ∷ "missing_salt8" ∷ "invalid_base64" ∷ "salt8_length" ∷ "ck_up_length" ∷ "nonce_length"
    ∷ "tag_length" ∷ "empty_ciphertext" ∷ "ciphertext_too_large" ∷ "nonce_salt_mismatch"
    ∷ "nonce_fc_mismatch" ∷ "decrypt_failed" ∷ "invalid_fact" ∷ "payload_device_id_mismatch"
    ∷ "payload_fc_mismatch" ∷ "duplicate" ∷ "out_of_window" ∷ "continuity_break" ∷ "resync_required"
    ∷ "replay_namespace_empty" ∷ "replay_namespace_mismatch" ∷ []

-- `contains(&text)`.
unfoldable pub lists_text : List String → List ℕ → Bool
lists_text [] text = false
lists_text (s ∷ ss) text = bytes_eq (codes s) text || lists_text ss text

-- `HEX`.
abbrev pub hex_digit : ℕ → ℕ
hex_digit n = get_or (codes "0123456789abcdef") n 0

unfoldable pub encode_hex : List ℕ → List ℕ
encode_hex [] = []
encode_hex (b ∷ bs) = hex_digit (b / 16) ∷ hex_digit (b % 16) ∷ encode_hex bs

-- `trim_end_matches(['\r', '\n'])`.
is_line_end : ℕ → Bool
is_line_end b = b == 13 || b == 10

keep_unless_blank : ℕ → List ℕ → List ℕ
unfolding is_line_end
keep_unless_blank b [] = if is_line_end b then [] else b ∷ []
keep_unless_blank b (c ∷ cs) = b ∷ c ∷ cs

unfoldable pub trim_line_ends : List ℕ → List ℕ
unfolding keep_unless_blank
trim_line_ends [] = []
trim_line_ends (b ∷ bs) = keep_unless_blank b (trim_line_ends bs)

unfoldable pub hash_rejected_line : (List ℕ → List ℕ) → List ℕ → List ℕ
unfolding encode_hex trim_line_ends
hash_rejected_line sha256 raw_line = encode_hex (sha256 (trim_line_ends raw_line))

-- `byte.is_ascii_hexdigit() && !byte.is_ascii_uppercase()`.
abbrev pub is_lower_hex : ℕ → Bool
is_lower_hex b =
    ((leb 48 b && leb b 57) || (leb 65 b && leb b 70) || (leb 97 b && leb b 102))
    && not (leb 65 b && leb b 90)

unfoldable pub all_lower_hex : List ℕ → Bool
all_lower_hex [] = true
all_lower_hex (b ∷ bs) = is_lower_hex b && all_lower_hex bs

unfoldable pub validate_rejection_record : RejectionRecord → Outcome RejectionAuditError (Unit {0})
validate_rejection_record r =
    if not (lists_text rejection_sources r.source)
    then failed unknown_source
    else if not (lists_text rejection_reasons r.reason)
    then failed unknown_reason
    else if not (length r.frame_sha256 == 64) || not (all_lower_hex r.frame_sha256)
    then failed invalid_frame_hash
    else done tt

-- `RejectionRecord::new`.
unfoldable pub new :
    List ℕ
    → Option ℕ
    → List ℕ
    → List ℕ
    → List ℕ
    → RejectionSource
    → Outcome RejectionAuditError RejectionRecord
unfolding source_as_str
new device_id fc reason observed_at_utc frame_sha256 source =
    let r : RejectionRecord = record {
      device_id = device_id;
      fc = fc;
      reason = reason;
      observed_at_utc = observed_at_utc;
      frame_sha256 = frame_sha256;
      source = codes (source_as_str source);
    } in
    validate_rejection_record r >> done r
