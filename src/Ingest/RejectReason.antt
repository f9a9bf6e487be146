-- ===== src/Ingest/RejectReason.antt =====
-- crates/trackone-ingest/src/admission.rs: why a frame is refused.
use trackone.Prelude.{Bool, true, false, Option, none, some, String}
use trackone.Prelude.Outcome.{Outcome, done, failed}

pub data RejectReason : Type 0 where
  salt8_length ck_up_length nonce_length tag_length empty_ciphertext ciphertext_too_large
        nonce_salt_mismatch nonce_fc_mismatch unsupported_flags unsupported_message_type
        header_device_id_mismatch decrypt_failed invalid_fact invalid_ingest_profile
        payload_device_id_mismatch payload_fc_mismatch duplicate out_of_window continuity_break
        resync_required replay_namespace_empty replay_namespace_mismatch :
      RejectReason

-- Rust's `Result<T, RejectReason>`.
pub data Admission {ℓ} (A : Type ℓ) : Type ℓ where
  accept : A → Admission A
  reject : RejectReason → Admission A

infixl 5 ◌>>=◌ ◌>>◌
abbrev pub ◌>>=◌ {ℓ κ} : {A : Type ℓ} {B : Type κ} → Admission A → (A → Admission B) → Admission B
accept a >>= f = f a
reject r >>= f = reject r

abbrev pub ◌>>◌ {ℓ} : {B : Type ℓ} → Admission (Unit {0}) → Admission B → Admission B
m >> k = m >>= λ _. k

-- `if !test { return Err(r) }`.
abbrev pub demand : Bool → RejectReason → Admission (Unit {0})
demand true r = accept tt
demand false r = reject r

-- `map_err(|_| r)`, and `map_err` by a function.
abbrev pub or_reject {ℓ} : {A : Type ℓ} → Option A → RejectReason → Admission A
or_reject none r = reject r
or_reject (some a) r = accept a

abbrev pub reject_by {ℓ κ} :
    {E : Type ℓ} {A : Type κ} → (E → RejectReason) → Outcome E A → Admission A
reject_by f (done a) = accept a
reject_by f (failed e) = reject (f e)

-- `RejectReason::as_str`.
unfoldable pub as_str : RejectReason → String
as_str salt8_length = "salt8_length"
as_str ck_up_length = "ck_up_length"
as_str nonce_length = "nonce_length"
as_str tag_length = "tag_length"
as_str empty_ciphertext = "empty_ciphertext"
as_str ciphertext_too_large = "ciphertext_too_large"
as_str nonce_salt_mismatch = "nonce_salt_mismatch"
as_str nonce_fc_mismatch = "nonce_fc_mismatch"
as_str unsupported_flags = "unsupported_flags"
as_str unsupported_message_type = "unsupported_message_type"
as_str header_device_id_mismatch = "header_device_id_mismatch"
as_str decrypt_failed = "decrypt_failed"
as_str invalid_fact = "invalid_fact"
as_str invalid_ingest_profile = "invalid_ingest_profile"
as_str payload_device_id_mismatch = "payload_device_id_mismatch"
as_str payload_fc_mismatch = "payload_fc_mismatch"
as_str duplicate = "duplicate"
as_str out_of_window = "out_of_window"
as_str continuity_break = "continuity_break"
as_str resync_required = "resync_required"
as_str replay_namespace_empty = "replay_namespace_empty"
as_str replay_namespace_mismatch = "replay_namespace_mismatch"
