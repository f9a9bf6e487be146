-- ===== src/Ingest/Admission.antt =====
-- crates/trackone-ingest/src/admission.rs and profile.rs: the decryption and binding of one frame.
--
-- postcard, XChaCha20-Poly1305 and `f32` are parameters.
pub mod Accepted
pub mod Refused
use trackone.Prelude.{
  ℕ, ◌+◌, ◌-◌, ◌*◌, Bool, true, false, not, Option, none, some, List, [], ◌++◌, String, length,
  take, drop, ltb, leb, ◌==◌, if◌then◌else◌,
}
use trackone.Prelude.Text.{codes, bytes_eq}
use trackone.Prelude.Bytes.{to_be_bytes}
use trackone.Prelude.Integers.{ℤ, pos}
use trackone.Prelude.Outcome.{Outcome, done, failed, map_err}
use trackone.Core.Types.{
  Fact, EnvFact, FloatTests, CoreError, crypto_error, serialize_buffer_too_small, serialize_error,
  deserialize_error, core_ciphertext_too_large, core_invalid_fact, FactValidationError, env,
  env_kind, ambient_air_temperature, instant,
}
use trackone.Ingest.RejectReason.{
  RejectReason, Admission, accept, reject, ◌>>=◌, ◌>>◌, demand, or_reject, reject_by, salt8_length,
  ck_up_length, nonce_length, tag_length, empty_ciphertext, ciphertext_too_large,
  nonce_salt_mismatch, nonce_fc_mismatch, unsupported_flags, unsupported_message_type,
  header_device_id_mismatch, decrypt_failed, invalid_fact, invalid_ingest_profile,
  payload_device_id_mismatch, payload_fc_mismatch,
}
use trackone.Ingest.Nonce.{
  FramedNonceError, wrong_nonce_length, wrong_salt8_length, salt_mismatch, counter_mismatch,
  validate_nonce_prefix, framed_nonce,
}
use trackone.Ingest.Aad.{
  FramedFactBindingError, pod_id_mismatch, frame_counter_mismatch, legacy_dev_id_from_pod_id,
  framed_aad, validate_fact_binding,
}
use trackone.Ingest.Frame.{
  FrameHeader, FrameInput, DeviceMaterial, AcceptedFrame, Postcard, max_frame_ciphertext_bytes,
  max_fact_len, aead_tag_len, decode_fact_postcard, encode_fact_postcard,
}

-- `XChaCha20Poly1305`: a cipher from a key; encryption and decryption of nonce, associated data and
-- message.
pub record Aead (C : Type 0) : Type 0 where
  pub new_from_slice : List ℕ → Option C
  pub encrypt : C → List ℕ → List ℕ → List ℕ → Option (List ℕ)
  pub decrypt : C → List ℕ → List ℕ → List ℕ → Option (List ℕ)

abbrev pub framed_fact_msg_type : ℕ
framed_fact_msg_type = 1

abbrev pub ingest_profile_rust_postcard_v1 : String
ingest_profile_rust_postcard_v1 = "rust-postcard-v1"

unfoldable pub is_supported_ingest_profile : Option (List ℕ) → Bool
is_supported_ingest_profile none = true
is_supported_ingest_profile (some raw) = bytes_eq raw (codes ingest_profile_rust_postcard_v1)

unfoldable pub validate_ingest_profile : Option (List ℕ) → Admission (Unit {0})
unfolding is_supported_ingest_profile
validate_ingest_profile raw = demand (is_supported_ingest_profile raw) invalid_ingest_profile

pub map_framed_nonce_error : FramedNonceError → RejectReason
map_framed_nonce_error wrong_nonce_length = nonce_length
map_framed_nonce_error wrong_salt8_length = salt8_length
map_framed_nonce_error salt_mismatch = nonce_salt_mismatch
map_framed_nonce_error counter_mismatch = nonce_fc_mismatch

pub map_decode_error : CoreError → RejectReason
map_decode_error (core_invalid_fact e) = invalid_fact
map_decode_error crypto_error = decrypt_failed
map_decode_error serialize_buffer_too_small = decrypt_failed
map_decode_error serialize_error = decrypt_failed
map_decode_error deserialize_error = decrypt_failed
map_decode_error core_ciphertext_too_large = decrypt_failed

pub map_binding_error : FramedFactBindingError → RejectReason
map_binding_error pod_id_mismatch = payload_device_id_mismatch
map_binding_error frame_counter_mismatch = payload_fc_mismatch

-- The guards before the cipher.
unfoldable pub check_frame : FrameInput → DeviceMaterial → Admission (Unit {0})
unfolding map_framed_nonce_error
check_frame frame device = do
  demand (length frame.tag == aead_tag_len) tag_length
  demand (length device.ck_up == 32) ck_up_length
  demand (not (length frame.ct == 0)) empty_ciphertext
  demand (leb (length frame.ct) max_frame_ciphertext_bytes) ciphertext_too_large
  demand (frame.header.flags == 0) unsupported_flags
  demand (frame.header.msg_type == framed_fact_msg_type) unsupported_message_type
  demand (legacy_dev_id_from_pod_id device.expected_pod_id == frame.header.dev_id)
      header_device_id_mismatch
  reject_by map_framed_nonce_error
      (validate_nonce_prefix frame.nonce device.salt8 frame.header.header_fc)

-- `frame.nonce.try_into()` for 24 bytes.
abbrev pub nonce_array : List ℕ → Option (List ℕ)
nonce_array nonce = if length nonce == 24 then some nonce else none

module _ {F : Type 0} {C : Type 0} (floats : FloatTests F) (postcard : Postcard F)
    (aead : Aead C) where
  unfoldable pub validate_and_decrypt : FrameInput → DeviceMaterial → Admission (AcceptedFrame F)
  unfolding map_decode_error map_binding_error
  validate_and_decrypt frame device = do
    check_frame frame device
    cipher ← or_reject (aead.new_from_slice device.ck_up) ck_up_length
    nonce ← or_reject (nonce_array frame.nonce) nonce_length
    plaintext ←
        or_reject
          (aead.decrypt cipher nonce
            (framed_aad frame.header.dev_id frame.header.msg_type frame.header.flags)
            (frame.ct ++ frame.tag))
          decrypt_failed
    fact ← reject_by map_decode_error (decode_fact_postcard floats postcard plaintext)
    reject_by map_binding_error
        (validate_fact_binding fact device.expected_pod_id frame.header.header_fc)
    accept (record { accepted_header = frame.header; accepted_fact = fact })
