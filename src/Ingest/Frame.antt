-- ===== src/Ingest/Frame.antt =====
-- crates/trackone-ingest/src/frame.rs: frames, facts under postcard, and the sealed frame.
--
-- postcard and the cipher are parameters: `Postcard` and `Sealing`.
pub mod Sealed
use trackone.Prelude.{
  ℕ, ◌+◌, Bool, true, false, not, Option, none, some, List, ◌++◌, length, ltb, ◌==◌, if◌then◌else◌,
}
use trackone.Prelude.Text.{bytes_eq}
use trackone.Prelude.Integers.{pos}
use trackone.Prelude.Outcome.{Outcome, done, failed, ◌>>=◌, ◌>>◌, map_err}
use trackone.Core.Types.{
  PodId, FrameCounter, Fact, FactKind, FactPayload, env, custom, env_kind, custom_kind, FloatTests,
  CoreError, crypto_error, serialize_error, deserialize_error, core_ciphertext_too_large,
  core_invalid_fact, validate_fact,
}
use trackone.Ingest.Aad.{framed_aad_for_pod, validate_fact_binding}

abbrev pub max_frame_ciphertext_bytes : ℕ
max_frame_ciphertext_bytes = 256

abbrev pub max_fact_len : ℕ
max_fact_len = 256

abbrev pub aead_tag_len : ℕ
aead_tag_len = 16

pub record EncryptedFrame : Type 0 where
  pub sealed_pod_id : PodId
  pub sealed_fc : FrameCounter
  pub sealed_nonce : List ℕ
  pub ciphertext : List ℕ

pub record FrameHeader : Type 0 where
  pub dev_id : ℕ
  pub msg_type : ℕ
  pub header_fc : ℕ
  pub flags : ℕ

pub record FrameInput : Type 0 where
  pub header : FrameHeader
  pub nonce : List ℕ
  pub ct : List ℕ
  pub tag : List ℕ

pub record DeviceMaterial : Type 0 where
  pub expected_pod_id : PodId
  pub salt8 : List ℕ
  pub ck_up : List ℕ

pub record AcceptedFrame (F : Type 0) : Type 0 where
  pub accepted_header : FrameHeader
  pub accepted_fact : Fact F

-- `postcard::to_slice` into a buffer of a length, and `postcard::from_bytes`.
pub record Postcard (F : Type 0) : Type 0 where
  pub to_slice : Fact F → ℕ → Option (List ℕ)
  pub from_bytes : List ℕ → Option (Fact F)

-- `AeadEncrypt::encrypt` and `AeadDecrypt::decrypt` of nonce, associated data and text into a
-- buffer of a length: the bytes that they write.
pub record Sealing : Type 0 where
  pub encrypt_into : List ℕ → List ℕ → List ℕ → ℕ → Option (List ℕ)
  pub decrypt_into : List ℕ → List ℕ → List ℕ → ℕ → Option (List ℕ)

-- `map_err(|_| e)`.
abbrev pub or_failed {ℓ} : {A : Type ℓ} → Option A → CoreError → Outcome CoreError A
or_failed none e = failed e
or_failed (some a) e = done a

kind_of : {F : Type 0} → FactPayload F → FactKind
kind_of (env e) = env_kind
kind_of (custom bytes) = custom_kind

module _ {F : Type 0} (floats : FloatTests F) (postcard : Postcard F) where
  unfoldable pub encode_fact_postcard : Fact F → ℕ → Outcome CoreError (List ℕ)
  encode_fact_postcard fact capacity =
      map_err core_invalid_fact (validate_fact floats fact)
      >> or_failed (postcard.to_slice fact capacity) serialize_error

  -- The scratch buffer's used part.
  unfoldable pub encode_fact_postcard_buf : Fact F → Outcome CoreError (List ℕ)
  unfolding encode_fact_postcard
  encode_fact_postcard_buf fact = encode_fact_postcard fact max_fact_len

  unfoldable pub decode_fact_postcard : List ℕ → Outcome CoreError (Fact F)
  decode_fact_postcard bytes = or_failed (postcard.from_bytes bytes) deserialize_error >>= λ fact.
      map_err core_invalid_fact (validate_fact floats fact) >> done fact

  unfoldable pub make_fact : PodId → FrameCounter → FactPayload F → Outcome CoreError (Fact F)
  unfolding kind_of
  make_fact pod_id fc payload =
      let fact : Fact F = record {
        pod_id = pod_id;
        fc = fc;
        ingest_time = pos 0;
        pod_time = none;
        kind = kind_of payload;
        payload = payload;
      } in
      map_err core_invalid_fact (validate_fact floats fact) >> done fact

  module _ (cipher : Sealing) where
    -- The sealed frame around bytes that fit a buffer of `n`.
    seal : ℕ → List ℕ → Fact F → List ℕ → Outcome CoreError EncryptedFrame
    seal n nonce fact used =
        if ltb n (length used + aead_tag_len)
        then failed core_ciphertext_too_large
        else or_failed (cipher.encrypt_into nonce (framed_aad_for_pod fact.pod_id 1 0) used n)
            crypto_error
          >>= λ sealed. done (record {
            sealed_pod_id = fact.pod_id;
            sealed_fc = fact.fc;
            sealed_nonce = nonce;
            ciphertext = sealed;
          })

    -- `encrypt_fact::<N, C>`.
    unfoldable pub encrypt_fact : ℕ → List ℕ → Fact F → Outcome CoreError EncryptedFrame
    unfolding seal
    encrypt_fact n nonce fact =
        encode_fact_postcard fact max_fact_len >>= λ used. seal n nonce fact used

    open_sealed : EncryptedFrame → PodId → List ℕ → Outcome CoreError (Fact F)
    open_sealed frame expected_pod_id plaintext = decode_fact_postcard plaintext >>= λ fact.
        map_err (λ e. crypto_error) (validate_fact_binding fact expected_pod_id frame.sealed_fc)
        >> done fact

    unfoldable pub decrypt_fact : EncryptedFrame → PodId → Outcome CoreError (Fact F)
    unfolding open_sealed
    decrypt_fact frame expected_pod_id =
        if not (bytes_eq frame.sealed_pod_id expected_pod_id)
        then failed crypto_error
        else if ltb max_fact_len (length frame.ciphertext)
        then failed deserialize_error
        else or_failed
            (cipher.decrypt_into frame.sealed_nonce (framed_aad_for_pod frame.sealed_pod_id 1 0)
              frame.ciphertext max_fact_len)
            crypto_error
          >>= open_sealed frame expected_pod_id
