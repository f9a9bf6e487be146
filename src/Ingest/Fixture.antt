-- ===== src/Ingest/Fixture.antt =====
-- crates/trackone-ingest/src/fixture.rs: the frame that a device would send, for a fixed reading.
pub mod Admitted
use trackone.Prelude.{
  ℕ, ◌+◌, ◌-◌, ◌*◌, ◌%◌, ◌^◌, Bool, true, false, not, Option, none, some, List, [], length, take,
  drop, ◌==◌, if◌then◌else◌,
}
use trackone.Prelude.Bytes.{to_be_bytes}
use trackone.Prelude.Integers.{ℤ, pos}
use trackone.Prelude.Outcome.{Outcome, done, failed, ◌>>=◌, ◌>>◌, map_err}
use trackone.Core.Types.{
  Fact, EnvFact, FloatTests, CoreError, FactValidationError, env, env_kind, ambient_air_temperature,
  instant,
}
use trackone.Ingest.RejectReason.{
  RejectReason, salt8_length, ck_up_length, unsupported_flags, unsupported_message_type,
  header_device_id_mismatch, invalid_fact,
}
use trackone.Ingest.Nonce.{framed_nonce}
use trackone.Ingest.Aad.{legacy_dev_id_from_pod_id, framed_aad}
use trackone.Ingest.Frame.{
  DeviceMaterial, Postcard, max_fact_len, aead_tag_len, encode_fact_postcard,
}
use trackone.Ingest.Admission.{Aead, framed_fact_msg_type}

pub data FixtureError : Type 0 where
  refused : RejectReason → FixtureError
  encode_failed encrypt_failed : FixtureError

pub record FramedFixture : Type 0 where
  pub dev_id : ℕ
  pub msg_type : ℕ
  pub fc : ℕ
  pub flags : ℕ
  pub nonce : List ℕ
  pub ct : List ℕ
  pub tag : List ℕ

-- `if !test { return Err(e) }`, and `map_err(|_| e)` of an option.
abbrev pub ensure : Bool → FixtureError → Outcome FixtureError (Unit {0})
ensure true e = done tt
ensure false e = failed e

abbrev pub or_error {ℓ} : {A : Type ℓ} → Option A → FixtureError → Outcome FixtureError A
or_error none e = failed e
or_error (some a) e = done a

unfoldable pub check_request : ℕ → DeviceMaterial → ℕ → ℕ → Outcome FixtureError (Unit {0})
check_request dev_id device msg_type flags = do
  ensure (length device.salt8 == 8) (refused salt8_length)
  ensure (length device.ck_up == 32) (refused ck_up_length)
  ensure (flags == 0) (refused unsupported_flags)
  ensure (msg_type == framed_fact_msg_type) (refused unsupported_message_type)
  ensure (legacy_dev_id_from_pod_id device.expected_pod_id == dev_id)
      (refused header_device_id_mismatch)

-- `pod_time.unwrap_or(1_700_000_000 + i64::from(fc))`.
abbrev pub observed_at : Option ℤ → ℕ → ℤ
observed_at none fc = pos (1700000000 + fc)
observed_at (some t) fc = t

-- `((u64::from(dev_id) << 48) | u64::from(fc)).to_be_bytes()`: a counter of 32 bits leaves the bits
-- of the identifier free, so that the disjunction is the sum.
abbrev pub tail_bytes : ℕ → ℕ → List ℕ
tail_bytes dev_id fc = to_be_bytes 8 (dev_id * 2 ^ 48 % 2 ^ 64 + fc)

module _ {F : Type 0} (floats : FloatTests F) (postcard : Postcard F) (twenty : F) where
  abbrev pub fixture_fact : DeviceMaterial → ℕ → ℤ → EnvFact F → Fact F
  fixture_fact device fc observed reading = record {
    pod_id = device.expected_pod_id;
    fc = fc;
    ingest_time = pos 0;
    pod_time = some observed;
    kind = env_kind;
    payload = env reading;
  }

  abbrev pub fixture_reading : ℤ → Outcome FixtureError (EnvFact F)
  fixture_reading observed =
      map_err (λ e. refused invalid_fact) (instant floats ambient_air_temperature observed twenty)

  -- `split_at(combined.len().saturating_sub(AEAD_TAG_LEN))`.
  abbrev pub split_tag : ℕ → ℕ → ℕ → ℕ → List ℕ → List ℕ → FramedFixture
  split_tag dev_id msg_type fc flags nonce combined = record {
    dev_id = dev_id;
    msg_type = msg_type;
    fc = fc;
    flags = flags;
    nonce = nonce;
    ct = take (length combined - aead_tag_len) combined;
    tag = drop (length combined - aead_tag_len) combined;
  }

  module _ {C : Type 0} (aead : Aead C) where
    unfoldable pub emit_fixture :
        ℕ → ℕ → DeviceMaterial → ℕ → ℕ → Option ℤ → Outcome FixtureError FramedFixture
    emit_fixture dev_id fc device msg_type flags pod_time = do
      check_request dev_id device msg_type flags
      reading ← fixture_reading (observed_at pod_time fc)
      used ←
          map_err (λ e. encode_failed)
            (encode_fact_postcard floats postcard
              (fixture_fact device fc (observed_at pod_time fc) reading) max_fact_len)
      let nonce : List ℕ = framed_nonce device.salt8 fc (tail_bytes dev_id fc)
      cipher ← or_error (aead.new_from_slice device.ck_up) (refused ck_up_length)
      combined ←
          or_error (aead.encrypt cipher nonce (framed_aad dev_id msg_type flags) used)
            encrypt_failed
      done (split_tag dev_id msg_type fc flags nonce combined)
