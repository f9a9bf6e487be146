-- ===== src/Ingest/Fixture/Admitted.antt =====
-- crates/trackone-ingest/src/fixture.rs: an emitted frame at the gateway.
use trackone.Prelude.{
  ℕ, ◌+◌, ◌-◌, ◌≤◌, ◌<◌, ◌^◌, ◌≡◌, refl, sym, ap, Bool, true, false, Option, none, some, List,
  length, ==→eq, length-take, length-drop, take-append-drop, arith,
}
use mathlib.Core.Path.{subst}
use trackone.Prelude.Bytes.{length-to_be_bytes}
use trackone.Prelude.Integers.{ℤ}
use trackone.Prelude.Outcome.{
  Outcome, done, ◌>>◌, map_err, >>=-eq-done, map_err-eq-done, done-injective,
}
use trackone.Core.Types.{Fact, FloatTests, validate_fact, ambient_air_temperature, instant_fact}
use trackone.Core.Types.Facts.{instant-eq-done}
use trackone.Ingest.RejectReason.{accept}
use trackone.Ingest.Nonce.{framed_nonce}
use trackone.Ingest.Nonce.Prefix.{validate_nonce_prefix-framed_nonce}
use trackone.Ingest.Aad.{legacy_dev_id_from_pod_id, framed_aad}
use trackone.Ingest.Frame.{FrameInput, DeviceMaterial, Postcard, encode_fact_postcard}
use trackone.Ingest.Admission.{Aead, validate_and_decrypt}
use trackone.Ingest.Admission.Accepted.{IsFramed, Carries, validate_and_decrypt_complete}
use trackone.Ingest.Fixture.{
  FixtureError, FramedFixture, ensure, or_error, check_request, observed_at, tail_bytes,
  fixture_fact, fixture_reading, split_tag, emit_fixture,
}

-- The emitted material as a gateway receives it.
abbrev pub received : FramedFixture → FrameInput
received x = record {
  header = record { dev_id = x.dev_id; msg_type = x.msg_type; header_fc = x.fc; flags = x.flags };
  nonce = x.nonce;
  ct = x.ct;
  tag = x.tag;
}

-- postcard reads back what it writes of a fact, and writes at least one byte and no more than fit.
pub record IsCodec {F : Type 0} (postcard : Postcard F) (fact : Fact F) : Type 0 where
  pub reads_back :
      (n : ℕ) (bytes : List ℕ)
      → postcard.to_slice fact n ≡ some bytes
      → postcard.from_bytes bytes ≡ some fact
  pub fits :
      (n : ℕ) (bytes : List ℕ)
      → postcard.to_slice fact n ≡ some bytes
      → (0 < length bytes) × (length bytes ≤ n)

-- The cipher opens what it seals, and adds a tag of 16 bytes.
pub record IsCipher {C : Type 0} (aead : Aead C) : Type 0 where
  pub opens :
      (c : C) (nonce aad message sealed : List ℕ)
      → aead.encrypt c nonce aad message ≡ some sealed
      → aead.decrypt c nonce aad sealed ≡ some message
  pub tagged :
      (c : C) (nonce aad message sealed : List ℕ)
      → aead.encrypt c nonce aad message ≡ some sealed
      → length sealed ≡ length message + 16

ensure-eq-done :
    {B : Type 0} (t : Bool) (e : FixtureError) (k : Outcome FixtureError B) {b : B}
    → (ensure t e >> k) ≡ done b
    → (t ≡ true) × (k ≡ done b)
ensure-eq-done true e k h = (refl, h)
ensure-eq-done false e k h = cc

or_error-eq-done :
    {A : Type 0} (o : Option A) (e : FixtureError) {a : A} → or_error o e ≡ done a → o ≡ some a
or_error-eq-done none e h = cc
or_error-eq-done (some x) e h = cc

-- What a request that is not refused satisfies.
pub record IsRequest (dev_id : ℕ) (device : DeviceMaterial) (msg_type flags : ℕ) : Type 0 where
  pub salt_size : length device.salt8 ≡ 8
  pub key_size : length device.ck_up ≡ 32
  pub no_flags : flags ≡ 0
  pub fact_message : msg_type ≡ 1
  pub routed : legacy_dev_id_from_pod_id device.expected_pod_id ≡ dev_id

check_request-IsRequest :
    (dev_id : ℕ) (device : DeviceMaterial) (msg_type flags : ℕ)
    → check_request dev_id device msg_type flags ≡ done tt
    → IsRequest dev_id device msg_type flags
unfolding check_request
check_request-IsRequest dev_id device msg_type flags h = record {
  salt_size = ==→eq (length device.salt8) 8 (ground arith);
  key_size = ==→eq (length device.ck_up) 32 (ground arith);
  no_flags = ==→eq flags 0 (ground arith);
  fact_message = ==→eq msg_type 1 (ground arith);
  routed = ==→eq (legacy_dev_id_from_pod_id device.expected_pod_id) dev_id (ground arith);
}

module _ {F : Type 0} {C : Type 0} (floats : FloatTests F) (postcard : Postcard F) (twenty : F)
    (aead : Aead C) where
  encode-eq-done :
      (fact : Fact F) (n : ℕ) (bytes : List ℕ)
      → encode_fact_postcard floats postcard fact n ≡ done bytes
      → (validate_fact floats fact ≡ done tt) × (postcard.to_slice fact n ≡ some bytes)
  unfolding encode_fact_postcard
  encode-eq-done fact n bytes h = ground (arith, h)

  -- The reading of 20 degrees at the time of the fixture.
  abbrev pub emitted_fact : DeviceMaterial → ℕ → Option ℤ → Fact F
  emitted_fact device fc t =
      fixture_fact floats postcard twenty device fc (observed_at t fc)
        (instant_fact floats ambient_air_temperature (observed_at t fc) twenty)

  -- What an emitted fixture was made of.
  record IsEmission (dev_id fc : ℕ) (device : DeviceMaterial) (msg_type flags : ℕ) (t : Option ℤ)
      (x : FramedFixture) : Type 0 where
    request : IsRequest dev_id device msg_type flags
    cipher : C
    used : List ℕ
    combined : List ℕ
    valid : validate_fact floats (emitted_fact device fc t) ≡ done tt
    written : postcard.to_slice (emitted_fact device fc t) 256 ≡ some used
    keyed : aead.new_from_slice device.ck_up ≡ some cipher
    sealed :
        aead.encrypt cipher
          (framed_nonce device.salt8 fc (tail_bytes dev_id fc))
          (framed_aad dev_id msg_type flags)
          used
        ≡ some combined
    emitted :
        split_tag floats postcard twenty dev_id msg_type fc flags
          (framed_nonce device.salt8 fc (tail_bytes dev_id fc))
          combined
        ≡ x

  emit_fixture-IsEmission :
      (dev_id fc : ℕ) (device : DeviceMaterial) (msg_type flags : ℕ) (t : Option ℤ)
      (x : FramedFixture)
      → emit_fixture floats postcard twenty aead dev_id fc device msg_type flags t ≡ done x
      → IsEmission dev_id fc device msg_type flags t x
  unfolding emit_fixture
  emit_fixture-IsEmission dev_id fc device msg_type flags t x h =
      let (_, requested, h1) = >>=-eq-done (check_request dev_id device msg_type flags) _ h in
      let (reading, read, h2) =
        >>=-eq-done (fixture_reading floats postcard twenty (observed_at t fc)) _ h1 in
      let (used, encoded, h3) =
        >>=-eq-done (map_err _ (encode_fact_postcard floats postcard _ 256)) _ h2 in
      let (cipher, keyed, h4) = >>=-eq-done (or_error (aead.new_from_slice device.ck_up) _) _ h3 in
      let (combined, sealed, h5) = >>=-eq-done (or_error (aead.encrypt cipher _ _ used) _) _ h4 in
      let fact : Fact F =
        fixture_fact floats postcard twenty device fc (observed_at t fc) reading in
      let shape : emitted_fact device fc t ≡ fact =
        ap (fixture_fact floats postcard twenty device fc (observed_at t fc)) (
          instant-eq-done floats ambient_air_temperature (observed_at t fc) twenty reading
            (map_err-eq-done _ _ read)) in
      let codec : (validate_fact floats fact ≡ done tt) × (postcard.to_slice fact 256 ≡ some used) =
        encode-eq-done fact 256 used (map_err-eq-done _ _ encoded) in
      record {
        request = check_request-IsRequest dev_id device msg_type flags requested;
        cipher = cipher;
        used = used;
        combined = combined;
        valid = subst (λ f. validate_fact floats f ≡ done tt) (sym shape) codec.0;
        written = subst (λ f. postcard.to_slice f 256 ≡ some used) (sym shape) codec.1;
        keyed = or_error-eq-done _ _ keyed;
        sealed = or_error-eq-done _ _ sealed;
        emitted = done-injective h5;
      }

  -- A fixture that is emitted for a counter of 32 bits is accepted by the gateway for the same
  -- device, with the fact that was emitted, where postcard reads that fact back and the cipher opens
  -- what it seals.
  pub emit_fixture-accepted :
      (dev_id fc : ℕ) (device : DeviceMaterial) (msg_type flags : ℕ) (t : Option ℤ)
      (x : FramedFixture)
      → IsCodec postcard (emitted_fact device fc t)
      → IsCipher aead
      → fc < 2 ^ 32
      → emit_fixture floats postcard twenty aead dev_id fc device msg_type flags t ≡ done x
      → validate_and_decrypt floats postcard aead (received x) device
        ≡ accept (record {
          accepted_header = (received x).header;
          accepted_fact = emitted_fact device fc t;
        })
  emit_fixture-accepted dev_id fc device msg_type flags t x codec cipher small h =
      let e : IsEmission dev_id fc device msg_type flags t x =
        emit_fixture-IsEmission dev_id fc device msg_type flags t x h in
      let fact : Fact F = emitted_fact device fc t in
      let nonce : List ℕ = framed_nonce device.salt8 fc (tail_bytes dev_id fc) in
      let y : FramedFixture =
        split_tag floats postcard twenty dev_id msg_type fc flags nonce e.combined in
      let cut : ℕ = length e.combined - 16 in
      let size : length e.combined ≡ length e.used + 16 = cipher.tagged _ _ _ _ _ e.sealed in
      let room : (0 < length e.used) × (length e.used ≤ 256) = codec.fits 256 e.used e.written in
      let framed : IsFramed (received y) device = record {
        tag_size = omega (arith, length-drop cut e.combined, size);
        key_size = e.request.key_size;
        some_text = omega (arith, length-take cut e.combined, size, room.0);
        bounded_text = omega (arith, length-take cut e.combined, size, room.1);
        no_flags = e.request.no_flags;
        fact_message = e.request.fact_message;
        routed = e.request.routed;
        fresh_nonce =
            validate_nonce_prefix-framed_nonce device.salt8 fc (tail_bytes dev_id fc)
              e.request.salt_size (length-to_be_bytes 8 _) small;
      } in
      let carries : Carries floats postcard aead (received y) device fact = record {
        cipher = e.cipher;
        plaintext = e.used;
        keyed = e.keyed;
        opened =
            subst
              (λ c. aead.decrypt e.cipher nonce (framed_aad dev_id msg_type flags) c ≡ some e.used)
              (sym (take-append-drop cut e.combined)) (cipher.opens _ _ _ _ _ e.sealed);
        decoded = codec.reads_back 256 e.used e.written;
        valid = e.valid;
        owned = refl;
        counted = refl;
      } in
      subst
        (λ z.
          validate_and_decrypt floats postcard aead (received z) device
          ≡ accept (record { accepted_header = (received z).header; accepted_fact = fact }))
        e.emitted
        (validate_and_decrypt_complete floats postcard aead (received y) device fact framed carries)
