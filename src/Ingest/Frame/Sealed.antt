-- ===== src/Ingest/Frame/Sealed.antt =====
-- crates/trackone-ingest/src/frame.rs: sealing a fact and opening the frame.
use trackone.Prelude.{
  ℕ, ◌+◌, ◌≤◌, ◌≡◌, refl, ap, false, Option, none, some, List, length, ==_refl, ltb, Bool-cases,
  inl, inr, arith,
}
use mathlib.Core.Path.{subst}
use trackone.Prelude.Text.{bytes_eq_refl}
use trackone.Prelude.Outcome.{done, >>=-eq-done, done-injective}
use trackone.Core.Types.{Fact, FloatTests, validate_fact, CoreError}
use trackone.Ingest.Aad.{framed_aad_for_pod, validate_fact_binding}
use trackone.Ingest.Frame.{
  EncryptedFrame, Postcard, Sealing, or_failed, encode_fact_postcard, decode_fact_postcard,
  encrypt_fact, decrypt_fact, seal, open_sealed,
}

or_failed-eq-done :
    {A : Type 0} (o : Option A) (e : CoreError) {a : A} → or_failed o e ≡ done a → o ≡ some a
or_failed-eq-done none e h = cc
or_failed-eq-done (some x) e h = cc

module _ {F : Type 0} (floats : FloatTests F) (postcard : Postcard F) (cipher : Sealing) where
  -- What is known of a frame that `seal` gives.
  seal-eq-done :
      (n : ℕ) (nonce : List ℕ) (fact : Fact F) (used : List ℕ) (frame : EncryptedFrame)
      → seal floats postcard cipher n nonce fact used ≡ done frame
      → (sealed : List ℕ) × (cipher.encrypt_into nonce (framed_aad_for_pod fact.pod_id 1 0) used n
          ≡ some sealed)
        × (record {
          sealed_pod_id = fact.pod_id;
          sealed_fc = fact.fc;
          sealed_nonce = nonce;
          ciphertext = sealed;
        }
            ≡ frame)
  unfolding seal
  seal-eq-done n nonce fact used frame h = elim (Bool-cases (ltb n (length used + 16))) [
    | inl long ↦ absurd (cc (rw long at h))
    | inr fits ↦
        let (sealed, written, e) =
          >>=-eq-done
            (or_failed (cipher.encrypt_into nonce (framed_aad_for_pod fact.pod_id 1 0) used n) _) _
            (rw fits at h) in
        (sealed, or_failed-eq-done _ _ written, done-injective e)
  ]

  -- A fact that is sealed for a frame is what its device's gateway opens, where postcard reads
  -- back what it writes of that fact, the cipher opens into 256 bytes what it seals in at most 256
  -- bytes, and the frame's text has at most 256 bytes.
  pub decrypt_fact-encrypt_fact :
      (n : ℕ) (nonce : List ℕ) (fact : Fact F) (frame : EncryptedFrame)
      → ((bytes : List ℕ)
          → postcard.to_slice fact 256 ≡ some bytes
          → postcard.from_bytes bytes ≡ some fact)
      → ((nonce aad text sealed : List ℕ) (m : ℕ)
          → cipher.encrypt_into nonce aad text m ≡ some sealed
          → length sealed ≤ 256
          → cipher.decrypt_into nonce aad sealed 256 ≡ some text)
      → length frame.ciphertext ≤ 256
      → encrypt_fact floats postcard cipher n nonce fact ≡ done frame
      → decrypt_fact floats postcard cipher frame fact.pod_id ≡ done fact
  unfolding encrypt_fact decrypt_fact open_sealed encode_fact_postcard decode_fact_postcard
      validate_fact_binding
  decrypt_fact-encrypt_fact n nonce fact frame reads opens small h =
      let (used, encoded, h1) = >>=-eq-done (encode_fact_postcard floats postcard fact 256) _ h in
      let (sealed, written, same) = seal-eq-done n nonce fact used frame h1 in
      let codec : (validate_fact floats fact ≡ done tt) × (postcard.to_slice fact 256 ≡ some used) =
        ground (arith, encoded) in
      let fits : length sealed ≤ 256 =
        omega (arith, small, ap (λ (f : EncryptedFrame). length f.ciphertext) same) in
      let short : ltb 256 (length sealed) ≡ false =
        ground (arith, ap (λ (f : EncryptedFrame). length f.ciphertext) same) in
      subst (λ f. decrypt_fact floats postcard cipher f fact.pod_id ≡ done fact) same
        (rw
          (
            bytes_eq_refl fact.pod_id,
            short,
            opens nonce (framed_aad_for_pod fact.pod_id 1 0) used sealed n written fits,
            reads used codec.1,
            codec.0,
            bytes_eq_refl fact.pod_id,
            ==_refl fact.fc,
          )
          refl)

  -- The header of a sealed frame.
  pub encrypt_fact-eq-done :
      (n : ℕ) (nonce : List ℕ) (fact : Fact F) (frame : EncryptedFrame)
      → encrypt_fact floats postcard cipher n nonce fact ≡ done frame
      → (frame.sealed_fc ≡ fact.fc) × (frame.sealed_nonce ≡ nonce)
  unfolding encrypt_fact
  encrypt_fact-eq-done n nonce fact frame h =
      let (used, _, h1) = >>=-eq-done (encode_fact_postcard floats postcard fact 256) _ h in
      let (sealed, _, same) = seal-eq-done n nonce fact used frame h1 in
      subst (λ (f : EncryptedFrame). (f.sealed_fc ≡ fact.fc) × (f.sealed_nonce ≡ nonce)) same
        (refl, refl)
