-- ===== src/Ingest/Admission/Refused.antt =====
-- crates/trackone-ingest/src/admission.rs: why `validate_and_decrypt` refuses a frame.
use trackone.Prelude.{
  ℕ, ◌<◌, ◌≡◌, ◌≢◌, ◌⊎◌, refl, sym, ap, ◌∙◌, inl, inr, Bool, true, false, not, Option, none, some,
  List, ◌++◌, length, take, drop, ◌==◌, leb, arith, Option-cases,
}
use mathlib.Core.Path.{subst}
use trackone.Prelude.Text.{bytes_eq, bytes_eq_refl}
use trackone.Prelude.Bytes.{from_be_bytes}
use trackone.Prelude.Outcome.{Outcome, done, failed, Outcome-cases}
use trackone.Core.Types.{Fact, FloatTests, validate_fact, CoreError}
use trackone.Ingest.RejectReason.{
  RejectReason, Admission, accept, reject, ◌>>=◌, ◌>>◌, demand, or_reject, reject_by, tag_length,
  ck_up_length, empty_ciphertext, ciphertext_too_large, unsupported_flags, unsupported_message_type,
  header_device_id_mismatch, nonce_length, salt8_length, nonce_salt_mismatch, nonce_fc_mismatch,
  decrypt_failed, invalid_fact, payload_device_id_mismatch, payload_fc_mismatch,
}
use trackone.Ingest.Nonce.{
  FramedNonceError, wrong_nonce_length, wrong_salt8_length, salt_mismatch, counter_mismatch,
  validate_nonce_prefix,
}
use trackone.Ingest.Aad.{
  FramedFactBindingError, pod_id_mismatch, frame_counter_mismatch, legacy_dev_id_from_pod_id,
  framed_aad, validate_fact_binding,
}
use trackone.Ingest.Frame.{FrameInput, DeviceMaterial, Postcard, decode_fact_postcard}
use trackone.Ingest.Admission.{
  Aead, check_frame, validate_and_decrypt, map_framed_nonce_error, map_decode_error,
  map_binding_error, nonce_array,
}
use trackone.Ingest.Admission.Accepted.{nonce_array-eq-some, decode-eq-done}

failed-injective {ℓ κ} :
    {E : Type ℓ} {A : Type κ} {a b : E} → ◌≡◌ {A = Outcome E A} (failed a) (failed b) → a ≡ b
failed-injective h = cc

some-injective {ℓ} : {A : Type ℓ} {a b : A} → some a ≡ some b → a ≡ b
some-injective h = cc

reject-injective {ℓ} :
    {A : Type ℓ} {a b : RejectReason} → ◌≡◌ {A = Admission A} (reject a) (reject b) → a ≡ b
reject-injective h = cc

Admission-cases {ℓ} :
    {A : Type ℓ} (m : Admission A)
    → ((a : A) × (m ≡ accept a)) ⊎ ((r : RejectReason) × (m ≡ reject r))
Admission-cases (accept a) = inl (a, refl)
Admission-cases (reject r) = inr (r, refl)

-- The three kinds of a step, in a chain that ends in a refusal: the step refuses, or what follows.
guard_refused {ℓ} :
    {B : Type ℓ} (P : RejectReason → Type 0) (t : Bool) (s r : RejectReason) (k : Admission B)
    → (t ≡ false → P s)
    → (k ≡ reject r → P r)
    → (demand t s >> k) ≡ reject r
    → P r
guard_refused P true s r k bad next h = next h
guard_refused P false s r k bad next h = subst P (cc h) (bad refl)

lookup_refused {ℓ κ} :
    {A : Type ℓ} {B : Type κ} (P : RejectReason → Type 0) (o : Option A) (s r : RejectReason)
    (f : A → Admission B)
    → (o ≡ none → P s)
    → ((a : A) → o ≡ some a → f a ≡ reject r → P r)
    → (or_reject o s >>= f) ≡ reject r
    → P r
lookup_refused P none s r f bad next h = subst P (cc h) (bad refl)
lookup_refused P (some a) s r f bad next h = next a refl h

result_refused {ℓ κ ι} :
    {E : Type ℓ} {A : Type κ} {B : Type ι} (P : RejectReason → Type 0) (g : E → RejectReason)
    (o : Outcome E A) (r : RejectReason) (f : A → Admission B)
    → ((e : E) → o ≡ failed e → P (g e))
    → ((a : A) → o ≡ done a → f a ≡ reject r → P r)
    → (reject_by g o >>= f) ≡ reject r
    → P r
result_refused P g (done a) r f bad next h = next a refl h
result_refused P g (failed e) r f bad next h = subst P (cc h) (bad e refl)

last_refused {ℓ κ} :
    {E : Type ℓ} {A : Type κ} (P : RejectReason → Type 0) (g : E → RejectReason) (o : Outcome E A)
    (r : RejectReason)
    → ((e : E) → o ≡ failed e → P (g e))
    → reject_by g o ≡ reject r
    → P r
last_refused P g (done a) r bad h = absurd (cc h)
last_refused P g (failed e) r bad h = subst P (cc h) (bad e refl)

module _ {F : Type 0} {C : Type 0} (floats : FloatTests F) (postcard : Postcard F) (aead : Aead C)
    (frame : FrameInput) (device : DeviceMaterial) where
  -- The device's key opens the frame to bytes that postcard reads as a fact.
  pub record Opens (fact : Fact F) : Type 0 where
    cipher : C
    plaintext : List ℕ
    keyed : aead.new_from_slice device.ck_up ≡ some cipher
    opened :
        aead.decrypt cipher frame.nonce
          (framed_aad frame.header.dev_id frame.header.msg_type frame.header.flags)
          (frame.ct ++ frame.tag)
        ≡ some plaintext
    decoded : postcard.from_bytes plaintext ≡ some fact

  -- What is wrong with a frame, by the reason that is given for its refusal.
  abbrev pub IsDefect : RejectReason → Type 0
  IsDefect tag_length = length frame.tag ≢ 16
  IsDefect ck_up_length = (length device.ck_up ≢ 32) ⊎ (aead.new_from_slice device.ck_up ≡ none)
  IsDefect empty_ciphertext = length frame.ct ≡ 0
  IsDefect ciphertext_too_large = 256 < length frame.ct
  IsDefect unsupported_flags = frame.header.flags ≢ 0
  IsDefect unsupported_message_type = frame.header.msg_type ≢ 1
  IsDefect header_device_id_mismatch =
      legacy_dev_id_from_pod_id device.expected_pod_id ≢ frame.header.dev_id
  IsDefect nonce_length = length frame.nonce ≢ 24
  IsDefect salt8_length = length device.salt8 ≢ 8
  IsDefect nonce_salt_mismatch = take 8 frame.nonce ≢ device.salt8
  IsDefect nonce_fc_mismatch = from_be_bytes (take 8 (drop 8 frame.nonce)) ≢ frame.header.header_fc
  IsDefect decrypt_failed = (fact : Fact F) → ¬ Opens fact
  IsDefect invalid_fact = (fact : Fact F) × Opens fact × (validate_fact floats fact ≢ done tt)
  IsDefect payload_device_id_mismatch =
      (fact : Fact F) × Opens fact × (fact.pod_id ≢ device.expected_pod_id)
  IsDefect payload_fc_mismatch = (fact : Fact F) × Opens fact × (fact.fc ≢ frame.header.header_fc)
  IsDefect _ = ⊥

  nonce-IsDefect :
      (e : FramedNonceError)
      → validate_nonce_prefix frame.nonce device.salt8 frame.header.header_fc ≡ failed e
      → IsDefect (map_framed_nonce_error e)
  unfolding validate_nonce_prefix map_framed_nonce_error
  nonce-IsDefect wrong_nonce_length h = λ e. ground (arith, h)
  nonce-IsDefect wrong_salt8_length h = λ e. ground (arith, h)
  nonce-IsDefect salt_mismatch h = λ e.
      let same : bytes_eq (take 8 frame.nonce) device.salt8 ≡ true =
        ap (λ b. bytes_eq b device.salt8) e ∙ bytes_eq_refl device.salt8 in
      ground (arith, h)
  nonce-IsDefect counter_mismatch h = λ e. ground (arith, h)

  check_frame_refused : (r : RejectReason) → check_frame frame device ≡ reject r → IsDefect r
  unfolding check_frame
  check_frame_refused r h =
      guard_refused IsDefect (length frame.tag == 16) _ r _ (λ h e. ground arith)
        (guard_refused IsDefect (length device.ck_up == 32) _ r _ (λ h. inl λ e. ground arith)
          (guard_refused IsDefect (not (length frame.ct == 0)) _ r _ (λ h. ground arith)
            (guard_refused IsDefect (leb (length frame.ct) 256) _ r _ (λ h. ground arith)
              (guard_refused IsDefect (frame.header.flags == 0) _ r _ (λ h e. ground arith)
                (guard_refused IsDefect (frame.header.msg_type == 1) _ r _ (λ h e. ground arith)
                  (guard_refused IsDefect
                    (legacy_dev_id_from_pod_id device.expected_pod_id == frame.header.dev_id) _ r _
                    (λ h e. ground arith)
                    (last_refused IsDefect map_framed_nonce_error
                      (validate_nonce_prefix frame.nonce device.salt8 frame.header.header_fc) r
                      nonce-IsDefect)))))))
        h

  decode-IsDefect :
      (cipher : C) (plaintext : List ℕ)
      → aead.new_from_slice device.ck_up ≡ some cipher
      → aead.decrypt cipher frame.nonce
          (framed_aad frame.header.dev_id frame.header.msg_type frame.header.flags)
          (frame.ct ++ frame.tag)
        ≡ some plaintext
      → (e : CoreError) → decode_fact_postcard floats postcard plaintext ≡ failed e
      → IsDefect (map_decode_error e)
  unfolding decode_fact_postcard map_decode_error
  decode-IsDefect cipher plaintext keyed opened e h =
      elim (Option-cases (postcard.from_bytes plaintext)) [
        | inl garbled ↦
            subst (λ (x : CoreError). IsDefect (map_decode_error x))
              (failed-injective (rw (garbled, decode_fact_postcard) at h))
              (λ fact o.
                let same_cipher : o.cipher ≡ cipher = some-injective (sym o.keyed ∙ keyed) in
                let same : o.plaintext ≡ plaintext = some-injective (
                  sym o.opened
                  ∙ ap
                      (λ (c : C).
                        aead.decrypt c frame.nonce
                          (framed_aad frame.header.dev_id frame.header.msg_type frame.header.flags)
                          (frame.ct ++ frame.tag))
                      same_cipher
                  ∙ opened) in
                absurd (cc (sym o.decoded ∙ ap postcard.from_bytes same ∙ garbled)))
        | inr (fact, read) ↦ elim (Outcome-cases (validate_fact floats fact)) [
          | inl (u, valid) ↦ absurd (cc (rw (read, valid, decode_fact_postcard) at h))
          | inr (bad, invalid) ↦
              subst (λ (x : CoreError). IsDefect (map_decode_error x))
                (failed-injective (rw (read, invalid, decode_fact_postcard) at h))
                (
                  fact,
                  record {
                    cipher = cipher;
                    plaintext = plaintext;
                    keyed = keyed;
                    opened = opened;
                    decoded = read;
                  },
                  λ valid. absurd (cc (sym invalid ∙ valid)),
                )
        ]
      ]

  binding-IsDefect :
      (fact : Fact F)
      → Opens fact
      → (e : FramedFactBindingError)
      → validate_fact_binding fact device.expected_pod_id frame.header.header_fc ≡ failed e
      → IsDefect (map_binding_error e)
  unfolding validate_fact_binding map_binding_error
  binding-IsDefect fact o pod_id_mismatch h = (
    fact,
    o,
    λ same.
        let equal : bytes_eq fact.pod_id device.expected_pod_id ≡ true =
          ap (λ b. bytes_eq b device.expected_pod_id) same ∙ bytes_eq_refl device.expected_pod_id in
        ground (arith, h),
  )
  binding-IsDefect fact o frame_counter_mismatch h = (fact, o, λ same. ground (arith, h))

  decode-Opens :
      (cipher : C) (plaintext : List ℕ) (fact : Fact F)
      → aead.new_from_slice device.ck_up ≡ some cipher
      → aead.decrypt cipher frame.nonce
          (framed_aad frame.header.dev_id frame.header.msg_type frame.header.flags)
          (frame.ct ++ frame.tag)
        ≡ some plaintext
      → decode_fact_postcard floats postcard plaintext ≡ done fact
      → Opens fact
  unfolding decode_fact_postcard
  decode-Opens cipher plaintext fact keyed opened h = record {
    cipher = cipher;
    plaintext = plaintext;
    keyed = keyed;
    opened = opened;
    decoded = (decode-eq-done floats postcard aead plaintext fact h).0;
  }

  -- Whenever a frame is refused, the reason is true of it: the tag, the key, the nonce or the salt
  -- has another length, the text is empty or longer than 256 bytes, there are flags, the message
  -- type is another one, the header names another device, the nonce begins with another salt or
  -- counter, no fact comes out of the cipher of the key and postcard, or the fact that does is
  -- invalid, of another pod or of another counter. No other reason is ever given. The key's reason
  -- is also given for a key that the cipher refuses.
  pub validate_and_decrypt_refused :
      (r : RejectReason)
      → validate_and_decrypt floats postcard aead frame device ≡ reject r
      → IsDefect r
  unfolding validate_and_decrypt
  validate_and_decrypt_refused r h = elim (Admission-cases (check_frame frame device)) [
    | inr (s, bad) ↦
        subst IsDefect (reject-injective (rw (bad, validate_and_decrypt) at h))
          (check_frame_refused s bad)
    | inl (u, good) ↦
        lookup_refused IsDefect (aead.new_from_slice device.ck_up) _ r _ inr
          (λ cipher keyed.
            lookup_refused IsDefect (nonce_array frame.nonce) _ r _ (λ none_found e. ground arith)
              (λ nonce sized.
                let exact : nonce ≡ frame.nonce = nonce_array-eq-some frame.nonce sized in
                let aad : List ℕ =
                  framed_aad frame.header.dev_id frame.header.msg_type frame.header.flags in
                let text : List ℕ = frame.ct ++ frame.tag in
                lookup_refused IsDefect (aead.decrypt cipher nonce aad text) _ r _
                  (λ closed fact o.
                    let same : o.cipher ≡ cipher = some-injective (sym o.keyed ∙ keyed) in
                    absurd (cc (sym o.opened, closed, exact, same)))
                  (λ plaintext opened.
                    let opens : aead.decrypt cipher frame.nonce aad text ≡ some plaintext =
                      ap (λ (n : List ℕ). aead.decrypt cipher n aad text) (sym exact) ∙ opened in
                    result_refused IsDefect map_decode_error
                      (decode_fact_postcard floats postcard plaintext) r _
                      (decode-IsDefect cipher plaintext keyed opens)
                      (λ fact decoded.
                        result_refused IsDefect map_binding_error
                          (validate_fact_binding fact device.expected_pod_id frame.header.header_fc)
                          r _
                          (binding-IsDefect fact
                            (decode-Opens cipher plaintext fact keyed opens decoded))
                          (λ u bound last. absurd (cc last))))))
          (rw (good, validate_and_decrypt) at h)
  ]
