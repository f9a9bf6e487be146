-- ===== src/Ingest/Admission/Accepted.antt =====
-- crates/trackone-ingest/src/admission.rs: accepted frames and what they carry.
use trackone.Prelude.{
  ℕ, ◌≤◌, ◌<◌, ◌≡◌, refl, sym, ap, ◌∙◌, Bool, true, false, not, Option, none, some, List, ◌++◌,
  length, ◌==◌, ==→eq, eq→==, leb, leb→le, le→leb, arith,
}
use mathlib.Core.Path.{subst}
use trackone.Prelude.Text.{bytes_eq, bytes_eq→eq, bytes_eq_refl}
use trackone.Prelude.Outcome.{Outcome, done, failed}
use trackone.Core.Types.{Fact, FloatTests, validate_fact, PodId}
use trackone.Ingest.RejectReason.{
  RejectReason, Admission, accept, reject, ◌>>=◌, ◌>>◌, demand, or_reject, reject_by,
}
use trackone.Ingest.Nonce.{validate_nonce_prefix}
use trackone.Ingest.Aad.{legacy_dev_id_from_pod_id, framed_aad, validate_fact_binding}
use trackone.Ingest.Frame.{
  FrameInput, DeviceMaterial, AcceptedFrame, Postcard, decode_fact_postcard,
}
use trackone.Ingest.Admission.{
  Aead, check_frame, validate_and_decrypt, map_framed_nonce_error, map_decode_error,
  map_binding_error, nonce_array,
}

-- Inversion of a step that is passed.
>>=-eq-accept {ℓ κ} :
    {A : Type ℓ} {B : Type κ} (m : Admission A) (f : A → Admission B) {b : B}
    → (m >>= f) ≡ accept b
    → (a : A) × (m ≡ accept a) × (f a ≡ accept b)
>>=-eq-accept (accept a) f h = (a, refl, h)
>>=-eq-accept (reject r) f h = cc

-- A guard that is passed, with what comes after it.
demand-eq-accept {ℓ} :
    {B : Type ℓ} (t : Bool) (r : RejectReason) (k : Admission B) {b : B}
    → (demand t r >> k) ≡ accept b
    → (t ≡ true) × (k ≡ accept b)
demand-eq-accept true r k h = (refl, h)
demand-eq-accept false r k h = cc

accept-inj {ℓ} : {A : Type ℓ} {a b : A} → accept a ≡ accept b → a ≡ b
accept-inj h = cc

or_reject-eq-accept {ℓ} :
    {A : Type ℓ} (o : Option A) (r : RejectReason) {a : A} → or_reject o r ≡ accept a → o ≡ some a
or_reject-eq-accept none r h = cc
or_reject-eq-accept (some x) r h = ap some (accept-inj h)

reject_by-eq-accept {ℓ κ} :
    {E : Type ℓ} {A : Type κ} (f : E → RejectReason) (o : Outcome E A) {a : A}
    → reject_by f o ≡ accept a
    → o ≡ done a
reject_by-eq-accept f (done x) h = ap done (accept-inj h)
reject_by-eq-accept f (failed e) h = cc

-- What the guards before the cipher establish.
pub record IsFramed (frame : FrameInput) (device : DeviceMaterial) : Type 0 where
  pub tag_size : length frame.tag ≡ 16
  pub key_size : length device.ck_up ≡ 32
  pub some_text : 0 < length frame.ct
  pub bounded_text : length frame.ct ≤ 256
  pub no_flags : frame.header.flags ≡ 0
  pub fact_message : frame.header.msg_type ≡ 1
  pub routed : legacy_dev_id_from_pod_id device.expected_pod_id ≡ frame.header.dev_id
  pub fresh_nonce : validate_nonce_prefix frame.nonce device.salt8 frame.header.header_fc ≡ done tt

check_frame-IsFramed :
    (frame : FrameInput) (device : DeviceMaterial)
    → check_frame frame device ≡ accept tt
    → IsFramed frame device
unfolding check_frame
check_frame-IsFramed frame device h =
    let (tag, h1) = demand-eq-accept (length frame.tag == 16) _ _ h in
    let (key, h2) = demand-eq-accept (length device.ck_up == 32) _ _ h1 in
    let (text, h3) = demand-eq-accept (not (length frame.ct == 0)) _ _ h2 in
    let (bounded, h4) = demand-eq-accept (leb (length frame.ct) 256) _ _ h3 in
    let (flagged, h5) = demand-eq-accept (frame.header.flags == 0) _ _ h4 in
    let (typed, h6) = demand-eq-accept (frame.header.msg_type == 1) _ _ h5 in
    let (routed, h7) =
      demand-eq-accept (legacy_dev_id_from_pod_id device.expected_pod_id == frame.header.dev_id) _ _
        h6 in
    record {
      tag_size = ==→eq (length frame.tag) 16 tag;
      key_size = ==→eq (length device.ck_up) 32 key;
      some_text = ground arith;
      bounded_text = leb→le (length frame.ct) 256 bounded;
      no_flags = ==→eq frame.header.flags 0 flagged;
      fact_message = ==→eq frame.header.msg_type 1 typed;
      routed = ==→eq _ _ routed;
      fresh_nonce = reject_by-eq-accept map_framed_nonce_error _ h7;
    }

pub nonce_array-eq-some : (nonce : List ℕ) {n : List ℕ} → nonce_array nonce ≡ some n → n ≡ nonce
nonce_array-eq-some nonce h = ground (arith, h)

module _ {F : Type 0} {C : Type 0} (floats : FloatTests F) (postcard : Postcard F)
    (aead : Aead C) where
  -- That a frame carries a fact: the bytes that the cipher of the device's key opens, under the
  -- header as associated data, are a valid fact of the device and of the frame's counter.
  pub record Carries (frame : FrameInput) (device : DeviceMaterial) (fact : Fact F) : Type 0 where
    pub cipher : C
    pub plaintext : List ℕ
    pub keyed : aead.new_from_slice device.ck_up ≡ some cipher
    pub opened :
        aead.decrypt cipher frame.nonce
          (framed_aad frame.header.dev_id frame.header.msg_type frame.header.flags)
          (frame.ct ++ frame.tag)
        ≡ some plaintext
    pub decoded : postcard.from_bytes plaintext ≡ some fact
    pub valid : validate_fact floats fact ≡ done tt
    pub owned : fact.pod_id ≡ device.expected_pod_id
    pub counted : fact.fc ≡ frame.header.header_fc

  pub decode-eq-done :
      (bytes : List ℕ) (fact : Fact F)
      → decode_fact_postcard floats postcard bytes ≡ done fact
      → (postcard.from_bytes bytes ≡ some fact) × (validate_fact floats fact ≡ done tt)
  unfolding decode_fact_postcard
  decode-eq-done bytes fact h = ground (arith, h)

  binding-eq-done :
      (fact : Fact F) (pod_id : PodId) (fc : ℕ)
      → validate_fact_binding fact pod_id fc ≡ done tt
      → (fact.pod_id ≡ pod_id) × (fact.fc ≡ fc)
  unfolding validate_fact_binding
  binding-eq-done fact pod_id fc h =
      (bytes_eq→eq fact.pod_id pod_id (ground arith), ==→eq fact.fc fc (ground arith))

  -- Every accepted frame passes the guards, and the fact is the one that it carries.
  pub validate_and_decrypt_sound :
      (frame : FrameInput) (device : DeviceMaterial) (a : AcceptedFrame F)
      → validate_and_decrypt floats postcard aead frame device ≡ accept a
      → IsFramed frame device
        × Carries frame device a.accepted_fact
        × (a.accepted_header ≡ frame.header)
  unfolding validate_and_decrypt
  validate_and_decrypt_sound frame device a h =
      let (_, framed, h1) = >>=-eq-accept (check_frame frame device) _ h in
      let (cipher, keyed, h2) =
        >>=-eq-accept (or_reject (aead.new_from_slice device.ck_up) _) _ h1 in
      let (nonce, sized, h3) = >>=-eq-accept (or_reject (nonce_array frame.nonce) _) _ h2 in
      let (plaintext, opened, h4) =
        >>=-eq-accept (or_reject (aead.decrypt cipher nonce _ _) _) _ h3 in
      let (fact, decoded, h5) =
        >>=-eq-accept (reject_by map_decode_error (decode_fact_postcard floats postcard plaintext))
          _ h4 in
      let (_, bound, h6) =
        >>=-eq-accept
          (reject_by map_binding_error
            (validate_fact_binding fact device.expected_pod_id frame.header.header_fc))
          _ h5 in
      let exact : nonce ≡ frame.nonce =
        nonce_array-eq-some frame.nonce (or_reject-eq-accept _ _ sized) in
      let codec : (postcard.from_bytes plaintext ≡ some fact)
          × (validate_fact floats fact ≡ done tt) =
        decode-eq-done plaintext fact (reject_by-eq-accept map_decode_error _ decoded) in
      let owner : (fact.pod_id ≡ device.expected_pod_id) × (fact.fc ≡ frame.header.header_fc) =
        binding-eq-done fact device.expected_pod_id frame.header.header_fc
          (reject_by-eq-accept map_binding_error _ bound) in
      let carries : Carries frame device fact = record {
        cipher = cipher;
        plaintext = plaintext;
        keyed = or_reject-eq-accept _ _ keyed;
        opened =
            subst
              (λ n.
                aead.decrypt cipher n
                  (framed_aad frame.header.dev_id frame.header.msg_type frame.header.flags)
                  (frame.ct ++ frame.tag)
                ≡ some plaintext)
              exact (or_reject-eq-accept _ _ opened);
        decoded = codec.0;
        valid = codec.1;
        owned = owner.0;
        counted = owner.1;
      } in
      let same : record { accepted_header = frame.header; accepted_fact = fact } ≡ a =
        accept-inj h6 in
      (
        check_frame-IsFramed frame device framed,
        subst (λ (b : AcceptedFrame F). Carries frame device b.accepted_fact) same carries,
        ap (λ (b : AcceptedFrame F). b.accepted_header) (sym same),
      )

check_frame_complete :
    (frame : FrameInput) (device : DeviceMaterial)
    → IsFramed frame device
    → check_frame frame device ≡ accept tt
unfolding check_frame
check_frame_complete frame device h =
    let text : (length frame.ct == 0) ≡ false = ground (arith, h.some_text) in
    let bounded : leb (length frame.ct) 256 ≡ true = le→leb _ _ h.bounded_text in
    let same : (legacy_dev_id_from_pod_id device.expected_pod_id == frame.header.dev_id) ≡ true =
      eq→== _ _ h.routed in
    rw (h.tag_size, h.key_size, text, bounded, h.no_flags, h.fact_message, same, h.fresh_nonce) refl

nonce_size :
    (nonce salt8 : List ℕ) (fc : ℕ)
    → validate_nonce_prefix nonce salt8 fc ≡ done tt
    → length nonce ≡ 24
unfolding validate_nonce_prefix
nonce_size nonce salt8 fc h = ground (arith, ==→eq (length nonce) 24)

module _ {F : Type 0} {C : Type 0} (floats : FloatTests F) (postcard : Postcard F)
    (aead : Aead C) where
  -- A frame that passes the guards and carries a fact is accepted with that fact.
  pub validate_and_decrypt_complete :
      (frame : FrameInput) (device : DeviceMaterial) (fact : Fact F)
      → IsFramed frame device
      → Carries floats postcard aead frame device fact
      → validate_and_decrypt floats postcard aead frame device
        ≡ accept (record { accepted_header = frame.header; accepted_fact = fact })
  unfolding validate_and_decrypt decode_fact_postcard validate_fact_binding
  validate_and_decrypt_complete frame device fact framed c =
      let sized : nonce_array frame.nonce ≡ some frame.nonce =
        rw (nonce_size frame.nonce device.salt8 frame.header.header_fc framed.fresh_nonce) refl in
      let owned : bytes_eq fact.pod_id device.expected_pod_id ≡ true =
        ap (λ p. bytes_eq p device.expected_pod_id) c.owned
        ∙ bytes_eq_refl device.expected_pod_id in
      let counted : (fact.fc == frame.header.header_fc) ≡ true = eq→== _ _ c.counted in
      rw
        (
          check_frame_complete frame device framed,
          c.keyed,
          sized,
          c.opened,
          c.decoded,
          c.valid,
          owned,
          counted,
        )
        refl
