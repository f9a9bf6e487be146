-- ===== src/Examples/Frames.antt =====
-- One device's frame, under a postcard and a cipher that are small enough to compute.
use trackone.Core.Types.{custom}
use trackone.Pod.Emit.{Pod}
use trackone.Pod.Emit.Ascending.{IsAscending, AreDistinct}
use trackone.Pod.Emit.Fresh.{Operation, send_payload, restore, run, run_fresh}
use trackone.Prelude.{
  ℕ, ◌+◌, ◌-◌, ◌<◌, ◌≤◌, ◌≡◌, refl, ap, sym, ◌∙◌, arith, Bool, true, none, some, List, [], ◌∷◌,
  ◌++◌, length, replicate, take, drop, take-append, length-append, Bool-cases, inl, inr, ltb,
  ltb→lt, &&_split, ◌&&◌, ◌==◌, if◌then◌else◌, All,
}
use mathlib.Core.Path.{subst}
use trackone.Prelude.Bytes.{to_be_bytes-IsByte, IsByte, from_be_bytes}
use trackone.Prelude.Text.{codes}
use trackone.Prelude.Integers.{pos}
use trackone.Prelude.Outcome.{done}
use trackone.Core.Types.{Fact, FloatTests, validate_fact, validate_env, instant}
use trackone.Ingest.RejectReason.{accept, duplicate, as_str}
use trackone.Ingest.Nonce.{framed_nonce, validate_nonce_prefix}
use trackone.Ingest.Nonce.Prefix.{validate_nonce_prefix-framed_nonce, validate_nonce_prefix_exact}
use trackone.Ingest.Frame.{
  EncryptedFrame, DeviceMaterial, Postcard, Sealing, encode_fact_postcard, encrypt_fact,
  decrypt_fact,
}
use trackone.Ingest.Frame.{FrameInput}
use trackone.Ingest.Admission.{check_frame}
use trackone.Ingest.RejectReason.{reject, tag_length}
use trackone.Prelude.{false}
use trackone.Ingest.Admission.Refused.{IsDefect, validate_and_decrypt_refused}
use trackone.Ingest.Frame.Sealed.{decrypt_fact-encrypt_fact}
use trackone.Ingest.Admission.{Aead, validate_and_decrypt}
use trackone.Ingest.Admission.Accepted.{IsFramed, Carries, validate_and_decrypt_sound}
use trackone.Ingest.Fixture.{FramedFixture, tail_bytes, check_request, emit_fixture}
use trackone.Ingest.Aad.{legacy_dev_id_from_pod_id}
use trackone.Ingest.Fixture.Admitted.{
  IsCodec, IsCipher, received, emitted_fact, emit_fixture-accepted,
}
use trackone.Ingest.Audit.{replay, new, hash_rejected_line, source_as_str}
use trackone.Ingest.Audit.Reasons.{new-hash_rejected_line}
use trackone.Examples.Segments.{toy_digest, checksum, length-toy_digest}

abbrev salt : List ℕ
salt = 1 ∷ 2 ∷ 3 ∷ 4 ∷ 5 ∷ 6 ∷ 7 ∷ 8 ∷ []

abbrev tail8 : List ℕ
tail8 = 9 ∷ 9 ∷ 9 ∷ 9 ∷ 9 ∷ 9 ∷ 9 ∷ 9 ∷ []

validate_nonce_prefix-framed_nonce_example :
    validate_nonce_prefix (framed_nonce salt 70000 tail8) salt 70000 ≡ done tt
validate_nonce_prefix-framed_nonce_example =
    validate_nonce_prefix-framed_nonce salt 70000 tail8 refl refl (omega arith)

abbrev sent_nonce : List ℕ
sent_nonce = salt ++ (0 ∷ 0 ∷ 0 ∷ 0 ∷ 0 ∷ 1 ∷ 17 ∷ 112 ∷ tail8)

all_below_256 : List ℕ → Bool
all_below_256 [] = true
all_below_256 (b ∷ bs) = ltb b 256 && all_below_256 bs

all_below_256-IsByte : (bs : List ℕ) → all_below_256 bs ≡ true → All IsByte bs
unfolding all_below_256
all_below_256-IsByte [] h = tt
all_below_256-IsByte (b ∷ bs) h =
    let (low, rest) = &&_split (ltb b 256) (all_below_256 bs) h in
    (ltb→lt b 256 low, all_below_256-IsByte bs rest)

sent_nonce-IsByte : All IsByte sent_nonce
unfolding all_below_256
sent_nonce-IsByte = all_below_256-IsByte sent_nonce refl

sent_nonce_valid : validate_nonce_prefix sent_nonce salt 70000 ≡ done tt
unfolding validate_nonce_prefix from_be_bytes
sent_nonce_valid = refl

validate_nonce_prefix_exact_example :
    (sent_nonce ≡ framed_nonce salt 70000 (drop 8 (drop 8 sent_nonce)))
    × (length salt ≡ 8)
    × (length sent_nonce ≡ 24)
validate_nonce_prefix_exact_example =
    validate_nonce_prefix_exact sent_nonce salt 70000 sent_nonce-IsByte sent_nonce_valid

-- Readings are numbers.
abbrev readings : FloatTests ℕ
readings = record { is_finite = λ x. true; gt = λ x y. ltb y x }

abbrev device : DeviceMaterial
device = record {
  expected_pod_id = 1 ∷ 35 ∷ 69 ∷ 103 ∷ 137 ∷ 171 ∷ 18 ∷ 52 ∷ [];
  salt8 = salt;
  ck_up = replicate 32 7;
}

some-injective : {a b : List ℕ} → some a ≡ some b → a ≡ b
some-injective h = cc

-- A cipher that appends 16 bytes.
abbrev cipher : Aead (List ℕ)
cipher = record {
  new_from_slice = λ key. if length key == 32 then some key else none;
  encrypt = λ key nonce aad m. some (m ++ replicate 16 7);
  decrypt = λ key nonce aad m. some (take (length m - 16) m);
}

-- The one fact that the codec knows.
abbrev known : Fact ℕ
known =
    emitted_fact readings (record { to_slice = λ f n. none; from_bytes = λ b. none }) 20 cipher
      device 5 (some (pos 1700))

abbrev codec : Postcard ℕ
codec = record {
  to_slice = λ f n. if ltb n 3 then none else some (7 ∷ 8 ∷ 9 ∷ []);
  from_bytes = λ b. some known;
}

codec_fits :
    (n : ℕ) (bytes : List ℕ)
    → codec.to_slice known n ≡ some bytes
    → (0 < length bytes) × (length bytes ≤ n)
codec_fits n bytes h = elim (Bool-cases (ltb n 3)) [
  | inl short ↦ cc (rw short at h)
  | inr fits ↦
      let same : length bytes ≡ 3 = ap length (sym (some-injective (rw fits at h))) in
      (omega arith, ground arith)
]

cipher_opens :
    (m : List ℕ) {sealed : List ℕ}
    → m ++ replicate 16 7 ≡ sealed
    → some (take (length sealed - 16) sealed) ≡ some m
cipher_opens m e =
    subst (λ x. some (take (length x - 16) x) ≡ some m) e
      (ap some (
        ap (λ n. take n (m ++ replicate 16 7)) (omega (arith, length-append m (replicate 16 7)))
        ∙ take-append m (replicate 16 7)))

cipher_tagged :
    (m : List ℕ) {sealed : List ℕ} → m ++ replicate 16 7 ≡ sealed → length sealed ≡ length m + 16
cipher_tagged m e = ap length (sym e) ∙ length-append m (replicate 16 7)

codec-IsCodec : IsCodec codec known
codec-IsCodec = record { reads_back = λ n bytes h. refl; fits = λ n bytes h. codec_fits n bytes h }

cipher-IsCipher : IsCipher cipher
cipher-IsCipher = record {
  opens = λ c nonce aad m sealed h. cipher_opens m (some-injective h);
  tagged = λ c nonce aad m sealed h. cipher_tagged m (some-injective h);
}

abbrev fixture : FramedFixture
fixture = record {
  dev_id = 4660;
  msg_type = 1;
  fc = 5;
  flags = 0;
  nonce = framed_nonce salt 5 (tail_bytes 4660 5);
  ct = 7 ∷ 8 ∷ 9 ∷ [];
  tag = replicate 16 7;
}

fixture_emitted :
    emit_fixture readings codec 20 cipher 4660 5 device 1 0 (some (pos 1700)) ≡ done fixture
unfolding emit_fixture check_request legacy_dev_id_from_pod_id from_be_bytes instant validate_env
    validate_fact encode_fact_postcard
fixture_emitted = refl

fixture_accepted :
    validate_and_decrypt readings codec cipher (received fixture) device
    ≡ accept (record { accepted_header = (received fixture).header; accepted_fact = known })
fixture_accepted =
    emit_fixture-accepted readings codec 20 cipher 4660 5 device 1 0 (some (pos 1700)) fixture
      codec-IsCodec cipher-IsCipher (omega arith) fixture_emitted

emit_fixture-accepted_example :
    validate_and_decrypt readings codec cipher (received fixture) device
    ≡ accept (record { accepted_header = (received fixture).header; accepted_fact = known })
emit_fixture-accepted_example =
    emit_fixture-accepted readings codec 20 cipher 4660 5 device 1 0 (some (pos 1700)) fixture
      codec-IsCodec cipher-IsCipher (omega arith) fixture_emitted

validate_and_decrypt_sound_example :
    IsFramed (received fixture) device
    × Carries readings codec cipher (received fixture) device known
    × ((received fixture).header ≡ (received fixture).header)
validate_and_decrypt_sound_example =
    validate_and_decrypt_sound readings codec cipher (received fixture) device
      (record { accepted_header = (received fixture).header; accepted_fact = known })
      fixture_accepted

-- The frame with a shorter tag.
abbrev short_tag : FrameInput
short_tag = record {
  header = (received fixture).header;
  nonce = (received fixture).nonce;
  ct = (received fixture).ct;
  tag = replicate 15 7;
}

short_tag_refused : validate_and_decrypt readings codec cipher short_tag device ≡ reject tag_length
unfolding validate_and_decrypt check_frame
short_tag_refused = refl

validate_and_decrypt_refused_example : IsDefect readings codec cipher short_tag device tag_length
validate_and_decrypt_refused_example =
    validate_and_decrypt_refused readings codec cipher short_tag device tag_length short_tag_refused

-- A cipher for sealed frames that appends 16 bytes, where they fit into the buffers.
abbrev plain : Sealing
plain = record {
  encrypt_into =
      λ nonce aad text n. if ltb n (length text + 16) then none else some (text ++ replicate 16 7);
  decrypt_into = λ nonce aad sealed n.
      if ltb n (length sealed - 16) then none else some (take (length sealed - 16) sealed);
}

plain_opens :
    (nonce aad text sealed : List ℕ) (m : ℕ)
    → plain.encrypt_into nonce aad text m ≡ some sealed
    → length sealed ≤ 256
    → plain.decrypt_into nonce aad sealed 256 ≡ some text
plain_opens nonce aad text sealed m h small = elim (Bool-cases (ltb m (length text + 16))) [
  | inl short ↦ absurd (cc (rw short at h))
  | inr fits ↦
      let room : ltb 256 (length sealed - 16) ≡ false = ground arith in
      rw room (cipher_opens text (some-injective (rw fits at h)))
]

abbrev sealed_known : EncryptedFrame
sealed_known = record {
  sealed_pod_id = device.expected_pod_id;
  sealed_fc = 5;
  sealed_nonce = sent_nonce;
  ciphertext = 7 ∷ 8 ∷ 9 ∷ replicate 16 7;
}

known_sealed : encrypt_fact readings codec plain 64 sent_nonce known ≡ done sealed_known
unfolding encrypt_fact encode_fact_postcard validate_fact validate_env
known_sealed = refl

decrypt_fact-encrypt_fact_example :
    decrypt_fact readings codec plain sealed_known device.expected_pod_id ≡ done known
decrypt_fact-encrypt_fact_example =
    decrypt_fact-encrypt_fact readings codec plain 64 sent_nonce known sealed_known
      (λ bytes h. refl) plain_opens (omega arith) known_sealed

toy_digest-IsDigest :
    (bytes : List ℕ) → (length (toy_digest bytes) ≡ 32) × All IsByte (toy_digest bytes)
unfolding toy_digest
toy_digest-IsDigest bytes = (length-toy_digest bytes, to_be_bytes-IsByte 32 (checksum 1 bytes))

new-hash_rejected_line_example :
    new
      (codes "pod-1")
      (some 5)
      (codes (as_str duplicate))
      (codes "2026-01-01T00:00:00Z")
      (hash_rejected_line toy_digest (codes "frame"))
      replay
    ≡ done (record {
      device_id = codes "pod-1";
      fc = some 5;
      reason = codes (as_str duplicate);
      observed_at_utc = codes "2026-01-01T00:00:00Z";
      frame_sha256 = hash_rejected_line toy_digest (codes "frame");
      source = codes (source_as_str replay);
    })
new-hash_rejected_line_example =
    new-hash_rejected_line toy_digest toy_digest-IsDigest (codes "pod-1") (some 5) duplicate
      (codes "2026-01-01T00:00:00Z") (codes "frame") replay

abbrev pod : Pod
pod = record {
  own_pod_id = 1 ∷ 2 ∷ 3 ∷ 4 ∷ 5 ∷ 6 ∷ 7 ∷ 8 ∷ [];
  next_fc = some 5;
  nonce_gen = record {
    salt8 = 1 ∷ 1 ∷ 1 ∷ 1 ∷ 1 ∷ 1 ∷ 1 ∷ 1 ∷ [];
    tail8 = 2 ∷ 2 ∷ 2 ∷ 2 ∷ 2 ∷ 2 ∷ 2 ∷ 2 ∷ [];
  };
}

abbrev requests : List (Operation ℕ)
requests = restore (some 3) ∷ restore (some 9) ∷ send_payload (custom (7 ∷ [])) ∷ []

run_fresh_example :
    IsAscending pod.nonce_gen (some 5) (run readings codec plain 300 pod requests)
    × AreDistinct (run readings codec plain 300 pod requests)
run_fresh_example = run_fresh readings codec plain 300 pod requests refl
