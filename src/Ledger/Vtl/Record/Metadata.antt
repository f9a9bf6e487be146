-- ===== src/Ledger/Vtl/Record/Metadata.antt =====
-- vtl.rs: the metadata that `validate_canonical_record` returns, and the bytes it stands for.
use trackone.Prelude.{
  ℕ, ◌^◌, ◌<◌, ◌≡◌, refl, sym, ap, ◌∙◌, inl, inr, ◌&&◌, Option, none, some, [], ◌∷◌, ◌++◌, String,
  ◌==◌, length, All, All-back, Bool-cases, &&_split, ==→eq,
}
use mathlib.Core.Path.{subst, ap₂}
use mathlib.Core.List.{append_assoc}
use trackone.Prelude.Bytes.{IsByte}
use trackone.Ledger.Hash.{Bytes}
use trackone.Ledger.Vtl.Error.{ok, require, ◌>>=◌, >>=-eq-ok, ok-injective, require-eq-ok}
use trackone.Ledger.Vtl.Cbor.{
  put_head, cbor_uint, cbor_bytes, cbor_null, read_typed_argument, read_head, max_levels,
}
use trackone.Ledger.Vtl.Cbor.Heads.{read_head_sound, read_sound}
use trackone.Ledger.Vtl.Record.{
  CanonicalRecordMetadataV1, read_uint_item, read_device_id, read_device_time, read_metadata,
  validate_canonical_record, validate_commitment_value, is_empty,
}

-- The deterministic encoding of the members in front of the payload.
unfoldable pub device_time_bytes : Option ℕ → Bytes
device_time_bytes none = cbor_null
device_time_bytes (some t) = cbor_uint t

unfoldable pub metadata_bytes : CanonicalRecordMetadataV1 → Bytes
unfolding device_time_bytes
metadata_bytes m =
    cbor_uint m.version
    ++ (cbor_bytes m.device_id
        ++ (cbor_uint m.fc
            ++ (cbor_uint m.ingest_time ++ (device_time_bytes m.device_time ++ cbor_uint m.kind))))

abbrev IsOptionalWord : Option ℕ → Type 0
IsOptionalWord none = Unit {0}
IsOptionalWord (some n) = n < 2 ^ 64

-- Metadata in the ranges of its types.
pub record IsTypedMetadata (m : CanonicalRecordMetadataV1) : Type 0 where
  pub version : m.version ≡ 1
  pub device : length m.device_id ≡ 8
  pub fc : m.fc < 2 ^ 64
  pub ingest_time : m.ingest_time < 2 ^ 64
  pub device_time : IsOptionalWord m.device_time
  pub kind : m.kind < 2 ^ 64

abbrev AreBytes : Bytes → Type 0
AreBytes bs = All IsByte bs

rest-AreBytes : {bs : Bytes} (front back : Bytes) → AreBytes bs → bs ≡ front ++ back → AreBytes back
rest-AreBytes front back h e = All-back IsByte front back (subst AreBytes e h)

read_uint_item_sound :
    (field : String) (bs : Bytes) (v : ℕ) (after : Bytes)
    → AreBytes bs
    → read_uint_item field bs ≡ ok (v, after)
    → (bs ≡ cbor_uint v ++ after) × (v < 2 ^ 64)
unfolding read_uint_item read_typed_argument cbor_uint
read_uint_item_sound field bs v after h e =
    let ((major, value, rest), got, e') = >>=-eq-ok (read_head "truncated CBOR item" bs) _ e in
    let (_, test, last) = >>=-eq-ok (require (major == 0) _) _ e' in
    let zero_major : major ≡ 0 = ==→eq _ _ (require-eq-ok _ _ test) in
    let same : (value, rest) ≡ (v, after) = ok-injective last in
    let (bytes, small, _) = read_head_sound "truncated CBOR item" bs major value rest h got in
    subst (λ (p : ℕ × Bytes). (bs ≡ put_head 0 p.0 ++ p.1) × (p.0 < 2 ^ 64)) same
      (subst (λ (m : ℕ). bs ≡ put_head m value ++ rest) zero_major bytes, small)

read_device_id_sound :
    (bs : Bytes) (device after : Bytes)
    → AreBytes bs
    → read_device_id bs ≡ ok (device, after)
    → (bs ≡ cbor_bytes device ++ after) × (length device ≡ 8)
unfolding read_device_id read_typed_argument cbor_bytes
read_device_id_sound bs device after h e =
    let ((major, value, rest), got, e') = >>=-eq-ok (read_head "truncated CBOR item" bs) _ e in
    let (_, test, last) = >>=-eq-ok (require (major == 2 && value == 8) _) _ e' in
    let (a, b) = &&_split _ _ (require-eq-ok _ _ test) in
    let (bytes, _, _) = read_head_sound "truncated CBOR item" bs major value rest h got in
    let (split, eight) = read_sound 8 "truncated device_id" rest device after last in
    (
      bytes
          ∙ ap (λ (m : ℕ). put_head m value ++ rest) (==→eq _ _ a)
          ∙ ap (λ (n : ℕ). put_head 2 n ++ rest) (==→eq _ _ b ∙ sym eight)
          ∙ ap (◌++◌ (put_head 2 (length device))) split
          ∙ sym (append_assoc (put_head 2 (length device)) device after),
      eight,
    )

some_time_sound :
    (bs : Bytes) (t : Option ℕ) (after : Bytes)
    → AreBytes bs
    → ◌>>=◌ {W = Option ℕ × Bytes} (read_uint_item "device_time" bs) (λ p. ok (some p.0, p.1))
      ≡ ok (t, after)
    → (bs ≡ device_time_bytes t ++ after) × IsOptionalWord t
unfolding device_time_bytes
some_time_sound bs t after h e =
    let ((value, rest), got, last) = >>=-eq-ok (read_uint_item "device_time" bs) _ e in
    subst (λ (p : Option ℕ × Bytes). (bs ≡ device_time_bytes p.0 ++ p.1) × IsOptionalWord p.0)
      (ok-injective last) (read_uint_item_sound "device_time" bs value rest h got)

read_device_time_sound :
    (bs : Bytes) (t : Option ℕ) (after : Bytes)
    → AreBytes bs
    → read_device_time bs ≡ ok (t, after)
    → (bs ≡ device_time_bytes t ++ after) × IsOptionalWord t
unfolding read_device_time device_time_bytes cbor_null
read_device_time_sound [] t after h e = some_time_sound [] t after h e
read_device_time_sound (b ∷ bs) t after h e = elim (Bool-cases (b == 0xf6)) [
  | inr number ↦ some_time_sound (b ∷ bs) t after h (rw (number, read_device_time) at e)
  | inl null ↦
      let same : (none, bs) ≡ (t, after) = ok-injective (rw (null, read_device_time) at e) in
      subst (λ (p : Option ℕ × Bytes). (b ∷ bs ≡ device_time_bytes p.0 ++ p.1) × IsOptionalWord p.0)
        same (ap (λ (c : ℕ). c ∷ bs) (==→eq _ _ null), tt)
]

-- Six parts one behind the other.
join :
    (front : Bytes) {bs r0 r1 r2 r3 r4 r5 : Bytes} (a b c d e f r6 : Bytes)
    → bs ≡ front ++ r0
    → r0 ≡ a ++ r1
    → r1 ≡ b ++ r2
    → r2 ≡ c ++ r3
    → r3 ≡ d ++ r4
    → r4 ≡ e ++ r5
    → r5 ≡ f ++ r6
    → bs ≡ front ++ ((a ++ (b ++ (c ++ (d ++ (e ++ f))))) ++ r6)
join front a b c d e f r6 p0 p1 p2 p3 p4 p5 p6 =
    rw (append_assoc, append_assoc, append_assoc, append_assoc, append_assoc)
      (p0
        ∙ ap (λ r. front ++ r)
            (p1
              ∙ ap (λ r. a ++ r)
                  (p2
                    ∙ ap (λ r. b ++ r)
                        (p3
                          ∙ ap (λ r. c ++ r) (p4 ∙ ap (λ r. d ++ r) (p5 ∙ ap (λ r. e ++ r) p6))))))

read_metadata_sound :
    (bs : Bytes) (m : CanonicalRecordMetadataV1) (payload : Bytes)
    → AreBytes bs
    → read_metadata bs ≡ ok (m, payload)
    → (bs ≡ put_head 4 7 ++ (metadata_bytes m ++ payload)) × IsTypedMetadata m
unfolding read_metadata metadata_bytes read_typed_argument
read_metadata_sound bs m payload h e =
    let ((major, len, r0), got0, e0) = >>=-eq-ok (read_head "truncated CBOR item" bs) _ e in
    let (_, test0, e1) = >>=-eq-ok (require (major == 4 && len == 7) _) _ e0 in
    let (is_array, seven) = &&_split _ _ (require-eq-ok _ _ test0) in
    let four : major ≡ 4 = ==→eq _ _ is_array in
    let of_seven : len ≡ 7 = ==→eq _ _ seven in
    let (b0, _, _) = read_head_sound "truncated CBOR item" bs major len r0 h got0 in
    let h0 = rest-AreBytes (put_head major len) r0 h b0 in
    let ((version, r1), got1, e2) = >>=-eq-ok (read_uint_item "record version" r0) _ e1 in
    let (_, test1, e3) = >>=-eq-ok (require (version == 1) _) _ e2 in
    let one = ==→eq _ _ (require-eq-ok _ _ test1) in
    let (b1, _) = read_uint_item_sound "record version" r0 version r1 h0 got1 in
    let h1 = rest-AreBytes (cbor_uint version) r1 h0 b1 in
    let ((device, r2), got2, e4) = >>=-eq-ok (read_device_id r1) _ e3 in
    let (b2, eight) = read_device_id_sound r1 device r2 h1 got2 in
    let h2 = rest-AreBytes (cbor_bytes device) r2 h1 b2 in
    let ((fc, r3), got3, e5) = >>=-eq-ok (read_uint_item "fc" r2) _ e4 in
    let (b3, fc_word) = read_uint_item_sound "fc" r2 fc r3 h2 got3 in
    let h3 = rest-AreBytes (cbor_uint fc) r3 h2 b3 in
    let ((ingest, r4), got4, e6) = >>=-eq-ok (read_uint_item "ingest_time" r3) _ e5 in
    let (b4, ingest_word) = read_uint_item_sound "ingest_time" r3 ingest r4 h3 got4 in
    let h4 = rest-AreBytes (cbor_uint ingest) r4 h3 b4 in
    let ((time, r5), got5, e7) = >>=-eq-ok (read_device_time r4) _ e6 in
    let (b5, time_word) = read_device_time_sound r4 time r5 h4 got5 in
    let h5 = rest-AreBytes (device_time_bytes time) r5 h4 b5 in
    let ((kind, r6), got6, last) = >>=-eq-ok (read_uint_item "kind" r5) _ e7 in
    let (b6, kind_word) = read_uint_item_sound "kind" r5 kind r6 h5 got6 in
    subst
      (λ (p : CanonicalRecordMetadataV1 × Bytes).
        (bs ≡ put_head 4 7 ++ (metadata_bytes p.0 ++ p.1)) × IsTypedMetadata p.0)
      (ok-injective last)
      (
        join (put_head 4 7) (cbor_uint 1) (cbor_bytes device) (cbor_uint fc) (cbor_uint ingest)
            (device_time_bytes time) (cbor_uint kind) r6
            (b0 ∙ ap₂ (λ (m n : ℕ). put_head m n ++ r0) four of_seven)
            (b1 ∙ ap (λ (v : ℕ). cbor_uint v ++ r1) one) b2 b3 b4 b5 b6,
        record {
          version = refl;
          device = eight;
          fc = fc_word;
          ingest_time = ingest_word;
          device_time = time_word;
          kind = kind_word;
        },
      )

-- Every record of bytes that the profile accepts is the head of a seven-element array, the
-- deterministic encoding of the returned metadata, and a payload. Its version is 1, its device
-- identifier has eight bytes, and its numbers are below 2^64.
pub validate_canonical_record_metadata :
    (bs : Bytes) (m : CanonicalRecordMetadataV1)
    → All IsByte bs
    → validate_canonical_record bs ≡ ok m
    → (payload : Bytes) × (bs ≡ put_head 4 7 ++ (metadata_bytes m ++ payload)) × IsTypedMetadata m
unfolding validate_canonical_record
validate_canonical_record_metadata bs m h e =
    let ((found, payload), got, e0) = >>=-eq-ok (read_metadata bs) _ e in
    let ((rest, budget), _, e1) =
      >>=-eq-ok (validate_commitment_value max_levels (payload, length bs)) _ e0 in
    let (_, _, last) = >>=-eq-ok (require (is_empty rest) _) _ e1 in
    let (bytes, typed) = read_metadata_sound bs found payload h got in
    subst
      (λ (m : CanonicalRecordMetadataV1).
        (payload : Bytes) × (bs ≡ put_head 4 7 ++ (metadata_bytes m ++ payload))
        × IsTypedMetadata m)
      (ok-injective last) (payload, bytes, typed)
