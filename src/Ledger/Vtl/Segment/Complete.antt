-- ===== src/Ledger/Vtl/Segment/Complete.antt =====
-- vtl.rs: when the validation of a segment passes.
use trackone.Prelude.{
  ℕ, ◌+◌, ◌-◌, ◌/◌, ◌<◌, ◌≡◌, ◌≢◌, refl, sym, arith, true, false, ◌&&◌, not, inl, inr, some, List,
  length, ◌==◌, Bool-cases, ==→eq, not_==→ne,
}
use mathlib.Core.Path.{subst}
use trackone.Prelude.Text.{bytes_eq, bytes_eq_refl}
use trackone.Ledger.Hash.{Bytes, Hash}
use trackone.Ledger.Vtl.Policy.{passed, validate, validate_batch_record_limit, Checked-cases}
use trackone.Ledger.Vtl.Merkle.{compose_batch_roots}
use trackone.Ledger.Vtl.Segment.{
  SegmentRecord, commitment_profile_id, zero_sha256, valid_hex, valid_close_reason,
  validate_detailed, validate_empty, validate_roots,
}

module _ (sha256 : Bytes → Hash) where
  -- Roots that compose have the number that the count asks for.
  composed_count :
      (roots : List Hash) (n limit : ℕ) {root : Hash}
      → compose_batch_roots sha256 roots n limit ≡ some root
      → (length roots == 1 + (n - 1) / limit) ≡ true
  unfolding compose_batch_roots
  composed_count roots n limit h = elim (Bool-cases (n == 0)) [
    | inl absent ↦ absurd (cc (rw (absent, compose_batch_roots) at h))
    | inr some_records ↦ elim (Checked-cases (validate_batch_record_limit limit)) [
      | inr (e, bad) ↦ absurd (cc (rw (some_records, bad, compose_batch_roots) at h))
      | inl good ↦ elim (Bool-cases (length roots == 1 + (n - 1) / limit)) [
        | inl right ↦ right
        | inr wrong ↦ absurd (cc (rw (some_records, good, wrong, compose_batch_roots) at h))
      ]
    ]
  ]

  validate_roots_complete :
      (r : SegmentRecord)
      → compose_batch_roots sha256 r.batch_roots r.record_count r.closure_policy.batch_record_limit
        ≡ some r.segment_root
      → validate_roots sha256 r ≡ passed
  unfolding validate_roots
  validate_roots_complete r composed =
      rw
        (
          composed_count r.batch_roots r.record_count r.closure_policy.batch_record_limit composed,
          composed,
          bytes_eq_refl r.segment_root,
        )
        refl

  -- A segment passes when its fields are valid and its roots are those of its count.
  pub validate_detailed_complete :
      (r : SegmentRecord)
      → valid_hex r.ledger_id 32 ≡ true
      → r.profile_id ≡ commitment_profile_id
      → validate r.closure_policy ≡ passed
      → valid_close_reason r.close_reason ≡ true
      → (r.segment_number ≡ 0 → r.prev_segment_sha256 ≡ zero_sha256)
      → (r.record_count ≡ 0 → validate_empty sha256 r ≡ passed)
      → (0 < r.record_count
          → compose_batch_roots sha256 r.batch_roots r.record_count
              r.closure_policy.batch_record_limit
            ≡ some r.segment_root)
      → validate_detailed sha256 r ≡ passed
  unfolding validate_detailed
  validate_detailed_complete r hex profile policy reason first empty full =
      elim (Bool-cases (r.record_count == 0)) [
        | inl no_record ↦
            let zero_count : r.record_count ≡ 0 = ==→eq _ _ no_record in
            ground (arith, hex, same, policy, reason, epoch_ok, no_record, empty zero_count)
        | inr records ↦
            let count : r.record_count ≢ 0 = not_==→ne _ _ records in
            let composed : validate_roots sha256 r ≡ passed =
              validate_roots_complete r (full (omega arith)) in
            ground (arith, hex, same, policy, reason, epoch_ok, records, composed)
      ]
    where
      same : bytes_eq r.profile_id commitment_profile_id ≡ true
      same = subst (λ (t : Bytes). bytes_eq t commitment_profile_id ≡ true) (sym profile) refl

      epoch_ok : (r.segment_number == 0 && not (bytes_eq r.prev_segment_sha256 zero_sha256)) ≡ false
      epoch_ok = elim (Bool-cases (r.segment_number == 0)) [
        | inr later ↦ rw later refl
        | inl start ↦
            let zeros : bytes_eq r.prev_segment_sha256 zero_sha256 ≡ true =
              subst (λ (t : Bytes). bytes_eq t zero_sha256 ≡ true) (sym (first (==→eq _ _ start)))
                refl in
            rw (start, zeros) refl
      ]
