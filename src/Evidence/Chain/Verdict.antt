-- ===== src/Evidence/Chain/Verdict.antt =====
-- apps/trackone-evidence/src/vtl/chain.rs: the verdict on a disclosed predecessor.
use trackone.Prelude.{
  ℕ, ◌+◌, ◌<◌, ◌^◌, ◌≡◌, refl, sym, ◌∙◌, arith, true, false, some, ◌==◌, inl, inr, Bool-cases,
  ne→not_==,
}
use trackone.Prelude.Text.{bytes_eq, bytes_eq→eq, bytes_eq_refl}
use trackone.Ledger.Hash.{Bytes, Hash}
use trackone.Ledger.Vtl.Error.{ok, Result-cases}
use trackone.Ledger.Vtl.Segment.{SegmentRecord, zero_sha256}
use trackone.Ledger.Vtl.Segment.Valid.{validated_fields}
use trackone.Ledger.Vtl.Decode.{decode_segment_record}
use trackone.Ledger.Vtl.Decode.Exact.{decode_segment_record_exact}
use trackone.Ledger.Vtl.Chain.{checked_suc}
use trackone.Ledger.Vtl.Chain.Links.{
  Follows, Produced, opened, extended, new_successor-Follows, epoch_built,
}
use trackone.Evidence.Conclusions.{Conclusions, ChainStatus, epoch, validated, fail}
use trackone.Evidence.Chain.{
  Predecessor, not_disclosed, unreadable, artifact, concluded, is_number, links_to, link_valid,
  validate_chain,
}

next_is_number : (n m : ℕ) → m ≡ n + 1 → m < 2 ^ 64 → is_number (checked_suc n) m ≡ true
unfolding checked_suc
next_is_number n m e h = ground arith

number_is_next : (n m : ℕ) → is_number (checked_suc n) m ≡ true → m ≡ n + 1
unfolding checked_suc
number_is_next n m h = ground arith

module _ (sha256 : Bytes → Hash) where
  Follows-links :
      (input : Bytes) (p s : SegmentRecord)
      → p.profile_id ≡ s.profile_id
      → Follows sha256 input p s
      → links_to sha256 input p s ≡ true
  unfolding links_to
  Follows-links input p s profile f =
      rw
        (
          f.same_ledger,
          bytes_eq_refl p.ledger_id,
          profile,
          bytes_eq_refl s.profile_id,
          next_is_number p.segment_number s.segment_number f.next_number f.in_range,
          f.commits,
          bytes_eq_refl (sha256 input),
        )
        refl

  -- What a bundle discloses of a produced segment's past: nothing at the epoch, and behind it the
  -- artifact that the segment was built on.
  abbrev pub disclosed :
      {ledger artifact : Bytes} {s : SegmentRecord}
      → Produced sha256 ledger s artifact
      → Predecessor
  disclosed (opened c h t e) = not_disclosed
  disclosed (extended {before = before} c older h t e) = artifact before

  abbrev pub expected :
      {ledger artifact : Bytes} {s : SegmentRecord}
      → Produced sha256 ledger s artifact
      → ChainStatus
  expected (opened c h t e) = epoch
  expected (extended c older h t e) = validated

  -- The verifier accepts every history that the constructors produce: it reports an epoch, or a
  -- validated link to the disclosed artifact in front, and records no failure.
  pub validate_chain-Produced :
      {ledger bytes : Bytes} {s : SegmentRecord} (h : Produced sha256 ledger s bytes)
      (c : Conclusions)
      → validate_chain sha256 (disclosed h) s c ≡ concluded (expected h) c
  unfolding validate_chain
  validate_chain-Produced {ledger} (opened {s} content h t e) c =
      let (_, number, prev, _) = epoch_built sha256 ledger content s h in rw (number, prev) refl
  validate_chain-Produced {ledger} (extended {p} {s} {before} content older h t e) c =
      let (q, decoded, follows) = new_successor-Follows sha256 before content s h in
      let (valid, _) = decode_segment_record_exact sha256 before q decoded in
      let (_, profile_q, _, _) = validated_fields sha256 q valid in
      let (_, profile_s, _, _) = validated_fields sha256 s follows.is_valid in
      let links : links_to sha256 before q s ≡ true =
        Follows-links before q s (profile_q ∙ sym profile_s) follows in
      let not_first : (s.segment_number == 0) ≡ false =
        ne→not_== s.segment_number 0 (omega (arith, follows.next_number)) in
      let link : link_valid sha256 before s ≡ true =
        unfold link_valid in rw (decoded, link_valid) links in
      rw (not_first, link) refl

  links_sound :
      (input : Bytes) (p s : SegmentRecord)
      → links_to sha256 input p s ≡ true
      → (p.ledger_id ≡ s.ledger_id)
        × (p.profile_id ≡ s.profile_id)
        × (s.segment_number ≡ p.segment_number + 1)
        × (sha256 input ≡ s.prev_segment_sha256)
  unfolding links_to
  links_sound input p s h = ground (
    arith,
    bytes_eq→eq p.ledger_id s.ledger_id,
    bytes_eq→eq p.profile_id s.profile_id,
    number_is_next p.segment_number s.segment_number,
    bytes_eq→eq (sha256 input) s.prev_segment_sha256,
  )

  Linked : Predecessor → SegmentRecord → Type 0
  Linked predecessor s =
      (bytes : Bytes) × (p : SegmentRecord) × (predecessor ≡ artifact bytes)
      × (decode_segment_record sha256 bytes ≡ ok p)
      × (p.ledger_id ≡ s.ledger_id)
      × (p.profile_id ≡ s.profile_id)
      × (s.segment_number ≡ p.segment_number + 1)
      × (sha256 bytes ≡ s.prev_segment_sha256)

  link_valid-Linked :
      (bytes : Bytes) (s : SegmentRecord)
      → link_valid sha256 bytes s ≡ true
      → Linked (artifact bytes) s
  unfolding link_valid Linked
  link_valid-Linked bytes s h = elim (Result-cases (decode_segment_record sha256 bytes)) [
    | inr (e, bad) ↦ absurd (cc (rw (bad, link_valid) at h))
    | inl (p, e) ↦
        let (ledger, profile, number, digest) = links_sound bytes p s (rw (e, link_valid) at h) in
        (bytes, p, refl, e, ledger, profile, number, digest)
  ]

  -- Behind the first segment, the status says `validated` exactly when the link is valid.
  conclude_later :
      (predecessor : Predecessor) (s : SegmentRecord) (c : Conclusions)
      → (s.segment_number == 0) ≡ false
      → (validate_chain sha256 predecessor s c).chain_status ≡ some validated
      → Linked predecessor s
  unfolding validate_chain fail
  conclude_later not_disclosed s c later h = absurd (cc (rw (later, validate_chain) at h))
  conclude_later unreadable s c later h = absurd (cc (rw (later, validate_chain) at h))
  conclude_later (artifact bytes) s c later h = elim (Bool-cases (link_valid sha256 bytes s)) [
    | inl good ↦ link_valid-Linked bytes s good
    | inr bad ↦ absurd (cc (rw (later, validate_chain, bad) at h))
  ]

  -- A link is reported as validated only when the disclosed bytes decode to a valid segment of the
  -- same ledger and profile with the preceding number, and the segment commits to their digest.
  pub validated_link :
      (predecessor : Predecessor) (s : SegmentRecord) (c : Conclusions)
      → (validate_chain sha256 predecessor s c).chain_status ≡ some validated
      → (bytes : Bytes) × (p : SegmentRecord) × (predecessor ≡ artifact bytes)
        × (decode_segment_record sha256 bytes ≡ ok p)
        × (p.ledger_id ≡ s.ledger_id)
        × (p.profile_id ≡ s.profile_id)
        × (s.segment_number ≡ p.segment_number + 1)
        × (sha256 bytes ≡ s.prev_segment_sha256)
  unfolding validate_chain Linked fail
  validated_link predecessor s c h = elim (Bool-cases (s.segment_number == 0)) [
    | inr later ↦ conclude_later predecessor s c later h
    | inl first ↦ elim (Bool-cases (bytes_eq s.prev_segment_sha256 zero_sha256)) [
      | inl zero ↦ absurd (cc (rw (first, validate_chain, zero) at h))
      | inr other ↦ absurd (cc (rw (first, validate_chain, other) at h))
    ]
  ]
