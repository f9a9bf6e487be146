-- ===== src/Ledger/Vtl/Chain/Links.antt =====
-- vtl.rs: segments built on one another, and the histories they make.
use trackone.Prelude.{
  ℕ, ◌+◌, ◌<◌, ◌^◌, ◌≡◌, refl, sym, ap, ◌∙◌, arith, some, inl, inr, Option-cases,
}
use mathlib.Core.Path.{subst}
use trackone.Ledger.Hash.{Bytes, Hash}
use trackone.Ledger.Vtl.Policy.{passed, Checked-cases}
use trackone.Ledger.Vtl.Error.{ok, Result-cases, ok-injective}
use trackone.Ledger.Vtl.Segment.{
  SegmentRecord, zero_sha256, validate_detailed, canonical_cbor_bytes, built,
}
use trackone.Ledger.Vtl.Segment.Value.{IsTyped}
use trackone.Ledger.Vtl.Decode.{decode_segment_record}
use trackone.Ledger.Vtl.Decode.RoundTrip.{decode_segment_record-canonical}
use trackone.Ledger.Vtl.Chain.{
  SegmentChainPosition, SegmentContent, segment_at, checked_suc, new_at_position, new_epoch,
  successor_of, new_successor,
}

checked_suc-some : (n m : ℕ) → checked_suc n ≡ some m → (m ≡ n + 1) × (m < 2 ^ 64)
unfolding checked_suc
checked_suc-some n m h = ground arith

checked_suc_complete : (n : ℕ) → n + 1 < 2 ^ 64 → checked_suc n ≡ some (n + 1)
unfolding checked_suc
checked_suc_complete n small = ground arith

module _ (sha256 : Bytes → Hash) where
  built_at :
      (p : SegmentChainPosition) (c : SegmentContent) (s : SegmentRecord)
      → new_at_position sha256 p c ≡ built s
      → (s ≡ segment_at p c) × (validate_detailed sha256 s ≡ passed)
  unfolding new_at_position
  built_at p c s h = elim (Checked-cases (validate_detailed sha256 (segment_at p c))) [
    | inr (e, bad) ↦ absurd (cc (rw (bad, new_at_position) at h))
    | inl valid ↦
        let e : segment_at p c ≡ s = cc (rw (valid, new_at_position) at h) in
        (sym e, subst (λ t. validate_detailed sha256 t ≡ passed) e valid)
  ]

  -- A segment starts a chain or follows the artifact in front of it.
  pub record Follows (predecessor_bytes : Bytes) (p s : SegmentRecord) : Type 0 where
    pub same_ledger : s.ledger_id ≡ p.ledger_id
    pub next_number : s.segment_number ≡ p.segment_number + 1
    pub in_range : s.segment_number < 2 ^ 64
    pub commits : s.prev_segment_sha256 ≡ sha256 predecessor_bytes
    pub is_valid : validate_detailed sha256 s ≡ passed

  successor_Follows :
      (input : Bytes) (c : SegmentContent) (p s : SegmentRecord)
      → successor_of sha256 input c p ≡ built s
      → Follows input p s
  unfolding successor_of
  successor_Follows input c p s h = elim (Option-cases (checked_suc p.segment_number)) [
    | inl full ↦ absurd (cc (rw (full, successor_of) at h))
    | inr (number, e) ↦
        let (shape, valid) = built_at _ c s (rw (e, successor_of) at h) in
        let (next, small) = checked_suc-some p.segment_number number e in
        record {
          same_ledger = ap (λ (t : SegmentRecord). t.ledger_id) shape ∙ unfold segment_at in refl;
          next_number =
              ap (λ (t : SegmentRecord). t.segment_number) shape ∙ unfold segment_at in next;
          in_range =
              rw (ap (λ (t : SegmentRecord). t.segment_number) shape) (unfold segment_at in small);
          commits =
              ap (λ (t : SegmentRecord). t.prev_segment_sha256) shape ∙ unfold segment_at in refl;
          is_valid = valid;
        }
  ]

  -- A successor is built only from bytes that decode to a segment, and then continues it: the same
  -- ledger, the next number, within 64 bits, the digest of exactly those bytes as predecessor, and
  -- every invariant of a segment.
  pub new_successor-Follows :
      (predecessor_bytes : Bytes) (c : SegmentContent) (s : SegmentRecord)
      → new_successor sha256 predecessor_bytes c ≡ built s
      → (p : SegmentRecord) × (decode_segment_record sha256 predecessor_bytes ≡ ok p)
        × Follows predecessor_bytes p s
  unfolding new_successor
  new_successor-Follows input c s h = elim (Result-cases (decode_segment_record sha256 input)) [
    | inr (e, bad) ↦ absurd (cc (rw (bad, new_successor) at h))
    | inl (p, e) ↦ (p, e, successor_Follows input c p s (rw (e, new_successor) at h))
  ]

  pub new_at_position_complete :
      (p : SegmentChainPosition) (c : SegmentContent)
      → validate_detailed sha256 (segment_at p c) ≡ passed
      → new_at_position sha256 p c ≡ built (segment_at p c)
  unfolding new_at_position
  new_at_position_complete p c valid = rw (valid, new_at_position) refl

  pub new_epoch_complete :
      (ledger : Bytes) (c : SegmentContent)
      → let position : SegmentChainPosition = record {
        ledger_id = ledger;
        segment_number = 0;
        predecessor_sha256 = zero_sha256;
      } in
        validate_detailed sha256 (segment_at position c) ≡ passed
        → new_epoch sha256 ledger c ≡ built (segment_at position c)
  unfolding new_epoch
  new_epoch_complete ledger c valid = new_at_position_complete _ c valid

  -- A successor is built from every decodable predecessor whose number plus one is below 2^64, when
  -- the content meets the invariants of a segment at the next position.
  pub new_successor_complete :
      (predecessor_bytes : Bytes) (c : SegmentContent) (p : SegmentRecord)
      → decode_segment_record sha256 predecessor_bytes ≡ ok p
      → p.segment_number + 1 < 2 ^ 64
      → let position : SegmentChainPosition = record {
        ledger_id = p.ledger_id;
        segment_number = p.segment_number + 1;
        predecessor_sha256 = sha256 predecessor_bytes;
      } in
        validate_detailed sha256 (segment_at position c) ≡ passed
        → new_successor sha256 predecessor_bytes c ≡ built (segment_at position c)
  unfolding new_successor successor_of
  new_successor_complete input c p decoded small valid =
      rw (decoded, new_successor, checked_suc_complete p.segment_number small, successor_of)
        (new_at_position_complete _ c valid)

  -- A segment and its artifact, produced from an epoch by successors only.
  pub data Produced (ledger : Bytes) : SegmentRecord → Bytes → Type 0 where
    opened :
        {s : SegmentRecord} {artifact : Bytes} (c : SegmentContent)
        → new_epoch sha256 ledger c ≡ built s
        → IsTyped s
        → canonical_cbor_bytes sha256 s ≡ built artifact
        → Produced ledger s artifact
    extended :
        {p s : SegmentRecord} {before artifact : Bytes} (c : SegmentContent)
        → Produced ledger p before
        → new_successor sha256 before c ≡ built s
        → IsTyped s
        → canonical_cbor_bytes sha256 s ≡ built artifact
        → Produced ledger s artifact

  artifact_decodes :
      (s : SegmentRecord) (artifact : Bytes)
      → IsTyped s
      → validate_detailed sha256 s ≡ passed
      → canonical_cbor_bytes sha256 s ≡ built artifact
      → decode_segment_record sha256 artifact ≡ ok s
  artifact_decodes s artifact t valid e =
      let (found, bytes, decoded) = decode_segment_record-canonical sha256 s t valid in
      let same : found ≡ artifact = cc (sym bytes ∙ e) in rw same at decoded

  pub epoch_built :
      (ledger : Bytes) (c : SegmentContent) (s : SegmentRecord)
      → new_epoch sha256 ledger c ≡ built s
      → (s.ledger_id ≡ ledger)
        × (s.segment_number ≡ 0)
        × (s.prev_segment_sha256 ≡ zero_sha256)
        × (validate_detailed sha256 s ≡ passed)
  unfolding new_epoch
  epoch_built ledger c s h =
      let (shape, valid) = built_at _ c s h in
      (
        ap (λ (t : SegmentRecord). t.ledger_id) shape ∙ unfold segment_at in refl,
        ap (λ (t : SegmentRecord). t.segment_number) shape ∙ unfold segment_at in refl,
        ap (λ (t : SegmentRecord). t.prev_segment_sha256) shape ∙ unfold segment_at in refl,
        valid,
      )

  -- Every artifact of a history, produced from an epoch by successors with fields in the ranges of
  -- their types, decodes to the segment that it was made from, and belongs to the epoch's ledger.
  pub Produced_decodes :
      (ledger : Bytes) {s : SegmentRecord} {artifact : Bytes}
      → Produced ledger s artifact
      → (decode_segment_record sha256 artifact ≡ ok s) × (s.ledger_id ≡ ledger)
  Produced_decodes ledger (opened {s} {artifact} c h t e) =
      let (same, _, _, valid) = epoch_built ledger c s h in
      (artifact_decodes s artifact t valid e, same)
  Produced_decodes ledger (extended {p} {s} {before} {artifact} c older h t e) =
      let (decoded, same) = Produced_decodes ledger older in
      let (q, decoded', follows) = new_successor-Follows before c s h in
      let p≡q : p ≡ q = ok-injective (sym decoded ∙ decoded') in
      (
        artifact_decodes s artifact t follows.is_valid e,
        follows.same_ledger ∙ ap (λ (r : SegmentRecord). r.ledger_id) (sym p≡q) ∙ same,
      )
