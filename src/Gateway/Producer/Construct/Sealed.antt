-- ===== src/Gateway/Producer/Construct/Sealed.antt =====
-- producer.rs: what `construct_segment` returns from a state whose chain is intact.
use trackone.Prelude.{
  ℕ, ◌+◌, ◌-◌, ◌^◌, ◌<◌, ◌≡◌, ◌⊎◌, refl, sym, ◌∙◌, arith, true, ◌&&◌, not, inl, inr, Option, none,
  some, List, [], ◌∷◌, length, ◌==◌, Bool-cases, eq→==, ==→eq, ne→not_==, not_==→ne,
}
use mathlib.Core.Path.{subst}
use trackone.Prelude.Outcome.{done, failed}
use trackone.Ledger.Hash.{Bytes, Hash}
use trackone.Ledger.Vtl.Policy.{ClosurePolicy, passed, validate}
use trackone.Ledger.Vtl.Merkle.{merkle_root_from_records}
use trackone.Ledger.Vtl.Merkle.Digests.{IsDigest}
use trackone.Ledger.Vtl.Segment.{
  SegmentRecord, zero_sha256, valid_hex, validate_detailed, canonical_cbor_bytes, segment_bytes,
  built,
}
use trackone.Ledger.Vtl.Segment.Value.{IsTyped}
use trackone.Ledger.Vtl.Segment.Valid.{canonical_cbor_bytes_valid}
use trackone.Ledger.Vtl.Chain.{SegmentChainPosition, SegmentContent, segment_at}
use trackone.Ledger.Vtl.Chain.Links.{
  Produced, opened, extended, Follows, epoch_built, new_successor-Follows, Produced_decodes,
  new_epoch_complete, new_successor_complete,
}
use trackone.Ledger.Vtl.Error.{ok}
use trackone.Ledger.Vtl.Decode.{decode_segment_record}
use trackone.Gateway.Producer.{ProducerState, CloseReason, as_str, serial_exhausted, count_u64}
use trackone.Gateway.Producer.Counters.{count_u64-fits, checked_add-fits}
use trackone.Gateway.Producer.Construct.{
  no_records, is_suppress, closes_empty, is_some, reopened, advanced, segment_content,
  chain_segment, sealed_segment, commit_records, construct_segment,
}
use trackone.Gateway.Producer.Construct.Content.{
  Sealable, sealable, Kept, sealed_at, leaves_of, segment_valid, segment-IsTyped, IsTypedPolicy,
}

abbrev pub total_bytes : List Bytes → ℕ
total_bytes [] = 0
total_bytes (r ∷ rs) = length r + total_bytes rs

module _ (sha256 : Bytes → Hash) where
  -- The predecessor's artifact is the last one of a chain from an epoch of the ledger, and the next
  -- number is the one behind it.
  abbrev pub Chained : Bytes → Option Bytes → ℕ → Type 0
  Chained ledger none number = number ≡ 0
  Chained ledger (some artifact) number =
      (p : SegmentRecord) × Produced sha256 ledger p artifact × (number ≡ p.segment_number + 1)

  -- The invariant of a producer's state.
  pub record IsLedger (s : ProducerState) : Type 0 where
    pub hex : valid_hex s.ledger_id 32 ≡ true
    pub open_valid : validate s.open_interval.policy ≡ passed
    pub open_typed : IsTypedPolicy s.open_interval.policy
    pub next_valid : validate s.next_policy ≡ passed
    pub next_typed : IsTypedPolicy s.next_policy
    pub bytes : s.open_interval.byte_count ≡ total_bytes s.open_interval.records
    pub number_word : s.next_segment_number < 2 ^ 64
    pub chained : Chained s.ledger_id s.predecessor_cbor s.next_segment_number

  -- A segment is the next one behind an artifact, or the first one of the ledger.
  abbrev pub Continues : Bytes → Option Bytes → SegmentRecord → Type 0
  Continues ledger none s =
      (s.ledger_id ≡ ledger) × (s.segment_number ≡ 0) × (s.prev_segment_sha256 ≡ zero_sha256)
  Continues ledger (some before) s =
      (p : SegmentRecord) × (decode_segment_record sha256 before ≡ ok p) × Follows sha256 before p s

  chain_segment-Continues :
      (ledger : Bytes) (predecessor : Option Bytes) (c : SegmentContent) (s : SegmentRecord)
      → chain_segment sha256 predecessor ledger c ≡ built s
      → Continues ledger predecessor s
  unfolding chain_segment
  chain_segment-Continues ledger none c s h =
      let (same, first, zeros, _) = epoch_built sha256 ledger c s h in (same, first, zeros)
  chain_segment-Continues ledger (some before) c s h = new_successor-Follows sha256 before c s h

  -- The place of the next segment.
  record Place (ledger : Bytes) (predecessor : Option Bytes) (number : ℕ) : Type 0 where
    position : SegmentChainPosition
    ledger_same : position.ledger_id ≡ ledger
    number_same : position.segment_number ≡ number
    digest : IsDigest position.predecessor_sha256
    first : position.segment_number ≡ 0 → position.predecessor_sha256 ≡ zero_sha256
    builds :
        (c : SegmentContent)
        → validate_detailed sha256 (segment_at position c) ≡ passed
        → chain_segment sha256 predecessor ledger c ≡ built (segment_at position c)
    produces :
        (c : SegmentContent) (artifact : Bytes)
        → validate_detailed sha256 (segment_at position c) ≡ passed
        → IsTyped (segment_at position c)
        → canonical_cbor_bytes sha256 (segment_at position c) ≡ built artifact
        → Produced sha256 ledger (segment_at position c) artifact

  module _ (digests : (message : Bytes) → length (sha256 message) ≡ 32) where
    place :
        (ledger : Bytes) (predecessor : Option Bytes) (number : ℕ)
        → Chained ledger predecessor number
        → number < 2 ^ 64
        → Place ledger predecessor number
    unfolding chain_segment
    place ledger none number chain small = record {
      position = record {
        ledger_id = ledger;
        segment_number = 0;
        predecessor_sha256 = zero_sha256;
      };
      ledger_same = refl;
      number_same = sym chain;
      digest = refl;
      first = λ e. refl;
      builds = λ c valid. new_epoch_complete sha256 ledger c valid;
      produces = λ c artifact valid typed bytes.
          opened c (new_epoch_complete sha256 ledger c valid) typed bytes;
    }
    place ledger (some artifact) number (p, produced, after) small =
        let (decoded, same) = Produced_decodes sha256 ledger produced in
        let fits : p.segment_number + 1 < 2 ^ 64 = omega arith in
        record {
          position = record {
            ledger_id = p.ledger_id;
            segment_number = p.segment_number + 1;
            predecessor_sha256 = sha256 artifact;
          };
          ledger_same = same;
          number_same = sym after;
          digest = digests artifact;
          first = λ e. absurd (omega arith);
          builds = λ c valid. new_successor_complete sha256 artifact c p decoded fits valid;
          produces = λ c bytes valid typed e.
              extended c produced (new_successor_complete sha256 artifact c p decoded fits valid)
                typed e;
        }

    -- A segment sealed from a state, and the state behind it.
    pub record Sealing (s : ProducerState) (at : ℕ) (reason : CloseReason) : Type 0 where
      pub segment : SegmentRecord
      pub room : s.next_segment_number + 1 < 2 ^ 64
      pub artifact : Bytes
      pub result :
          construct_segment sha256 s at reason
          ≡ done (
            some (
                sealed_segment sha256 reason s.open_interval.records s.next_segment_number
                  artifact),
            advanced (reopened s at) artifact (s.next_segment_number + 1),
          )
      pub number : segment.segment_number ≡ s.next_segment_number
      pub continues : Continues s.ledger_id s.predecessor_cbor segment
      pub reason_same : segment.close_reason ≡ as_str reason
      pub encoded : canonical_cbor_bytes sha256 segment ≡ built artifact
      pub count : segment.record_count ≡ length s.open_interval.records
      pub root :
          segment.segment_root ≡ (merkle_root_from_records sha256 s.open_interval.records).root
      pub policy : segment.closure_policy ≡ s.open_interval.policy
      pub produced : Produced sha256 s.ledger_id segment artifact

    commits :
        (t : ProducerState) (policy : ClosurePolicy) (reason : CloseReason) (records : List Bytes)
        (roots : List Hash) (segment : SegmentRecord) (artifact : Bytes)
        → Sealable sha256 policy records roots
        → length records < 2 ^ 64
        → t.next_segment_number + 1 < 2 ^ 64
        → chain_segment sha256 t.predecessor_cbor t.ledger_id (
            segment_content policy reason
              (length (leaves_of sha256 records))
              roots
              (merkle_root_from_records sha256 records).root)
          ≡ built segment
        → segment.segment_number ≡ t.next_segment_number
        → canonical_cbor_bytes sha256 segment ≡ built artifact
        → commit_records sha256 t policy reason records
          ≡ done (
            some (sealed_segment sha256 reason records t.next_segment_number artifact),
            advanced t artifact (t.next_segment_number + 1),
          )
    unfolding commit_records
    commits t policy reason records roots segment artifact s small room builds same bytes =
        let counted : count_u64 (length (leaves_of sha256 records)) "segment record"
            ≡ done (length (leaves_of sha256 records)) =
          count_u64-fits _ "segment record" (omega (arith, s.count)) in
        rw
          (
            s.found,
            counted,
            builds,
            eq→== _ _ same,
            bytes,
            checked_add-fits t.next_segment_number 1 room,
            same,
            commit_records,
          )
          refl

    goes_on :
        (s : ProducerState) (at : ℕ) (reason : CloseReason)
        → Kept s.open_interval.policy reason s.open_interval.records
        → s.next_segment_number + 1 < 2 ^ 64
        → construct_segment sha256 s at reason
          ≡ commit_records sha256
              (reopened s at)
              s.open_interval.policy
              reason
              s.open_interval.records
    unfolding construct_segment reopened
    goes_on s at reason kept room =
        rw (kept, ne→not_== s.next_segment_number (2 ^ 64 - 1) (omega arith)) refl

    pub seals :
        (s : ProducerState) (at : ℕ) (reason : CloseReason)
        → IsLedger s
        → length s.open_interval.records < 2 ^ 64
        → Kept s.open_interval.policy reason s.open_interval.records
        → s.next_segment_number + 1 < 2 ^ 64
        → Sealing s at reason
    unfolding segment_at segment_content reopened
    seals s at reason l small kept room =
        let policy : ClosurePolicy = s.open_interval.policy in
        let records : List Bytes = s.open_interval.records in
        let (roots, found) = sealable sha256 digests policy records l.open_valid small in
        let here =
          place s.ledger_id s.predecessor_cbor s.next_segment_number l.chained l.number_word in
        let segment : SegmentRecord = sealed_at sha256 here.position policy reason records roots in
        let valid : validate_detailed sha256 segment ≡ passed =
          segment_valid sha256 digests here.position policy reason records roots l.open_valid
            (subst (λ (t : Bytes). valid_hex t 32 ≡ true) (sym here.ledger_same) l.hex) here.first
            kept found in
        let typed : IsTyped segment =
          segment-IsTyped sha256 digests here.position policy reason records roots l.open_typed
            (omega (arith, here.number_same, l.number_word)) here.digest small found in
        let bytes : canonical_cbor_bytes sha256 segment ≡ built (segment_bytes segment) =
          canonical_cbor_bytes_valid sha256 segment valid in
        let content : SegmentContent =
          segment_content policy reason (length (leaves_of sha256 records)) roots
            (merkle_root_from_records sha256 records).root in
        record {
          segment = segment;
          room = room;
          artifact = segment_bytes segment;
          result =
              goes_on s at reason kept room
              ∙ commits (reopened s at) policy reason records roots segment (segment_bytes segment)
                  found small room (here.builds content valid) here.number_same bytes;
          number = here.number_same;
          continues =
              chain_segment-Continues s.ledger_id s.predecessor_cbor content segment
                (here.builds content valid);
          reason_same = refl;
          encoded = bytes;
          count = found.count;
          root = refl;
          policy = refl;
          produced = here.produces content (segment_bytes segment) valid typed bytes;
        }

    -- A producer whose chain is intact and whose interval holds fewer than 2^64 records does one of
    -- three things when it closes the interval. An empty interval under the suppress mode, closed
    -- for another reason than shutdown or recovery, only opens the next interval. Behind the segment
    -- with number 2^64 - 2 the serial is exhausted. In every other case a segment is sealed and its
    -- canonical bytes are the next artifact: it has the next number, the interval's policy, the
    -- reason, its records' count and Merkle root. Behind an artifact it is the successor of the
    -- segment that this artifact decodes to, with the artifact's digest, and without one it is the
    -- first segment of the ledger, with zeros: the construction cannot fail. SHA-256 is any function
    -- to 32 bytes.
    pub construct_segment_cases :
        (s : ProducerState) (at : ℕ) (reason : CloseReason)
        → IsLedger s
        → length s.open_interval.records < 2 ^ 64
        → ((no_records s.open_interval.records
                && (is_suppress s.open_interval.policy.empty_mode && not (closes_empty reason))
              ≡ true)
            × (construct_segment sha256 s at reason ≡ done (none, reopened s at)))
          ⊎ (((s.next_segment_number ≡ 2 ^ 64 - 1)
                × (construct_segment sha256 s at reason ≡ failed serial_exhausted))
              ⊎ Sealing s at reason)
    unfolding construct_segment reopened
    construct_segment_cases s at reason l small =
        elim (Bool-cases (
          no_records s.open_interval.records
          && (is_suppress s.open_interval.policy.empty_mode && not (closes_empty reason)))) [
            | inl suppressed ↦ inl (suppressed, rw suppressed refl)
            | inr kept ↦ elim (Bool-cases (s.next_segment_number == 2 ^ 64 - 1)) [
              | inr room ↦ inr (
                  inr (
                    seals s at reason l small kept
                      (omega (arith, l.number_word, not_==→ne _ _ room))))
              | inl last ↦ inr (
                  inl (
                    ==→eq _ _ last,
                    rw (kept, last, has_artifact s.predecessor_cbor l.chained (==→eq _ _ last))
                        refl,
                  ))
            ]
          ]
      where
        has_artifact :
            (o : Option Bytes)
            → Chained s.ledger_id o s.next_segment_number
            → s.next_segment_number ≡ 2 ^ 64 - 1
            → is_some o ≡ true
        has_artifact none chain last = absurd (omega arith)
        has_artifact (some artifact) chain last = refl
