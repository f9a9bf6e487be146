-- ===== src/Evidence/Chain.antt =====
-- apps/trackone-evidence/src/vtl/chain.rs: the link from a segment to its predecessor.
pub mod Verdict
use trackone.Prelude.{
  ℕ, ◌+◌, ◌^◌, ◌≡◌, Bool, true, false, ◌&&◌, not, Option, none, some, List, [], ◌∷◌, ◌==◌,
  if◌then◌else◌,
}
use trackone.Prelude.Text.{bytes_eq}
use trackone.Ledger.Hash.{Bytes, Hash}
use trackone.Ledger.Vtl.Error.{Result, ok, err}
use trackone.Ledger.Vtl.Segment.{SegmentRecord, zero_sha256}
use trackone.Ledger.Vtl.Decode.{decode_segment_record}
use trackone.Ledger.Vtl.Chain.{checked_suc}
use trackone.Evidence.Conclusions.{
  Conclusions, ChainStatus, fail, segment_chain_mismatch, epoch, validated,
  predecessor_not_disclosed,
}

-- The manifest's predecessor: not referenced, or what reading the referenced artifact returned.
pub data Predecessor : Type 0 where
  not_disclosed : Predecessor
  unreadable : Predecessor
  artifact : Bytes → Predecessor

abbrev pub concluded : ChainStatus → Conclusions → Conclusions
concluded status c = record c { chain_status = some status }

abbrev is_number : Option ℕ → ℕ → Bool
is_number none number = false
is_number (some n) number = n == number

-- What `is_ok_and` asks of the decoded predecessor.
links_to : (Bytes → Hash) → Bytes → SegmentRecord → SegmentRecord → Bool
links_to sha256 predecessor_bytes predecessor segment =
    bytes_eq predecessor.ledger_id segment.ledger_id
    && bytes_eq predecessor.profile_id segment.profile_id
    && is_number (checked_suc predecessor.segment_number) segment.segment_number
    && bytes_eq (sha256 predecessor_bytes) segment.prev_segment_sha256

link_valid : (Bytes → Hash) → Bytes → SegmentRecord → Bool
unfolding links_to
link_valid sha256 predecessor_bytes segment =
    elim (decode_segment_record sha256 predecessor_bytes) [
      | err e ↦ false
      | ok predecessor ↦ links_to sha256 predecessor_bytes predecessor segment
    ]

conclude_link : Bool → Conclusions → Conclusions
conclude_link true c = concluded validated c
conclude_link false c = fail segment_chain_mismatch (concluded ChainStatus.failed c)

pub validate_chain : (Bytes → Hash) → Predecessor → SegmentRecord → Conclusions → Conclusions
unfolding conclude_link
validate_chain sha256 predecessor segment c =
    if segment.segment_number == 0
    then if bytes_eq segment.prev_segment_sha256 zero_sha256
      then concluded epoch c
      else fail segment_chain_mismatch (concluded ChainStatus.failed c)
    else elim predecessor [
      | not_disclosed ↦ concluded predecessor_not_disclosed c
      | unreadable ↦ fail segment_chain_mismatch (concluded ChainStatus.failed c)
      | artifact bytes ↦ conclude_link (link_valid sha256 bytes segment) c
    ]
