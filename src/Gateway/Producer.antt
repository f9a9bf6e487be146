-- ===== src/Gateway/Producer.antt =====
-- producer.rs of the gateway service: the data of the ledger producer, its errors and close reasons.
--
-- A text is its bytes. Where the source keeps the text of an error that it wraps, the model keeps
-- that error.
pub mod Counters
pub mod Construct
pub mod Expiry
pub mod Runs
pub mod Deltas
pub mod Admit
pub mod Store
pub mod Monad
pub mod Commit
pub mod Control
pub mod Batch
pub mod Start
use trackone.Prelude.{
  ℕ, ◌+◌, ◌^◌, Bool, true, false, Option, none, some, List, [], ◌∷◌, String, ltb, leb,
  if◌then◌else◌,
}
use trackone.Prelude.Outcome.{Outcome, done, failed}
use trackone.Prelude.Text.{codes}
use trackone.Ledger.Hash.{Bytes}
use trackone.Ledger.Vtl.Policy.{ClosurePolicy, ClosurePolicyError, Checked, validate}
use trackone.Ledger.Vtl.Policy
use trackone.Ledger.Vtl.Error.{SegmentDecodeError}
use trackone.Ledger.Vtl.Chain.{SegmentConstructionError}

pub record OpenInterval : Type 0 where
  pub opened_at_ms : ℕ
  pub clock_continuity_id : ℕ
  pub policy : ClosurePolicy
  pub records : List Bytes
  pub byte_count : ℕ

pub record ProducerState : Type 0 where
  pub revision : ℕ
  pub active : Bool
  pub ledger_id : Bytes
  pub site_id : Bytes
  pub next_segment_number : ℕ
  pub predecessor_cbor : Option Bytes
  pub open_interval : OpenInterval
  pub next_policy : ClosurePolicy

pub data CloseReason : Type 0 where
  recovery shutdown reconfigure size_limit record_limit interval manual : CloseReason

pub record SealedSegment : Type 0 where
  pub segment_number : ℕ
  pub close_reason : CloseReason
  pub artifact_cbor : Bytes
  pub artifact_sha256 : Bytes
  pub records : List Bytes

pub data RecordDestination : Type 0 where
  to_open : ℕ → RecordDestination
  to_sealed : ℕ → ℕ → RecordDestination

pub record AdmittedRecordDelta : Type 0 where
  pub record_cbor : Bytes
  pub destination : RecordDestination

pub record IdempotencyRecord : Type 0 where
  pub key : Bytes
  pub request_sha256 : Bytes
  pub admitted_segment_numbers : List ℕ
  pub state_revision : ℕ
  pub sealed_segment_numbers : List ℕ

pub record LedgerTransition : Type 0 where
  pub previous_open_count : ℕ
  pub admitted_records : List AdmittedRecordDelta
  pub next_state : ProducerState
  pub sealed : List SealedSegment
  pub idempotency : Option IdempotencyRecord

pub record AdmissionRun : Type 0 where
  pub segment_number : ℕ
  pub record_count : ℕ

pub record AdmissionOutcome : Type 0 where
  pub state_revision : ℕ
  pub admitted_segment_number : ℕ
  pub admitted_record_count : ℕ
  pub admission_runs : List AdmissionRun
  pub sealed : List SealedSegment
  pub sealed_segment_numbers : List ℕ
  pub replayed : Bool

-- What `InvalidConfiguration` says: a policy's error, or a text of the producer's own.
pub data ConfigurationFault : Type 0 where
  bad_policy : ClosurePolicyError → ConfigurationFault
  bad_setting : String → ConfigurationFault

-- What `InvalidRecord` says.
pub data RecordFault : Type 0 where
  empty_batch : RecordFault
  record_at : ℕ → SegmentDecodeError → RecordFault

-- What `Construction` says.
pub data ConstructionFault : Type 0 where
  segment_fault : SegmentConstructionError → ConstructionFault
  artifact_fault : String → ConstructionFault

pub data ProducerError : Type 0 where
  invalid_configuration : ConfigurationFault → ProducerError
  invalid_record : RecordFault → ProducerError
  clock_failed : String → ProducerError
  clock_discontinuity : ProducerError
  serial_exhausted : ProducerError
  counter_overflow : String → ProducerError
  store_failed : String → ProducerError
  queue_capacity_exhausted : ProducerError
  storage_capacity_exhausted : ProducerError
  storage_unavailable : String → ProducerError
  database_read_only : ProducerError
  timestamp_configuration : String → ProducerError
  timestamp_submission : String → ProducerError
  timestamp_verification : String → ProducerError
  timestamp_persistence : String → ProducerError
  concurrent_writer : ProducerError
  idempotency_conflict : ProducerError
  inactive : ProducerError
  construction : ConstructionFault → ProducerError

-- `CloseReason::as_str`.
unfoldable pub as_str : CloseReason → Bytes
as_str recovery = codes "recovery"
as_str shutdown = codes "shutdown"
as_str reconfigure = codes "reconfigure"
as_str size_limit = codes "size_limit"
as_str record_limit = codes "record_limit"
as_str interval = codes "interval"
as_str manual = codes "manual"

unfoldable pub precedence : CloseReason → ℕ
precedence recovery = 7
precedence shutdown = 6
precedence reconfigure = 5
precedence manual = 4
precedence size_limit = 3
precedence record_limit = 2
precedence interval = 1

-- `max_by_key`: of equal keys the last one.
unfoldable pub highest_from : CloseReason → List CloseReason → CloseReason
unfolding precedence
highest_from best [] = best
highest_from best (reason ∷ reasons) =
    highest_from (if leb (precedence best) (precedence reason) then reason else best) reasons

unfoldable pub highest : List CloseReason → Option CloseReason
unfolding highest_from
highest [] = none
highest (reason ∷ reasons) = some (highest_from reason reasons)

-- `u64::checked_add`.
unfoldable pub checked_add : ℕ → ℕ → Option ℕ
checked_add a b = if leb (2 ^ 64) (a + b) then none else some (a + b)

-- `Option::ok_or`.
abbrev pub ok_or {ℓ} : {A : Type ℓ} → Option A → ProducerError → Outcome ProducerError A
ok_or none e = failed e
ok_or (some a) e = done a

-- `u64::try_from` of a `usize`.
unfoldable pub count_u64 : ℕ → String → Outcome ProducerError ℕ
count_u64 n counter = if ltb n (2 ^ 64) then done n else failed (counter_overflow counter)

unfoldable pub validate_policy : ClosurePolicy → Outcome ProducerError (Unit {0})
validate_policy policy = elim (validate policy) [
  | Policy.failed e ↦ failed (invalid_configuration (bad_policy e))
  | Policy.passed ↦ done tt
]
