-- ===== src/Examples/Producers.antt =====
-- A producer over a store in memory, with a short checksum in the place of SHA-256.
use trackone.Prelude.{
  ℕ, suc, ◌+◌, ◌-◌, ◌*◌, ◌^◌, ◌≤◌, ◌<◌, ◌≡◌, ◌⊎◌, refl, arith, true, false, none, some, List, [],
  ◌∷◌, ◌++◌, ◌&&◌, not, length, All,
}
use trackone.Prelude.Text.{codes, bytes_eq}
use trackone.Prelude.Bytes.{IsByte}
use trackone.Prelude.Utf8.{valid_utf8}
use trackone.Prelude.Outcome.{done, failed, done-injective}
use trackone.Ledger.Hash.{Bytes}
use trackone.Ledger.Vtl.Policy.{
  passed, validate, validate_limits, validate_batch_record_limit, is_power_of_two,
}
use trackone.Ledger.Vtl.Segment.{valid_hex}
use trackone.Gateway.Producer.{
  ProducerState, SealedSegment, LedgerTransition, AdmissionOutcome, AdmissionRun, manual,
  serial_exhausted,
}
use trackone.Gateway.Producer.Construct.{construct_segment}
use trackone.Gateway.Producer.Construct.Content.{IsTypedPolicy, Kept}
use trackone.Gateway.Producer.Construct.Sealed.{IsLedger, Sealing, seals, construct_segment_cases}
use trackone.Gateway.Producer.Construct.Kept.{Closed, construct_segment_closes}
use trackone.Gateway.Producer.Start.{initial_state}
use trackone.Gateway.Producer.Admit.{pushed}
use trackone.Gateway.Producer.{
  concurrent_writer, idempotency_conflict, to_open, checked_add, count_u64,
}
use trackone.Gateway.Producer.Deltas.{contains, starts_with}
use trackone.Gateway.Producer.Commit.{revised}
use trackone.Gateway.Producer.Construct.{
  no_records, is_suppress, closes_empty, reopened, advanced, sealed_segment,
}
use trackone.Gateway.Producer.Expiry.{close_expired, close_rounds}
use trackone.Gateway.Producer.Expiry.Ends.{Expired, close_expired_ends}
use trackone.Gateway.Producer.Runs.{admission_runs}
use trackone.Gateway.Producer.Runs.Lengths.{expand, AreMaximal, admission_runs_lengths}
use trackone.Gateway.Producer.Store.{
  MemoryLedgerStore, memory_store, memory_compare_and_swap, swapped,
}
use trackone.Gateway.Producer.Store.Memory.{Accepts, Extends, Stores, memory_compare_and_swap_cases}
use trackone.Gateway.Producer.Monad.{Clock, LedgerProducer}
use trackone.Gateway.Producer.Commit.Leaves.{Leaves, Conserves}
use trackone.Gateway.Producer.Control.{
  close, recover, update_policy, seal_expired_intervals, reactivate,
}
use trackone.Gateway.Producer.Control.Conserved.{control_methods_conserve}
use trackone.Gateway.Producer.Batch.{admit_batch_inner, admit_batch_idempotent_digest}
use trackone.Gateway.Producer.Batch.Conserved.{AdmitsBatch, admit_batch_conserves}
use trackone.Gateway.Producer.Batch.Later.{at_once, after, closes}
use trackone.Gateway.Producer.Batch.Replay.{SameAnswer, admit_again}
use trackone.Ledger.Vtl.Error.{ok}
use trackone.Ledger.Vtl.Cbor.{
  put_head, read_typed_argument, read_head, read_cbor_argument, read, consume_item,
}
use trackone.Ledger.Vtl.Record.{CanonicalRecordMetadataV1, validate_canonical_record}
use trackone.Ledger.Vtl.Record.Metadata.{
  metadata_bytes, IsTypedMetadata, validate_canonical_record_metadata,
}
use trackone.Gateway.TimestampWorker.{default_config, validate_config, retry_delay_ms}
use trackone.Gateway.TimestampWorker.Delays.{retry_delay_ms_bounds}
use trackone.Prelude.Integers.{ℤ, pos}
use Prim.Native.Nat.{min}
use trackone.Examples.Segments.{toy_digest, length-toy_digest, ledger, policy}

abbrev site : Bytes
site = codes "site-1"

-- Version 1, a device, counter 5, times, kind 1 and the payload 1.
abbrev telemetry : Bytes
telemetry =
    0x87 ∷ 0x01 ∷ 0x48 ∷ 1 ∷ 2 ∷ 3 ∷ 4 ∷ 5 ∷ 6 ∷ 7 ∷ 8 ∷ 0x05 ∷ 0x0a ∷ 0xf6 ∷ 0x01 ∷ 0x01 ∷ []

abbrev fresh_state : ProducerState
fresh_state = initial_state ledger site policy 0 7

-- One record is open.
abbrev state_with_record : ProducerState
state_with_record = pushed fresh_state telemetry 16

policy_valid : validate policy ≡ passed
unfolding validate validate_limits validate_batch_record_limit is_power_of_two
policy_valid = refl

policy_typed : IsTypedPolicy policy
policy_typed = record {
  interval_word = omega arith;
  limit_word = omega arith;
  record_limit_word = tt;
  size_limit_word = omega arith;
}

state_with_record-IsLedger : IsLedger toy_digest state_with_record
unfolding valid_hex initial_state pushed
state_with_record-IsLedger = record {
  hex = refl;
  open_valid = policy_valid;
  open_typed = policy_typed;
  next_valid = policy_valid;
  next_typed = policy_typed;
  bytes = refl;
  number_word = omega arith;
  chained = refl;
}

one_record : length state_with_record.open_interval.records ≡ 1
unfolding initial_state pushed
one_record = refl

opened_at_start : state_with_record.open_interval.opened_at_ms ≡ 0
unfolding initial_state pushed
opened_at_start = refl

first_number : state_with_record.next_segment_number ≡ 0
unfolding initial_state pushed
first_number = refl

record-Kept :
    Kept state_with_record.open_interval.policy manual state_with_record.open_interval.records
unfolding initial_state pushed
record-Kept = refl

abbrev sealing : Sealing toy_digest length-toy_digest state_with_record 10 manual
sealing =
    seals toy_digest length-toy_digest state_with_record 10 manual state_with_record-IsLedger
      (omega (arith, one_record)) record-Kept (omega (arith, first_number))

construct_segment_cases_example :
    ((no_records state_with_record.open_interval.records
          && (is_suppress state_with_record.open_interval.policy.empty_mode
              && not (closes_empty manual))
        ≡ true)
      × (construct_segment toy_digest state_with_record 10 manual
          ≡ done (none, reopened state_with_record 10)))
    ⊎ (((state_with_record.next_segment_number ≡ 2 ^ 64 - 1)
          × (construct_segment toy_digest state_with_record 10 manual ≡ failed serial_exhausted))
        ⊎ Sealing toy_digest length-toy_digest state_with_record 10 manual)
construct_segment_cases_example =
    construct_segment_cases toy_digest length-toy_digest state_with_record 10 manual
      state_with_record-IsLedger (omega (arith, one_record))

abbrev sealed_one : SealedSegment
sealed_one =
    sealed_segment toy_digest manual state_with_record.open_interval.records
      state_with_record.next_segment_number sealing.artifact

abbrev state_behind : ProducerState
state_behind =
    advanced (reopened state_with_record 10) sealing.artifact
      (state_with_record.next_segment_number + 1)

construct_segment_closes_example :
    Closed toy_digest state_with_record 10 (some sealed_one) state_behind
construct_segment_closes_example =
    construct_segment_closes toy_digest length-toy_digest state_with_record 10 manual
      (some sealed_one) state_behind state_with_record-IsLedger (omega (arith, one_record))
      sealing.result

close_expired_ends_example :
    (gs : List SealedSegment) × (t : ProducerState) × (close_expired toy_digest state_with_record
        2500
      ≡ done (gs, t))
    × ((rounds : ℕ)
        → 2500 - state_with_record.open_interval.opened_at_ms < rounds
        → close_rounds toy_digest rounds state_with_record 2500 ≡ done (gs, t))
    × Expired toy_digest state_with_record 2500 gs t
    × (2500 - t.open_interval.opened_at_ms < t.open_interval.policy.interval_ms)
close_expired_ends_example =
    close_expired_ends toy_digest length-toy_digest state_with_record 2500
      state_with_record-IsLedger (omega (arith, one_record)) (omega (arith, opened_at_start))
      (omega arith) (omega (arith, opened_at_start, first_number))

admission_runs_lengths_example :
    (runs : List AdmissionRun) × (admission_runs (3 ∷ 3 ∷ 4 ∷ []) ≡ done runs)
    × (expand runs ≡ 3 ∷ 3 ∷ 4 ∷ [])
    × AreMaximal runs
admission_runs_lengths_example = admission_runs_lengths (3 ∷ 3 ∷ 4 ∷ []) (omega arith)

abbrev clock : Clock
clock = record { now_ms = done 20; continuity_id = 7; later_continuity_id = 7 }

short_time : (now : ℕ) → clock.now_ms ≡ done now → now < 2 ^ 64
short_time now h = omega (arith, done-injective h)

abbrev stored_state : MemoryLedgerStore
stored_state = record {
  state = some state_with_record;
  sealed = [];
  idempotency = [];
  transitions = [];
}

abbrev producer : LedgerProducer MemoryLedgerStore
producer = record { store = stored_state; state = state_with_record }

control_methods_conserve_example :
    Leaves state_with_record
      (Conserves toy_digest state_with_record [])
      (close memory_store toy_digest clock manual producer)
    × Leaves state_with_record
        (Conserves toy_digest state_with_record [])
        (recover memory_store toy_digest clock producer)
    × Leaves state_with_record
        (Conserves toy_digest state_with_record [])
        (update_policy memory_store toy_digest clock policy true producer)
    × Leaves state_with_record
        (Conserves toy_digest state_with_record [])
        (seal_expired_intervals memory_store toy_digest clock producer)
    × Leaves state_with_record
        (λ u. Conserves toy_digest state_with_record [] [])
        (reactivate memory_store clock producer)
control_methods_conserve_example =
    control_methods_conserve toy_digest length-toy_digest memory_store clock producer
      state_with_record-IsLedger (omega (arith, one_record)) manual policy true policy_typed
      short_time

admit_batch_conserves_example :
    Leaves state_with_record
      (AdmitsBatch toy_digest length-toy_digest state_with_record (telemetry ∷ []))
      (admit_batch_inner memory_store toy_digest clock (telemetry ∷ []) none producer)
admit_batch_conserves_example =
    admit_batch_conserves toy_digest length-toy_digest memory_store clock (telemetry ∷ []) none
      producer state_with_record-IsLedger (omega (arith, one_record)) short_time

abbrev first_answer : AdmissionOutcome
first_answer = record {
  state_revision = 1;
  admitted_segment_number = 0;
  admitted_record_count = 1;
  admission_runs = record { segment_number = 0; record_count = 1 } ∷ [];
  sealed = [];
  sealed_segment_numbers = [];
  replayed = false;
}

abbrev state_with_two : ProducerState
state_with_two = revised (pushed state_with_record telemetry 32) 1

abbrev batch_transition : LedgerTransition
batch_transition = record {
  previous_open_count = 1;
  admitted_records = record { record_cbor = telemetry; destination = to_open 1 } ∷ [];
  next_state = state_with_two;
  sealed = [];
  idempotency = some (record {
    key = codes "key-1";
    request_sha256 = codes "digest-1";
    admitted_segment_numbers = 0 ∷ [];
    state_revision = 1;
    sealed_segment_numbers = [];
  });
}

abbrev producer_behind : LedgerProducer MemoryLedgerStore
producer_behind = record { store = swapped stored_state batch_transition; state = state_with_two }

batch_admitted :
    admit_batch_idempotent_digest memory_store toy_digest clock
      (codes "key-1")
      (telemetry ∷ [])
      (codes "digest-1")
      producer
    ≡ (done first_answer, producer_behind)
unfolding admit_batch_idempotent_digest memory_store memory_compare_and_swap initial_state pushed
    revised validate_canonical_record read_typed_argument read_head read_cbor_argument read
    consume_item valid_utf8 checked_add count_u64 contains starts_with
batch_admitted = refl

-- The producer closes the interval behind the batch.
abbrev producer_later : LedgerProducer MemoryLedgerStore
producer_later = (close memory_store toy_digest clock manual producer_behind).1

admit_again_example :
    ((again : AdmissionOutcome) × (admit_batch_idempotent_digest memory_store toy_digest clock
          (codes "key-1")
          (telemetry ∷ [])
          (codes "digest-1")
          producer_later
        ≡ (done again, producer_later))
      × SameAnswer first_answer again)
    × ((other : Bytes)
        → bytes_eq (codes "digest-1") other ≡ false
        → admit_batch_idempotent_digest memory_store toy_digest clock
            (codes "key-1")
            (telemetry ∷ [])
            other
            producer_later
          ≡ (failed idempotency_conflict, producer_later))
admit_again_example =
    admit_again toy_digest length-toy_digest clock clock (codes "key-1") (codes "digest-1")
      (telemetry ∷ []) (telemetry ∷ []) producer producer_behind producer_later first_answer
      state_with_record-IsLedger (omega (arith, one_record)) short_time batch_admitted refl
      (after at_once (closes clock manual))

abbrev next_transition : LedgerTransition
next_transition = record {
  previous_open_count = 1;
  admitted_records = [];
  next_state = state_with_record;
  sealed = [];
  idempotency = none;
}

memory_compare_and_swap_cases_example :
    (Accepts stored_state (some 0) next_transition
      × (memory_compare_and_swap stored_state (some 0) next_transition
          ≡ (done tt, swapped stored_state next_transition))
      × Stores stored_state next_transition (swapped stored_state next_transition)
      × Extends stored_state (swapped stored_state next_transition))
    ⊎ (¬ Accepts stored_state (some 0) next_transition
        × (memory_compare_and_swap stored_state (some 0) next_transition
            ≡ (failed concurrent_writer, stored_state)))
memory_compare_and_swap_cases_example =
    memory_compare_and_swap_cases stored_state (some 0) next_transition

abbrev telemetry_metadata : CanonicalRecordMetadataV1
telemetry_metadata = record {
  version = 1;
  device_id = 1 ∷ 2 ∷ 3 ∷ 4 ∷ 5 ∷ 6 ∷ 7 ∷ 8 ∷ [];
  fc = 5;
  ingest_time = 10;
  device_time = none;
  kind = 1;
}

telemetry_accepted : validate_canonical_record telemetry ≡ ok telemetry_metadata
unfolding validate_canonical_record read_typed_argument read_head read_cbor_argument read
    consume_item valid_utf8
telemetry_accepted = refl

telemetry_bytes : All IsByte telemetry
telemetry_bytes = omega arith

validate_canonical_record_metadata_example :
    (payload : Bytes) × (telemetry ≡ put_head 4 7 ++ (metadata_bytes telemetry_metadata ++ payload))
    × IsTypedMetadata telemetry_metadata
validate_canonical_record_metadata_example =
    validate_canonical_record_metadata telemetry telemetry_metadata telemetry_bytes
      telemetry_accepted

default_accepted : validate_config default_config ≡ done tt
unfolding validate_config
default_accepted = refl

retry_delay_ms_bounds_example :
    ((attempt : ℤ)
      → (5_000 ≤ retry_delay_ms default_config attempt)
        × (retry_delay_ms default_config attempt ≤ 300_000)
        × (300_000 ≤ 86_400_000))
    × (retry_delay_ms default_config (pos 1) ≡ 5_000)
    × ((n : ℕ)
        → n + 1 < 2 ^ 32
        → retry_delay_ms default_config (pos (suc (suc n)))
          ≡ min (2 * retry_delay_ms default_config (pos (suc n))) 300_000)
retry_delay_ms_bounds_example = retry_delay_ms_bounds default_config default_accepted
