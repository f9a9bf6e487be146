-- ===== src/Gateway/Producer/Batch.antt =====
-- producer.rs: the methods that admit batches of records.
pub mod Conserved
pub mod Later
pub mod Committed
pub mod Replay
use trackone.Prelude.{
  ℕ, zero, suc, ◌+◌, ◌-◌, Bool, true, false, ◌&&◌, ◌||◌, not, Option, none, some, List, [], ◌∷◌,
  ◌++◌, String, map, length, ltb, leb, ◌==◌, if◌then◌else◌,
}
use trackone.Prelude.Outcome.{Outcome, done, failed, ◌>>=◌, ◌>>◌}
use trackone.Ledger.Hash.{Bytes, Hash}
use trackone.Ledger.Vtl.Policy.{ClosurePolicy}
use trackone.Gateway.Producer.{
  OpenInterval, ProducerState, SealedSegment, AdmittedRecordDelta, IdempotencyRecord,
  LedgerTransition, CloseReason, recovery, shutdown, reconfigure, ProducerError, inactive,
  clock_discontinuity, counter_overflow, checked_add, ok_or, count_u64, validate_policy,
}
use trackone.Gateway.Producer.Construct.{construct_segment}
use trackone.Gateway.Producer.Expiry.{close_expired, and_later}
use trackone.Gateway.Producer.Store.{LedgerStore}
use trackone.Gateway.Producer.Monad.{
  Clock, LedgerProducer, Method, give, lift, bind_result, get_state,
}
use trackone.Gateway.Producer.Commit.{safe_now, require_active, commit}
use trackone.Ledger.Hex.{sha256_hex}
use trackone.Prelude.Text.{bytes_eq}
use trackone.Gateway.Producer.{
  AdmissionOutcome, AdmissionRun, invalid_configuration, bad_setting, invalid_record, empty_batch,
  idempotency_conflict,
}
use trackone.Gateway.Producer.Runs.{admission_runs}
use trackone.Gateway.Producer.Deltas.{record_deltas, number_of}
use trackone.Gateway.Producer.Admit.{validate_records, admit_records}
use trackone.Gateway.Producer.Construct.{no_records}

abbrev pub first_or_zero : List ℕ → ℕ
first_or_zero [] = 0
first_or_zero (n ∷ ns) = n

-- `char::is_control` of some character: a byte below 32, 127, or the pair that encodes U+0080 to
-- U+009F.
unfoldable pub has_control : Bytes → Bool
has_control [] = false
has_control (a ∷ []) = ltb a 32 || a == 127
has_control (a ∷ b ∷ bs) =
    ltb a 32 || a == 127 || (a == 0xc2 && (leb 0x80 b && leb b 0x9f)) || has_control (b ∷ bs)

-- The check of an idempotency key.
unfoldable pub validate_key : Bytes → Outcome ProducerError (Unit {0})
unfolding has_control
validate_key key =
    if length key == 0 || ltb 255 (length key) || has_control key
    then failed (
        invalid_configuration
          (bad_setting "idempotency key must contain 1..255 non-control characters"))
    else done tt

-- What a batch commits, computed from the state before it.
pub record BatchPlan : Type 0 where
  pub next_state : ProducerState
  pub sealed : List SealedSegment
  pub numbers : List ℕ
  pub runs : List AdmissionRun
  pub record_count : ℕ
  pub deltas : List AdmittedRecordDelta
  pub admission : Option IdempotencyRecord

-- The idempotency record of a batch, if it has a key.
unfoldable pub admission_record :
    ProducerState
    → List ℕ
    → List SealedSegment
    → Option (Bytes × Bytes)
    → Outcome ProducerError (Option IdempotencyRecord)
admission_record next numbers sealed none = done none
admission_record next numbers sealed (some (key, request_sha256)) =
    elim (checked_add next.revision 1) [
      | none ↦ failed (counter_overflow "state revision")
      | some revision ↦ done (
          some (record {
            key = key;
            request_sha256 = request_sha256;
            admitted_segment_numbers = numbers;
            state_revision = revision;
            sealed_segment_numbers = map number_of sealed;
          }))
    ]

-- The answer to a request that was committed before.
unfoldable pub replayed_outcome : IdempotencyRecord → Outcome ProducerError AdmissionOutcome
unfolding admission_runs
replayed_outcome existing = elim (admission_runs existing.admitted_segment_numbers) [
  | failed e ↦ failed e
  | done runs ↦ elim (count_u64 (length existing.admitted_segment_numbers) "admitted record") [
    | failed e ↦ failed e
    | done record_count ↦ done (record {
      state_revision = existing.state_revision;
      admitted_segment_number = first_or_zero existing.admitted_segment_numbers;
      admitted_record_count = record_count;
      admission_runs = runs;
      sealed = [];
      sealed_segment_numbers = existing.sealed_segment_numbers;
      replayed = true;
    })
  ]
]

module _ (sha256 : Bytes → Hash) where
  -- `admit_batch_inner` up to its commit.
  unfoldable pub batch_plan :
      Clock → ProducerState → List Bytes → Option (Bytes × Bytes) → Outcome ProducerError BatchPlan
  unfolding require_active safe_now close_expired admit_records validate_records admission_runs
      record_deltas admission_record
  batch_plan clock s records idempotency = do
    require_active s
    if no_records records then failed (invalid_record empty_batch) else done tt
    validate_records 0 records
    now ← safe_now clock s
    (expired, opened) ← close_expired sha256 s now
    (numbers, filled, next) ← admit_records sha256 opened now records
    let sealed = expired ++ filled
    runs ← admission_runs numbers
    record_count ← count_u64 (length numbers) "admitted record"
    deltas ← record_deltas s next sealed records numbers
    admission ← admission_record next numbers sealed idempotency
    done (record {
      next_state = next;
      sealed = sealed;
      numbers = numbers;
      runs = runs;
      record_count = record_count;
      deltas = deltas;
      admission = admission;
    })

-- The answer to a batch that has just been committed.
unfoldable pub admitted_outcome : ProducerState → BatchPlan → AdmissionOutcome
admitted_outcome s plan = record {
  state_revision = s.revision;
  admitted_segment_number = first_or_zero plan.numbers;
  admitted_record_count = plan.record_count;
  admission_runs = plan.runs;
  sealed = plan.sealed;
  sealed_segment_numbers = map number_of plan.sealed;
  replayed = false;
}

module _ {S : Type 0} (store : LedgerStore S) (sha256 : Bytes → Hash) where
  -- The rest of `admit_batch_inner`, on its plan.
  unfoldable pub commit_batch :
      LedgerProducer S
      → Outcome ProducerError BatchPlan
      → Outcome ProducerError AdmissionOutcome × LedgerProducer S
  unfolding commit admitted_outcome
  commit_batch p (failed e) = (failed e, p)
  commit_batch p (done plan) =
      bind_result (commit store plan.next_state plan.sealed plan.admission plan.deltas p)
        (λ u q. (done (admitted_outcome q.state plan), q))

  unfoldable pub admit_batch_inner :
      Clock → List Bytes → Option (Bytes × Bytes) → Method S AdmissionOutcome
  unfolding batch_plan commit_batch
  admit_batch_inner clock records idempotency p =
      commit_batch p (batch_plan sha256 clock p.state records idempotency)

  unfoldable pub admit : Clock → Bytes → Method S AdmissionOutcome
  unfolding admit_batch_inner
  admit clock r p = admit_batch_inner clock (r ∷ []) none p

  -- Behind the lookup of the key.
  unfoldable pub admit_looked_up :
      Clock
      → Bytes
      → List Bytes
      → Bytes
      → Outcome ProducerError (Option IdempotencyRecord)
      → Method S AdmissionOutcome
  unfolding admit_batch_inner replayed_outcome
  admit_looked_up clock key records digest (failed e) p = (failed e, p)
  admit_looked_up clock key records digest (done none) p =
      admit_batch_inner clock records (some (key, digest)) p
  admit_looked_up clock key records digest (done (some existing)) p =
      if bytes_eq existing.request_sha256 digest
      then (replayed_outcome existing, p)
      else (failed idempotency_conflict, p)

  unfoldable pub admit_batch_idempotent_digest :
      Clock → Bytes → List Bytes → Bytes → Method S AdmissionOutcome
  unfolding validate_key admit_looked_up
  admit_batch_idempotent_digest clock key records digest p = elim (validate_key key) [
    | failed e ↦ (failed e, p)
    | done u ↦
        let found = store.lookup_idempotency p.store key in
        admit_looked_up clock key records digest found.0
          (record { store = found.1; state = p.state })
  ]

  unfoldable pub admit_idempotent : Clock → Bytes → Bytes → Method S AdmissionOutcome
  unfolding validate_key admit_batch_idempotent_digest
  admit_idempotent clock key r p = elim (validate_key key) [
    | failed e ↦ (failed e, p)
    | done u ↦ admit_batch_idempotent_digest clock key (r ∷ []) (sha256_hex sha256 r) p
  ]

  unfoldable pub admit_batch_idempotent :
      Clock → Bytes → List Bytes → Bytes → Method S AdmissionOutcome
  unfolding admit_batch_idempotent_digest
  admit_batch_idempotent clock key records canonical_envelope p =
      admit_batch_idempotent_digest clock key records (sha256_hex sha256 canonical_envelope) p
