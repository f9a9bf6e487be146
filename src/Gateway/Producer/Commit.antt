-- ===== src/Gateway/Producer/Commit.antt =====
-- producer.rs: the clock's check, and `commit`, through which every method changes the producer.
pub mod Reading
pub mod Leaves
use trackone.Prelude.{
  ℕ, zero, suc, ◌+◌, ◌-◌, Bool, true, false, ◌&&◌, ◌||◌, not, Option, none, some, List, [], ◌∷◌,
  String, length, ltb, leb, ◌==◌, if◌then◌else◌,
}
use trackone.Prelude.Outcome.{Outcome, done, failed}
use trackone.Ledger.Hash.{Bytes, Hash}
use trackone.Ledger.Vtl.Policy.{ClosurePolicy}
use trackone.Gateway.Producer.{
  OpenInterval, ProducerState, SealedSegment, AdmittedRecordDelta, IdempotencyRecord,
  LedgerTransition, CloseReason, recovery, shutdown, reconfigure, ProducerError, inactive,
  clock_discontinuity, counter_overflow, checked_add, ok_or, count_u64, validate_policy,
}
use trackone.Gateway.Producer.Construct.{construct_segment}
use trackone.Gateway.Producer.Expiry.{close_expired, and_later}
use trackone.Gateway.Producer.Store.{LedgerStore}
use trackone.Gateway.Producer.Monad.{
  Clock, LedgerProducer, Method, give, lift, bind_result, ◌>>=◌, ◌>>◌, get_state,
}

-- The state's next revision.
unfoldable pub revised : ProducerState → ℕ → ProducerState
revised s revision = record {
  revision = revision;
  active = s.active;
  ledger_id = s.ledger_id;
  site_id = s.site_id;
  next_segment_number = s.next_segment_number;
  predecessor_cbor = s.predecessor_cbor;
  open_interval = s.open_interval;
  next_policy = s.next_policy;
}

unfoldable pub require_active : ProducerState → Outcome ProducerError (Unit {0})
require_active s = if s.active then done tt else failed inactive

-- `safe_now` of a state.
unfoldable pub safe_now : Clock → ProducerState → Outcome ProducerError ℕ
safe_now clock s = if not s.active then failed inactive else elim clock.now_ms [
  | failed e ↦ failed e
  | done now ↦
      if not (s.open_interval.clock_continuity_id == clock.continuity_id)
        || ltb now s.open_interval.opened_at_ms
      then failed clock_discontinuity
      else done now
]

-- `readiness_state`.
unfoldable pub readiness_state : Clock → ProducerState → String
unfolding safe_now
readiness_state clock s = elim (safe_now clock s) [
  | done now ↦ "ready"
  | failed inactive ↦ "inactive"
  | failed clock_discontinuity ↦ "recovery_required"
  | failed _ ↦ "clock_unavailable"
]

-- What `commit` swaps in.
unfoldable pub commit_plan :
    ProducerState
    → ProducerState
    → List SealedSegment
    → Option IdempotencyRecord
    → List AdmittedRecordDelta
    → Outcome ProducerError LedgerTransition
unfolding revised
commit_plan s next sealed admission admitted_records = elim (checked_add s.revision 1) [
  | none ↦ failed (counter_overflow "state revision")
  | some revision ↦ elim (count_u64 (length s.open_interval.records) "open record") [
    | failed e ↦ failed e
    | done previous_open_count ↦ done (record {
      previous_open_count = previous_open_count;
      admitted_records = admitted_records;
      next_state = revised next revision;
      sealed = sealed;
      idempotency = admission;
    })
  ]
]

module _ {S : Type 0} (store : LedgerStore S) where
  -- The result of the swap: the new state is kept when it succeeds.
  unfoldable pub after_swap :
      LedgerProducer S
      → ProducerState
      → Outcome ProducerError (Unit {0}) × S
      → Outcome ProducerError (Unit {0}) × LedgerProducer S
  after_swap p next (done u, s) = (done tt, record { store = s; state = next })
  after_swap p next (failed e, s) = (failed e, record { store = s; state = p.state })

  unfoldable pub commit_planned :
      LedgerProducer S
      → Outcome ProducerError LedgerTransition
      → Outcome ProducerError (Unit {0}) × LedgerProducer S
  unfolding after_swap
  commit_planned p (failed e) = (failed e, p)
  commit_planned p (done t) =
      after_swap p t.next_state (store.compare_and_swap p.store (some p.state.revision) t)

  unfoldable pub commit :
      ProducerState
      → List SealedSegment
      → Option IdempotencyRecord
      → List AdmittedRecordDelta
      → Method S (Unit {0})
  unfolding commit_plan commit_planned
  commit next sealed admission admitted_records p =
      commit_planned p (commit_plan p.state next sealed admission admitted_records)
