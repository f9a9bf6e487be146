-- ===== src/Gateway/Producer/Control.antt =====
-- producer.rs: the methods that close, recover, reactivate and reconfigure a ledger.
pub mod Conserved
pub mod Progress
use trackone.Prelude.{
  ℕ, zero, suc, ◌+◌, ◌-◌, Bool, true, false, ◌&&◌, ◌||◌, not, Option, none, some, List, [], ◌∷◌,
  String, length, ltb, leb, ◌==◌, if◌then◌else◌,
}
use trackone.Prelude.Outcome.{Outcome, done, failed}
use trackone.Ledger.Hash.{Bytes, Hash}
use trackone.Ledger.Vtl.Policy.{ClosurePolicy}
use trackone.Gateway.Producer.{
  OpenInterval, ProducerState, SealedSegment, AdmittedRecordDelta, IdempotencyRecord,
  LedgerTransition, CloseReason, recovery, shutdown, reconfigure, ProducerError, inactive,
  clock_discontinuity, counter_overflow, checked_add, ok_or, count_u64, validate_policy,
}
use trackone.Gateway.Producer.Construct.{construct_segment}
use trackone.Gateway.Producer.Expiry.{close_expired, and_later}
use trackone.Gateway.Producer.Store.{LedgerStore}
use trackone.Gateway.Producer.Monad.{
  Clock, LedgerProducer, Method, give, lift, bind_result, ◌>>=◌, ◌>>◌, get_state,
}
use trackone.Gateway.Producer.Commit.{safe_now, require_active, commit}

-- A state that is active or not, whose interval is open from a time under a continuity.
unfoldable pub opened_anew : ProducerState → Bool → ℕ → ℕ → ProducerState
opened_anew s active now continuity = record {
  revision = s.revision;
  active = active;
  ledger_id = s.ledger_id;
  site_id = s.site_id;
  next_segment_number = s.next_segment_number;
  predecessor_cbor = s.predecessor_cbor;
  open_interval = record {
    opened_at_ms = now;
    clock_continuity_id = continuity;
    policy = s.open_interval.policy;
    records = s.open_interval.records;
    byte_count = s.open_interval.byte_count;
  };
  next_policy = s.next_policy;
}

unfoldable pub with_next_policy : ProducerState → ClosurePolicy → ProducerState
with_next_policy s policy = record {
  revision = s.revision;
  active = s.active;
  ledger_id = s.ledger_id;
  site_id = s.site_id;
  next_segment_number = s.next_segment_number;
  predecessor_cbor = s.predecessor_cbor;
  open_interval = s.open_interval;
  next_policy = policy;
}

-- `replacement_policy`, for the next and the open interval.
unfoldable pub replaced_policy : ProducerState → Option ClosurePolicy → ProducerState
replaced_policy s none = s
replaced_policy s (some policy) = record {
  revision = s.revision;
  active = s.active;
  ledger_id = s.ledger_id;
  site_id = s.site_id;
  next_segment_number = s.next_segment_number;
  predecessor_cbor = s.predecessor_cbor;
  open_interval = record {
    opened_at_ms = s.open_interval.opened_at_ms;
    clock_continuity_id = s.open_interval.clock_continuity_id;
    policy = policy;
    records = s.open_interval.records;
    byte_count = s.open_interval.byte_count;
  };
  next_policy = policy;
}

abbrev pub stays_active : Bool → Option CloseReason → Bool
stays_active active (some shutdown) = false
stays_active active _ = active

module _ (sha256 : Bytes → Hash) where
  -- `requested` closes the open interval.
  unfoldable pub close_requested :
      ProducerState
      → ℕ
      → Option CloseReason
      → Outcome ProducerError (List SealedSegment × ProducerState)
  unfolding construct_segment
  close_requested s now none = done ([], s)
  close_requested s now (some reason) = elim (construct_segment sha256 s now reason) [
    | failed e ↦ failed e
    | done (segment, next) ↦ done (and_later segment [], next)
  ]

module _ {S : Type 0} (store : LedgerStore S) where
  unfoldable pub reactivate : Clock → Method S (Unit {0})
  unfolding commit opened_anew
  reactivate clock = do
    s ← get_state
    if s.active then give tt else (do
      now ← lift clock.now_ms
      commit store (opened_anew s true now clock.later_continuity_id) [] none [])

  module _ (sha256 : Bytes → Hash) where
    unfoldable pub transition :
        Clock → ℕ → Option CloseReason → Option ClosurePolicy → Method S (List SealedSegment)
    unfolding require_active close_requested commit opened_anew replaced_policy
    transition clock now requested replacement_policy = do
      s ← get_state
      lift (require_active s)
      (sealed, next) ← lift (close_requested sha256 s now requested)
      commit store
          (opened_anew (replaced_policy next replacement_policy)
            (stays_active next.active requested) now clock.later_continuity_id)
          sealed none []
      give sealed

    unfoldable pub recover : Clock → Method S (List SealedSegment)
    unfolding transition require_active
    recover clock = do
      s ← get_state
      lift (require_active s)
      now ← lift clock.now_ms
      transition clock now (some recovery) none

    unfoldable pub close : Clock → CloseReason → Method S (List SealedSegment)
    unfolding transition safe_now
    close clock reason = do
      s ← get_state
      now ← lift (safe_now clock s)
      transition clock now (some reason) none

    unfoldable pub update_policy : Clock → ClosurePolicy → Bool → Method S (List SealedSegment)
    unfolding transition safe_now commit with_next_policy
    update_policy clock policy immediate = do
      lift (validate_policy policy)
      s ← get_state
      now ← lift (safe_now clock s)
      if immediate
          then transition clock now (some reconfigure) (some policy)
          else (do commit store (with_next_policy s policy) [] none []; give [])

    -- `safe_now` gives a time at which the interval is open, so that the difference is exact.
    unfoldable pub seal_expired_intervals : Clock → Method S (List SealedSegment)
    unfolding safe_now close_expired commit
    seal_expired_intervals clock = do
      s ← get_state
      now ← lift (safe_now clock s)
      if ltb (now - s.open_interval.opened_at_ms) s.open_interval.policy.interval_ms
          then give []
          else (do
            (sealed, next) ← lift (close_expired sha256 s now)
            if next.open_interval.opened_at_ms == s.open_interval.opened_at_ms
                then give sealed
                else (do commit store next sealed none []; give sealed))
