-- ===== src/Gateway/Producer/Start.antt =====
-- producer.rs: `open_or_create`, which takes a ledger up from its store or starts it.
use trackone.Prelude.{ℕ, true, ◌||◌, not, ◌&&◌, Option, none, some, [], length, ◌==◌, if◌then◌else◌}
use trackone.Prelude.Outcome.{Outcome, done, failed, ◌>>◌}
use trackone.Prelude.Text.{bytes_eq}
use trackone.Ledger.Hash.{Bytes}
use trackone.Ledger.Vtl.Policy.{ClosurePolicy}
use trackone.Gateway.Producer.{
  ProducerState, LedgerTransition, ProducerError, invalid_configuration, bad_setting,
  validate_policy,
}
use trackone.Gateway.Producer.Store.{LedgerStore}
use trackone.Gateway.Producer.Monad.{Clock, LedgerProducer}
use trackone.Gateway.Producer.Control.{reactivate}

unfoldable pub validate_setting : Bytes → Bytes → Outcome ProducerError (Unit {0})
validate_setting ledger_id site_id =
    if not (length ledger_id == 32) || length site_id == 0
    then failed (
        invalid_configuration
          (bad_setting "ledger_id must be 16-byte lowercase hex and site_id must be non-empty"))
    else done tt

-- The checks of a state that was stored.
unfoldable pub validate_loaded : ProducerState → Bytes → Bytes → Outcome ProducerError (Unit {0})
validate_loaded s ledger_id site_id = do
  validate_policy s.open_interval.policy
  validate_policy s.next_policy
  if bytes_eq s.ledger_id ledger_id && bytes_eq s.site_id site_id
      then done tt
      else failed (
          invalid_configuration
            (bad_setting "configured ledger_id and site_id do not match existing ledger state"))

unfoldable pub initial_state : Bytes → Bytes → ClosurePolicy → ℕ → ℕ → ProducerState
initial_state ledger_id site_id policy now continuity = record {
  revision = 0;
  active = true;
  ledger_id = ledger_id;
  site_id = site_id;
  next_segment_number = 0;
  predecessor_cbor = none;
  open_interval = record {
    opened_at_ms = now;
    clock_continuity_id = continuity;
    policy = policy;
    records = [];
    byte_count = 0;
  };
  next_policy = policy;
}

unfoldable pub initial_transition : ProducerState → LedgerTransition
initial_transition s = record {
  previous_open_count = 0;
  admitted_records = [];
  next_state = s;
  sealed = [];
  idempotency = none;
}

module _ {S : Type 0} (store : LedgerStore S) where
  -- A producer over a stored state: one that was shut down is active again.
  unfoldable pub resume : Clock → LedgerProducer S → Outcome ProducerError (LedgerProducer S) × S
  unfolding reactivate
  resume clock p =
      if p.state.active
      then (done p, p.store)
      else (let (result, q) = reactivate store clock p in (result >> done q, q.store))

  unfoldable pub created :
      ProducerState
      → Outcome ProducerError (Unit {0}) × S
      → Outcome ProducerError (LedgerProducer S) × S
  created s (result, behind) = (result >> done (record { store = behind; state = s }), behind)

  unfoldable pub open_loaded :
      Clock
      → Bytes
      → Bytes
      → ClosurePolicy
      → Outcome ProducerError (Option ProducerState) × S
      → Outcome ProducerError (LedgerProducer S) × S
  unfolding validate_loaded resume created initial_state initial_transition
  open_loaded clock ledger_id site_id policy (failed e, behind) = (failed e, behind)
  open_loaded clock ledger_id site_id policy (done (some s), behind) =
      elim (validate_loaded s ledger_id site_id) [
        | failed e ↦ (failed e, behind)
        | done u ↦ resume clock (record { store = behind; state = s })
      ]
  open_loaded clock ledger_id site_id policy (done none, behind) = elim clock.now_ms [
    | failed e ↦ (failed e, behind)
    | done now ↦
        let s = initial_state ledger_id site_id policy now clock.continuity_id in
        created s (store.compare_and_swap behind none (initial_transition s))
  ]

  -- The store is given back beside the result.
  unfoldable pub open_or_create :
      S → Clock → Bytes → Bytes → ClosurePolicy → Outcome ProducerError (LedgerProducer S) × S
  unfolding validate_setting open_loaded
  open_or_create behind clock ledger_id site_id policy =
      elim (validate_policy policy >> validate_setting ledger_id site_id) [
        | failed e ↦ (failed e, behind)
        | done u ↦ open_loaded clock ledger_id site_id policy (store.load behind)
      ]
