-- ===== src/Gateway/Producer/Monad.antt =====
-- producer.rs: the producer with its store and clock, and how its methods are run.
--
-- A method takes the producer and returns its result with the producer behind it, on an error too.
-- The counters of `PipelineEvents` are left out.
use trackone.Prelude.{ℕ}
use trackone.Prelude.Outcome.{Outcome, done, failed}
use trackone.Gateway.Producer.{ProducerState, ProducerError}

-- What an `ElapsedClock` answers during one call: the time, the continuity at `safe_now`, and the
-- continuity when the interval is opened again.
pub record Clock : Type 0 where
  pub now_ms : Outcome ProducerError ℕ
  pub continuity_id : ℕ
  pub later_continuity_id : ℕ

pub record LedgerProducer (S : Type 0) : Type 0 where
  pub store : S
  pub state : ProducerState

abbrev pub Method : Type 0 → Type 0 → Type 0
Method S A = LedgerProducer S → Outcome ProducerError A × LedgerProducer S

abbrev pub give : {S A : Type 0} → A → Method S A
give a p = (done a, p)

-- A result that changes nothing.
abbrev pub lift : {S A : Type 0} → Outcome ProducerError A → Method S A
lift o p = (o, p)

abbrev pub bind_result :
    {S A B : Type 0}
    → Outcome ProducerError A × LedgerProducer S
    → (A → Method S B)
    → Outcome ProducerError B × LedgerProducer S
bind_result (done a, p) f = f a p
bind_result (failed e, p) f = (failed e, p)

infixl 5 ◌>>=◌ ◌>>◌
abbrev pub ◌>>=◌ : {S A B : Type 0} → Method S A → (A → Method S B) → Method S B
◌>>=◌ m f p = bind_result (m p) f

abbrev pub ◌>>◌ : {S B : Type 0} → Method S (Unit {0}) → Method S B → Method S B
◌>>◌ m f = m >>= λ u. f

abbrev pub get_state : {S : Type 0} → Method S ProducerState
get_state p = (done p.state, p)
