-- ===== src/Gateway/Producer/Batch/Replay.antt =====
-- producer.rs: a batch sent again under its idempotency key, over the store in memory.
use trackone.Prelude.{
  ℕ, ◌+◌, ◌^◌, ◌<◌, ◌≡◌, refl, sym, ap, ◌∙◌, true, false, Option, some, List, [], length, map,
}
use mathlib.Core.Path.{subst}
use trackone.Prelude.Outcome.{done, failed}
use trackone.Prelude.Text.{bytes_eq, bytes_eq_refl}
use trackone.Ledger.Hash.{Bytes, Hash}
use trackone.Gateway.Producer.{
  ProducerState, IdempotencyRecord, AdmissionOutcome, idempotency_conflict,
}
use trackone.Gateway.Producer.Construct.Sealed.{IsLedger}
use trackone.Gateway.Producer.Deltas.{number_of}
use trackone.Gateway.Producer.Store.{MemoryLedgerStore, memory_store, find_key, insert_key}
use trackone.Gateway.Producer.Monad.{Clock, LedgerProducer}
use trackone.Gateway.Producer.Commit.{revised}
use trackone.Gateway.Producer.Batch.{
  BatchPlan, replayed_outcome, first_or_zero, admitted_outcome, admit_looked_up,
  admit_batch_idempotent_digest,
}
use trackone.Gateway.Producer.Batch.Conserved.{GoodPlan, batch_plan_good}
use trackone.Gateway.Producer.Batch.Later.{Later, Later-Extends}
use trackone.Gateway.Producer.Batch.Committed.{
  kept_answer, admission_record-some, looked_up-Committed,
}

-- The same answer, marked as a replay.
pub record SameAnswer (out again : AdmissionOutcome) : Type 0 where
  pub revision : again.state_revision ≡ out.state_revision
  pub segment : again.admitted_segment_number ≡ out.admitted_segment_number
  pub count : again.admitted_record_count ≡ out.admitted_record_count
  pub runs : again.admission_runs ≡ out.admission_runs
  pub sealed_numbers : again.sealed_segment_numbers ≡ out.sealed_segment_numbers
  pub marked : again.replayed ≡ true

find_own :
    (o : Option IdempotencyRecord) (i : IdempotencyRecord) (stored : List IdempotencyRecord)
    → o ≡ some i
    → find_key (insert_key o stored) i.key ≡ some i
unfolding find_key
find_own o i stored e =
    subst (λ (x : Option IdempotencyRecord). find_key (insert_key x stored) i.key ≡ some i) (sym e)
      (rw (bytes_eq_refl i.key) refl)

module _ (sha256 : Bytes → Hash) (digests : (message : Bytes) → length (sha256 message) ≡ 32) where
  again_of : ProducerState → BatchPlan → AdmissionOutcome
  again_of next plan = record {
    state_revision = next.revision + 1;
    admitted_segment_number = first_or_zero plan.numbers;
    admitted_record_count = plan.record_count;
    admission_runs = plan.runs;
    sealed = [];
    sealed_segment_numbers = map number_of plan.sealed;
    replayed = true;
  }

  plan_replayed :
      (s : ProducerState) (records : List Bytes) (key digest : Bytes) (plan : BatchPlan)
      → GoodPlan sha256 digests s records (some (key, digest)) plan
      → replayed_outcome (kept_answer plan.next_state plan.numbers plan.sealed key digest)
        ≡ done (again_of plan.next_state plan)
  unfolding replayed_outcome again_of
  plan_replayed s records key digest plan good = rw (good.runs, good.counted, replayed_outcome) refl

  same_answer :
      (s : ProducerState) (records : List Bytes) (key digest : Bytes) (plan : BatchPlan)
      (out : AdmissionOutcome) (t : ProducerState)
      → GoodPlan sha256 digests s records (some (key, digest)) plan
      → t ≡ revised plan.next_state (s.revision + 1)
      → out ≡ admitted_outcome t plan
      → SameAnswer out (again_of plan.next_state plan)
  unfolding again_of admitted_outcome revised
  same_answer s records key digest plan out t good shape answer =
      subst (λ (x : AdmissionOutcome). SameAnswer x (again_of plan.next_state plan)) (sym answer)
        (record {
          revision =
              ap (λ (n : ℕ). n + 1) good.same.revision
              ∙ sym (ap (λ (x : ProducerState). x.revision) shape);
          segment = refl;
          count = refl;
          runs = refl;
          sealed_numbers = refl;
          marked = refl;
        })

  -- Once a batch is admitted with an idempotency key over the store in memory, every batch under
  -- that key, after any calls of the producer's methods, at any times, and any restarts over the
  -- same store, changes nothing. With the digest of the first request it gets the first answer, its
  -- revision, segment numbers, runs and counts, marked as a replay; with any other digest it is
  -- refused as a conflict. The first state has an intact chain, its open records and
  -- the batch are fewer than 2^64 together, and its clock gives 64-bit times; SHA-256 is any
  -- function to 32 bytes.
  pub admit_again :
      (clock later : Clock) (key digest : Bytes) (records others : List Bytes)
      (p q r : LedgerProducer MemoryLedgerStore) (out : AdmissionOutcome)
      → IsLedger sha256 p.state
      → length p.state.open_interval.records + length records < 2 ^ 64
      → ((now : ℕ) → clock.now_ms ≡ done now → now < 2 ^ 64)
      → admit_batch_idempotent_digest memory_store sha256 clock key records digest p ≡ (done out, q)
      → out.replayed ≡ false
      → Later sha256 q r
      → ((again : AdmissionOutcome) × (admit_batch_idempotent_digest memory_store sha256 later key
              others digest r
            ≡ (done again, r))
          × SameAnswer out again)
        × ((other : Bytes)
            → bytes_eq digest other ≡ false
            → admit_batch_idempotent_digest memory_store sha256 later key others other r
              ≡ (failed idempotency_conflict, r))
  unfolding admit_batch_idempotent_digest memory_store
  admit_again clock later key digest records others p q r out l small word h first since =
      let (valid, c) = looked_up-Committed sha256 clock key digest records p q out h first in
      let good =
        batch_plan_good sha256 digests clock p.state records (some (key, digest)) c.plan l small
          word c.planned in
      let kept : IdempotencyRecord =
        kept_answer c.plan.next_state c.plan.numbers c.plan.sealed key digest in
      let found_first : find_key q.store.idempotency key ≡ some kept =
        ap (λ (stored : List IdempotencyRecord). find_key stored key) c.stored.answers
        ∙ find_own c.plan.admission kept p.store.idempotency (
            admission_record-some c.plan.next_state c.plan.numbers c.plan.sealed key digest
              c.plan.admission good.admission) in
      let found : find_key r.store.idempotency key ≡ some kept =
        (Later-Extends sha256 since).answers key kept found_first in
      (
        (
          again_of c.plan.next_state c.plan,
          rw
              (
                valid,
                found,
                admit_batch_idempotent_digest,
                admit_looked_up,
                bytes_eq_refl digest,
                plan_replayed p.state records key digest c.plan good,
              )
              refl,
          same_answer p.state records key digest c.plan out q.state good c.stored.state c.answer,
        ),
        λ other differ.
            rw (valid, found, admit_batch_idempotent_digest, admit_looked_up, differ) refl,
      )
