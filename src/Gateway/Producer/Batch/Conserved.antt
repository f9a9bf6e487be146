-- ===== src/Gateway/Producer/Batch/Conserved.antt =====
-- producer.rs: an admitted batch keeps the chain, and its records are all in the ledger.
use trackone.Prelude.{
  ℕ, suc, ◌+◌, ◌-◌, ◌^◌, ◌≤◌, ◌<◌, ◌≡◌, refl, sym, ap, ◌∙◌, arith, inl, inr, Option, List, [], ◌∷◌,
  ◌++◌, length, map, length-append, if◌then◌else◌,
}
use mathlib.Core.Path.{subst}
use mathlib.Core.List.{append_assoc}
use trackone.Prelude.Outcome.{Outcome, done, failed, >>=-eq-done, Outcome-cases, done-injective}
use trackone.Ledger.Hash.{Bytes, Hash}
use trackone.Gateway.Producer.{
  ProducerState, SealedSegment, AdmissionOutcome, ProducerError, invalid_record, empty_batch,
  count_u64,
}
use trackone.Gateway.Producer.Counters.{count_u64-done}
use trackone.Gateway.Producer.Construct.{no_records}
use trackone.Gateway.Producer.Construct.Kept.{SameIdentity}
use trackone.Gateway.Producer.Construct.Sealed.{IsLedger}
use trackone.Gateway.Producer.Expiry.{close_expired}
use trackone.Gateway.Producer.Expiry.Ends.{Expired, rounds-Expired, all_records, SameIdentity-trans}
use trackone.Gateway.Producer.Runs.{admission_runs}
use trackone.Gateway.Producer.Deltas.{record_deltas, number_of}
use trackone.Gateway.Producer.Admit.{validate_records, admit_records}
use trackone.Gateway.Producer.Admit.Conserved.{Admitted, admit_records_conserved}
use trackone.Gateway.Producer.Store.{LedgerStore}
use trackone.Gateway.Producer.Monad.{Clock, LedgerProducer, bind_result}
use trackone.Gateway.Producer.Commit.{revised, safe_now, require_active, commit}
use trackone.Gateway.Producer.Commit.Reading.{safe_now-done}
use trackone.Gateway.Producer.Commit.Leaves.{
  Leaves, Conserves, revised-Conserves, Leaves-commit_last,
}
use trackone.Gateway.Producer.Batch.{
  BatchPlan, batch_plan, admission_record, admitted_outcome, commit_batch, admit_batch_inner,
}

pub all_records-append :
    (xs ys : List SealedSegment) → all_records (xs ++ ys) ≡ all_records xs ++ all_records ys
all_records-append [] ys = refl
all_records-append (g ∷ gs) ys =
    ap (◌++◌ g.records) (all_records-append gs ys)
    ∙ sym (append_assoc g.records (all_records gs) (all_records ys))

-- A conservation relation for a plan.
module _ (sha256 : Bytes → Hash) (digests : (message : Bytes) → length (sha256 message) ≡ 32) where
  pub record GoodPlan (s : ProducerState) (records : List Bytes)
      (idempotency : Option (Bytes × Bytes)) (plan : BatchPlan) : Type 0 where
    pub conserves : Conserves sha256 s records plan.sealed plan.next_state
    pub numbers : length plan.numbers ≡ length records
    pub same : SameIdentity s plan.next_state
    pub runs : admission_runs plan.numbers ≡ done plan.runs
    pub counted : count_u64 (length plan.numbers) "admitted record" ≡ done plan.record_count
    pub admission :
        admission_record plan.next_state plan.numbers plan.sealed idempotency ≡ done plan.admission

  both :
      (s : ProducerState) (now : ℕ) (records : List Bytes) (xs ys : List SealedSegment)
      (t u : ProducerState)
      → Expired sha256 s now xs t
      → Admitted sha256 t records ys u
      → Conserves sha256 s records (xs ++ ys) u
  both s now records xs ys t u x a = record {
    ledger = a.ledger;
    conserved =
        ap (λ (rs : List Bytes). rs ++ u.open_interval.records) (all_records-append xs ys)
        ∙ append_assoc (all_records xs) (all_records ys) u.open_interval.records
        ∙ ap (◌++◌ (all_records xs)) a.conserved
        ∙ sym (append_assoc (all_records xs) t.open_interval.records records)
        ∙ ap (λ (rs : List Bytes). rs ++ records) x.conserved;
    number = omega (arith, x.number, a.number, length-append xs ys);
  }

  fewer_open :
      (s : ProducerState) (now : ℕ) (xs : List SealedSegment) (t : ProducerState)
      → Expired sha256 s now xs t
      → length t.open_interval.records ≤ length s.open_interval.records
  fewer_open s now xs t x = omega (
    arith,
    ap (λ (rs : List Bytes). length rs) x.conserved,
    length-append (all_records xs) t.open_interval.records,
  )

  pub batch_plan_good :
      (clock : Clock) (s : ProducerState) (records : List Bytes)
      (idempotency : Option (Bytes × Bytes)) (plan : BatchPlan)
      → IsLedger sha256 s
      → length s.open_interval.records + length records < 2 ^ 64
      → ((now : ℕ) → clock.now_ms ≡ done now → now < 2 ^ 64)
      → batch_plan sha256 clock s records idempotency ≡ done plan
      → GoodPlan s records idempotency plan
  unfolding batch_plan
  batch_plan_good clock s records idempotency plan l small word h =
      let (_, _, h0) = >>=-eq-done (require_active s) _ h in
      let (_, _, h1) =
        >>=-eq-done (if no_records records then failed (invalid_record empty_batch) else done tt) _
          h0 in
      let (_, _, h2) = >>=-eq-done (validate_records 0 records) _ h1 in
      let (now, e3, h3) = >>=-eq-done (safe_now clock s) _ h2 in
      let ((xs, t), e4, h4) = >>=-eq-done (close_expired sha256 s now) _ h3 in
      let ((ns, ys, u), e5, h5) = >>=-eq-done (admit_records sha256 t now records) _ h4 in
      let (runs, e6, h6) = >>=-eq-done (admission_runs ns) _ h5 in
      let (count, e7, h7) = >>=-eq-done (count_u64 (length ns) "admitted record") _ h6 in
      let (deltas, e8, h8) = >>=-eq-done (record_deltas s u (xs ++ ys) records ns) _ h7 in
      let (admission, e9, last) = >>=-eq-done (admission_record u ns (xs ++ ys) idempotency) _ h8 in
      let (ordered, timed) = safe_now-done clock s now e3 in
      let x : Expired sha256 s now xs t =
        rounds-Expired sha256 digests (suc (now - s.open_interval.opened_at_ms)) s now xs t l
          (omega arith) ordered (word now timed) (unfold close_expired in e4) in
      let (a, numbers) =
        admit_records_conserved sha256 digests records t now ns ys u x.ledger
          (omega (arith, fewer_open s now xs t x)) e5 in
      subst (GoodPlan s records idempotency) (done-injective last) (record {
        conserves = both s now records xs ys t u x a;
        numbers = numbers;
        same = SameIdentity-trans x.same a.same;
        runs = e6;
        counted = e7;
        admission = e9;
      })

  -- What an admitted batch leaves, and what it answers.
  pub record AdmitsBatch (s : ProducerState) (records : List Bytes) (out : AdmissionOutcome)
      (t : ProducerState) : Type 0 where
    pub conserves : Conserves sha256 s records out.sealed t
    pub revision : t.revision ≡ s.revision + 1
    pub answered : out.state_revision ≡ t.revision
    pub counted : out.admitted_record_count ≡ length records
    pub sealed_numbers : out.sealed_segment_numbers ≡ map number_of out.sealed

  pub Leaves-answer :
      {S A : Type 0} (s : ProducerState) (Q : ProducerState → Type 0)
      (R : A → ProducerState → Type 0) (f : ProducerState → A)
      (r : Outcome ProducerError (Unit {0}) × LedgerProducer S)
      → ((t : ProducerState) → Q t → R (f t) t)
      → Leaves s (λ (u : Unit {0}). Q) r
      → Leaves s R (bind_result r (λ u q. (done (f q.state), q)))
  Leaves-answer s Q R f (done u, q) go h = go q.state h
  Leaves-answer s Q R f (failed e, q) go h = h

  plan_admits :
      (s : ProducerState) (records : List Bytes) (idempotency : Option (Bytes × Bytes))
      (plan : BatchPlan) (t : ProducerState)
      → GoodPlan s records idempotency plan
      → t ≡ revised plan.next_state (s.revision + 1)
      → AdmitsBatch s records (admitted_outcome t plan) t
  unfolding admitted_outcome revised
  plan_admits s records idempotency plan t good shape =
      subst (λ (t : ProducerState). AdmitsBatch s records (admitted_outcome t plan) t) (sym shape)
        (record {
          conserves =
              unfold revised in
              revised-Conserves sha256 s records plan.sealed plan.next_state (s.revision + 1)
                good.conserves;
          revision = refl;
          answered = refl;
          counted = count_u64-done _ _ good.counted ∙ good.numbers;
          sealed_numbers = refl;
        })

  -- Admitting a batch, over any store and any clock with a 64-bit time, on a state whose chain is
  -- intact and whose open records and the batch are fewer than 2^64 together, either fails and
  -- leaves the state as it was, or succeeds. Then the chain is intact, the records of the segments
  -- in the answer and the open records behind them are the open records from before and the batch,
  -- in this order, the segment number has grown by the number of those segments, the revision is the
  -- next one, and the answer gives that revision, the number of the records and the numbers of the
  -- sealed segments. SHA-256 is any function to 32 bytes.
  pub admit_batch_conserves :
      {S : Type 0} (store : LedgerStore S) (clock : Clock) (records : List Bytes)
      (idempotency : Option (Bytes × Bytes)) (p : LedgerProducer S)
      → IsLedger sha256 p.state
      → length p.state.open_interval.records + length records < 2 ^ 64
      → ((now : ℕ) → clock.now_ms ≡ done now → now < 2 ^ 64)
      → Leaves p.state
          (AdmitsBatch p.state records)
          (admit_batch_inner store sha256 clock records idempotency p)
  unfolding admit_batch_inner commit_batch
  admit_batch_conserves store clock records idempotency p l small word =
      elim (Outcome-cases (batch_plan sha256 clock p.state records idempotency)) [
        | inr (bad, e) ↦ rw (e, admit_batch_inner, commit_batch) refl
        | inl (plan, e) ↦
            let good = batch_plan_good clock p.state records idempotency plan l small word e in
            let Q : ProducerState → Type 0 =
              λ t. t ≡ revised plan.next_state (p.state.revision + 1) in
            rw (e, admit_batch_inner, commit_batch)
              (Leaves-answer p.state Q (AdmitsBatch p.state records) (λ t. admitted_outcome t plan)
                (commit store plan.next_state plan.sealed plan.admission plan.deltas p)
                (λ t shape. plan_admits p.state records idempotency plan t good shape)
                (Leaves-commit_last store p Q plan.next_state plan.sealed plan.admission plan.deltas
                  refl))
      ]
