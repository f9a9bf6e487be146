-- ===== src/Gateway/Producer/Batch/Committed.antt =====
-- producer.rs: what an admitted batch with a key leaves in the store in memory.
use trackone.Prelude.{
  ℕ, ◌+◌, ◌≡◌, refl, sym, ap, ◌∙◌, true, false, inl, inr, Option, some, List, length, map,
  Option-cases, Bool-cases,
}
use mathlib.Core.Path.{subst}
use trackone.Prelude.Outcome.{Outcome, done, failed, Outcome-cases, done-injective}
use trackone.Prelude.Text.{bytes_eq}
use trackone.Ledger.Hash.{Bytes, Hash}
use trackone.Gateway.Producer.{
  ProducerState, IdempotencyRecord, LedgerTransition, AdmissionOutcome, SealedSegment,
  AdmittedRecordDelta, checked_add, count_u64,
}
use trackone.Gateway.Producer.Counters.{checked_add-some}
use trackone.Gateway.Producer.Runs.{admission_runs}
use trackone.Gateway.Producer.Deltas.{number_of}
use trackone.Gateway.Producer.Store.{MemoryLedgerStore, memory_store, swapped, find_key, insert_key}
use trackone.Gateway.Producer.Store.Memory.{memory_compare_and_swap_cases}
use trackone.Gateway.Producer.Monad.{Clock, LedgerProducer, bind_result}
use trackone.Gateway.Producer.Commit.{revised, after_swap, commit_plan, commit_planned, commit}
use trackone.Gateway.Producer.Commit.Leaves.{commit_plan-done}
use trackone.Gateway.Producer.Batch.{
  BatchPlan, batch_plan, validate_key, admission_record, replayed_outcome, admitted_outcome,
  commit_batch, admit_batch_inner, admit_looked_up, admit_batch_idempotent_digest,
}

-- The answer that is kept for a key.
abbrev pub kept_answer :
    ProducerState → List ℕ → List SealedSegment → Bytes → Bytes → IdempotencyRecord
kept_answer next numbers sealed key digest = record {
  key = key;
  request_sha256 = digest;
  admitted_segment_numbers = numbers;
  state_revision = next.revision + 1;
  sealed_segment_numbers = map number_of sealed;
}

pub admission_record-some :
    (next : ProducerState) (numbers : List ℕ) (sealed : List SealedSegment) (key digest : Bytes)
    (o : Option IdempotencyRecord)
    → admission_record next numbers sealed (some (key, digest)) ≡ done o
    → o ≡ some (kept_answer next numbers sealed key digest)
unfolding admission_record
admission_record-some next numbers sealed key digest o h =
    elim (Option-cases (checked_add next.revision 1)) [
      | inl full ↦ absurd (cc (rw (full, admission_record) at h))
      | inr (revision, e) ↦
          let same = checked_add-some next.revision 1 e in
          sym (done-injective (rw (e, same, admission_record) at h))
    ]

-- A commit that succeeds on the store in memory.
pub record Stored (p : LedgerProducer MemoryLedgerStore) (next : ProducerState)
    (admission : Option IdempotencyRecord) (q : LedgerProducer MemoryLedgerStore) : Type 0 where
  pub state : q.state ≡ revised next (p.state.revision + 1)
  pub answers : q.store.idempotency ≡ insert_key admission p.store.idempotency

planned_stored :
    (p q : LedgerProducer MemoryLedgerStore) (t : LedgerTransition) {u : Unit {0}}
    → commit_planned memory_store p (done t) ≡ (done u, q)
    → (q.state ≡ t.next_state)
      × (q.store.idempotency ≡ insert_key t.idempotency p.store.idempotency)
unfolding commit_planned after_swap memory_store
planned_stored p q t h = elim (memory_compare_and_swap_cases p.store (some p.state.revision) t) [
  | inr (_, e) ↦ absurd (cc (rw (e, commit_planned, after_swap) at h))
  | inl (_, e, _, _) ↦
      let same =
        ap (λ (r : Outcome _ (Unit {0}) × LedgerProducer MemoryLedgerStore). r.1)
          (rw (e, commit_planned, after_swap) at h) in
      subst
        (λ (r : LedgerProducer MemoryLedgerStore).
          (r.state ≡ t.next_state)
          × (r.store.idempotency ≡ insert_key t.idempotency p.store.idempotency))
        same (refl, unfold swapped in refl)
]

commit-Stored :
    (p q : LedgerProducer MemoryLedgerStore) (next : ProducerState) (sealed : List SealedSegment)
    (admission : Option IdempotencyRecord) (deltas : List AdmittedRecordDelta) {u : Unit {0}}
    → commit memory_store next sealed admission deltas p ≡ (done u, q)
    → Stored p next admission q
unfolding commit
commit-Stored p q next sealed admission deltas h =
    elim (Outcome-cases (commit_plan p.state next sealed admission deltas)) [
      | inr (bad, e) ↦ absurd (cc (rw (e, commit, commit_planned) at h))
      | inl (t, e) ↦
          let planned = commit_plan-done p.state next sealed admission deltas t e in
          let (state, answers) = planned_stored p q t (rw (e, commit) at h) in
          record {
            state = state ∙ planned.next_same;
            answers =
                answers
                ∙ ap (λ (o : Option IdempotencyRecord). insert_key o p.store.idempotency)
                    planned.admission_same;
          }
    ]

replayed_mark :
    (i : IdempotencyRecord) (out : AdmissionOutcome)
    → replayed_outcome i ≡ done out
    → out.replayed ≡ true
unfolding replayed_outcome
replayed_mark i out h = elim (Outcome-cases (admission_runs i.admitted_segment_numbers)) [
  | inr (bad, e) ↦ absurd (cc (rw (e, replayed_outcome) at h))
  | inl (runs, e) ↦
      elim (Outcome-cases (count_u64 (length i.admitted_segment_numbers) "admitted record")) [
        | inr (bad, e') ↦ absurd (cc (rw (e, e', replayed_outcome) at h))
        | inl (n, e') ↦ sym (
            ap (λ (x : AdmissionOutcome). x.replayed)
              (done-injective (rw (e, e', replayed_outcome) at h)))
      ]
]

module _ (sha256 : Bytes → Hash) where
  -- A batch that was committed with a key.
  pub record Committed (clock : Clock) (key digest : Bytes) (records : List Bytes)
      (p q : LedgerProducer MemoryLedgerStore) (out : AdmissionOutcome) : Type 0 where
    pub plan : BatchPlan
    pub planned : batch_plan sha256 clock p.state records (some (key, digest)) ≡ done plan
    pub stored : Stored p plan.next_state plan.admission q
    pub answer : out ≡ admitted_outcome q.state plan

  inner-Committed :
      (clock : Clock) (key digest : Bytes) (records : List Bytes)
      (p q : LedgerProducer MemoryLedgerStore) (out : AdmissionOutcome)
      → admit_batch_inner memory_store sha256 clock records (some (key, digest)) p ≡ (done out, q)
      → Committed clock key digest records p q out
  unfolding admit_batch_inner
  inner-Committed clock key digest records p q out h =
      elim (Outcome-cases (batch_plan sha256 clock p.state records (some (key, digest)))) [
        | inr (bad, e) ↦ absurd (cc (rw (e, admit_batch_inner, commit_batch) at h))
        | inl (plan, e) ↦
            let (committed, shape) =
              bound (commit memory_store plan.next_state plan.sealed plan.admission plan.deltas p)
                plan (unfold commit_batch in (rw (e, admit_batch_inner) at h)) in
            record {
              plan = plan;
              planned = e;
              stored =
                  commit-Stored p q plan.next_state plan.sealed plan.admission plan.deltas
                    committed;
              answer = shape;
            }
      ]
    where
      bound :
          (r : Outcome _ (Unit {0}) × LedgerProducer MemoryLedgerStore) (plan : BatchPlan)
          → bind_result r (λ u q. (done (admitted_outcome q.state plan), q)) ≡ (done out, q)
          → (r ≡ (done tt, q)) × (out ≡ admitted_outcome q.state plan)
      bound (done u, r) plan h =
          let same : r ≡ q = ap (λ (x : Outcome _ AdmissionOutcome × LedgerProducer _). x.1) h in
          let answered : admitted_outcome r.state plan ≡ out =
            done-injective (ap (λ (x : Outcome _ AdmissionOutcome × LedgerProducer _). x.0) h) in
          (
            ap (λ (x : LedgerProducer MemoryLedgerStore). (done tt, x)) same,
            sym answered
                ∙ ap (λ (x : LedgerProducer MemoryLedgerStore). admitted_outcome x.state plan) same,
          )
      bound (failed e, r) plan h = absurd (cc h)

  -- The lookup of a key that has no answer goes on to the batch.
  pub looked_up-Committed :
      (clock : Clock) (key digest : Bytes) (records : List Bytes)
      (p q : LedgerProducer MemoryLedgerStore) (out : AdmissionOutcome)
      → admit_batch_idempotent_digest memory_store sha256 clock key records digest p ≡ (done out, q)
      → out.replayed ≡ false
      → (validate_key key ≡ done tt) × Committed clock key digest records p q out
  unfolding admit_batch_idempotent_digest memory_store
  looked_up-Committed clock key digest records p q out h first =
      elim (Outcome-cases (validate_key key)) [
        | inr (bad, e) ↦ absurd (cc (rw (e, admit_batch_idempotent_digest) at h))
        | inl (u, e) ↦ elim (Option-cases (find_key p.store.idempotency key)) [
          | inl free ↦ (
            e,
            inner-Committed clock key digest records p q out
                (unfold admit_looked_up in (rw (e, free, admit_batch_idempotent_digest) at h)),
          )
          | inr (i, found) ↦ elim (Bool-cases (bytes_eq i.request_sha256 digest)) [
            | inr other ↦
                absurd
                  (cc (rw (e, found, admit_batch_idempotent_digest, admit_looked_up, other) at h))
            | inl same ↦
                let answered =
                  rw (e, found, admit_batch_idempotent_digest, admit_looked_up, same) at h in
                absurd (
                  cc (
                    sym (
                      replayed_mark i out
                        (ap (λ (x : Outcome _ AdmissionOutcome × LedgerProducer _). x.0) answered))
                    ∙ first))
          ]
        ]
      ]
