-- ===== src/Gateway/Producer/Commit/Leaves.antt =====
-- producer.rs: what a method leaves of the producer's state, on success and on an error.
use trackone.Prelude.{
  ℕ, ◌+◌, ◌≡◌, refl, sym, ap, ◌∙◌, arith, inl, inr, Option, List, [], ◌++◌, length, Option-cases,
}
use mathlib.Core.Path.{subst}
use mathlib.Core.List.{append-nil}
use trackone.Prelude.Outcome.{Outcome, done, failed, Outcome-cases, done-injective}
use trackone.Ledger.Hash.{Bytes, Hash}
use trackone.Gateway.Producer.{
  ProducerState, SealedSegment, IdempotencyRecord, AdmittedRecordDelta, LedgerTransition,
  ProducerError, checked_add, count_u64,
}
use trackone.Gateway.Producer.Store.{LedgerStore}
use trackone.Gateway.Producer.Monad.{LedgerProducer, Method, bind_result, give}
use trackone.Gateway.Producer.Commit.{revised, after_swap, commit_plan, commit_planned, commit}
use trackone.Gateway.Producer.Counters.{checked_add-some}
use trackone.Gateway.Producer.Construct.Sealed.{IsLedger}
use trackone.Gateway.Producer.Expiry.Ends.{all_records}

-- A result: an error leaves the state as it was, and a success leaves what `Q` says of it.
abbrev pub Leaves :
    {S A : Type 0}
    → ProducerState
    → (A → ProducerState → Type 0)
    → Outcome ProducerError A × LedgerProducer S
    → Type 0
Leaves s Q (failed e, q) = q.state ≡ s
Leaves s Q (done a, q) = Q a q.state

-- The open records from before and `extra` are those of the sealed segments and the open ones.
pub record Conserves (sha256 : Bytes → Hash) (s : ProducerState) (extra : List Bytes)
    (gs : List SealedSegment) (t : ProducerState) : Type 0 where
  pub ledger : IsLedger sha256 t
  pub conserved : all_records gs ++ t.open_interval.records ≡ s.open_interval.records ++ extra
  pub number : t.next_segment_number ≡ s.next_segment_number + length gs

pub Conserves-refl :
    (sha256 : Bytes → Hash) (s : ProducerState) → IsLedger sha256 s → Conserves sha256 s [] [] s
Conserves-refl sha256 s l = record {
  ledger = l;
  conserved = sym (append-nil s.open_interval.records);
  number = omega arith;
}

pub revised-IsLedger :
    (sha256 : Bytes → Hash) (s : ProducerState) (revision : ℕ)
    → IsLedger sha256 s
    → IsLedger sha256 (revised s revision)
unfolding revised
revised-IsLedger sha256 s revision l = record {
  hex = l.hex;
  open_valid = l.open_valid;
  open_typed = l.open_typed;
  next_valid = l.next_valid;
  next_typed = l.next_typed;
  bytes = l.bytes;
  number_word = l.number_word;
  chained = l.chained;
}

pub revised-Conserves :
    (sha256 : Bytes → Hash) (s : ProducerState) (extra : List Bytes) (gs : List SealedSegment)
    (t : ProducerState) (revision : ℕ)
    → Conserves sha256 s extra gs t
    → Conserves sha256 s extra gs (revised t revision)
unfolding revised
revised-Conserves sha256 s extra gs t revision c = record {
  ledger = unfold revised in revised-IsLedger sha256 t revision c.ledger;
  conserved = c.conserved;
  number = c.number;
}

-- What a commit swaps in.
pub record Planned (s next : ProducerState) (sealed : List SealedSegment)
    (admission : Option IdempotencyRecord) (t : LedgerTransition) : Type 0 where
  pub next_same : t.next_state ≡ revised next (s.revision + 1)
  pub sealed_same : t.sealed ≡ sealed
  pub admission_same : t.idempotency ≡ admission

pub commit_plan-done :
    (s next : ProducerState) (sealed : List SealedSegment) (admission : Option IdempotencyRecord)
    (deltas : List AdmittedRecordDelta) (t : LedgerTransition)
    → commit_plan s next sealed admission deltas ≡ done t
    → Planned s next sealed admission t
unfolding commit_plan
commit_plan-done s next sealed admission deltas t h =
    elim (Option-cases (checked_add s.revision 1)) [
      | inl full ↦ absurd (cc (rw (full, commit_plan) at h))
      | inr (revision, e) ↦
          elim (Outcome-cases (count_u64 (length s.open_interval.records) "open record")) [
            | inr (bad, e') ↦ absurd (cc (rw (e, e', commit_plan) at h))
            | inl (n, e') ↦
                let same = done-injective (rw (e, e', commit_plan) at h) in
                let number = checked_add-some s.revision 1 e in
                record {
                  next_same =
                      sym (ap (λ (x : LedgerTransition). x.next_state) same)
                      ∙ ap (revised next) number;
                  sealed_same = sym (ap (λ (x : LedgerTransition). x.sealed) same);
                  admission_same = sym (ap (λ (x : LedgerTransition). x.idempotency) same);
                }
          ]
    ]

module _ {S : Type 0} where
  pub Leaves-lift :
      {A B : Type 0} (p : LedgerProducer S) (Q : B → ProducerState → Type 0)
      (o : Outcome ProducerError A) (f : A → Method S B)
      → ((a : A) → o ≡ done a → Leaves p.state Q (f a p))
      → Leaves p.state Q (bind_result (o, p) f)
  Leaves-lift p Q (done a) f h = h a refl
  Leaves-lift p Q (failed e) f h = refl

module _ {S : Type 0} (store : LedgerStore S) where
  Leaves-swap :
      {B : Type 0} (p : LedgerProducer S) (Q : B → ProducerState → Type 0) (b : B)
      (next : ProducerState) (r : Outcome ProducerError (Unit {0}) × S)
      → Q b next
      → Leaves p.state Q (bind_result (after_swap store p next r) (λ u. give b))
  unfolding after_swap
  Leaves-swap p Q b next (done u, s) h = h
  Leaves-swap p Q b next (failed e, s) h = refl

  Leaves-planned :
      {B : Type 0} (p : LedgerProducer S) (Q : B → ProducerState → Type 0) (b : B)
      (o : Outcome ProducerError LedgerTransition)
      → ((t : LedgerTransition) → o ≡ done t → Q b t.next_state)
      → Leaves p.state Q (bind_result (commit_planned store p o) (λ u. give b))
  unfolding commit_planned
  Leaves-planned p Q b (failed e) h = refl
  Leaves-planned p Q b (done t) h = Leaves-swap p Q b t.next_state _ (h t refl)

  -- A commit at the end of a method.
  pub Leaves-commit :
      {B : Type 0} (p : LedgerProducer S) (Q : B → ProducerState → Type 0) (b : B)
      (next : ProducerState) (sealed : List SealedSegment) (admission : Option IdempotencyRecord)
      (deltas : List AdmittedRecordDelta)
      → Q b (revised next (p.state.revision + 1))
      → Leaves p.state Q (bind_result (commit store next sealed admission deltas p) (λ u. give b))
  unfolding commit
  Leaves-commit p Q b next sealed admission deltas h =
      Leaves-planned p Q b (commit_plan p.state next sealed admission deltas) (λ t e.
        let planned = commit_plan-done p.state next sealed admission deltas t e in
        subst (λ (s : ProducerState). Q b s) (sym planned.next_same) h)

  -- A commit whose result is the method's own.
  pub Leaves-commit_last :
      (p : LedgerProducer S) (Q : ProducerState → Type 0) (next : ProducerState)
      (sealed : List SealedSegment) (admission : Option IdempotencyRecord)
      (deltas : List AdmittedRecordDelta)
      → Q (revised next (p.state.revision + 1))
      → Leaves p.state (λ u. Q) (commit store next sealed admission deltas p)
  Leaves-commit_last p Q next sealed admission deltas h =
      same (commit store next sealed admission deltas p)
        (Leaves-commit p (λ u. Q) tt next sealed admission deltas h)
    where
      same :
          (r : Outcome ProducerError (Unit {0}) × LedgerProducer S)
          → Leaves p.state (λ (u : Unit {0}). Q) (bind_result r (λ u. give tt))
          → Leaves p.state (λ u. Q) r
      same (done u, q) h = h
      same (failed e, q) h = h
