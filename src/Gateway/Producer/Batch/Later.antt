-- ===== src/Gateway/Producer/Batch/Later.antt =====
-- producer.rs: no call of a producer's methods loses an answer or a segment from the store in memory.
use trackone.Prelude.{
  ℕ, ◌-◌, Bool, true, false, inl, inr, Option, none, some, List, [], ltb, ◌==◌, Bool-cases,
  if◌then◌else◌,
}
use trackone.Prelude.Outcome.{Outcome, done, failed, Outcome-cases}
use trackone.Prelude.Text.{bytes_eq}
use trackone.Ledger.Hash.{Bytes, Hash}
use trackone.Ledger.Vtl.Policy.{ClosurePolicy}
use trackone.Gateway.Producer.{
  ProducerState, SealedSegment, IdempotencyRecord, AdmittedRecordDelta, LedgerTransition,
  CloseReason, recovery, reconfigure, ProducerError, validate_policy,
}
use trackone.Gateway.Producer.Expiry.{close_expired}
use trackone.Gateway.Producer.Store.{MemoryLedgerStore, memory_store, find_key}
use trackone.Gateway.Producer.Store.Memory.{Extends, memory_compare_and_swap_cases}
use trackone.Gateway.Producer.Monad.{Clock, LedgerProducer, Method, bind_result}
use trackone.Gateway.Producer.Commit.{
  safe_now, require_active, after_swap, commit_plan, commit_planned, commit,
}
use trackone.Gateway.Producer.Control.{
  opened_anew, replaced_policy, stays_active, with_next_policy, close_requested, transition,
  recover, close, update_policy, reactivate, seal_expired_intervals,
}
use trackone.Gateway.Producer.Batch.{
  BatchPlan, batch_plan, validate_key, commit_batch, admit_batch_inner, admit_looked_up,
  admit_batch_idempotent_digest,
}

abbrev Producer : Type 0
Producer = LedgerProducer MemoryLedgerStore

Extends-refl : (m : MemoryLedgerStore) → Extends m m
Extends-refl m = record { segments = λ number g e. e; answers = λ key i e. e }

Extends-trans : (l m n : MemoryLedgerStore) → Extends l m → Extends m n → Extends l n
Extends-trans l m n a b = record {
  segments = λ number g e. b.segments number g (a.segments number g e);
  answers = λ key i e. b.answers key i (a.answers key i e);
}

-- A method that keeps what the store has, whatever it returns.
abbrev Keeping : {A : Type 0} → Method MemoryLedgerStore A → Type 0
Keeping m = (p : Producer) → Extends p.store (m p).1.store

bind-keeps :
    {A B : Type 0} (m : MemoryLedgerStore) (r : Outcome ProducerError A × Producer)
    (f : A → Method MemoryLedgerStore B)
    → Extends m r.1.store
    → ((a : A) → Keeping (f a))
    → Extends m (bind_result r f).1.store
bind-keeps m (done a, q) f first rest = Extends-trans m q.store (f a q).1.store first (rest a q)
bind-keeps m (failed e, q) f first rest = first

planned-keeps :
    (p : Producer) (o : Outcome ProducerError LedgerTransition)
    → Extends p.store (commit_planned memory_store p o).1.store
unfolding commit_planned memory_store after_swap
planned-keeps p (failed e) = Extends-refl p.store
planned-keeps p (done t) = elim (memory_compare_and_swap_cases p.store (some p.state.revision) t) [
  | inr (_, e) ↦ rw e (Extends-refl p.store)
  | inl (_, e, _, kept) ↦ rw e kept
]

commit-Keeping :
    (next : ProducerState) (sealed : List SealedSegment) (admission : Option IdempotencyRecord)
    (deltas : List AdmittedRecordDelta)
    → Keeping (commit memory_store next sealed admission deltas)
unfolding commit
commit-Keeping next sealed admission deltas p =
    planned-keeps p (commit_plan p.state next sealed admission deltas)

if-Keeping :
    {A : Type 0} (b : Bool) (f g : Method MemoryLedgerStore A)
    → Keeping f
    → Keeping g
    → Keeping (if b then f else g)
if-Keeping true f g left right = left
if-Keeping false f g left right = right

reactivate-Keeping : (clock : Clock) → Keeping (reactivate memory_store clock)
unfolding reactivate
reactivate-Keeping clock p =
    if-Keeping p.state.active _ _ (λ q. Extends-refl q.store)
      (λ q.
        bind-keeps q.store (clock.now_ms, q) _ (Extends-refl q.store)
          λ now r.
            commit-Keeping (opened_anew p.state true now clock.later_continuity_id) [] none [] r)
      p

module _ (sha256 : Bytes → Hash) where
  transition-Keeping :
      (clock : Clock) (now : ℕ) (requested : Option CloseReason)
      (replacement : Option ClosurePolicy)
      → Keeping (transition memory_store sha256 clock now requested replacement)
  unfolding transition
  transition-Keeping clock now requested replacement p =
      bind-keeps p.store (require_active p.state, p) _ (Extends-refl p.store)
        λ u q.
          bind-keeps q.store (close_requested sha256 p.state now requested, q) _
            (Extends-refl q.store)
            λ sealed r.
              let next : ProducerState =
                opened_anew (replaced_policy sealed.1 replacement)
                  (stays_active sealed.1.active requested) now clock.later_continuity_id in
              bind-keeps r.store (commit memory_store next sealed.0 none [] r) _
                (commit-Keeping next sealed.0 none [] r) λ v s. Extends-refl s.store

  recover-Keeping : (clock : Clock) → Keeping (recover memory_store sha256 clock)
  unfolding recover
  recover-Keeping clock p =
      bind-keeps p.store (require_active p.state, p) _ (Extends-refl p.store)
        λ u q.
          bind-keeps q.store (clock.now_ms, q) _ (Extends-refl q.store)
            λ now r. transition-Keeping clock now (some recovery) none r

  close-Keeping :
      (clock : Clock) (reason : CloseReason) → Keeping (close memory_store sha256 clock reason)
  unfolding close
  close-Keeping clock reason p =
      bind-keeps p.store (safe_now clock p.state, p) _ (Extends-refl p.store)
        λ now q. transition-Keeping clock now (some reason) none q

  update_policy-Keeping :
      (clock : Clock) (policy : ClosurePolicy) (immediate : Bool)
      → Keeping (update_policy memory_store sha256 clock policy immediate)
  unfolding update_policy
  update_policy-Keeping clock policy immediate p =
      bind-keeps p.store (validate_policy policy, p) _ (Extends-refl p.store)
        λ u q.
          bind-keeps q.store (safe_now clock q.state, q) _ (Extends-refl q.store)
            λ now r.
              if-Keeping immediate _ _
                (transition-Keeping clock now (some reconfigure) (some policy))
                (λ s.
                  let next : ProducerState = with_next_policy q.state policy in
                  bind-keeps s.store (commit memory_store next [] none [] s) _
                    (commit-Keeping next [] none [] s) λ v t. Extends-refl t.store)
                r

  seal_expired_intervals-Keeping :
      (clock : Clock) → Keeping (seal_expired_intervals memory_store sha256 clock)
  unfolding seal_expired_intervals
  seal_expired_intervals-Keeping clock p =
      bind-keeps p.store (safe_now clock p.state, p) _ (Extends-refl p.store)
        λ now q.
          if-Keeping
            (ltb (now - p.state.open_interval.opened_at_ms)
              p.state.open_interval.policy.interval_ms)
            _ _ (λ r. Extends-refl r.store)
            (λ r.
              bind-keeps r.store (close_expired sha256 p.state now, r) _ (Extends-refl r.store)
                λ sealed s.
                  if-Keeping
                    (sealed.1.open_interval.opened_at_ms == p.state.open_interval.opened_at_ms) _ _
                    (λ t. Extends-refl t.store)
                    (λ t.
                      bind-keeps t.store (commit memory_store sealed.1 sealed.0 none [] t) _
                        (commit-Keeping sealed.1 sealed.0 none [] t) λ v w. Extends-refl w.store)
                    s)
            q

  batch-keeps :
      (p : Producer) (o : Outcome ProducerError BatchPlan)
      → Extends p.store (commit_batch memory_store sha256 p o).1.store
  unfolding commit_batch
  batch-keeps p (failed e) = Extends-refl p.store
  batch-keeps p (done plan) =
      bind-keeps p.store
        (commit memory_store plan.next_state plan.sealed plan.admission plan.deltas p) _
        (commit-Keeping plan.next_state plan.sealed plan.admission plan.deltas p)
        λ u q. Extends-refl q.store

  admit_batch_inner-Keeping :
      (clock : Clock) (records : List Bytes) (idempotency : Option (Bytes × Bytes))
      → Keeping (admit_batch_inner memory_store sha256 clock records idempotency)
  unfolding admit_batch_inner
  admit_batch_inner-Keeping clock records idempotency p =
      batch-keeps p (batch_plan sha256 clock p.state records idempotency)

  looked_up-Keeping :
      (clock : Clock) (key digest : Bytes) (records : List Bytes)
      (o : Outcome ProducerError (Option IdempotencyRecord))
      → Keeping (admit_looked_up memory_store sha256 clock key records digest o)
  unfolding admit_looked_up
  looked_up-Keeping clock key digest records (failed e) p = Extends-refl p.store
  looked_up-Keeping clock key digest records (done none) p =
      admit_batch_inner-Keeping clock records (some (key, digest)) p
  looked_up-Keeping clock key digest records (done (some i)) p =
      elim (Bool-cases (bytes_eq i.request_sha256 digest)) [
        | inl same ↦ rw same (Extends-refl p.store)
        | inr other ↦ rw other (Extends-refl p.store)
      ]

  digest-Keeping :
      (clock : Clock) (key digest : Bytes) (records : List Bytes)
      → Keeping (admit_batch_idempotent_digest memory_store sha256 clock key records digest)
  unfolding admit_batch_idempotent_digest memory_store
  digest-Keeping clock key digest records p = elim (Outcome-cases (validate_key key)) [
    | inr (bad, e) ↦ rw (e, admit_batch_idempotent_digest) (Extends-refl p.store)
    | inl (u, e) ↦
        rw (e, admit_batch_idempotent_digest)
          (looked_up-Keeping clock key digest records (done (find_key p.store.idempotency key)) p)
  ]

  -- A call of one of the producer's methods, by what it leaves.
  pub data Call (p : LedgerProducer MemoryLedgerStore)
      : LedgerProducer MemoryLedgerStore → Type 0 where
    admits :
        (clock : Clock) (records : List Bytes) (idempotency : Option (Bytes × Bytes))
        → Call p (admit_batch_inner memory_store sha256 clock records idempotency p).1
    admits_once :
        (clock : Clock) (key digest : Bytes) (records : List Bytes)
        → Call p (admit_batch_idempotent_digest memory_store sha256 clock key records digest p).1
    closes :
        (clock : Clock) (reason : CloseReason) → Call p (close memory_store sha256 clock reason p).1
    recovers : (clock : Clock) → Call p (recover memory_store sha256 clock p).1
    reactivates : (clock : Clock) → Call p (reactivate memory_store clock p).1
    updates :
        (clock : Clock) (policy : ClosurePolicy) (immediate : Bool)
        → Call p (update_policy memory_store sha256 clock policy immediate p).1
    seals_expired : (clock : Clock) → Call p (seal_expired_intervals memory_store sha256 clock p).1
    -- The process ends, and a producer with any other state takes up the store.
    restarts : (s : ProducerState) → Call p (record { store = p.store; state = s })

  -- A producer that calls lead to, in any number and order.
  pub data Later (p : LedgerProducer MemoryLedgerStore)
      : LedgerProducer MemoryLedgerStore → Type 0 where
    at_once : Later p p
    after : {q r : LedgerProducer MemoryLedgerStore} → Later p q → Call q r → Later p r

  Call-Extends : {p q : Producer} → Call p q → Extends p.store q.store
  Call-Extends {p} (admits clock records o) = admit_batch_inner-Keeping clock records o p
  Call-Extends {p} (admits_once clock key digest records) =
      digest-Keeping clock key digest records p
  Call-Extends {p} (closes clock reason) = close-Keeping clock reason p
  Call-Extends {p} (recovers clock) = recover-Keeping clock p
  Call-Extends {p} (reactivates clock) = reactivate-Keeping clock p
  Call-Extends {p} (updates clock policy immediate) = update_policy-Keeping clock policy immediate p
  Call-Extends {p} (seals_expired clock) = seal_expired_intervals-Keeping clock p
  Call-Extends {p} (restarts s) = Extends-refl p.store

  pub Later-Extends : {p q : Producer} → Later p q → Extends p.store q.store
  Later-Extends {p} at_once = Extends-refl p.store
  Later-Extends {p} (after {q} {r} before call) =
      Extends-trans p.store q.store r.store (Later-Extends before) (Call-Extends call)
