-- ===== src/Gateway/Producer/Store.antt =====
-- producer.rs: the contract of a ledger store, and the store that is kept in memory.
pub mod Memory
use trackone.Prelude.{
  ℕ, Bool, true, false, ◌||◌, Option, none, some, List, [], ◌∷◌, ◌++◌, ◌==◌, if◌then◌else◌,
}
use trackone.Prelude.Outcome.{Outcome, done, failed}
use trackone.Prelude.Text.{bytes_eq}
use trackone.Ledger.Hash.{Bytes}
use trackone.Gateway.Producer.{
  ProducerState, SealedSegment, IdempotencyRecord, LedgerTransition, ProducerError,
  concurrent_writer,
}

-- The trait: each operation returns its result and the store behind it.
pub record LedgerStore (S : Type 0) : Type 0 where
  pub load : S → Outcome ProducerError (Option ProducerState) × S
  pub lookup_idempotency : S → Bytes → Outcome ProducerError (Option IdempotencyRecord) × S
  pub compare_and_swap : S → Option ℕ → LedgerTransition → Outcome ProducerError (Unit {0}) × S

-- A map is the list of its entries: an insertion stands in front of what it replaces.
pub record MemoryLedgerStore : Type 0 where
  pub state : Option ProducerState
  pub sealed : List SealedSegment
  pub idempotency : List IdempotencyRecord
  pub transitions : List LedgerTransition

unfoldable pub find_sealed : List SealedSegment → ℕ → Option SealedSegment
find_sealed [] number = none
find_sealed (g ∷ gs) number = if g.segment_number == number then some g else find_sealed gs number

unfoldable pub find_key : List IdempotencyRecord → Bytes → Option IdempotencyRecord
find_key [] key = none
find_key (i ∷ is) key = if bytes_eq i.key key then some i else find_key is key

abbrev pub is_found {ℓ} : {A : Type ℓ} → Option A → Bool
is_found none = false
is_found (some a) = true

unfoldable pub any_sealed : List SealedSegment → List SealedSegment → Bool
unfolding find_sealed
any_sealed stored [] = false
any_sealed stored (g ∷ gs) = is_found (find_sealed stored g.segment_number) || any_sealed stored gs

abbrev pub key_taken : List IdempotencyRecord → Option IdempotencyRecord → Bool
key_taken stored none = false
key_taken stored (some i) = is_found (find_key stored i.key)

abbrev pub insert_sealed : List SealedSegment → List SealedSegment → List SealedSegment
insert_sealed [] stored = stored
insert_sealed (g ∷ gs) stored = insert_sealed gs (g ∷ stored)

abbrev pub insert_key : Option IdempotencyRecord → List IdempotencyRecord → List IdempotencyRecord
insert_key none stored = stored
insert_key (some i) stored = i ∷ stored

-- Equality of optional revisions.
abbrev pub same_revision : Option ProducerState → Option ℕ → Bool
same_revision none none = true
same_revision none (some n) = false
same_revision (some s) none = false
same_revision (some s) (some n) = s.revision == n

unfoldable pub swapped : MemoryLedgerStore → LedgerTransition → MemoryLedgerStore
swapped m t = record {
  state = some t.next_state;
  sealed = insert_sealed t.sealed m.sealed;
  idempotency = insert_key t.idempotency m.idempotency;
  transitions = m.transitions ++ (t ∷ []);
}

unfoldable pub memory_compare_and_swap :
    MemoryLedgerStore
    → Option ℕ
    → LedgerTransition
    → Outcome ProducerError (Unit {0}) × MemoryLedgerStore
unfolding any_sealed find_key swapped
memory_compare_and_swap m expected_revision t =
    if same_revision m.state expected_revision
    then (if any_sealed m.sealed t.sealed
        then (failed concurrent_writer, m)
        else if key_taken m.idempotency t.idempotency
        then (failed concurrent_writer, m)
        else (done tt, swapped m t))
    else (failed concurrent_writer, m)

unfoldable pub memory_store : LedgerStore MemoryLedgerStore
memory_store = record {
  load = λ m. (done m.state, m);
  lookup_idempotency = λ m key. (done (find_key m.idempotency key), m);
  compare_and_swap = memory_compare_and_swap;
}
