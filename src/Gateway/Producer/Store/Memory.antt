-- ===== src/Gateway/Producer/Store/Memory.antt =====
-- producer.rs: the store in memory commits a transition whole or not at all.
use trackone.Prelude.{
  ℕ, ◌≡◌, ◌≢◌, ◌⊎◌, refl, sym, ap, ◌∙◌, arith, true, false, inl, inr, Option, none, some, List, [],
  ◌∷◌, ◌++◌, ◌==◌, if◌then◌else◌, All, Bool-cases, ==→eq, ne→not_==,
}
use trackone.Prelude.Outcome.{done, failed}
use trackone.Prelude.Text.{bytes_eq, bytes_eq→eq}
use trackone.Ledger.Hash.{Bytes}
use trackone.Gateway.Producer.{
  ProducerState, SealedSegment, IdempotencyRecord, LedgerTransition, concurrent_writer,
}
use trackone.Gateway.Producer.Store.{
  MemoryLedgerStore, find_sealed, find_key, is_found, any_sealed, key_taken, insert_sealed,
  insert_key, same_revision, swapped, memory_compare_and_swap,
}

-- The revision that a stored state has.
abbrev pub stored_revision : Option ProducerState → Option ℕ
stored_revision none = none
stored_revision (some s) = some s.revision

abbrev pub IsFreeKey : List IdempotencyRecord → Option IdempotencyRecord → Type 0
IsFreeKey stored none = Unit {0}
IsFreeKey stored (some i) = find_key stored i.key ≡ none

-- What a swap wants of the store: the expected revision, no segment under a number of the
-- transition, and no answer under its key.
pub record Accepts (m : MemoryLedgerStore) (expected : Option ℕ) (t : LedgerTransition)
    : Type 0 where
  pub revision : stored_revision m.state ≡ expected
  pub fresh : All (λ (g : SealedSegment). find_sealed m.sealed g.segment_number ≡ none) t.sealed
  pub free : IsFreeKey m.idempotency t.idempotency

-- A later store still has what an earlier one has.
pub record Extends (m n : MemoryLedgerStore) : Type 0 where
  pub segments :
      (number : ℕ) (g : SealedSegment)
      → find_sealed m.sealed number ≡ some g
      → find_sealed n.sealed number ≡ some g
  pub answers :
      (key : Bytes) (i : IdempotencyRecord)
      → find_key m.idempotency key ≡ some i
      → find_key n.idempotency key ≡ some i

-- The last of some segments under a number.
abbrev pub latest : List SealedSegment → ℕ → Option SealedSegment
latest [] number = none
latest (g ∷ gs) number = elim (latest gs number) [
  | some h ↦ some h
  | none ↦ if g.segment_number == number then some g else none
]

-- The answer under a key.
abbrev pub answer_for : Option IdempotencyRecord → Bytes → Option IdempotencyRecord
answer_for none key = none
answer_for (some i) key = if bytes_eq i.key key then some i else none

abbrev pub or_else {ℓ} : {A : Type ℓ} → Option A → Option A → Option A
or_else none o = o
or_else (some a) o = some a

-- Everything in a transition is in the store behind it, with what was in the store.
pub record Stores (m : MemoryLedgerStore) (t : LedgerTransition) (n : MemoryLedgerStore)
    : Type 0 where
  pub state : n.state ≡ some t.next_state
  pub segments :
      (number : ℕ)
      → find_sealed n.sealed number ≡ or_else (latest t.sealed number) (find_sealed m.sealed number)
  pub answers :
      (key : Bytes)
      → find_key n.idempotency key
        ≡ or_else (answer_for t.idempotency key) (find_key m.idempotency key)
  pub transitions : n.transitions ≡ m.transitions ++ (t ∷ [])

insert_sealed-latest :
    (gs stored : List SealedSegment) (number : ℕ)
    → find_sealed (insert_sealed gs stored) number
      ≡ or_else (latest gs number) (find_sealed stored number)
unfolding find_sealed
insert_sealed-latest [] stored number = refl
insert_sealed-latest (g ∷ gs) stored number =
    insert_sealed-latest gs (g ∷ stored) number ∙ step (latest gs number)
  where
    step :
        (o : Option SealedSegment)
        → or_else o (if g.segment_number == number then some g else find_sealed stored number)
          ≡ or_else
              (elim o [
                | some h ↦ some h
                | none ↦ if g.segment_number == number then some g else none
              ])
              (find_sealed stored number)
    step (some h) = refl
    step none = elim (Bool-cases (g.segment_number == number)) [
      | inl same ↦ rw same refl
      | inr other ↦ rw other refl
    ]

insert_key-answer :
    (o : Option IdempotencyRecord) (stored : List IdempotencyRecord) (key : Bytes)
    → find_key (insert_key o stored) key ≡ or_else (answer_for o key) (find_key stored key)
unfolding find_key
insert_key-answer none stored key = refl
insert_key-answer (some i) stored key = elim (Bool-cases (bytes_eq i.key key)) [
  | inl same ↦ rw same refl
  | inr other ↦ rw other refl
]

swapped-Stores : (m : MemoryLedgerStore) (t : LedgerTransition) → Stores m t (swapped m t)
unfolding swapped
swapped-Stores m t = record {
  state = refl;
  segments = insert_sealed-latest t.sealed m.sealed;
  answers = insert_key-answer t.idempotency m.idempotency;
  transitions = refl;
}

same_revision_iff :
    (o : Option ProducerState) (expected : Option ℕ)
    → ((same_revision o expected ≡ true) × (stored_revision o ≡ expected))
      ⊎ ((same_revision o expected ≡ false) × ¬ (stored_revision o ≡ expected))
same_revision_iff none none = inl (refl, refl)
same_revision_iff none (some n) = inr (refl, λ e. cc)
same_revision_iff (some s) none = inr (refl, λ e. cc)
same_revision_iff (some s) (some n) = elim (Bool-cases (s.revision == n)) [
  | inl same ↦ inl (same, ap some (==→eq _ _ same))
  | inr other ↦ inr (other, λ e. ground arith)
]

found_cases {ℓ} : {A : Type ℓ} (o : Option A) → ((is_found o ≡ true) × ¬ (o ≡ none)) ⊎ (o ≡ none)
found_cases none = inr refl
found_cases (some a) = inl (refl, λ e. cc)

any_sealed_iff :
    (stored gs : List SealedSegment)
    → ((any_sealed stored gs ≡ true)
        × ¬ All (λ (g : SealedSegment). find_sealed stored g.segment_number ≡ none) gs)
      ⊎ ((any_sealed stored gs ≡ false)
          × All (λ (g : SealedSegment). find_sealed stored g.segment_number ≡ none) gs)
unfolding any_sealed
any_sealed_iff stored [] = inr (refl, tt)
any_sealed_iff stored (g ∷ gs) = elim (found_cases (find_sealed stored g.segment_number)) [
  | inl (found, taken) ↦ inl (rw found refl, λ all. taken all.0)
  | inr free ↦ elim (any_sealed_iff stored gs) [
    | inl (e, taken) ↦ inl (rw (free, e) refl, λ all. taken all.1)
    | inr (e, all) ↦ inr (rw (free, e) refl, (free, all))
  ]
]

key_taken_iff :
    (stored : List IdempotencyRecord) (o : Option IdempotencyRecord)
    → ((key_taken stored o ≡ true) × ¬ IsFreeKey stored o)
      ⊎ ((key_taken stored o ≡ false) × IsFreeKey stored o)
key_taken_iff stored none = inr (refl, tt)
key_taken_iff stored (some i) = elim (found_cases (find_key stored i.key)) [
  | inl (found, taken) ↦ inl (found, taken)
  | inr free ↦ inr (rw free refl, free)
]

-- Inserting under other numbers keeps what is found.
insert_sealed-keeps :
    (gs stored : List SealedSegment) (number : ℕ) (h : SealedSegment)
    → All (λ (g : SealedSegment). g.segment_number ≢ number) gs
    → find_sealed stored number ≡ some h
    → find_sealed (insert_sealed gs stored) number ≡ some h
unfolding find_sealed
insert_sealed-keeps [] stored number h others e = e
insert_sealed-keeps (g ∷ gs) stored number h others e =
    insert_sealed-keeps gs (g ∷ stored) number h others.1
      (rw (ne→not_== g.segment_number number others.0) e)

fresh_others :
    (stored gs : List SealedSegment) (number : ℕ) (h : SealedSegment)
    → find_sealed stored number ≡ some h
    → All (λ (g : SealedSegment). find_sealed stored g.segment_number ≡ none) gs
    → All (λ (g : SealedSegment). g.segment_number ≢ number) gs
fresh_others stored [] number h e all = tt
fresh_others stored (g ∷ gs) number h e all = (
  λ same. absurd (cc (sym (ap (find_sealed stored) same) ∙ all.0, e)),
  fresh_others stored gs number h e all.1,
)

insert_key-keeps :
    (stored : List IdempotencyRecord) (o : Option IdempotencyRecord) (key : Bytes)
    (i : IdempotencyRecord)
    → IsFreeKey stored o
    → find_key stored key ≡ some i
    → find_key (insert_key o stored) key ≡ some i
unfolding find_key
insert_key-keeps stored none key i free e = e
insert_key-keeps stored (some j) key i free e = elim (Bool-cases (bytes_eq j.key key)) [
  | inr other ↦ rw other e
  | inl same ↦ absurd (cc (sym (ap (find_key stored) (bytes_eq→eq j.key key same)) ∙ free, e))
]

swapped-Extends :
    (m : MemoryLedgerStore) (expected : Option ℕ) (t : LedgerTransition)
    → Accepts m expected t
    → Extends m (swapped m t)
unfolding swapped
swapped-Extends m expected t a = record {
  segments = λ number g e.
      insert_sealed-keeps t.sealed m.sealed number g
        (fresh_others m.sealed t.sealed number g e a.fresh) e;
  answers = λ key i e. insert_key-keeps m.idempotency t.idempotency key i a.free e;
}

-- The swap of the store in memory is all or nothing, and loses nothing. It accepts exactly the
-- transitions that expect the stored revision, whose segments have numbers that are not stored and
-- whose key has no stored answer. Then the store has the next state, under every number the last
-- segment of the transition with it, or else the segment that it had, under every key the
-- transition's answer, or else the answer that it had, and the transition at the end of its log;
-- every segment and every answer that it had is still found, unchanged. Otherwise a concurrent
-- writer is reported and the store is as it was.
pub memory_compare_and_swap_cases :
    (m : MemoryLedgerStore) (expected : Option ℕ) (t : LedgerTransition)
    → (Accepts m expected t
        × (memory_compare_and_swap m expected t ≡ (done tt, swapped m t))
        × Stores m t (swapped m t)
        × Extends m (swapped m t))
      ⊎ (¬ Accepts m expected t
          × (memory_compare_and_swap m expected t ≡ (failed concurrent_writer, m)))
unfolding memory_compare_and_swap
memory_compare_and_swap_cases m expected t = elim (same_revision_iff m.state expected) [
  | inr (e, wrong) ↦ inr (λ a. wrong a.revision, rw e refl)
  | inl (e, right) ↦ elim (any_sealed_iff m.sealed t.sealed) [
    | inl (e', taken) ↦ inr (λ a. taken a.fresh, rw (e, e') refl)
    | inr (e', fresh) ↦ elim (key_taken_iff m.idempotency t.idempotency) [
      | inl (e'', taken) ↦ inr (λ a. taken a.free, rw (e, e', e'') refl)
      | inr (e'', free) ↦
          let a : Accepts m expected t = record { revision = right; fresh = fresh; free = free } in
          inl (a, rw (e, e', e'') refl, swapped-Stores m t, swapped-Extends m expected t a)
    ]
  ]
]
