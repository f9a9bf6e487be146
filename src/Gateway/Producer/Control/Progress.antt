-- ===== src/Gateway/Producer/Control/Progress.antt =====
-- producer.rs: the only producer over a store in memory goes on.
use trackone.Prelude.{ℕ, ◌+◌, ◌≤◌, ◌<◌, ◌≡◌, Option, none, some, List, [], length, All}
use trackone.Prelude.Outcome.{Outcome, done}
use trackone.Ledger.Hash.{Bytes, Hash}
use trackone.Gateway.Producer.{ProducerState, SealedSegment, CloseReason}
use trackone.Gateway.Producer.Construct.{construct_segment}
use trackone.Gateway.Producer.Construct.Kept.{Closed}
use trackone.Gateway.Producer.Expiry.{and_later}
use trackone.Gateway.Producer.Store.{MemoryLedgerStore, find_sealed}
use trackone.Gateway.Producer.Monad.{LedgerProducer}
use trackone.Gateway.Producer.Commit.{revised}

-- The store has the producer's state, and segments below the producer's next number only.
pub record IsInSync (p : LedgerProducer MemoryLedgerStore) : Type 0 where
  pub state : p.store.state ≡ some p.state
  pub fresh :
      (number : ℕ) → p.state.next_segment_number ≤ number → find_sealed p.store.sealed number ≡ none

-- What a commit that goes through leaves.
pub record Proceeds (p : LedgerProducer MemoryLedgerStore) (next : ProducerState)
    (q : LedgerProducer MemoryLedgerStore) : Type 0 where
  pub in_sync : IsInSync q
  pub next_same : q.state ≡ revised next (p.state.revision + 1)

-- The segments of a transition have the producer's next number, and fewer numbers follow.
abbrev AreNext : ℕ → ℕ → List SealedSegment → Type 0
AreNext number after gs =
    All (λ (g : SealedSegment). (g.segment_number ≡ number) × (number < after)) gs

module _ (sha256 : Bytes → Hash) (digests : (message : Bytes) → length (sha256 message) ≡ 32) where
  -- A closing that goes through.
  record Sealed (s : ProducerState) (at : ℕ) (reason : CloseReason) (o : Option SealedSegment)
      (t : ProducerState) : Type 0 where
    result : construct_segment sha256 s at reason ≡ done (o, t)
    closed : Closed sha256 s at o t
    numbers : AreNext s.next_segment_number t.next_segment_number (and_later o [])
