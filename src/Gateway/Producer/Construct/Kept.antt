-- ===== src/Gateway/Producer/Construct/Kept.antt =====
-- producer.rs: what `construct_segment` keeps of a state, and where the interval's records go.
use trackone.Prelude.{
  ℕ, ◌+◌, ◌^◌, ◌<◌, ◌≡◌, refl, sym, ◌∙◌, arith, true, inl, inr, &&_split, Option, none, some, List,
  [], ◌∷◌, length,
}
use mathlib.Core.Path.{subst}
use trackone.Prelude.Outcome.{done, done-injective}
use trackone.Ledger.Hash.{Bytes, Hash}
use trackone.Gateway.Producer.{ProducerState, SealedSegment, CloseReason}
use trackone.Gateway.Producer.Construct.{
  no_records, reopened, advanced, sealed_segment, construct_segment,
}
use trackone.Gateway.Producer.Construct.Sealed.{IsLedger, Sealing, construct_segment_cases}

-- The records and the number of segments that a closing seals.
abbrev pub records_in : Option SealedSegment → List Bytes
records_in none = []
records_in (some segment) = segment.records

abbrev pub segments_in : Option SealedSegment → ℕ
segments_in none = 0
segments_in (some segment) = 1

-- The parts of a state that no closing changes.
pub record SameIdentity (s t : ProducerState) : Type 0 where
  pub revision : t.revision ≡ s.revision
  pub active : t.active ≡ s.active
  pub ledger_id : t.ledger_id ≡ s.ledger_id
  pub site_id : t.site_id ≡ s.site_id
  pub continuity : t.open_interval.clock_continuity_id ≡ s.open_interval.clock_continuity_id
  pub next_policy : t.next_policy ≡ s.next_policy

no_records→nil : (rs : List Bytes) → no_records rs ≡ true → rs ≡ []
no_records→nil [] h = refl
no_records→nil (r ∷ rs) h = cc

module _ (sha256 : Bytes → Hash) where
  -- A closed interval and the one behind it.
  pub record Closed (s : ProducerState) (at : ℕ) (o : Option SealedSegment) (t : ProducerState)
      : Type 0 where
    pub ledger : IsLedger sha256 t
    pub records : records_in o ≡ s.open_interval.records
    pub emptied : t.open_interval.records ≡ []
    pub opened : t.open_interval.opened_at_ms ≡ at
    pub policy : t.open_interval.policy ≡ s.next_policy
    pub number : t.next_segment_number ≡ s.next_segment_number + segments_in o
    pub same : SameIdentity s t

  reopened_closes :
      (s : ProducerState) (at : ℕ)
      → IsLedger sha256 s
      → s.open_interval.records ≡ []
      → Closed s at none (reopened s at)
  unfolding reopened
  reopened_closes s at l empty = record {
    ledger = record {
      hex = l.hex;
      open_valid = l.next_valid;
      open_typed = l.next_typed;
      next_valid = l.next_valid;
      next_typed = l.next_typed;
      bytes = refl;
      number_word = l.number_word;
      chained = l.chained;
    };
    records = sym empty;
    emptied = refl;
    opened = refl;
    policy = refl;
    number = omega arith;
    same = record {
      revision = refl;
      active = refl;
      ledger_id = refl;
      site_id = refl;
      continuity = refl;
      next_policy = refl;
    };
  }

  module _ (digests : (message : Bytes) → length (sha256 message) ≡ 32) where
    sealing_closes :
        (s : ProducerState) (at : ℕ) (reason : CloseReason)
        → IsLedger sha256 s
        → (sealing : Sealing sha256 digests s at reason)
        → Closed s at
            (some (
              sealed_segment sha256 reason s.open_interval.records s.next_segment_number
                sealing.artifact))
            (advanced (reopened s at) sealing.artifact (s.next_segment_number + 1))
    unfolding reopened advanced sealed_segment
    sealing_closes s at reason l sealing = record {
      ledger = record {
        hex = l.hex;
        open_valid = l.next_valid;
        open_typed = l.next_typed;
        next_valid = l.next_valid;
        next_typed = l.next_typed;
        bytes = refl;
        number_word = sealing.room;
        chained = (sealing.segment, sealing.produced, omega (arith, sealing.number));
      };
      records = refl;
      emptied = refl;
      opened = refl;
      policy = refl;
      number = refl;
      same = record {
        revision = refl;
        active = refl;
        ledger_id = refl;
        site_id = refl;
        continuity = refl;
        next_policy = refl;
      };
    }

    -- Whenever a producer whose chain is intact and whose interval holds fewer than 2^64 records
    -- closes the interval and succeeds, the chain is intact behind it, the interval's records are
    -- exactly those of the sealed segment, none without one, the next interval is empty under the
    -- next policy from the given time, the number grows with the segment, and the revision, the
    -- identity and the next policy are as before. SHA-256 is any function to 32 bytes.
    pub construct_segment_closes :
        (s : ProducerState) (at : ℕ) (reason : CloseReason) (o : Option SealedSegment)
        (t : ProducerState)
        → IsLedger sha256 s
        → length s.open_interval.records < 2 ^ 64
        → construct_segment sha256 s at reason ≡ done (o, t)
        → Closed s at o t
    unfolding reopened advanced sealed_segment
    construct_segment_closes s at reason o t l small h =
        elim (construct_segment_cases sha256 digests s at reason l small) [
          | inl (guard, e) ↦
              subst (λ (p : Option SealedSegment × ProducerState). Closed s at p.0 p.1)
                (done-injective (sym e ∙ h))
                (reopened_closes s at l
                  (no_records→nil s.open_interval.records (&&_split _ _ guard).0))
          | inr (inl (last, e)) ↦ absurd (cc (sym e ∙ h))
          | inr (inr sealing) ↦
              subst (λ (p : Option SealedSegment × ProducerState). Closed s at p.0 p.1)
                (done-injective (sym sealing.result ∙ h)) (sealing_closes s at reason l sealing)
        ]
