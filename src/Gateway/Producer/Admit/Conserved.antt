-- ===== src/Gateway/Producer/Admit/Conserved.antt =====
-- producer.rs: where the records of an admitted batch go, and what the batch keeps of the state.
use trackone.Prelude.{
  ℕ, suc, ◌+◌, ◌^◌, ◌≤◌, ◌<◌, ◌≡◌, refl, sym, ap, ◌∙◌, arith, inl, inr, Option, none, List, [], ◌∷◌,
  ◌++◌, length, length-append, Option-cases,
}
use mathlib.Core.Path.{subst}
use mathlib.Core.List.{append-nil, append_assoc}
use trackone.Prelude.Outcome.{done, >>=-eq-done, done-injective}
use trackone.Ledger.Hash.{Bytes, Hash}
use trackone.Gateway.Producer.{
  ProducerState, SealedSegment, counter_overflow, checked_add, ok_or, count_u64,
}
use trackone.Gateway.Producer.Counters.{count_u64-done, checked_add-done}
use trackone.Gateway.Producer.Construct.Sealed.{IsLedger, total_bytes}
use trackone.Gateway.Producer.Construct.Kept.{
  Closed, SameIdentity, construct_segment_closes, records_in, segments_in,
}
use trackone.Gateway.Producer.Expiry.{and_later}
use trackone.Gateway.Producer.Expiry.Ends.{
  all_records, SameIdentity-refl, SameIdentity-trans, records-and_later, length-and_later,
}
use trackone.Gateway.Producer.Admit.{
  pushed, limit_reached, close_if_full, admit_record, admit_records,
}

total_bytes-append : (xs ys : List Bytes) → total_bytes (xs ++ ys) ≡ total_bytes xs + total_bytes ys
total_bytes-append [] ys = omega arith
total_bytes-append (x ∷ xs) ys = omega (arith, total_bytes-append xs ys)

module _ (sha256 : Bytes → Hash) where
  -- The state behind some admitted records, and the segments that they filled.
  pub record Admitted (s : ProducerState) (records : List Bytes) (gs : List SealedSegment)
      (t : ProducerState) : Type 0 where
    pub ledger : IsLedger sha256 t
    pub conserved : all_records gs ++ t.open_interval.records ≡ s.open_interval.records ++ records
    pub number : t.next_segment_number ≡ s.next_segment_number + length gs
    pub same : SameIdentity s t

  pushed-IsLedger :
      (s : ProducerState) (r : Bytes) (byte_count : ℕ)
      → IsLedger sha256 s
      → byte_count ≡ s.open_interval.byte_count + length r
      → IsLedger sha256 (pushed s r byte_count)
  unfolding pushed
  pushed-IsLedger s r byte_count l count = record {
    hex = l.hex;
    open_valid = l.open_valid;
    open_typed = l.open_typed;
    next_valid = l.next_valid;
    next_typed = l.next_typed;
    bytes = omega (arith, count, l.bytes, total_bytes-append s.open_interval.records (r ∷ []));
    number_word = l.number_word;
    chained = l.chained;
  }

  pushed-SameIdentity :
      (s : ProducerState) (r : Bytes) (byte_count : ℕ) → SameIdentity s (pushed s r byte_count)
  unfolding pushed
  pushed-SameIdentity s r byte_count = record {
    revision = refl;
    active = refl;
    ledger_id = refl;
    site_id = refl;
    continuity = refl;
    next_policy = refl;
  }

  module _ (digests : (message : Bytes) → length (sha256 message) ≡ 32) where
    -- One record.
    record One (s : ProducerState) (r : Bytes) (o : Option SealedSegment) (t : ProducerState)
        : Type 0 where
      ledger : IsLedger sha256 t
      conserved : records_in o ++ t.open_interval.records ≡ s.open_interval.records ++ (r ∷ [])
      number : t.next_segment_number ≡ s.next_segment_number + segments_in o
      same : SameIdentity s t

    One-pushed :
        (s : ProducerState) (r : Bytes) (byte_count : ℕ)
        → IsLedger sha256 (pushed s r byte_count)
        → One s r none (pushed s r byte_count)
    unfolding pushed
    One-pushed s r byte_count l = record {
      ledger = l;
      conserved = refl;
      number = omega arith;
      same = pushed-SameIdentity s r byte_count;
    }

    One-Closed :
        (s : ProducerState) (r : Bytes) (byte_count now : ℕ) (o : Option SealedSegment)
        (t : ProducerState)
        → Closed sha256 (pushed s r byte_count) now o t
        → One s r o t
    unfolding pushed
    One-Closed s r byte_count now o t c = record {
      ledger = c.ledger;
      conserved = ap (◌++◌ (records_in o)) c.emptied ∙ append-nil (records_in o) ∙ c.records;
      number = c.number;
      same = SameIdentity-trans (pushed-SameIdentity s r byte_count) c.same;
    }

    admit_record-One :
        (s : ProducerState) (now : ℕ) (r : Bytes) (o : Option SealedSegment) (t : ProducerState)
        → IsLedger sha256 s
        → length s.open_interval.records + 1 < 2 ^ 64
        → admit_record sha256 s now r ≡ done (o, t)
        → One s r o t
    unfolding admit_record close_if_full
    admit_record-One s now r o t l small h =
        let (len, e0, h0) = >>=-eq-done (count_u64 (length r) "interval byte") _ h in
        let (count, e1, h1) =
          >>=-eq-done
            (ok_or (checked_add s.open_interval.byte_count len) (counter_overflow "interval byte"))
            _ h0 in
        let sum : count ≡ s.open_interval.byte_count + length r =
          omega (arith, checked_add-done _ _ _ e1, count_u64-done _ _ e0) in
        let full = pushed s r count in
        let l' = pushed-IsLedger s r count l sum in
        elim (Option-cases (limit_reached full.open_interval)) [
          | inl roomy ↦
              subst (λ (p : Option SealedSegment × ProducerState). One s r p.0 p.1)
                (done-injective (rw (roomy, close_if_full) at h1)) (One-pushed s r count l')
          | inr (reason, e) ↦ One-Closed s r count now o t (
              construct_segment_closes sha256 digests full now reason o t l'
                (unfold pushed in omega (arith, length-append s.open_interval.records (r ∷ [])))
                (rw (e, close_if_full) at h1))
        ]

    Admitted-nil : (s : ProducerState) → IsLedger sha256 s → Admitted s [] [] s
    Admitted-nil s l = record {
      ledger = l;
      conserved = sym (append-nil s.open_interval.records);
      number = omega arith;
      same = SameIdentity-refl s;
    }

    Admitted-cons :
        {s t u : ProducerState} (r : Bytes) (o : Option SealedSegment) (records : List Bytes)
        (gs : List SealedSegment)
        → One s r o t
        → Admitted t records gs u
        → Admitted s (r ∷ records) (and_later o gs) u
    Admitted-cons {s} {t} {u} r o records gs a b = record {
      ledger = b.ledger;
      conserved =
          ap (λ (rs : List Bytes). rs ++ u.open_interval.records) (records-and_later o gs)
          ∙ append_assoc (records_in o) (all_records gs) u.open_interval.records
          ∙ ap (◌++◌ (records_in o)) b.conserved
          ∙ sym (append_assoc (records_in o) t.open_interval.records records)
          ∙ ap (λ (rs : List Bytes). rs ++ records) a.conserved
          ∙ append_assoc s.open_interval.records (r ∷ []) records;
      number = omega (arith, b.number, a.number, length-and_later o gs);
      same = SameIdentity-trans a.same b.same;
    }

    -- Behind one record there are at most as many open records as before and one.
    One-short :
        {s t : ProducerState} (r : Bytes) (o : Option SealedSegment)
        → One s r o t
        → length t.open_interval.records ≤ length s.open_interval.records + 1
    One-short {s} {t} r o a = omega (
      arith,
      ap (λ (rs : List Bytes). length rs) a.conserved,
      length-append (records_in o) t.open_interval.records,
      length-append s.open_interval.records (r ∷ []),
    )

    -- Admitting a batch loses, repeats and reorders nothing. When the chain of the state is intact
    -- and the open records and the batch are fewer than 2^64 together, then behind the batch the
    -- chain is intact, the records of the segments sealed on the way and the open records behind
    -- them are the open records from before and the batch, in this order, the segment number has
    -- grown by the number of the segments, every record has its number, and the ledger's identity,
    -- revision and next policy are as before. SHA-256 is any function to 32 bytes.
    pub admit_records_conserved :
        (records : List Bytes) (s : ProducerState) (now : ℕ) (numbers : List ℕ)
        (gs : List SealedSegment) (t : ProducerState)
        → IsLedger sha256 s
        → length s.open_interval.records + length records < 2 ^ 64
        → admit_records sha256 s now records ≡ done (numbers, gs, t)
        → Admitted s records gs t × (length numbers ≡ length records)
    unfolding admit_records
    admit_records_conserved [] s now numbers gs t l small h =
        subst
          (λ (p : List ℕ × List SealedSegment × ProducerState).
            Admitted s [] p.1 p.2 × (length p.0 ≡ 0))
          (done-injective h) (Admitted-nil s l, refl)
    admit_records_conserved (r ∷ records) s now numbers gs t l small h =
        let ((o, u), e0, h0) = >>=-eq-done (admit_record sha256 s now r) _ h in
        let ((ns, later, v), e1, last) = >>=-eq-done (admit_records sha256 u now records) _ h0 in
        let a : One s r o u = admit_record-One s now r o u l (omega arith) e0 in
        let (b, same) =
          admit_records_conserved records u now ns later v a.ledger (omega (arith, One-short r o a))
            e1 in
        subst
          (λ (p : List ℕ × List SealedSegment × ProducerState).
            Admitted s (r ∷ records) p.1 p.2 × (length p.0 ≡ suc (length records)))
          (done-injective last) (Admitted-cons r o records later a b, ap suc same)
