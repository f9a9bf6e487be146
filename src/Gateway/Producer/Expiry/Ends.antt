-- ===== src/Gateway/Producer/Expiry/Ends.antt =====
-- producer.rs: what `close_expired` leaves, and that its loop ends.
use trackone.Prelude.{
  ℕ, zero, suc, ◌+◌, ◌-◌, ◌^◌, ◌≤◌, ◌<◌, ◌≡◌, refl, sym, ap, ◌∙◌, arith, inl, inr, Option, none,
  some, List, [], ◌∷◌, ◌++◌, length,
}
use mathlib.Core.Path.{subst}
use mathlib.Core.List.{append-nil, append_assoc}
use trackone.Prelude.Outcome.{Outcome, done, ◌>>=◌, >>=-eq-done, done-injective}
use trackone.Ledger.Hash.{Bytes, Hash}
use trackone.Ledger.Vtl.Policy.Limits.{validate_exact}
use trackone.Gateway.Producer.{ProducerState, SealedSegment, ProducerError}
use trackone.Gateway.Producer.Construct.Sealed.{IsLedger}
use trackone.Gateway.Producer.Construct.Kept.{SameIdentity, records_in, segments_in}
use trackone.Gateway.Producer.Expiry.{close_rounds, close_expired, and_later}
use trackone.Gateway.Producer.Expiry.Rounds.{round, Next}

-- The records of some segments, in order.
abbrev pub all_records : List SealedSegment → List Bytes
all_records [] = []
all_records (g ∷ gs) = g.records ++ all_records gs

pub SameIdentity-refl : (s : ProducerState) → SameIdentity s s
SameIdentity-refl s = record {
  revision = refl;
  active = refl;
  ledger_id = refl;
  site_id = refl;
  continuity = refl;
  next_policy = refl;
}

pub SameIdentity-trans :
    {s t u : ProducerState} → SameIdentity s t → SameIdentity t u → SameIdentity s u
SameIdentity-trans a b = record {
  revision = b.revision ∙ a.revision;
  active = b.active ∙ a.active;
  ledger_id = b.ledger_id ∙ a.ledger_id;
  site_id = b.site_id ∙ a.site_id;
  continuity = b.continuity ∙ a.continuity;
  next_policy = b.next_policy ∙ a.next_policy;
}

pub records-and_later :
    (o : Option SealedSegment) (gs : List SealedSegment)
    → all_records (and_later o gs) ≡ records_in o ++ all_records gs
records-and_later none gs = refl
records-and_later (some g) gs = refl

pub length-and_later :
    (o : Option SealedSegment) (gs : List SealedSegment)
    → length (and_later o gs) ≡ segments_in o + length gs
length-and_later none gs = omega arith
length-and_later (some g) gs = omega arith

at_most_one : (o : Option SealedSegment) → segments_in o ≤ 1
at_most_one none = omega arith
at_most_one (some g) = omega arith

module _ (sha256 : Bytes → Hash) where
  -- The state behind some closed intervals.
  pub record Expired (s : ProducerState) (now : ℕ) (gs : List SealedSegment) (t : ProducerState)
      : Type 0 where
    pub ledger : IsLedger sha256 t
    pub conserved : all_records gs ++ t.open_interval.records ≡ s.open_interval.records
    pub number : t.next_segment_number ≡ s.next_segment_number + length gs
    pub later : s.open_interval.opened_at_ms ≤ t.open_interval.opened_at_ms
    pub on_time : t.open_interval.opened_at_ms ≤ now
    pub same : SameIdentity s t

  no_round : (s : ProducerState) (now : ℕ) → close_rounds sha256 zero s now ≡ done ([], s)
  unfolding close_rounds
  no_round s now = refl

  stays :
      (s : ProducerState) (now : ℕ) {gs : List SealedSegment} {t : ProducerState}
      → IsLedger sha256 s
      → s.open_interval.opened_at_ms ≤ now
      → ◌≡◌ {A = List SealedSegment × ProducerState} ([], s) (gs, t)
      → Expired s now gs t
  stays s now l ordered e =
      subst (λ (p : List SealedSegment × ProducerState). Expired s now p.0 p.1) e
        (record {
          ledger = l;
          conserved = refl;
          number = omega arith;
          later = omega arith;
          on_time = ordered;
          same = SameIdentity-refl s;
        })

  module _ (digests : (message : Bytes) → length (sha256 message) ≡ 32) where
    no_record_left :
        (s : ProducerState) (now : ℕ)
        → (next : Next sha256 digests s now) → length next.state.open_interval.records < 2 ^ 64
    no_record_left s now next =
        subst (λ (rs : List Bytes). length rs < 2 ^ 64) (sym next.closed.emptied) (omega arith)

    opens_in_time :
        (s : ProducerState) (now : ℕ)
        → (next : Next sha256 digests s now) → next.state.open_interval.opened_at_ms ≤ now
    opens_in_time s now next = omega (arith, next.closed.opened, next.in_time)

    goes :
        (s : ProducerState) (now : ℕ) (gs : List SealedSegment) (t : ProducerState)
        → (next : Next sha256 digests s now) → Expired next.state now gs t
        → Expired s now (and_later next.segment gs) t
    goes s now gs t next x = record {
      ledger = x.ledger;
      conserved =
          ap (λ (rs : List Bytes). rs ++ t.open_interval.records)
            (records-and_later next.segment gs)
          ∙ append_assoc (records_in next.segment) (all_records gs) t.open_interval.records
          ∙ ap (◌++◌ (records_in next.segment)) (x.conserved ∙ next.closed.emptied)
          ∙ append-nil (records_in next.segment)
          ∙ next.closed.records;
      number = omega (arith, x.number, next.closed.number, length-and_later next.segment gs);
      later = omega (arith, x.later, next.closed.opened);
      on_time = x.on_time;
      same = SameIdentity-trans next.closed.same x.same;
    }

    pub rounds-Expired :
        (rounds : ℕ) (s : ProducerState) (now : ℕ) (gs : List SealedSegment) (t : ProducerState)
        → IsLedger sha256 s
        → length s.open_interval.records < 2 ^ 64
        → s.open_interval.opened_at_ms ≤ now
        → now < 2 ^ 64
        → close_rounds sha256 rounds s now ≡ done (gs, t)
        → Expired s now gs t
    rounds-Expired zero s now gs t l small ordered word h =
        stays s now l ordered (done-injective (sym (no_round s now) ∙ h))
    rounds-Expired (suc rounds) s now gs t l small ordered word h =
        elim (round sha256 digests s now l small ordered word) [
          | inl (_, e) ↦ stays s now l ordered (done-injective (sym (e rounds) ∙ h))
          | inr (inl (_, e)) ↦ absurd (cc (sym (e rounds) ∙ h))
          | inr (inr next) ↦
              let ((later, u), e, found) =
                >>=-eq-done (close_rounds sha256 rounds next.state now)
                  (λ p. done (and_later next.segment p.0, p.1)) (sym (next.step rounds) ∙ h) in
              let x : Expired next.state now later u =
                rounds-Expired rounds next.state now later u next.closed.ledger
                  (no_record_left s now next) (opens_in_time s now next) word e in
              subst (λ (p : List SealedSegment × ProducerState). Expired s now p.0 p.1)
                (done-injective found) (goes s now later u next x)
        ]

    some_interval : (s : ProducerState) → IsLedger sha256 s → 0 < s.open_interval.policy.interval_ms
    some_interval s l = ((validate_exact s.open_interval.policy).0 l.open_valid).some_interval

    -- An interval that has expired is closed.
    pub rounds_move :
        (rounds : ℕ) (s : ProducerState) (now : ℕ) (gs : List SealedSegment) (t : ProducerState)
        → IsLedger sha256 s
        → length s.open_interval.records < 2 ^ 64
        → s.open_interval.opened_at_ms ≤ now
        → now < 2 ^ 64
        → s.open_interval.policy.interval_ms ≤ now - s.open_interval.opened_at_ms
        → close_rounds sha256 (suc rounds) s now ≡ done (gs, t)
        → s.open_interval.opened_at_ms < t.open_interval.opened_at_ms
    rounds_move rounds s now gs t l small ordered word late h =
        elim (round sha256 digests s now l small ordered word) [
          | inl (early, _) ↦ absurd (omega arith)
          | inr (inl (_, e)) ↦ absurd (cc (sym (e rounds) ∙ h))
          | inr (inr next) ↦
              let ((later, u), e, found) =
                >>=-eq-done (close_rounds sha256 rounds next.state now)
                  (λ p. done (and_later next.segment p.0, p.1)) (sym (next.step rounds) ∙ h) in
              let x : Expired next.state now later u =
                rounds-Expired rounds next.state now later u next.closed.ledger
                  (no_record_left s now next) (opens_in_time s now next) word e in
              subst
                (λ (p : List SealedSegment × ProducerState).
                  s.open_interval.opened_at_ms < p.1.open_interval.opened_at_ms)
                (done-injective found)
                (omega (arith, x.later, next.closed.opened, some_interval s l))
        ]

    -- The loop ends at its test.
    rounds_deadline :
        (f : ℕ) (s : ProducerState) (now : ℕ) (gs : List SealedSegment) (t : ProducerState)
        → IsLedger sha256 s
        → length s.open_interval.records < 2 ^ 64
        → s.open_interval.opened_at_ms ≤ now
        → now < 2 ^ 64
        → now - s.open_interval.opened_at_ms < f
        → close_rounds sha256 f s now ≡ done (gs, t)
        → now - t.open_interval.opened_at_ms < t.open_interval.policy.interval_ms
    rounds_deadline zero s now gs t l small ordered word hf h = absurd (omega arith)
    rounds_deadline (suc f) s now gs t l small ordered word hf h =
        elim (round sha256 digests s now l small ordered word) [
          | inl (early, e) ↦
              subst
                (λ (p : List SealedSegment × ProducerState).
                  now - p.1.open_interval.opened_at_ms < p.1.open_interval.policy.interval_ms)
                (done-injective (sym (e f) ∙ h)) early
          | inr (inl (_, e)) ↦ absurd (cc (sym (e f) ∙ h))
          | inr (inr next) ↦
              let ((later, u), e, found) =
                >>=-eq-done (close_rounds sha256 f next.state now)
                  (λ p. done (and_later next.segment p.0, p.1)) (sym (next.step f) ∙ h) in
              subst
                (λ (p : List SealedSegment × ProducerState).
                  now - p.1.open_interval.opened_at_ms < p.1.open_interval.policy.interval_ms)
                (done-injective found)
                (rounds_deadline f next.state now later u next.closed.ledger
                  (no_record_left s now next) (opens_in_time s now next) word
                  (omega (arith, next.closed.opened, next.in_time, some_interval s l)) e)
        ]

    one_more :
        (s : ProducerState) (now : ℕ)
        → (next : Next sha256 digests s now)
        → next.state.next_segment_number ≤ s.next_segment_number + 1
    one_more s now next = omega (arith, next.closed.number, at_most_one next.segment)

    rounds_complete :
        (f : ℕ) (s : ProducerState) (now : ℕ)
        → IsLedger sha256 s
        → length s.open_interval.records < 2 ^ 64
        → s.open_interval.opened_at_ms ≤ now
        → now < 2 ^ 64
        → s.next_segment_number + (now - s.open_interval.opened_at_ms) < 2 ^ 64 - 1
        → now - s.open_interval.opened_at_ms < f
        → (gs : List SealedSegment) × (t : ProducerState) × (close_rounds sha256 f s now
            ≡ done (gs, t))
    rounds_complete zero s now l small ordered word room hf = absurd (omega arith)
    rounds_complete (suc f) s now l small ordered word room hf =
        elim (round sha256 digests s now l small ordered word) [
          | inl (_, e) ↦ ([], s, e f)
          | inr (inl (last, _)) ↦ absurd (omega arith)
          | inr (inr next) ↦
              let (gs, t, e) =
                rounds_complete f next.state now next.closed.ledger (no_record_left s now next)
                  (opens_in_time s now next) word
                  (omega (
                    arith,
                    next.closed.opened,
                    next.in_time,
                    some_interval s l,
                    one_more s now next,
                  ))
                  (omega (arith, next.closed.opened, next.in_time, some_interval s l)) in
              (
                and_later next.segment gs,
                t,
                next.step f
                    ∙ ap
                        (λ (m : Outcome ProducerError (List SealedSegment × ProducerState)).
                          m >>= λ p. done (and_later next.segment p.0, p.1))
                        e,
              )
        ]

    -- More rounds than milliseconds make no difference.
    rounds_enough :
        (f g : ℕ) (s : ProducerState) (now : ℕ)
        → IsLedger sha256 s
        → length s.open_interval.records < 2 ^ 64
        → s.open_interval.opened_at_ms ≤ now
        → now < 2 ^ 64
        → now - s.open_interval.opened_at_ms < f
        → now - s.open_interval.opened_at_ms < g
        → close_rounds sha256 f s now ≡ close_rounds sha256 g s now
    rounds_enough zero g s now l small ordered word hf hg = absurd (omega arith)
    rounds_enough (suc f) zero s now l small ordered word hf hg = absurd (omega arith)
    rounds_enough (suc f) (suc g) s now l small ordered word hf hg =
        elim (round sha256 digests s now l small ordered word) [
          | inl (_, e) ↦ e f ∙ sym (e g)
          | inr (inl (_, e)) ↦ e f ∙ sym (e g)
          | inr (inr next) ↦
              let same =
                rounds_enough f g next.state now next.closed.ledger (no_record_left s now next)
                  (opens_in_time s now next) word
                  (omega (arith, next.closed.opened, next.in_time, some_interval s l))
                  (omega (arith, next.closed.opened, next.in_time, some_interval s l)) in
              next.step f
              ∙ ap
                  (λ (m : Outcome ProducerError (List SealedSegment × ProducerState)).
                    m >>= λ p. done (and_later next.segment p.0, p.1))
                  same
              ∙ sym (next.step g)
        ]

    -- The loop that closes expired intervals ends, for every producer whose chain is intact, whose
    -- interval holds fewer than 2^64 records and was opened at or before the present time, a 64-bit
    -- number, when as many segment numbers as milliseconds since then are left. It returns sealed
    -- segments and a state, the same for every larger bound on the rounds, in which the open
    -- interval has not expired. The chain of that state is intact, the segments' records and the open
    -- ones behind them are the open records from before, in their order, and the segment number has
    -- grown by the number of the segments. SHA-256 is any function to 32 bytes.
    pub close_expired_ends :
        (s : ProducerState) (now : ℕ)
        → IsLedger sha256 s
        → length s.open_interval.records < 2 ^ 64
        → s.open_interval.opened_at_ms ≤ now
        → now < 2 ^ 64
        → s.next_segment_number + (now - s.open_interval.opened_at_ms) < 2 ^ 64 - 1
        → (gs : List SealedSegment) × (t : ProducerState) × (close_expired sha256 s now
            ≡ done (gs, t))
          × ((rounds : ℕ)
              → now - s.open_interval.opened_at_ms < rounds
              → close_rounds sha256 rounds s now ≡ done (gs, t))
          × Expired s now gs t
          × (now - t.open_interval.opened_at_ms < t.open_interval.policy.interval_ms)
    unfolding close_expired
    close_expired_ends s now l small ordered word room =
        let enough : ℕ = suc (now - s.open_interval.opened_at_ms) in
        let (gs, t, e) = rounds_complete enough s now l small ordered word room (omega arith) in
        (
          gs,
          t,
          e,
          λ rounds h. rounds_enough rounds enough s now l small ordered word h (omega arith) ∙ e,
          rounds-Expired enough s now gs t l small ordered word e,
          rounds_deadline enough s now gs t l small ordered word (omega arith) e,
        )
