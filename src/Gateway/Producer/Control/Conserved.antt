-- ===== src/Gateway/Producer/Control/Conserved.antt =====
-- producer.rs: the methods that close, recover, reactivate and reconfigure a ledger keep its chain
-- and its records.
use trackone.Prelude.{
  ℕ, suc, ◌+◌, ◌-◌, ◌^◌, ◌<◌, ◌≡◌, refl, sym, ap, ◌∙◌, arith, Bool, true, inl, inr, Option, none,
  some, List, [], ◌++◌, length, ltb, ◌==◌, ==→eq, Bool-cases, not_ltb→le,
}
use mathlib.Core.Path.{subst}
use mathlib.Core.List.{append-nil}
use trackone.Prelude.Outcome.{done, Outcome-cases, done-injective}
use trackone.Ledger.Hash.{Bytes, Hash}
use trackone.Ledger.Vtl.Policy.{ClosurePolicy, passed, validate, Checked-cases}
use trackone.Gateway.Producer.{
  ProducerState, SealedSegment, CloseReason, recovery, reconfigure, validate_policy,
}
use trackone.Gateway.Producer.Construct.{construct_segment}
use trackone.Gateway.Producer.Construct.Content.{IsTypedPolicy}
use trackone.Gateway.Producer.Construct.Sealed.{IsLedger}
use trackone.Gateway.Producer.Construct.Kept.{Closed, construct_segment_closes, records_in}
use trackone.Gateway.Producer.Expiry.{close_expired, and_later}
use trackone.Gateway.Producer.Expiry.Ends.{
  Expired, rounds-Expired, rounds_move, all_records, records-and_later, length-and_later,
}
use trackone.Gateway.Producer.Store.{LedgerStore}
use trackone.Gateway.Producer.Monad.{Clock, LedgerProducer}
use trackone.Gateway.Producer.Commit.{safe_now, require_active}
use trackone.Gateway.Producer.Commit.Reading.{safe_now-done}
use trackone.Gateway.Producer.Commit.Leaves.{
  Leaves, Conserves, Conserves-refl, revised-Conserves, Leaves-commit, Leaves-commit_last,
}
use trackone.Gateway.Producer.Control.{
  opened_anew, with_next_policy, replaced_policy, close_requested, stays_active, transition,
  recover, close, update_policy, reactivate, seal_expired_intervals,
}

-- A replacement, if there is one, is valid and fits its types.
abbrev IsReplacement : Option ClosurePolicy → Type 0
IsReplacement none = Unit {0}
IsReplacement (some policy) = (validate policy ≡ passed) × IsTypedPolicy policy

validate_policy-done :
    (policy : ClosurePolicy) {u : Unit {0}}
    → validate_policy policy ≡ done u
    → validate policy ≡ passed
unfolding validate_policy
validate_policy-done policy h = elim (Checked-cases (validate policy)) [
  | inl valid ↦ valid
  | inr (e, bad) ↦ absurd (cc (rw (bad, validate_policy) at h))
]

module _ (sha256 : Bytes → Hash) where
  opened_anew-Conserves :
      (s : ProducerState) (extra : List Bytes) (gs : List SealedSegment) (t : ProducerState)
      (active : Bool) (now continuity : ℕ)
      → Conserves sha256 s extra gs t
      → Conserves sha256 s extra gs (opened_anew t active now continuity)
  unfolding opened_anew
  opened_anew-Conserves s extra gs t active now continuity c = record {
    ledger = record {
      hex = c.ledger.hex;
      open_valid = c.ledger.open_valid;
      open_typed = c.ledger.open_typed;
      next_valid = c.ledger.next_valid;
      next_typed = c.ledger.next_typed;
      bytes = c.ledger.bytes;
      number_word = c.ledger.number_word;
      chained = c.ledger.chained;
    };
    conserved = c.conserved;
    number = c.number;
  }

  replaced_policy-Conserves :
      (s : ProducerState) (extra : List Bytes) (gs : List SealedSegment) (t : ProducerState)
      (replacement : Option ClosurePolicy)
      → IsReplacement replacement
      → Conserves sha256 s extra gs t
      → Conserves sha256 s extra gs (replaced_policy t replacement)
  unfolding replaced_policy
  replaced_policy-Conserves s extra gs t none valid c = c
  replaced_policy-Conserves s extra gs t (some policy) (valid, typed) c = record {
    ledger = record {
      hex = c.ledger.hex;
      open_valid = valid;
      open_typed = typed;
      next_valid = valid;
      next_typed = typed;
      bytes = c.ledger.bytes;
      number_word = c.ledger.number_word;
      chained = c.ledger.chained;
    };
    conserved = c.conserved;
    number = c.number;
  }

  with_next_policy-Conserves :
      (s : ProducerState) (policy : ClosurePolicy)
      → IsLedger sha256 s
      → validate policy ≡ passed
      → IsTypedPolicy policy
      → Conserves sha256 s [] [] (with_next_policy s policy)
  unfolding with_next_policy
  with_next_policy-Conserves s policy l valid typed = record {
    ledger = record {
      hex = l.hex;
      open_valid = l.open_valid;
      open_typed = l.open_typed;
      next_valid = valid;
      next_typed = typed;
      bytes = l.bytes;
      number_word = l.number_word;
      chained = l.chained;
    };
    conserved = sym (append-nil s.open_interval.records);
    number = omega arith;
  }

  Closed-Conserves :
      {s t : ProducerState} {at : ℕ} (o : Option SealedSegment)
      → Closed sha256 s at o t
      → Conserves sha256 s [] (and_later o []) t
  Closed-Conserves {s} {t} o c = record {
    ledger = c.ledger;
    conserved =
        ap (◌++◌ (all_records (and_later o []))) c.emptied
        ∙ append-nil (all_records (and_later o []))
        ∙ records-and_later o []
        ∙ append-nil (records_in o)
        ∙ c.records
        ∙ sym (append-nil s.open_interval.records);
    number = omega (arith, c.number, length-and_later o []);
  }

  pub Expired-Conserves :
      {s t : ProducerState} {now : ℕ} (gs : List SealedSegment)
      → Expired sha256 s now gs t
      → Conserves sha256 s [] gs t
  Expired-Conserves {s} gs x = record {
    ledger = x.ledger;
    conserved = x.conserved ∙ sym (append-nil s.open_interval.records);
    number = x.number;
  }

  module _ (digests : (message : Bytes) → length (sha256 message) ≡ 32) where
    close_requested-Conserves :
        (s : ProducerState) (now : ℕ) (requested : Option CloseReason) (gs : List SealedSegment)
        (t : ProducerState)
        → IsLedger sha256 s
        → length s.open_interval.records < 2 ^ 64
        → close_requested sha256 s now requested ≡ done (gs, t)
        → Conserves sha256 s [] gs t
    unfolding close_requested
    close_requested-Conserves s now none gs t l small h =
        subst (λ (p : List SealedSegment × ProducerState). Conserves sha256 s [] p.0 p.1)
          (done-injective h) (Conserves-refl sha256 s l)
    close_requested-Conserves s now (some reason) gs t l small h =
        elim (Outcome-cases (construct_segment sha256 s now reason)) [
          | inr (e, bad) ↦ absurd (cc (rw (bad, close_requested) at h))
          | inl ((o, u), e) ↦
              subst (λ (p : List SealedSegment × ProducerState). Conserves sha256 s [] p.0 p.1)
                (done-injective (rw (e, close_requested) at h))
                (Closed-Conserves o
                  (construct_segment_closes sha256 digests s now reason o u l small e))
        ]

    module _ {S : Type 0} (store : LedgerStore S) (clock : Clock) (p : LedgerProducer S)
        (l : IsLedger sha256 p.state) (small : length p.state.open_interval.records < 2 ^ 64) where
      transition-Conserves :
          (now : ℕ) (requested : Option CloseReason) (replacement : Option ClosurePolicy)
          → IsReplacement replacement
          → Leaves p.state
              (Conserves sha256 p.state [])
              (transition store sha256 clock now requested replacement p)
      unfolding transition
      transition-Conserves now requested replacement valid =
          elim (Outcome-cases (require_active p.state)) [
            | inr (bad, off) ↦ rw (off, transition) refl
            | inl (u, on) ↦ elim (Outcome-cases (close_requested sha256 p.state now requested)) [
              | inr (bad, e) ↦ rw (on, e, transition) refl
              | inl ((gs, t), e) ↦
                  rw (on, e, transition)
                    (let next : ProducerState =
                        opened_anew (replaced_policy t replacement)
                          (stays_active t.active requested) now clock.later_continuity_id in
                      let kept : Conserves sha256 p.state [] gs next =
                        opened_anew-Conserves p.state [] gs (replaced_policy t replacement)
                          (stays_active t.active requested) now clock.later_continuity_id
                          (replaced_policy-Conserves p.state [] gs t replacement valid
                            (close_requested-Conserves p.state now requested gs t l small e)) in
                      Leaves-commit store p (Conserves sha256 p.state []) gs next gs none []
                        (revised-Conserves sha256 p.state [] gs next (p.state.revision + 1) kept))
            ]
          ]

      recover-Conserves :
          Leaves p.state (Conserves sha256 p.state []) (recover store sha256 clock p)
      unfolding recover
      recover-Conserves = elim (Outcome-cases (require_active p.state)) [
        | inr (bad, off) ↦ rw (off, recover) refl
        | inl (u, on) ↦ elim (Outcome-cases clock.now_ms) [
          | inr (bad, e) ↦ rw (on, e, recover) refl
          | inl (now, e) ↦ rw (on, e, recover) (transition-Conserves now (some recovery) none tt)
        ]
      ]

      close-Conserves :
          (reason : CloseReason)
          → Leaves p.state (Conserves sha256 p.state []) (close store sha256 clock reason p)
      unfolding close
      close-Conserves reason = elim (Outcome-cases (safe_now clock p.state)) [
        | inr (bad, e) ↦ rw (e, close) refl
        | inl (now, e) ↦ rw (e, close) (transition-Conserves now (some reason) none tt)
      ]

      update_policy-Conserves :
          (policy : ClosurePolicy) (immediate : Bool)
          → IsTypedPolicy policy
          → Leaves p.state
              (Conserves sha256 p.state [])
              (update_policy store sha256 clock policy immediate p)
      unfolding update_policy
      update_policy-Conserves policy immediate typed =
          elim (Outcome-cases (validate_policy policy)) [
            | inr (bad, e) ↦ rw (e, update_policy) refl
            | inl (u, e) ↦ elim (Outcome-cases (safe_now clock p.state)) [
              | inr (bad, e') ↦ rw (e, e', update_policy) refl
              | inl (now, e') ↦
                  let valid : validate policy ≡ passed = validate_policy-done policy e in
                  elim (Bool-cases immediate) [
                    | inl at_once ↦
                        rw (e, e', at_once, update_policy)
                          (transition-Conserves now (some reconfigure) (some policy) (valid, typed))
                    | inr later ↦
                        rw (e, e', later, update_policy)
                          (Leaves-commit store p (Conserves sha256 p.state []) []
                            (with_next_policy p.state policy) [] none []
                            (revised-Conserves sha256 p.state [] []
                              (with_next_policy p.state policy) (p.state.revision + 1)
                              (with_next_policy-Conserves p.state policy l valid typed)))
                  ]
            ]
          ]

      reactivate-Conserves :
          Leaves p.state (λ u. Conserves sha256 p.state [] []) (reactivate store clock p)
      unfolding reactivate
      reactivate-Conserves = elim (Bool-cases p.state.active) [
        | inl on ↦ simp (on, reactivate) (Conserves-refl sha256 p.state l)
        | inr off ↦ elim (Outcome-cases clock.now_ms) [
          | inr (bad, e) ↦ simp (off, e, reactivate) refl
          | inl (now, e) ↦
              simp (off, e, reactivate)
                (let next : ProducerState =
                    opened_anew p.state true now clock.later_continuity_id in
                  Leaves-commit_last store p (Conserves sha256 p.state [] []) next [] none [] (
                    revised-Conserves sha256 p.state [] [] next (p.state.revision + 1) (
                      opened_anew-Conserves p.state [] [] p.state true now clock.later_continuity_id
                        (Conserves-refl sha256 p.state l))))
        ]
      ]

      seal_expired_intervals-Conserves :
          ((now : ℕ) → clock.now_ms ≡ done now → now < 2 ^ 64)
          → Leaves p.state
              (Conserves sha256 p.state [])
              (seal_expired_intervals store sha256 clock p)
      unfolding seal_expired_intervals
      seal_expired_intervals-Conserves word = elim (Outcome-cases (safe_now clock p.state)) [
        | inr (bad, e) ↦ rw (e, seal_expired_intervals) refl
        | inl (now, e) ↦
            elim (Bool-cases (
              ltb (now - p.state.open_interval.opened_at_ms)
                p.state.open_interval.policy.interval_ms)) [
                  | inl early ↦
                      rw (e, early, seal_expired_intervals) (Conserves-refl sha256 p.state l)
                  | inr late ↦ elim (Outcome-cases (close_expired sha256 p.state now)) [
                    | inr (bad, e') ↦ rw (e, late, e', seal_expired_intervals) refl
                    | inl ((gs, t), e') ↦
                        rw (e, late, e', seal_expired_intervals)
                          (let (ordered, timed) = safe_now-done clock p.state now e in
                            let x =
                              rounds-Expired sha256 digests
                                (suc (now - p.state.open_interval.opened_at_ms)) p.state now gs t l
                                small ordered (word now timed) (unfold close_expired in e') in
                            let kept = Expired-Conserves gs x in
                            elim (Bool-cases (
                              t.open_interval.opened_at_ms == p.state.open_interval.opened_at_ms)) [
                                | inl idle ↦ absurd (
                                    omega (
                                      arith,
                                      ==→eq _ _ idle,
                                      rounds_move sha256 digests
                                          (now - p.state.open_interval.opened_at_ms) p.state now gs
                                          t l small ordered (word now timed) (not_ltb→le _ _ late)
                                          (unfold close_expired in e'),
                                    ))
                                | inr moved ↦ rw moved (
                                    Leaves-commit store p (Conserves sha256 p.state []) gs t gs none
                                      []
                                      (revised-Conserves sha256 p.state [] gs t
                                        (p.state.revision + 1) kept))
                              ])
                  ]
                ]
      ]

      -- Every method of the producer that closes, recovers, reactivates, reconfigures or expires,
      -- run on a state whose chain is intact and whose open records are fewer than 2^64, over any
      -- store and clock with a 64-bit time, either fails and leaves the state as it was, or
      -- succeeds, and then the chain is intact again, the records of the segments that it returns
      -- and the open records behind them are the open records from before in their order, and the
      -- segment number has grown by the number of those segments. A new policy has fields that fit
      -- their types; SHA-256 is any function to 32 bytes.
      pub control_methods_conserve :
          (reason : CloseReason) (policy : ClosurePolicy) (immediate : Bool)
          → IsTypedPolicy policy
          → ((now : ℕ) → clock.now_ms ≡ done now → now < 2 ^ 64)
          → Leaves p.state (Conserves sha256 p.state []) (close store sha256 clock reason p)
            × Leaves p.state (Conserves sha256 p.state []) (recover store sha256 clock p)
            × Leaves p.state
                (Conserves sha256 p.state [])
                (update_policy store sha256 clock policy immediate p)
            × Leaves p.state
                (Conserves sha256 p.state [])
                (seal_expired_intervals store sha256 clock p)
            × Leaves p.state (λ u. Conserves sha256 p.state [] []) (reactivate store clock p)
      control_methods_conserve reason policy immediate typed word = (
        close-Conserves reason,
        recover-Conserves,
        update_policy-Conserves policy immediate typed,
        seal_expired_intervals-Conserves word,
        reactivate-Conserves,
      )
