-- ===== src/Pod/Emit/Fresh.antt =====
-- pod.rs: the counters and nonces of the frames that a pod emits in a run.
use trackone.Prelude.{
  ℕ, suc, ◌+◌, ◌^◌, ◌<◌, ◌≡◌, refl, sym, ap, ◌∙◌, arith, Bool, true, false, inl, inr, Option, none,
  some, List, [], ◌∷◌, length, ltb, leb, ◌==◌, ==→eq, ltb→lt, Bool-cases, if◌then◌else◌,
}
use mathlib.Core.Path.{subst}
use trackone.Prelude.Text.{bytes_eq}
use trackone.Prelude.Outcome.{
  Outcome, done, failed, >>=-eq-done, map_err-eq-done, Outcome-cases, done-injective, map_err,
}
use trackone.Core.Types.{Fact, FactPayload, FloatTests, core_invalid_fact, validate_fact}
use trackone.Ingest.Nonce.{framed_nonce}
use trackone.Ingest.Frame.{EncryptedFrame, Postcard, Sealing, encrypt_fact}
use trackone.Ingest.Frame.Sealed.{encrypt_fact-eq-done}
use trackone.Pod.Nonce.{CounterNonce24, nonce_for_frame}
use trackone.Pod.Emit.{
  PodError, core, nonce, fact_pod_id_mismatch, fact_frame_counter_mismatch, Pod, checked_next,
  check_restored, restore_next_frame_counter, or_exhausted, sealed_frame, emit_fact, payload_fact,
  emit_payload,
}
use trackone.Pod.Emit.Ascending.{
  IsAscending, AreDistinct, lower, none_lower, ascending-AreDistinct, restored_lower,
}

-- What is asked of a pod.
pub data Operation (F : Type 0) : Type 0 where
  send_payload : FactPayload F → Operation F
  send_fact : Fact F → Operation F
  restore : Option ℕ → Operation F

abbrev pub and_frame : Outcome PodError EncryptedFrame → List EncryptedFrame → List EncryptedFrame
and_frame (done frame) frames = frame ∷ frames
and_frame (failed e) frames = frames

module _ {F : Type 0} (floats : FloatTests F) (postcard : Postcard F) (cipher : Sealing)
    (n : ℕ) where
  -- The frames that a run of operations emits.
  unfoldable pub run : Pod → List (Operation F) → List EncryptedFrame
  run pod [] = []
  run pod (send_payload payload ∷ operations) =
      let r = emit_payload floats postcard cipher n pod payload in
      and_frame r.0 (run r.1 operations)
  run pod (send_fact fact ∷ operations) =
      let r = emit_fact floats postcard cipher n pod fact in and_frame r.0 (run r.1 operations)
  run pod (restore next ∷ operations) = run (restore_next_frame_counter pod next).1 operations

  -- What a step leaves.
  record Moves (pod : Pod) (r : Outcome PodError EncryptedFrame × Pod) : Type 0 where
    same_gen : r.1.nonce_gen ≡ pod.nonce_gen
    moves :
        (fs : List EncryptedFrame)
        → IsAscending pod.nonce_gen r.1.next_fc fs
        → IsAscending pod.nonce_gen pod.next_fc (and_frame r.0 fs)

  -- A frame that the pod seals.
  record SealedAt (pod : Pod) (frame : EncryptedFrame) (k : ℕ) : Type 0 where
    next : pod.next_fc ≡ some k
    counter : frame.sealed_fc ≡ k
    small : k < 2 ^ 32
    nonce_of : frame.sealed_nonce ≡ framed_nonce pod.nonce_gen.salt8 k pod.nonce_gen.tail8

  exhausted-some : (o : Option ℕ) (k : ℕ) → or_exhausted o ≡ done k → o ≡ some k
  exhausted-some none k h = cc
  exhausted-some (some j) k h = cc

  checked_test :
      (b : Bool) (e : PodError) {u : Unit {0}}
      → (if b then done tt else failed e) ≡ done u
      → b ≡ true
  checked_test true e h = refl
  checked_test false e h = cc

  nonce-small :
      (g : CounterNonce24) (fc : ℕ) (bytes : List ℕ)
      → nonce_for_frame g fc ≡ done bytes
      → (fc < 2 ^ 32) × (bytes ≡ framed_nonce g.salt8 fc g.tail8)
  unfolding nonce_for_frame
  nonce-small g fc bytes h = elim (Bool-cases (ltb fc (2 ^ 32))) [
    | inl small ↦ (ltb→lt _ _ small, sym (done-injective (rw (small, nonce_for_frame) at h)))
    | inr large ↦ absurd (cc (rw (large, nonce_for_frame) at h))
  ]

  sealed_frame-SealedAt :
      (pod : Pod) (fact : Fact F) (frame : EncryptedFrame) (k : ℕ)
      → sealed_frame floats postcard cipher n pod fact ≡ done (frame, k)
      → SealedAt pod frame k
  unfolding sealed_frame
  sealed_frame-SealedAt pod fact frame k h =
      let (fc, e0, h0) = >>=-eq-done (or_exhausted pod.next_fc) _ h in
      let (_, _, h1) =
        >>=-eq-done
          (if bytes_eq fact.pod_id pod.own_pod_id then done tt else failed fact_pod_id_mismatch) _
          h0 in
      let (_, e2, h2) =
        >>=-eq-done (if fact.fc == fc then done tt else failed fact_frame_counter_mismatch) _ h1 in
      let (_, _, h3) =
        >>=-eq-done (map_err (λ e. core (core_invalid_fact e)) (validate_fact floats fact)) _ h2 in
      let (bytes, e4, h4) =
        >>=-eq-done (map_err nonce (nonce_for_frame pod.nonce_gen fact.fc)) _ h3 in
      let (made, e5, last) =
        >>=-eq-done (map_err core (encrypt_fact floats postcard cipher n bytes fact)) _ h4 in
      let same : fact.fc ≡ fc = ==→eq _ _ (checked_test _ _ e2) in
      let (small, shape) = nonce-small pod.nonce_gen fact.fc bytes (map_err-eq-done nonce _ e4) in
      let (counter, own) =
        encrypt_fact-eq-done floats postcard cipher n bytes fact made (map_err-eq-done core _ e5) in
      subst (λ (p : EncryptedFrame × ℕ). SealedAt pod p.0 p.1) (done-injective last)
        (record {
          next = exhausted-some _ _ e0;
          counter = counter ∙ same;
          small = omega (arith, same);
          nonce_of =
              own
              ∙ shape
              ∙ ap (λ (c : ℕ). framed_nonce pod.nonce_gen.salt8 c pod.nonce_gen.tail8) same;
        })

  after_next :
      (g : CounterNonce24) (k : ℕ) (fs : List EncryptedFrame)
      → IsAscending g (checked_next k) fs
      → IsAscending g (some (suc k)) fs
  unfolding checked_next
  after_next g k fs a = elim (Bool-cases (leb (2 ^ 32) (k + 1))) [
    | inl full ↦ none_lower g (suc k) fs (rw (full, checked_next) at a)
    | inr room ↦ lower g (suc k) (k + 1) fs (omega arith) (rw (room, checked_next) at a)
  ]

  emit_fact-Moves :
      (pod : Pod) (fact : Fact F) → Moves pod (emit_fact floats postcard cipher n pod fact)
  unfolding emit_fact
  emit_fact-Moves pod fact = elim (Outcome-cases (sealed_frame floats postcard cipher n pod fact)) [
    | inr (e, bad) ↦ rw (bad, emit_fact) (record { same_gen = refl; moves = λ fs a. a })
    | inl ((frame, k), e) ↦
        let s = sealed_frame-SealedAt pod fact frame k e in
        rw (e, emit_fact)
          (record {
            same_gen = refl;
            moves = λ fs a.
                subst (λ (o : Option ℕ). IsAscending pod.nonce_gen o (frame ∷ fs)) (sym s.next)
                  (
                    omega (arith, s.counter),
                    (
                      omega (arith, s.counter, s.small),
                      (
                        s.nonce_of
                            ∙ ap (λ (c : ℕ). framed_nonce pod.nonce_gen.salt8 c pod.nonce_gen.tail8)
                                (sym s.counter),
                        subst (λ (c : ℕ). IsAscending pod.nonce_gen (some (suc c)) fs)
                            (sym s.counter) (after_next pod.nonce_gen k fs a),
                      ),
                    ),
                  );
          })
  ]

  emit_payload-Moves :
      (pod : Pod) (payload : FactPayload F)
      → Moves pod (emit_payload floats postcard cipher n pod payload)
  unfolding emit_payload
  emit_payload-Moves pod payload =
      elim (Outcome-cases (payload_fact floats postcard cipher n pod payload)) [
        | inr (e, bad) ↦ rw (bad, emit_payload) (record { same_gen = refl; moves = λ fs a. a })
        | inl (fact, e) ↦ rw (e, emit_payload) (emit_fact-Moves pod fact)
      ]

  restore-Moves :
      (pod : Pod) (next : Option ℕ) (fs : List EncryptedFrame)
      → IsAscending pod.nonce_gen (restore_next_frame_counter pod next).1.next_fc fs
      → IsAscending pod.nonce_gen pod.next_fc fs
  unfolding restore_next_frame_counter
  restore-Moves pod next fs a = elim (Outcome-cases (check_restored pod.next_fc next)) [
    | inr (e, bad) ↦ rw (bad, restore_next_frame_counter) at a
    | inl (u, e) ↦
        restored_lower pod.nonce_gen pod.next_fc next fs e (rw (e, restore_next_frame_counter) at a)
  ]

  restore-nonce_gen :
      (pod : Pod) (next : Option ℕ)
      → (restore_next_frame_counter pod next).1.nonce_gen ≡ pod.nonce_gen
  unfolding restore_next_frame_counter
  restore-nonce_gen pod next = elim (Outcome-cases (check_restored pod.next_fc next)) [
    | inr (e, bad) ↦ rw (bad, restore_next_frame_counter) refl
    | inl (u, e) ↦ rw (e, restore_next_frame_counter) refl
  ]

  run-IsAscending :
      (operations : List (Operation F)) (pod : Pod)
      → IsAscending pod.nonce_gen pod.next_fc (run pod operations)
  unfolding run
  run-IsAscending [] pod = tt
  run-IsAscending (send_payload payload ∷ operations) pod =
      let m = emit_payload-Moves pod payload in
      let r = emit_payload floats postcard cipher n pod payload in
      m.moves (run r.1 operations) (
        subst (λ (g : CounterNonce24). IsAscending g r.1.next_fc (run r.1 operations)) m.same_gen
          (run-IsAscending operations r.1))
  run-IsAscending (send_fact fact ∷ operations) pod =
      let m = emit_fact-Moves pod fact in
      let r = emit_fact floats postcard cipher n pod fact in
      m.moves (run r.1 operations) (
        subst (λ (g : CounterNonce24). IsAscending g r.1.next_fc (run r.1 operations)) m.same_gen
          (run-IsAscending operations r.1))
  run-IsAscending (restore next ∷ operations) pod =
      let q = (restore_next_frame_counter pod next).1 in
      restore-Moves pod next (run q operations) (
        subst (λ (g : CounterNonce24). IsAscending g q.next_fc (run q operations))
          (restore-nonce_gen pod next) (run-IsAscending operations q))

  -- Whatever a pod with a salt of 8 bytes is asked to do, in whatever order, payloads and facts to
  -- emit and counters to restore, the frames that it emits have ascending 32-bit counters, from its
  -- next counter on, each under the framed nonce of its counter, and no two of them have the same
  -- nonce.
  pub run_fresh :
      (pod : Pod) (operations : List (Operation F))
      → length pod.nonce_gen.salt8 ≡ 8
      → IsAscending pod.nonce_gen pod.next_fc (run pod operations)
        × AreDistinct (run pod operations)
  run_fresh pod operations salt = (
    run-IsAscending operations pod,
    ascending-AreDistinct pod.nonce_gen pod.next_fc (run pod operations) salt
        (run-IsAscending operations pod),
  )
