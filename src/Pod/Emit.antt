-- ===== src/Pod/Emit.antt =====
-- crates/trackone-pod-fw/src/pod.rs: the pod's frame counter and the frames it emits.
--
-- The pod's cipher is a parameter, as in Ingest.Frame, and its nonces come from `CounterNonce24`.
pub mod Ascending
pub mod Fresh
use trackone.Prelude.{
  ℕ, ◌+◌, ◌^◌, Bool, true, false, not, Option, none, some, List, [], ◌∷◌, ltb, leb, ◌==◌,
  if◌then◌else◌,
}
use trackone.Prelude.Text.{bytes_eq}
use trackone.Prelude.Outcome.{Outcome, done, failed, ◌>>=◌, ◌>>◌, map_err}
use trackone.Core.Types.{
  PodId, Fact, FactPayload, FloatTests, CoreError, core_invalid_fact, validate_fact,
}
use trackone.Ingest.Frame.{EncryptedFrame, Postcard, Sealing, make_fact, encrypt_fact}
use trackone.Pod.Nonce.{NonceError, CounterNonce24, nonce_for_frame}

pub data PodError : Type 0 where
  core : CoreError → PodError
  nonce : NonceError → PodError
  frame_counter_regression frame_counter_exhausted fact_pod_id_mismatch
        fact_frame_counter_mismatch :
      PodError

pub record Pod : Type 0 where
  pub own_pod_id : PodId
  pub next_fc : Option ℕ
  pub nonce_gen : CounterNonce24

abbrev pub at_counter : Pod → Option ℕ → Pod
at_counter pod next = record {
  own_pod_id = pod.own_pod_id;
  next_fc = next;
  nonce_gen = pod.nonce_gen;
}

-- `Pod::new`.
unfoldable pub new_pod : PodId → CounterNonce24 → Pod
new_pod pod_id nonce_gen = record { own_pod_id = pod_id; next_fc = some 0; nonce_gen = nonce_gen }

-- `u32::checked_add(1)`.
unfoldable pub checked_next : ℕ → Option ℕ
checked_next fc = if leb (2 ^ 32) (fc + 1) then none else some (fc + 1)

-- The match on the two counters.
unfoldable pub check_restored : Option ℕ → Option ℕ → Outcome PodError (Unit {0})
check_restored none none = done tt
check_restored none (some restored) = failed frame_counter_exhausted
check_restored (some current) none = done tt
check_restored (some current) (some restored) =
    if ltb restored current then failed frame_counter_regression else done tt

unfoldable pub restore_next_frame_counter : Pod → Option ℕ → Outcome PodError (Unit {0}) × Pod
unfolding check_restored
restore_next_frame_counter pod next = elim (check_restored pod.next_fc next) [
  | failed e ↦ (failed e, pod)
  | done u ↦ (done tt, at_counter pod next)
]

abbrev pub or_exhausted : Option ℕ → Outcome PodError ℕ
or_exhausted none = failed frame_counter_exhausted
or_exhausted (some fc) = done fc

module _ {F : Type 0} (floats : FloatTests F) (postcard : Postcard F) (cipher : Sealing)
    (n : ℕ) where
  -- `emit_fact` up to the frame, with the counter it takes.
  unfoldable pub sealed_frame : Pod → Fact F → Outcome PodError (EncryptedFrame × ℕ)
  sealed_frame pod fact = do
    next_fc ← or_exhausted pod.next_fc
    if bytes_eq fact.pod_id pod.own_pod_id then done tt else failed fact_pod_id_mismatch
    if fact.fc == next_fc then done tt else failed fact_frame_counter_mismatch
    map_err (λ e. core (core_invalid_fact e)) (validate_fact floats fact)
    nonce_bytes ← map_err nonce (nonce_for_frame pod.nonce_gen fact.fc)
    frame ← map_err core (encrypt_fact floats postcard cipher n nonce_bytes fact)
    done (frame, next_fc)

  unfoldable pub emit_fact : Pod → Fact F → Outcome PodError EncryptedFrame × Pod
  unfolding sealed_frame checked_next
  emit_fact pod fact = elim (sealed_frame pod fact) [
    | failed e ↦ (failed e, pod)
    | done (frame, next_fc) ↦ (done frame, at_counter pod (checked_next next_fc))
  ]

  -- The fact of `emit_payload`.
  unfoldable pub payload_fact : Pod → FactPayload F → Outcome PodError (Fact F)
  payload_fact pod payload = do
    fc ← or_exhausted pod.next_fc
    map_err core (make_fact floats postcard pod.own_pod_id fc payload)

  unfoldable pub emit_payload : Pod → FactPayload F → Outcome PodError EncryptedFrame × Pod
  unfolding payload_fact emit_fact
  emit_payload pod payload = elim (payload_fact pod payload) [
    | failed e ↦ (failed e, pod)
    | done fact ↦ emit_fact pod fact
  ]
