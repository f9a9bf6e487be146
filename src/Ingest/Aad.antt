-- ===== src/Ingest/Aad.antt =====
-- crates/trackone-ingest/src/aad.rs: associated data, and the binding of a fact to its frame.
use trackone.Prelude.{ℕ, not, List, [], ◌∷◌, ◌++◌, ◌==◌, get_or, if◌then◌else◌}
use trackone.Prelude.Bytes.{to_be_bytes, from_be_bytes}
use trackone.Prelude.Text.{bytes_eq}
use trackone.Prelude.Outcome.{Outcome, done, failed}
use trackone.Core.Types.{PodId, Fact, FrameCounter}

pub data FramedFactBindingError : Type 0 where
  pod_id_mismatch frame_counter_mismatch : FramedFactBindingError

unfoldable pub legacy_dev_id_from_pod_id : PodId → ℕ
legacy_dev_id_from_pod_id pod_id = from_be_bytes (get_or pod_id 6 0 ∷ get_or pod_id 7 0 ∷ [])

unfoldable pub framed_aad : ℕ → ℕ → ℕ → List ℕ
framed_aad dev_id msg_type flags = to_be_bytes 2 dev_id ++ msg_type ∷ flags ∷ []

unfoldable pub framed_aad_for_pod : PodId → ℕ → ℕ → List ℕ
unfolding framed_aad legacy_dev_id_from_pod_id
framed_aad_for_pod pod_id msg_type flags =
    framed_aad (legacy_dev_id_from_pod_id pod_id) msg_type flags

unfoldable pub validate_fact_binding :
    {F : Type 0} → Fact F → PodId → FrameCounter → Outcome FramedFactBindingError (Unit {0})
validate_fact_binding fact expected_pod_id expected_fc =
    if not (bytes_eq fact.pod_id expected_pod_id)
    then failed pod_id_mismatch
    else if not (fact.fc == expected_fc)
    then failed frame_counter_mismatch
    else done tt
