-- ===== src/Evidence/Conclusions.antt =====
-- apps/trackone-evidence/src/vtl/result.rs: what a verification has concluded so far.
use trackone.Prelude.{Bool, true, false, ◌||◌, Option, none, List, [], ◌∷◌, String, if◌then◌else◌}
use trackone.Prelude.Text.{codes, bytes_eq}

pub data VerificationScope : Type 0 where
  public_recompute disclosed_batch_recompute anchor_only : VerificationScope

pub data FailureReason : Type 0 where
  commitment_mismatch insufficient_disclosure segment_chain_mismatch channel_failure
        verifier_policy_rejection invalid_canonical_record invalid_segment_artifact
        unsupported_commitment_profile scope_not_exercised :
      FailureReason

pub data ChainStatus : Type 0 where
  epoch validated failed predecessor_not_disclosed : ChainStatus

pub data TsaStatus : Type 0 where
  missing pending_claim failed verified : TsaStatus

-- The set of failures is a list without repetition, the newest in front.
pub record Conclusions : Type 0 where
  pub failures : List FailureReason
  pub chain_status : Option ChainStatus
  pub tsa_status : TsaStatus
  pub tsa_reason : Option String
  pub scope : VerificationScope

unfoldable pub new : VerificationScope → Conclusions
new scope = record {
  failures = [];
  chain_status = none;
  tsa_status = TsaStatus.missing;
  tsa_reason = none;
  scope = scope;
}

abbrev reason_text : FailureReason → String
reason_text commitment_mismatch = "commitment_mismatch"
reason_text insufficient_disclosure = "insufficient_disclosure"
reason_text segment_chain_mismatch = "segment_chain_mismatch"
reason_text channel_failure = "channel_failure"
reason_text verifier_policy_rejection = "verifier_policy_rejection"
reason_text invalid_canonical_record = "invalid_canonical_record"
reason_text invalid_segment_artifact = "invalid_segment_artifact"
reason_text unsupported_commitment_profile = "unsupported_commitment_profile"
reason_text scope_not_exercised = "scope_not_exercised"

-- `BTreeSet::contains`, by the text of the reason.
has_reason : FailureReason → List FailureReason → Bool
has_reason reason [] = false
has_reason reason (r ∷ rs) =
    bytes_eq (codes (reason_text reason)) (codes (reason_text r)) || has_reason reason rs

unfoldable pub fail : FailureReason → Conclusions → Conclusions
unfolding has_reason
fail reason c = record c {
  failures = if has_reason reason c.failures then c.failures else reason ∷ c.failures;
}

pub data Overall : Type 0 where
  failure incomplete success : Overall

abbrev is_pending : TsaStatus → Bool
is_pending TsaStatus.pending_claim = true
is_pending _ = false

unfoldable pub overall : Conclusions → Overall
overall c = elim c.failures [
  | [] ↦ if is_pending c.tsa_status then incomplete else success
  | reason ∷ reasons ↦ failure
]
