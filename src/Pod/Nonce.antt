-- ===== src/Pod/Nonce.antt =====
-- crates/trackone-pod-fw/src/nonce.rs: the nonce of a frame counter.
use trackone.Prelude.{ℕ, ◌^◌, List, ltb, if◌then◌else◌}
use trackone.Prelude.Outcome.{Outcome, done, failed}
use trackone.Ingest.Nonce.{framed_nonce}

pub data NonceError : Type 0 where
  frame_counter_out_of_range : NonceError

-- `new` and `from_provisioned_salt` set both fields.
pub record CounterNonce24 : Type 0 where
  pub salt8 : List ℕ
  pub tail8 : List ℕ

-- `u32::try_from` and `framed_nonce`.
unfoldable pub nonce_for_frame : CounterNonce24 → ℕ → Outcome NonceError (List ℕ)
nonce_for_frame g fc =
    if ltb fc (2 ^ 32)
    then done (framed_nonce g.salt8 fc g.tail8)
    else failed frame_counter_out_of_range
