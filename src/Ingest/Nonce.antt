-- ===== src/Ingest/Nonce.antt =====
-- crates/trackone-ingest/src/nonce.rs: the framed nonce and the check of its prefix.
pub mod Prefix
use trackone.Prelude.{
  ℕ, ◌≡◌, Bool, true, false, not, Option, none, some, List, ◌++◌, ◌==◌, length, take, drop,
  if◌then◌else◌,
}
use trackone.Prelude.Bytes.{to_be_bytes, from_be_bytes}
use trackone.Prelude.Text.{bytes_eq}
use trackone.Prelude.Outcome.{Outcome, done, failed}

pub data FramedNonceError : Type 0 where
  wrong_nonce_length wrong_salt8_length salt_mismatch counter_mismatch : FramedNonceError

abbrev pub aead_nonce_len : ℕ
aead_nonce_len = 24

-- The three writes into a zeroed array of 24 bytes, for arrays of 8 bytes.
unfoldable pub framed_nonce : List ℕ → ℕ → List ℕ → List ℕ
framed_nonce salt8 fc tail8 = salt8 ++ (to_be_bytes 8 fc ++ tail8)

unfoldable pub validate_nonce_prefix : List ℕ → List ℕ → ℕ → Outcome FramedNonceError (Unit {0})
validate_nonce_prefix nonce salt8 fc =
    if not (length nonce == aead_nonce_len)
    then failed wrong_nonce_length
    else if not (length salt8 == 8)
    then failed wrong_salt8_length
    else if not (bytes_eq (take 8 nonce) salt8)
    then failed salt_mismatch
    else if not (from_be_bytes (take 8 (drop 8 nonce)) == fc)
    then failed counter_mismatch
    else done tt
