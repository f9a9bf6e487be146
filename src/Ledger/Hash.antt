-- ===== src/Ledger/Hash.antt =====
-- Byte strings and digests. SHA-256 comes from the crate `sha2`, which is not in the repository:
-- every definition that hashes takes it as a function from bytes to bytes.
use trackone.Prelude.{ℕ, List}

abbrev pub Bytes : Type 0
Bytes = List ℕ

-- `[u8; 32]`.
abbrev pub Hash : Type 0
Hash = Bytes
