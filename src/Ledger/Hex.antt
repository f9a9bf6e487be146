-- ===== src/Ledger/Hex.antt =====
-- crates/trackone-ledger/src/lib.rs: lowercase hex texts of byte strings.
use trackone.Prelude.{
  ℕ, suc, ◌+◌, ◌-◌, ◌/◌, ◌%◌, Bool, ◌&&◌, ◌||◌, [], ◌∷◌, length, ltb, leb, ◌==◌, if◌then◌else◌,
}
use trackone.Prelude.Outcome.{Outcome, done, failed, ◌>>=◌}
use trackone.Ledger.Hash.{Bytes, Hash}

-- `HEX[n]`, for `n` below 16.
unfoldable pub hex_digit : ℕ → ℕ
hex_digit n = if ltb n 10 then b'0' + n else b'a' + (n - 10)

unfoldable pub hex_lower : Bytes → Bytes
unfolding hex_digit
hex_lower [] = []
hex_lower (b ∷ bs) = hex_digit (b / 16) ∷ hex_digit (b % 16) ∷ hex_lower bs

unfoldable pub sha256_hex : (Bytes → Hash) → Bytes → Bytes
unfolding hex_lower
sha256_hex sha256 message = hex_lower (sha256 message)

-- The variants of `Error` that `normalize_hex64` returns.
pub data HexError : Type 0 where
  invalid_hex_length : ℕ → ℕ → HexError
  invalid_hex_character : ℕ → ℕ → HexError

-- A byte that `normalize_hex64` takes as it is.
unfoldable pub is_lower_hex : ℕ → Bool
is_lower_hex b = leb b'0' b && leb b b'9' || leb b'a' b && leb b b'f'

unfoldable pub is_upper_hex : ℕ → Bool
is_upper_hex b = leb b'A' b && leb b b'F'

-- The loop, from the byte at `index` on.
unfoldable pub normalize_from : ℕ → Bytes → Outcome HexError Bytes
unfolding is_lower_hex is_upper_hex
normalize_from index [] = done []
normalize_from index (b ∷ bs) = do
  normalized ←
      if is_lower_hex b
      then done b
      else if is_upper_hex b
      then done (b + 32)
      else failed (invalid_hex_character index b)
  rest ← normalize_from (suc index) bs
  done (normalized ∷ rest)

unfoldable pub normalize_hex64 : Bytes → Outcome HexError Bytes
unfolding normalize_from
normalize_hex64 value =
    if length value == 64
    then normalize_from 0 value
    else failed (invalid_hex_length 64 (length value))
