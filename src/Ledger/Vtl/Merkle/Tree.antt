-- ===== src/Ledger/Vtl/Merkle/Tree.antt =====
-- merkle.rs: `mth` is the tree hash of RFC 9162.
use trackone.Prelude.{
  ℕ, zero, suc, ◌-◌, ◌^◌, ◌≤◌, ◌<◌, ◌≡◌, arith, List, [], ◌∷◌, ◌++◌, length, take, drop,
  length-take, length-drop,
}
use mathlib.Core.Path.{subst}
use trackone.Ledger.Hash.{Bytes, Hash}
use trackone.Ledger.Vtl.Merkle.{split_size, mth_fuel, node, mth}
use trackone.Ledger.Vtl.Merkle.Split.{split_size_bounds, split_halves}

module _ (sha256 : Bytes → Hash) where
  -- The tree hash of a list of leaf hashes: the hash of no bytes, the one leaf, or the hash of the
  -- byte 1 and the tree hashes of both parts, the first as long as the largest power of two below
  -- the number of the leaves.
  pub data IsTreeHash : List Hash → Hash → Type 0 where
    empty : IsTreeHash [] (sha256 [])
    leaf : (h : Hash) → IsTreeHash (h ∷ []) h
    split :
        {leaves : List Hash} {left right : Hash} (e : ℕ)
        → 2 ^ e < length leaves
        → length leaves ≤ 2 ^ suc e
        → IsTreeHash (take (2 ^ e) leaves) left
        → IsTreeHash (drop (2 ^ e) leaves) right
        → IsTreeHash leaves (sha256 (1 ∷ (left ++ right)))

  mth_fuel-IsTreeHash :
      (f : ℕ) (leaves : List Hash)
      → length leaves ≤ 2 ^ 64
      → length leaves ≤ 2 ^ f
      → IsTreeHash leaves (mth_fuel sha256 f leaves)
  unfolding mth_fuel node
  mth_fuel-IsTreeHash f [] h hf = empty
  mth_fuel-IsTreeHash f (h ∷ []) small hf = leaf h
  mth_fuel-IsTreeHash zero (h ∷ next ∷ leaves) small hf = absurd (omega arith)
  mth_fuel-IsTreeHash (suc f) (h ∷ next ∷ leaves) small hf =
      let all : List Hash = h ∷ next ∷ leaves in
      let k : ℕ = split_size (length all) in
      let (e, power, below, above) = split_size_bounds (length all) (omega arith) small in
      let (pos, under, front_f, back_f) = split_halves f (length all) (omega arith) small hf in
      let front : length (take k all) ≡ k = omega (arith, length-take k all) in
      let back : length (drop k all) ≡ length all - k = length-drop k all in
      split e below above
        (subst (λ (n : ℕ). IsTreeHash (take n all) (mth_fuel sha256 f (take k all))) power
          (mth_fuel-IsTreeHash f (take k all) (omega arith) (omega arith)))
        (subst (λ (n : ℕ). IsTreeHash (drop n all) (mth_fuel sha256 f (drop k all))) power
          (mth_fuel-IsTreeHash f (drop k all) (omega arith) (omega arith)))

  -- The recursion gives the tree hash of RFC 9162 of every list of at most 2^64 leaf hashes, where
  -- two leaves or more are split at the largest power of two below their number. SHA-256 is any
  -- function.
  pub mth-IsTreeHash :
      (leaves : List Hash) → length leaves ≤ 2 ^ 64 → IsTreeHash leaves (mth sha256 leaves)
  unfolding mth
  mth-IsTreeHash leaves small = mth_fuel-IsTreeHash 64 leaves small small
