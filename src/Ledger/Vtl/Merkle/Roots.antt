-- ===== src/Ledger/Vtl/Merkle/Roots.antt =====
-- merkle.rs: the recursion of `mth` and its fuel.
use trackone.Prelude.{
  ℕ, zero, suc, ◌-◌, ◌^◌, ◌≤◌, ◌≡◌, refl, ◌∙◌, arith, List, [], ◌∷◌, length, take, drop,
  length-take, length-drop,
}
use mathlib.Core.Path.{ap₂}
use trackone.Ledger.Hash.{Bytes, Hash}
use trackone.Ledger.Vtl.Merkle.{split_size, node, mth_fuel, mth}
use trackone.Ledger.Vtl.Merkle.Split.{split_halves}

module _ (sha256 : Bytes → Hash) where
  -- More levels than the size needs make no difference.
  mth_fuel_enough :
      (f g : ℕ) (leaves : List Hash)
      → length leaves ≤ 2 ^ 64
      → length leaves ≤ 2 ^ f
      → length leaves ≤ 2 ^ g
      → mth_fuel sha256 f leaves ≡ mth_fuel sha256 g leaves
  unfolding mth_fuel
  mth_fuel_enough f g [] h hf hg = refl
  mth_fuel_enough f g (leaf ∷ []) h hf hg = refl
  mth_fuel_enough zero g (leaf ∷ next ∷ leaves) h hf hg = absurd (omega arith)
  mth_fuel_enough (suc f) zero (leaf ∷ next ∷ leaves) h hf hg = absurd (omega arith)
  mth_fuel_enough (suc f) (suc g) (leaf ∷ next ∷ leaves) h hf hg =
      let all : List Hash = leaf ∷ next ∷ leaves in
      let n : ℕ = length all in
      let k : ℕ = split_size n in
      let (pos, small, front_f, back_f) = split_halves f n (omega arith) h hf in
      let (_, _, front_g, back_g) = split_halves g n (omega arith) h hg in
      let front : length (take k all) ≡ k = omega (arith, length-take k all) in
      let back : length (drop k all) ≡ n - k = length-drop k all in
      ap₂ (node sha256) (mth_fuel_enough f g (take k all) (omega arith) (omega arith) (omega arith))
        (mth_fuel_enough f g (drop k all) (omega arith) (omega arith) (omega arith))

  split_levels :
      (leaves : List Hash)
      → 2 ≤ length leaves
      → mth sha256 leaves
        ≡ node sha256
            (mth_fuel sha256 63 (take (split_size (length leaves)) leaves))
            (mth_fuel sha256 63 (drop (split_size (length leaves)) leaves))
  unfolding mth mth_fuel
  split_levels [] h = absurd (omega arith)
  split_levels (leaf ∷ []) h = absurd (omega arith)
  split_levels (leaf ∷ next ∷ leaves) h = refl

  pub mth_split :
      (leaves : List Hash)
      → 2 ≤ length leaves
      → length leaves ≤ 2 ^ 64
      → mth sha256 leaves
        ≡ node sha256
            (mth sha256 (take (split_size (length leaves)) leaves))
            (mth sha256 (drop (split_size (length leaves)) leaves))
  mth_split leaves lo hi =
      let n : ℕ = length leaves in
      let k : ℕ = split_size n in
      let (pos, small, front_f, back_f) = split_halves 63 n lo hi hi in
      let front : length (take k leaves) ≡ k = omega (arith, length-take k leaves) in
      let back : length (drop k leaves) ≡ n - k = length-drop k leaves in
      split_levels leaves lo
      ∙ ap₂ (node sha256)
          (unfold mth in
            mth_fuel_enough 63 64 (take k leaves) (omega arith) (omega arith) (omega arith))
          (unfold mth in
            mth_fuel_enough 63 64 (drop k leaves) (omega arith) (omega arith) (omega arith))
