-- ===== src/Ledger/Vtl/Merkle/Compose.antt =====
-- Batch subtrees and the segment root composed of them.
use native.Mathlib.Nat.{le-div_iff_mul-le}
use native.Mathlib.Decide.{dec_le}
use trackone.Prelude.{
  ℕ, zero, suc, ◌+◌, ◌-◌, ◌*◌, ◌/◌, ◌^◌, ◌≤◌, ◌<◌, ◌≡◌, refl, ap, ◌∙◌, arith, List, [], ◌∷◌, length,
  take, drop, length-take, length-drop, length-map, some, map, le→leb, lt→not_leb, ne→not_==, eq→==,
}
use trackone.Prelude.Words.{pow-pos}
use trackone.Ledger.Hash.{Bytes, Hash}
use trackone.Ledger.Vtl.Policy.{passed, validate_batch_record_limit}
use trackone.Ledger.Vtl.Policy.Limits.{valid_limit}
use trackone.Ledger.Vtl.Merkle.{
  split_size, node, mth, chunks, compose_fuel, compose_batch_range, compose_batch_roots,
  merkle_root_from_leaf_hashes, batch_roots_from_leaf_hashes, get_front, get_back,
}
use trackone.Ledger.Vtl.Merkle.Split.{split_halves, split_size_of_limit}
use trackone.Ledger.Vtl.Merkle.Chunks.{chunks_one, take-chunks, drop-chunks, length-chunks}
use trackone.Ledger.Vtl.Merkle.Roots.{mth_split}

take-map {ℓ κ} :
    {A : Type ℓ} {B : Type κ} (f : A → B) (k : ℕ) (xs : List A)
    → take k (map f xs) ≡ map f (take k xs)
take-map f zero xs = refl
take-map f (suc k) [] = refl
take-map f (suc k) (x ∷ xs) = ap (◌∷◌ (f x)) (take-map f k xs)

drop-map {ℓ κ} :
    {A : Type ℓ} {B : Type κ} (f : A → B) (k : ℕ) (xs : List A)
    → drop k (map f xs) ≡ map f (drop k xs)
drop-map f zero xs = refl
drop-map f (suc k) [] = refl
drop-map f (suc k) (x ∷ xs) = drop-map f k xs

get_front-some :
    (k : ℕ) (roots : List Hash) → k ≤ length roots → get_front k roots ≡ some (take k roots)
get_front-some k roots h = ground arith

get_back-some :
    (k : ℕ) (roots : List Hash) → k ≤ length roots → get_back k roots ≡ some (drop k roots)
get_back-some k roots h = ground arith

module _ (sha256 : Bytes → Hash) where
  abbrev roots_of : ℕ → List Hash → List Hash
  roots_of limit leaves = map (mth sha256) (chunks limit leaves)

  -- The round of `compose_batch_range` that splits, from the results of its two calls.
  compose_step :
      (f : ℕ) (roots : List Hash) (n limit : ℕ) {left right : Hash}
      → limit < n
      → split_size n / limit ≤ length roots
      → compose_fuel sha256 f (take (split_size n / limit) roots) (split_size n) limit ≡ some left
      → compose_fuel sha256 f (drop (split_size n / limit) roots) (n - split_size n) limit
        ≡ some right
      → compose_fuel sha256 (suc f) roots n limit ≡ some (node sha256 left right)
  unfolding compose_fuel
  compose_step f roots n limit more fits l r =
      rw
        (
          lt→not_leb n limit more,
          compose_fuel,
          get_front-some _ roots fits,
          l,
          get_back-some _ roots fits,
          r,
        )
        refl

  compose_small :
      (f : ℕ) (root : Hash) (n limit : ℕ)
      → n ≤ limit
      → compose_fuel sha256 f (root ∷ []) n limit ≡ some root
  unfolding compose_fuel
  compose_small zero root n limit h = rw (le→leb n limit h) refl
  compose_small (suc f) root n limit h = rw (le→leb n limit h, compose_fuel) refl

  one_chunk :
      (f limit : ℕ) (leaves : List Hash)
      → 0 < length leaves
      → length leaves ≤ limit
      → compose_fuel sha256 f (roots_of limit leaves) (length leaves) limit
        ≡ some (mth sha256 leaves)
  one_chunk f limit leaves h fits =
      rw (chunks_one limit leaves h fits)
        (compose_small f (mth sha256 leaves) (length leaves) limit fits)

  compose_chunks :
      (f b : ℕ) (leaves : List Hash)
      → 0 < length leaves
      → length leaves ≤ 2 ^ 64
      → length leaves ≤ 2 ^ f
      → compose_fuel sha256 f (roots_of (2 ^ b) leaves) (length leaves) (2 ^ b)
        ≡ some (mth sha256 leaves)
  compose_chunks zero b leaves h hi hf = one_chunk zero (2 ^ b) leaves h (omega (arith, pow-pos b))
  compose_chunks (suc f) b leaves h hi hf = elim (dec_le (length leaves) (2 ^ b)) [
    | yes fits ↦ one_chunk (suc f) (2 ^ b) leaves h fits
    | no more ↦
        let n : ℕ = length leaves in
        let k : ℕ = split_size n in
        let m : ℕ = k / 2 ^ b in
        let (pos, small, front_f, back_f) = split_halves f n (omega (arith, pow-pos b)) hi hf in
        let whole : k ≡ m * 2 ^ b = split_size_of_limit n b (omega arith) hi in
        let front : length (take k leaves) ≡ k = omega (arith, length-take k leaves) in
        let back : length (drop k leaves) ≡ n - k = length-drop k leaves in
        let enough : m ≤ (n - 1) / 2 ^ b = (le-div_iff_mul-le (pow-pos b)).1 (omega arith) in
        let fits : m ≤ length (roots_of (2 ^ b) leaves) = omega (
          arith,
          length-map (chunks (2 ^ b) leaves) (mth sha256),
          length-chunks (2 ^ b) leaves (pow-pos b) h,
        ) in
        let front_roots : take m (roots_of (2 ^ b) leaves) ≡ roots_of (2 ^ b) (take k leaves) =
          take-map (mth sha256) m (chunks (2 ^ b) leaves)
          ∙ ap (map (mth sha256))
              (rw (← whole) at (take-chunks m (2 ^ b) leaves (pow-pos b) (omega arith))) in
        let back_roots : drop m (roots_of (2 ^ b) leaves) ≡ roots_of (2 ^ b) (drop k leaves) =
          drop-map (mth sha256) m (chunks (2 ^ b) leaves)
          ∙ ap (map (mth sha256))
              (rw (← whole) at (drop-chunks m (2 ^ b) leaves (pow-pos b) (omega arith))) in
        rw (mth_split sha256 leaves (omega (arith, pow-pos b)) hi) (
          compose_step f (roots_of (2 ^ b) leaves) n (2 ^ b) (omega arith) fits
            (rw front_roots (
              rw front at
                (compose_chunks f b (take k leaves) (omega arith) (omega arith) (omega arith))))
            (rw back_roots (
              rw back at
                (compose_chunks f b (drop k leaves) (omega arith) (omega arith) (omega arith)))))
  ]

  -- For every accepted batch limit and every non-empty leaf list of at most 2^64 - 1 hashes, the
  -- batch roots exist, and composing them under the leaf count and the same limit gives the root of
  -- the whole tree.
  pub compose_batch_roots-batch_roots :
      (limit : ℕ) (leaves : List Hash)
      → validate_batch_record_limit limit ≡ passed
      → 0 < length leaves
      → length leaves < 2 ^ 64
      → (roots : List Hash) × (batch_roots_from_leaf_hashes sha256 leaves limit ≡ some roots)
        × (compose_batch_roots sha256 roots (length leaves) limit
            ≡ some (merkle_root_from_leaf_hashes sha256 leaves))
  unfolding batch_roots_from_leaf_hashes compose_batch_roots merkle_root_from_leaf_hashes
  compose_batch_roots-batch_roots limit leaves valid h hi =
      let (b, _, power) = valid_limit limit valid in
      let pos : 0 < limit = omega (arith, pow-pos b) in
      let count : length (roots_of limit leaves) ≡ 1 + (length leaves - 1) / limit =
        length-map (chunks limit leaves) (mth sha256) ∙ length-chunks limit leaves pos h in
      (
        roots_of limit leaves,
        rw (valid, batch_roots_from_leaf_hashes),
        rw (ne→not_== (length leaves) 0 (omega arith), valid, compose_batch_roots, eq→== _ _ count)
            (unfold compose_batch_range in
              rw power (compose_chunks 64 b leaves h (omega arith) (omega arith))),
      )
