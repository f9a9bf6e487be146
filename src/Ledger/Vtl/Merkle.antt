-- ===== src/Ledger/Vtl/Merkle.antt =====
-- crates/trackone-ledger/src/vtl/merkle.rs: the hash-sorted Merkle tree and its batch subtrees.
-- A slice is a list; `usize` is 64 bits wide.
pub mod Split
pub mod Roots
pub mod Tree
pub mod Chunks
pub mod Compose
pub mod Sorted
pub mod Digests
use trackone.Prelude.{
  ℕ, zero, suc, ◌+◌, ◌-◌, ◌*◌, ◌/◌, ◌^◌, ◌≤◌, ◌<◌, ◌≡◌, refl, Bool, true, false, Option, none, some,
  List, [], ◌∷◌, ◌++◌, map, ltb, leb, ◌==◌, if◌then◌else◌, length, take, drop, arith,
}
use trackone.Prelude.Words.{leading_zeros}
use trackone.Ledger.Hash.{Bytes, Hash}
use trackone.Ledger.Vtl.Policy.{Checked, passed, failed, validate_batch_record_limit}

-- `1 << (63 - (n - 1).leading_zeros())`: the largest power of two below `n`, for `n` from 2 on.
unfoldable pub split_size : ℕ → ℕ
unfolding leading_zeros
split_size n = 2 ^ (63 - leading_zeros 64 (n - 1))

-- Rust's order on byte arrays and slices.
unfoldable pub bytes_le : Bytes → Bytes → Bool
bytes_le [] ys = true
bytes_le (x ∷ xs) [] = false
bytes_le (x ∷ xs) (y ∷ ys) =
    let rest = bytes_le xs ys in if ltb x y then true else if x == y then rest else false

unfoldable pub insert_sorted : Bytes → List Bytes → List Bytes
insert_sorted x [] = x ∷ []
insert_sorted x (y ∷ ys) = if bytes_le x y then x ∷ y ∷ ys else y ∷ insert_sorted x ys

-- `sort_unstable`. Equal hashes cannot be told apart, so every sorting algorithm gives this list.
unfoldable pub sort : List Bytes → List Bytes
unfolding insert_sorted bytes_le
sort [] = []
sort (x ∷ xs) = insert_sorted x (sort xs)

-- `slice::chunks`: pieces of `limit` elements, the last one with what is left.
unfoldable pub chunks_fuel {ℓ} : {A : Type ℓ} → ℕ → ℕ → List A → List (List A)
chunks_fuel zero limit xs = []
chunks_fuel (suc fuel) limit [] = []
chunks_fuel (suc fuel) limit (x ∷ xs) =
    take limit (x ∷ xs) ∷ chunks_fuel fuel limit (drop limit (x ∷ xs))

unfoldable pub chunks {ℓ} : {A : Type ℓ} → ℕ → List A → List (List A)
unfolding chunks_fuel
chunks limit xs = chunks_fuel (length xs) limit xs

pub record MerkleResult : Type 0 where
  pub root : Hash
  pub leaf_hashes : List Hash

-- `roots.get(..k)?` and `roots.get(k..)?`.
abbrev pub get_front : ℕ → List Hash → Option (List Hash)
get_front k roots = if leb k (length roots) then some (take k roots) else none

abbrev pub get_back : ℕ → List Hash → Option (List Hash)
get_back k roots = if leb k (length roots) then some (drop k roots) else none

abbrev pub only_root : List Hash → Option Hash
only_root (root ∷ []) = some root
only_root _ = none

infixl 5 ◌>>=◌
abbrev pub ◌>>=◌ : {A B : Type 0} → Option A → (A → Option B) → Option B
none >>= f = none
some a >>= f = f a

module _ (sha256 : Bytes → Hash) where
  unfoldable pub prefixed_hash : ℕ → Bytes → Hash
  prefixed_hash tag message = sha256 (tag ∷ message)

  unfoldable pub node : Hash → Hash → Hash
  node left right = sha256 (1 ∷ (left ++ right))

  -- The recursion halves the size, rounded up to a power of two: 64 levels serve every slice.
  unfoldable pub mth_fuel : ℕ → List Hash → Hash
  unfolding split_size
  mth_fuel fuel [] = sha256 []
  mth_fuel fuel (leaf ∷ []) = leaf
  mth_fuel zero (leaf ∷ next ∷ leaves) = []
  mth_fuel (suc fuel) (leaf ∷ next ∷ leaves) =
      let all = leaf ∷ next ∷ leaves in
      let k = split_size (length all) in
      node (mth_fuel fuel (take k all)) (mth_fuel fuel (drop k all))

  unfoldable pub mth : List Hash → Hash
  unfolding mth_fuel node
  mth leaves = mth_fuel 64 leaves

  unfoldable pub merkle_root_from_leaf_hashes : List Hash → Hash
  unfolding mth
  merkle_root_from_leaf_hashes leaves = mth leaves

  unfoldable pub merkle_root_from_records : List Bytes → MerkleResult
  unfolding mth sort prefixed_hash
  merkle_root_from_records records =
      let leaf_hashes = sort (map (prefixed_hash 0) records) in
      record { root = mth leaf_hashes; leaf_hashes = leaf_hashes }

  unfoldable pub batch_roots_from_leaf_hashes : List Hash → ℕ → Option (List Hash)
  unfolding mth chunks
  batch_roots_from_leaf_hashes leaf_hashes limit = elim (validate_batch_record_limit limit) [
    | failed e ↦ none
    | passed ↦ some (map mth (chunks limit leaf_hashes))
  ]

  unfoldable pub compose_fuel : ℕ → List Hash → ℕ → ℕ → Option Hash
  unfolding split_size node
  compose_fuel zero roots leaf_count limit = if leb leaf_count limit then only_root roots else none
  compose_fuel (suc fuel) roots leaf_count limit = elim (leb leaf_count limit) [
    | true ↦ only_root roots
    | false ↦
        let split = split_size leaf_count in
        do
          front ← get_front (split / limit) roots
          left ← compose_fuel fuel front split limit
          back ← get_back (split / limit) roots
          right ← compose_fuel fuel back (leaf_count - split) limit
          some (node left right)
  ]

  -- 64 levels serve every `u64` count.
  unfoldable pub compose_batch_range : List Hash → ℕ → ℕ → Option Hash
  unfolding compose_fuel
  compose_batch_range roots leaf_count limit = compose_fuel 64 roots leaf_count limit

  unfoldable pub compose_batch_roots : List Hash → ℕ → ℕ → Option Hash
  unfolding compose_batch_range
  compose_batch_roots roots record_count limit =
      if record_count == 0 then none else elim (validate_batch_record_limit limit) [
        | failed e ↦ none
        | passed ↦
            if length roots == 1 + (record_count - 1) / limit
            then compose_batch_range roots record_count limit
            else none
      ]
