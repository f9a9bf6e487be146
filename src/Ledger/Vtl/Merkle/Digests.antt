-- ===== src/Ledger/Vtl/Merkle/Digests.antt =====
-- merkle.rs: the sizes of the lists and hashes that it returns, for a hash of 32 bytes.
use trackone.Prelude.{
  ℕ, zero, suc, ◌^◌, ◌≤◌, ◌<◌, ◌≡◌, refl, ap, ◌∙◌, arith, inl, inr, some, List, [], ◌∷◌, map,
  length, drop, length-take, length-drop, length-map, All, All-take, All-drop, Bool-cases,
}
use mathlib.Core.Path.{subst}
use native.Mathlib.Nat.{div-le_self}
use trackone.Prelude.Words.{pow-pos}
use trackone.Ledger.Hash.{Bytes, Hash}
use trackone.Ledger.Vtl.Policy.{validate_batch_record_limit, passed}
use trackone.Ledger.Vtl.Policy.Limits.{valid_limit}
use trackone.Ledger.Vtl.Merkle.{
  bytes_le, insert_sorted, sort, prefixed_hash, node, mth_fuel, mth, chunks_fuel, chunks,
  batch_roots_from_leaf_hashes, merkle_root_from_records,
}
use trackone.Ledger.Vtl.Merkle.Chunks.{length-chunks}

abbrev pub IsDigest : Hash → Type 0
IsDigest h = length h ≡ 32

module _ (P : Bytes → Type 0) where
  All-insert_sorted : (x : Bytes) (xs : List Bytes) → P x → All P xs → All P (insert_sorted x xs)
  unfolding insert_sorted
  All-insert_sorted x [] p h = (p, tt)
  All-insert_sorted x (y ∷ ys) p h = elim (Bool-cases (bytes_le x y)) [
    | inl first ↦ rw first (p, h)
    | inr later ↦ rw later (h.0, All-insert_sorted x ys p h.1)
  ]

  All-sort : (xs : List Bytes) → All P xs → All P (sort xs)
  unfolding sort
  All-sort [] h = tt
  All-sort (x ∷ xs) h = All-insert_sorted x (sort xs) h.0 (All-sort xs h.1)

length-insert_sorted : (x : Bytes) (xs : List Bytes) → length (insert_sorted x xs) ≡ suc (length xs)
unfolding insert_sorted
length-insert_sorted x [] = refl
length-insert_sorted x (y ∷ ys) = elim (Bool-cases (bytes_le x y)) [
  | inl first ↦ rw first refl
  | inr later ↦ rw later (ap suc (length-insert_sorted x ys))
]

length-sort : (xs : List Bytes) → length (sort xs) ≡ length xs
unfolding sort
length-sort [] = refl
length-sort (x ∷ xs) = length-insert_sorted x (sort xs) ∙ ap suc (length-sort xs)

-- Every piece of a list with a property has it.
All-chunks :
    (P : Bytes → Type 0) (f c : ℕ) (xs : List Bytes)
    → All P xs
    → All (λ (ys : List Bytes). All P ys × (length ys ≤ length xs)) (chunks_fuel f c xs)
unfolding chunks_fuel
All-chunks P zero c xs h = tt
All-chunks P (suc f) c [] h = tt
All-chunks P (suc f) c (x ∷ xs) h =
    let whole : List Bytes = x ∷ xs in
    (
      (All-take P c whole h, omega (arith, length-take c whole)),
      widen (chunks_fuel f c (drop c whole)) (omega (arith, length-drop c whole))
          (All-chunks P f c (drop c whole) (All-drop P c whole h)),
    )
  where
    widen :
        (pieces : List (List Bytes)) {m n : ℕ}
        → m ≤ n
        → All (λ (ys : List Bytes). All P ys × (length ys ≤ m)) pieces
        → All (λ (ys : List Bytes). All P ys × (length ys ≤ n)) pieces
    widen [] le a = tt
    widen (p ∷ ps) le a = ((a.0.0, omega (arith, a.0.1)), widen ps le a.1)

module _ (sha256 : Bytes → Hash) (digests : (message : Bytes) → length (sha256 message) ≡ 32) where
  mth_fuel-IsDigest :
      (f : ℕ) (leaves : List Hash)
      → length leaves ≤ 2 ^ 64
      → length leaves ≤ 2 ^ f
      → All IsDigest leaves
      → IsDigest (mth_fuel sha256 f leaves)
  unfolding mth_fuel node
  mth_fuel-IsDigest f [] h hf a = digests []
  mth_fuel-IsDigest f (leaf ∷ []) h hf a = a.0
  mth_fuel-IsDigest zero (leaf ∷ next ∷ leaves) h hf a = absurd (omega arith)
  mth_fuel-IsDigest (suc f) (leaf ∷ next ∷ leaves) h hf a = digests _

  mth-IsDigest :
      (leaves : List Hash)
      → length leaves ≤ 2 ^ 64
      → All IsDigest leaves
      → IsDigest (mth sha256 leaves)
  unfolding mth
  mth-IsDigest leaves h a = mth_fuel-IsDigest 64 leaves h h a

  leaves-IsDigest : (records : List Bytes) → All IsDigest (map (prefixed_hash sha256 0) records)
  unfolding prefixed_hash
  leaves-IsDigest [] = tt
  leaves-IsDigest (r ∷ rs) = (digests _, leaves-IsDigest rs)

  pub record_leaves :
      (records : List Bytes)
      → length records < 2 ^ 64
      → let result = merkle_root_from_records sha256 records in
        (length result.leaf_hashes ≡ length records)
        × All IsDigest result.leaf_hashes
        × IsDigest result.root
  unfolding merkle_root_from_records
  record_leaves records small =
      let raw : List Hash = map (prefixed_hash sha256 0) records in
      let count : length (sort raw) ≡ length records =
        length-sort raw ∙ length-map records (prefixed_hash sha256 0) in
      let all : All IsDigest (sort raw) = All-sort IsDigest raw (leaves-IsDigest records) in
      (count, all, mth-IsDigest (sort raw) (omega arith) all)

  roots-IsDigest :
      (pieces : List (List Hash)) (n : ℕ)
      → n ≤ 2 ^ 64
      → All (λ (ys : List Hash). All IsDigest ys × (length ys ≤ n)) pieces
      → All IsDigest (map (mth sha256) pieces)
  roots-IsDigest [] n small a = tt
  roots-IsDigest (p ∷ ps) n small a =
      (mth-IsDigest p (omega (arith, a.0.1)) a.0.0, roots-IsDigest ps n small a.1)

  pub batch_roots-IsDigest :
      (leaves : List Hash) (limit : ℕ) (roots : List Hash)
      → validate_batch_record_limit limit ≡ passed
      → length leaves < 2 ^ 64
      → All IsDigest leaves
      → batch_roots_from_leaf_hashes sha256 leaves limit ≡ some roots
      → All IsDigest roots × (length roots ≤ length leaves)
  unfolding batch_roots_from_leaf_hashes chunks
  batch_roots-IsDigest leaves limit roots valid small a h =
      let whole : map (mth sha256) (chunks limit leaves) ≡ roots =
        cc (rw (valid, batch_roots_from_leaf_hashes) at h) in
      subst (λ (r : List Hash). All IsDigest r × (length r ≤ length leaves)) whole
        (
          roots-IsDigest (chunks limit leaves) (length leaves) (omega arith)
              (All-chunks IsDigest (length leaves) limit leaves a),
          omega (arith, length-map (chunks limit leaves) (mth sha256), few leaves),
        )
    where
      few : (xs : List Hash) → length (chunks limit xs) ≤ length xs
      few [] = omega arith
      few (x ∷ xs) =
          let (b, _, power) = valid_limit limit valid in
          let pos : 0 < limit = omega (arith, pow-pos b) in
          omega
            (arith, length-chunks limit (x ∷ xs) pos (omega arith), div-le_self (length xs) limit)
