-- ===== src/Ledger/Vtl/Merkle/Sorted.antt =====
-- merkle.rs: the order of records and of leaf hashes.
use mathlib.Core.List.{Perm, Permᴰ}
use mathlib.Core.List.Perm
use mathlib.Core.Logic.{∥∥₁_elim}
use mathlib.Core.Path.{ap₂}
use native.Mathlib.Decide.{ℕ_discrete}
use trackone.Prelude.{
  ◌≡◌, refl, ap, ◌∙◌, arith, List, [], ◌∷◌, map, inl, inr, true, false, Bool-cases,
}
use trackone.Ledger.Hash.{Bytes, Hash}
use trackone.Ledger.Vtl.Merkle.{
  bytes_le, insert_sorted, sort, mth, merkle_root_from_leaf_hashes, merkle_root_from_records,
  prefixed_hash,
}

bytes_le_total : (a b : Bytes) → bytes_le a b ≡ false → bytes_le b a ≡ true
unfolding bytes_le
bytes_le_total [] b h = cc
bytes_le_total (x ∷ xs) [] h = refl
bytes_le_total (x ∷ xs) (y ∷ ys) h = ground (arith, bytes_le_total xs ys)

bytes_le_antisym : (a b : Bytes) → bytes_le a b ≡ true → bytes_le b a ≡ true → a ≡ b
unfolding bytes_le
bytes_le_antisym [] [] h k = refl
bytes_le_antisym [] (y ∷ ys) h k = cc
bytes_le_antisym (x ∷ xs) [] h k = cc
bytes_le_antisym (x ∷ xs) (y ∷ ys) h k = ground (arith, bytes_le_antisym xs ys)

bytes_le_trans : (a b c : Bytes) → bytes_le a b ≡ true → bytes_le b c ≡ true → bytes_le a c ≡ true
unfolding bytes_le
bytes_le_trans [] b c h k = refl
bytes_le_trans (x ∷ xs) [] c h k = cc
bytes_le_trans (x ∷ xs) (y ∷ ys) [] h k = cc
bytes_le_trans (x ∷ xs) (y ∷ ys) (z ∷ zs) h k = ground (arith, bytes_le_trans xs ys zs)

-- Two insertions commute.
insert_sorted_comm :
    (a b : Bytes) (xs : List Bytes)
    → insert_sorted a (insert_sorted b xs) ≡ insert_sorted b (insert_sorted a xs)
unfolding insert_sorted
insert_sorted_comm a b [] =
    ground (arith, bytes_le_total a b, bytes_le_total b a, bytes_le_antisym a b)
insert_sorted_comm a b (x ∷ xs) = ground (
  arith,
  bytes_le_total a b,
  bytes_le_total b a,
  bytes_le_antisym a b,
  bytes_le_trans a b x,
  bytes_le_trans b a x,
  bytes_le_total a x,
  bytes_le_total b x,
  bytes_le_trans b x a,
  bytes_le_trans a x b,
  insert_sorted_comm a b xs,
)

sort-Permᴰ : {xs ys : List Bytes} → Permᴰ xs ys → sort xs ≡ sort ys
unfolding sort
sort-Permᴰ Permᴰ.nil = refl
sort-Permᴰ (Permᴰ.cons e p) = ap₂ insert_sorted e (sort-Permᴰ p)
sort-Permᴰ (Permᴰ.swap {a} {b} {l = l} e f) =
    insert_sorted_comm a b (sort l) ∙ ap₂ insert_sorted f (ap (λ t. insert_sorted t (sort l)) e)
sort-Permᴰ (Permᴰ.trans p q) = sort-Permᴰ p ∙ sort-Permᴰ q

hashes_set : IsSet (List Bytes)
hashes_set = hlevel ℕ_discrete

pub sort-Perm : {xs ys : List Bytes} → Perm xs ys → sort xs ≡ sort ys
sort-Perm p = ∥∥₁_elim p (hashes_set _ _) sort-Permᴰ

insert_sorted-perm : (x : Bytes) (xs : List Bytes) → Perm (insert_sorted x xs) (x ∷ xs)
unfolding insert_sorted
insert_sorted-perm x [] = Perm.refl (x ∷ [])
insert_sorted-perm x (y ∷ ys) = elim (Bool-cases (bytes_le x y)) [
  | inl first ↦ rw first (Perm.refl (x ∷ y ∷ ys))
  | inr later ↦ rw later (Perm.trans (Perm.cons y (insert_sorted-perm x ys)) (Perm.swap x y ys))
]

pub sort-perm : (xs : List Bytes) → Perm (sort xs) xs
unfolding sort
sort-perm [] = Perm.refl []
sort-perm (x ∷ xs) = Perm.trans (insert_sorted-perm x (sort xs)) (Perm.cons x (sort-perm xs))

-- Each element is at most the next one.
abbrev pub IsAtMost : Bytes → List Bytes → Type 0
IsAtMost x [] = Unit {0}
IsAtMost x (y ∷ ys) = bytes_le x y ≡ true

abbrev pub IsSorted : List Bytes → Type 0
IsSorted [] = Unit {0}
IsSorted (x ∷ xs) = IsAtMost x xs × IsSorted xs

IsAtMost-insert_sorted :
    (x y : Bytes) (ys : List Bytes)
    → bytes_le y x ≡ true
    → IsAtMost y ys
    → IsAtMost y (insert_sorted x ys)
unfolding insert_sorted
IsAtMost-insert_sorted x y [] h k = h
IsAtMost-insert_sorted x y (z ∷ zs) h k = ground arith

insert_sorted-IsSorted : (x : Bytes) (xs : List Bytes) → IsSorted xs → IsSorted (insert_sorted x xs)
unfolding insert_sorted
insert_sorted-IsSorted x [] h = (tt, tt)
insert_sorted-IsSorted x (y ∷ ys) h = elim (Bool-cases (bytes_le x y)) [
  | inl first ↦ rw first (first, h)
  | inr later ↦ rw later (
    IsAtMost-insert_sorted x y ys (bytes_le_total x y later) h.0,
    insert_sorted-IsSorted x ys h.1,
  )
]

pub sort-IsSorted : (xs : List Bytes) → IsSorted (sort xs)
unfolding sort
sort-IsSorted [] = tt
sort-IsSorted (x ∷ xs) = insert_sorted-IsSorted x (sort xs) (sort-IsSorted xs)

module _ (sha256 : Bytes → Hash) where
  -- Records in any other order have the same root and the same leaf hashes.
  pub merkle_root_from_records-perm :
      {records others : List Bytes}
      → Perm records others
      → merkle_root_from_records sha256 records ≡ merkle_root_from_records sha256 others
  unfolding merkle_root_from_records
  merkle_root_from_records-perm p =
      ap (λ (hashes : List Hash). record { root = mth sha256 hashes; leaf_hashes = hashes })
        (sort-Perm (Perm.map (prefixed_hash sha256 0) p))

  -- The leaf hashes are the domain-separated hashes of the records, each as often as it occurs, in
  -- ascending order, and the root is the tree hash over them.
  pub merkle_root_from_records_leaves :
      (records : List Bytes)
      → let result = merkle_root_from_records sha256 records in
        Perm result.leaf_hashes (map (λ r. sha256 (0 ∷ r)) records)
        × IsSorted result.leaf_hashes
        × (result.root ≡ merkle_root_from_leaf_hashes sha256 result.leaf_hashes)
  unfolding merkle_root_from_records merkle_root_from_leaf_hashes prefixed_hash
  merkle_root_from_records_leaves records =
      (sort-perm _, sort-IsSorted (map (prefixed_hash sha256 0) records), refl)
