-- ===== src/Ingest/Replay/Counters.antt =====
-- crates/trackone-ingest/src/replay.rs: the set of counters under insertion and retention.
use trackone.Prelude.{
  ℕ, ◌<◌, ◌≡◌, refl, true, ◌&&◌, ◌||◌, List, [], ◌∷◌, ltb, leb, ◌==◌, ==→eq, ==_refl, Bool-cases,
  inl, inr, lt→ltb, arith,
}
use trackone.Ingest.Replay.{insert, contains, retain_from, collect}

pub contains-insert : (y x : ℕ) (xs : List ℕ) → contains y (insert x xs) ≡ (y == x || contains y xs)
unfolding insert contains
contains-insert y x [] = refl
contains-insert y x (z ∷ zs) = ground (arith, contains-insert y x zs)

pub contains-retain_from :
    (y l : ℕ) (xs : List ℕ) → contains y (retain_from l xs) ≡ (leb l y && contains y xs)
unfolding retain_from contains
contains-retain_from y l [] = ground arith
contains-retain_from y l (z ∷ zs) = ground (arith, contains-retain_from y l zs)

-- What an iteration over a `BTreeSet` of counters yields: each is above the one before it.
unfoldable pub IsAscending : List ℕ → Type 0
unfolding contains
IsAscending [] = Unit {0}
IsAscending (x ∷ xs) = ((y : ℕ) → contains y xs ≡ true → x < y) × IsAscending xs

-- Every counter of `insert x zs` is above a bound of both.
above_insert :
    (b x : ℕ) (zs : List ℕ)
    → b < x
    → ((y : ℕ) → contains y zs ≡ true → b < y)
    → (y : ℕ) → contains y (insert x zs) ≡ true
    → b < y
above_insert b x zs h low y m = elim (Bool-cases (y == x)) [
  | inl e ↦ omega (arith, ==→eq y x e)
  | inr e ↦ low y (ground (arith, contains-insert y x zs))
]

pub insert-IsAscending : (x : ℕ) (xs : List ℕ) → IsAscending xs → IsAscending (insert x xs)
unfolding insert IsAscending contains
insert-IsAscending x [] h = (λ y m. cc m, tt)
insert-IsAscending x (z ∷ zs) (low, h) = elim (Bool-cases (ltb x z)) [
  | inl e ↦ rw e ((λ y m. ground (arith, low y)), (low, h))
  | inr e ↦ elim (Bool-cases (x == z)) [
    | inl same ↦ rw (e, same) (low, h)
    | inr other ↦ rw (e, other) (above_insert z x zs (ground arith) low, insert-IsAscending x zs h)
  ]
]

pub retain_from-IsAscending :
    (l : ℕ) (xs : List ℕ) → IsAscending xs → IsAscending (retain_from l xs)
unfolding retain_from IsAscending
retain_from-IsAscending l [] h = tt
retain_from-IsAscending l (z ∷ zs) (low, h) = elim (Bool-cases (leb l z)) [
  | inl e ↦
      rw e
        (λ y m. low y (ground (arith, contains-retain_from y l zs)), retain_from-IsAscending l zs h)
  | inr e ↦ rw e (retain_from-IsAscending l zs h)
]

insert_least :
    (x : ℕ) (xs : List ℕ) → ((y : ℕ) → contains y xs ≡ true → x < y) → insert x xs ≡ x ∷ xs
unfolding insert contains
insert_least x [] low = refl
insert_least x (z ∷ zs) low =
    let first : ltb x z ≡ true = lt→ltb x z (low z (ground (arith, ==_refl z))) in rw first refl

pub collect-ascending : (xs : List ℕ) → IsAscending xs → collect xs ≡ xs
unfolding collect IsAscending
collect-ascending [] h = refl
collect-ascending (x ∷ xs) (low, h) = rw (collect-ascending xs h) (insert_least x xs low)

pub collect-IsAscending : (xs : List ℕ) → IsAscending (collect xs)
unfolding collect IsAscending
collect-IsAscending [] = tt
collect-IsAscending (x ∷ xs) = insert-IsAscending x (collect xs) (collect-IsAscending xs)

pub contains-collect : (y : ℕ) (xs : List ℕ) → contains y (collect xs) ≡ contains y xs
unfolding collect contains
contains-collect y [] = refl
contains-collect y (x ∷ xs) =
    ground (arith, contains-insert y x (collect xs), contains-collect y xs)

-- A counter that is there is not added again.
pub insert_member : (x : ℕ) (xs : List ℕ) → IsAscending xs → contains x xs ≡ true → insert x xs ≡ xs
unfolding insert contains IsAscending
insert_member x [] h m = cc m
insert_member x (z ∷ zs) (low, h) m =
    ground (arith, low x, ==→eq x z, ==_refl z, insert_member x zs h)
