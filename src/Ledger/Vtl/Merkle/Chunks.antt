-- ===== src/Ledger/Vtl/Merkle/Chunks.antt =====
-- merkle.rs: `slice::chunks` and prefixes of whole pieces.
use native.Mathlib.Nat.{zero-mul, zero-add, suc-add, div-eq-sub-div, div-eq_of_lt}
use trackone.Prelude.{
  ℕ, zero, suc, ◌+◌, ◌-◌, ◌*◌, ◌/◌, ◌≤◌, ◌<◌, ◌≡◌, refl, sym, ap, arith, List, [], ◌∷◌, length,
  take, drop, length-take, length-drop,
}
use native.Mathlib.Decide.{dec_le}
use trackone.Ledger.Vtl.Merkle.{chunks_fuel, chunks}

module _ {ℓ} {A : Type ℓ} where
  pub take_all : (c : ℕ) (xs : List A) → length xs ≤ c → take c xs ≡ xs
  take_all zero [] h = refl
  take_all zero (x ∷ xs) h = absurd (omega arith)
  take_all (suc c) [] h = refl
  take_all (suc c) (x ∷ xs) h = ap (◌∷◌ x) (take_all c xs (omega arith))

  drop_all : (c : ℕ) (xs : List A) → length xs ≤ c → drop c xs ≡ []
  drop_all zero [] h = refl
  drop_all zero (x ∷ xs) h = absurd (omega arith)
  drop_all (suc c) [] h = refl
  drop_all (suc c) (x ∷ xs) h = drop_all c xs (omega arith)

  take-take : (c j : ℕ) (xs : List A) → take c (take (c + j) xs) ≡ take c xs
  take-take zero j xs = refl
  take-take (suc c) j [] = rw suc-add refl
  take-take (suc c) j (x ∷ xs) = rw suc-add (ap (◌∷◌ x) (take-take c j xs))

  drop-take : (c j : ℕ) (xs : List A) → drop c (take (c + j) xs) ≡ take j (drop c xs)
  drop-take zero j xs = rw zero-add refl
  drop-take (suc c) zero [] = rw suc-add refl
  drop-take (suc c) (suc j) [] = rw suc-add refl
  drop-take (suc c) j (x ∷ xs) = rw suc-add (drop-take c j xs)

  drop-drop : (c j : ℕ) (xs : List A) → drop j (drop c xs) ≡ drop (c + j) xs
  drop-drop zero j xs = rw zero-add refl
  drop-drop (suc c) zero [] = rw suc-add refl
  drop-drop (suc c) (suc j) [] = rw suc-add refl
  drop-drop (suc c) j (x ∷ xs) = rw suc-add (drop-drop c j xs)

  chunks_fuel_enough :
      (f g c : ℕ) (xs : List A)
      → 0 < c
      → length xs ≤ f
      → length xs ≤ g
      → chunks_fuel f c xs ≡ chunks_fuel g c xs
  unfolding chunks_fuel
  chunks_fuel_enough zero zero c xs p hf hg = refl
  chunks_fuel_enough zero (suc g) c [] p hf hg = refl
  chunks_fuel_enough zero (suc g) c (x ∷ xs) p hf hg = absurd (omega arith)
  chunks_fuel_enough (suc f) zero c [] p hf hg = refl
  chunks_fuel_enough (suc f) zero c (x ∷ xs) p hf hg = absurd (omega arith)
  chunks_fuel_enough (suc f) (suc g) c [] p hf hg = refl
  chunks_fuel_enough (suc f) (suc g) c (x ∷ xs) p hf hg =
      let rest : length (drop c (x ∷ xs)) ≡ length (x ∷ xs) - c = length-drop c (x ∷ xs) in
      ap (◌∷◌ (take c (x ∷ xs)))
        (chunks_fuel_enough f g c (drop c (x ∷ xs)) p (omega arith) (omega arith))

  pub chunks-nil : (c : ℕ) → chunks {A = A} c [] ≡ []
  unfolding chunks
  chunks-nil c = refl

  -- One piece comes off the front.
  pub chunks-step :
      (c : ℕ) (xs : List A) → 0 < c → 0 < length xs → chunks c xs ≡ take c xs ∷ chunks c (drop c xs)
  unfolding chunks
  chunks-step c [] p h = absurd (omega arith)
  chunks-step c (x ∷ xs) p h =
      let rest : length (drop c (x ∷ xs)) ≡ length (x ∷ xs) - c = length-drop c (x ∷ xs) in
      ap (◌∷◌ (take c (x ∷ xs))) (
        chunks_fuel_enough (length xs) (length (drop c (x ∷ xs))) c (drop c (x ∷ xs)) p
          (omega arith) (omega arith))

  pub chunks_one : (c : ℕ) (xs : List A) → 0 < length xs → length xs ≤ c → chunks c xs ≡ xs ∷ []
  chunks_one c xs h fits =
      rw (chunks-step c xs (omega arith) h, take_all c xs fits, drop_all c xs fits, chunks-nil c)
        refl

  pub take-chunks :
      (m c : ℕ) (xs : List A)
      → 0 < c
      → m * c ≤ length xs
      → take m (chunks c xs) ≡ chunks c (take (m * c) xs)
  take-chunks zero c xs p h = rw (zero-mul c) (sym (chunks-nil c))
  take-chunks (suc m) c xs p h =
      let size : suc m * c ≡ c + m * c = omega arith in
      let some_left : 0 < length xs = omega arith in
      let front : length (take (c + m * c) xs) ≡ c + m * c =
        omega (arith, length-take (c + m * c) xs) in
      let rest : length (drop c xs) ≡ length xs - c = length-drop c xs in
      rw
        (
          chunks-step c xs p some_left,
          size,
          chunks-step c (take (c + m * c) xs) p (omega arith),
          take-take c (m * c) xs,
          drop-take c (m * c) xs,
        )
        (ap (◌∷◌ (take c xs)) (take-chunks m c (drop c xs) p (omega arith)))

  pub drop-chunks :
      (m c : ℕ) (xs : List A)
      → 0 < c
      → m * c ≤ length xs
      → drop m (chunks c xs) ≡ chunks c (drop (m * c) xs)
  drop-chunks zero c xs p h = rw (zero-mul c) refl
  drop-chunks (suc m) c xs p h =
      let size : suc m * c ≡ c + m * c = omega arith in
      let some_left : 0 < length xs = omega arith in
      let rest : length (drop c xs) ≡ length xs - c = length-drop c xs in
      rw (chunks-step c xs p some_left, size, ← drop-drop c (m * c) xs)
        (drop-chunks m c (drop c xs) p (omega arith))

  length-chunks_below :
      (f c : ℕ) (xs : List A)
      → 0 < c
      → 0 < length xs
      → length xs ≤ f
      → length (chunks c xs) ≡ 1 + (length xs - 1) / c
  length-chunks_below zero c xs p h hf = absurd (omega arith)
  length-chunks_below (suc f) c xs p h hf = elim (dec_le (length xs) c) [
    | yes fits ↦
        rw (chunks_one c xs h fits)
          (let none_before : (length xs - 1) / c ≡ 0 = div-eq_of_lt (omega arith) in omega arith)
    | no more ↦
        let rest : length (drop c xs) ≡ length xs - c = length-drop c xs in
        let ih : length (chunks c (drop c xs)) ≡ 1 + (length xs - c - 1) / c =
          rw rest at (length-chunks_below f c (drop c xs) p (omega arith) (omega arith)) in
        let shift : length xs - 1 - c ≡ length xs - c - 1 = omega arith in
        rw (chunks-step c xs p h) (
          omega
            (arith, ih, rw shift at (div-eq-sub-div {m = c} {n = length xs - 1} p (omega arith))))
  ]

  -- The number of pieces, as `compose_batch_roots` expects it.
  pub length-chunks :
      (c : ℕ) (xs : List A) → 0 < c → 0 < length xs → length (chunks c xs) ≡ 1 + (length xs - 1) / c
  length-chunks c xs p h = length-chunks_below (length xs) c xs p h (omega arith)
