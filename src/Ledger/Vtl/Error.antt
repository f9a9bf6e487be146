-- ===== src/Ledger/Vtl/Error.antt =====
-- The failures of vtl.rs's decoder, as values.
use trackone.Prelude.{String, Bool, true, false, Option, none, some, ◌≡◌, refl, ◌⊎◌, inl, inr}
use trackone.Ledger.Hash.{Bytes}

-- A message is the source's text; an unexpected field is named by its bytes.
pub data SegmentDecodeError : Type 0 where
  malformed non_canonical resource_limit missing_field invalid_field : String → SegmentDecodeError
  unexpected_field : Bytes → SegmentDecodeError
  invariant : String → SegmentDecodeError

-- `DecodeResult`.
pub data Result {ℓ} (A : Type ℓ) : Type ℓ where
  ok : A → Result A
  err : SegmentDecodeError → Result A

-- `?`: what comes next reads the value; a failure is returned at once.
infixl 5 ◌>>=◌
abbrev pub ◌>>=◌ {ℓ κ} : {V : Type ℓ} {W : Type κ} → Result V → (V → Result W) → Result W
err failure >>= next = err failure
ok value >>= next = next value

-- `if !test { return Err(e) }`.
abbrev pub require : Bool → SegmentDecodeError → Result (Unit {0})
require holds failure = elim holds [ true ↦ ok tt | false ↦ err failure ]

-- A check in front of the rest.
infixl 5 ◌>>◌
abbrev pub ◌>>◌ {ℓ} : {V : Type ℓ} → Result (Unit {0}) → Result V → Result V
check >> rest = check >>= λ done. rest

abbrev pub or_err {ℓ} : {A : Type ℓ} → Option A → SegmentDecodeError → Result A
or_err none e = err e
or_err (some a) e = ok a

pub ok-injective {ℓ} : {A : Type ℓ} {a b : A} → ok a ≡ ok b → a ≡ b
ok-injective h = cc

-- Inversion of a step that succeeds.
pub >>=-eq-ok {ℓ κ} :
    {V : Type ℓ} {W : Type κ} (step : Result V) (next : V → Result W) {result : W}
    → (step >>= next) ≡ ok result
    → (value : V) × (step ≡ ok value) × (next value ≡ ok result)
>>=-eq-ok (err failure) next h = cc
>>=-eq-ok (ok value) next h = (value, refl, h)

pub require-eq-ok :
    (b : Bool) (e : SegmentDecodeError) {u : Unit {0}} → require b e ≡ ok u → b ≡ true
require-eq-ok true e h = refl
require-eq-ok false e h = cc

pub Result-cases {ℓ} :
    {A : Type ℓ} (r : Result A) → ((a : A) × (r ≡ ok a)) ⊎ ((e : SegmentDecodeError) × (r ≡ err e))
Result-cases (ok a) = inl (a, refl)
Result-cases (err e) = inr (e, refl)
