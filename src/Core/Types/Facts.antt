-- ===== src/Core/Types/Facts.antt =====
-- crates/trackone-core/src/types.rs: readings that are built and validated.
use trackone.Prelude.{ℕ, ◌<◌, ◌≡◌, ◌⊎◌, true, false, Option, none, some, inl, inr}
use trackone.Prelude.Integers.{ℤ, ltbℤ}
use trackone.Prelude.Outcome.{done, done-injective, Outcome-cases}
use trackone.Core.Types.{
  EnvFact, FloatTests, SampleType, instant_fact, validated_as, instant, validate_env,
}

module _ {F : Type 0} (floats : FloatTests F) where
  pub instant-eq-done :
      (kind : SampleType) (t : ℤ) (v : F) (e : EnvFact F)
      → instant floats kind t v ≡ done e
      → instant_fact floats kind t v ≡ e
  unfolding instant validated_as
  instant-eq-done kind t v e h =
      elim (Outcome-cases (validate_env floats (instant_fact floats kind t v))) [
        | inl (u, good) ↦ done-injective (rw good at h)
        | inr (e', bad) ↦ absurd (cc (rw bad at h))
      ]

  -- The shapes of a reading: a finite value at one time, alone or counted once, or a summary of a
  -- positive number of values over a window, with its finite bounds around its finite mean.
  pub data IsReading (e : EnvFact F) : Type 0 where
    at_instant :
        (v : F)
        → e.phenomenon_time_start ≡ e.phenomenon_time_end
        → e.value ≡ some v
        → floats.is_finite v ≡ true
        → e.min ≡ none
        → e.max ≡ none
        → e.mean ≡ none
        → (e.count ≡ none) ⊎ (e.count ≡ some 1)
        → IsReading e
    over_window :
        (low high middle : F) (n : ℕ)
        → ltbℤ e.phenomenon_time_end e.phenomenon_time_start ≡ false
        → e.value ≡ none
        → e.min ≡ some low
        → e.max ≡ some high
        → e.mean ≡ some middle
        → e.count ≡ some n
        → 0 < n
        → floats.is_finite low ≡ true
        → floats.is_finite high ≡ true
        → floats.is_finite middle ≡ true
        → floats.gt low middle ≡ false
        → floats.gt middle high ≡ false
        → IsReading e

  abbrev pub IsQuality : Option F → Type 0
  IsQuality none = Unit {0}
  IsQuality (some q) = floats.is_finite q ≡ true
