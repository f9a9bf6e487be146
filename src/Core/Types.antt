-- ===== src/Core/Types.antt =====
-- crates/trackone-core/src/types.rs: identities, telemetry facts and their validation.
--
-- An `f32` is a parameter, with the tests that the code makes of it.
pub mod Facts
use trackone.Prelude.{
  ℕ, Bool, true, false, ◌&&◌, ◌||◌, not, Option, none, some, List, ◌++◌, ◌==◌, replicate,
  if◌then◌else◌,
}
use trackone.Prelude.Bytes.{to_be_bytes}
use trackone.Prelude.Integers.{ℤ, ltbℤ, ==ℤ}
use trackone.Prelude.Outcome.{Outcome, done, failed}

abbrev pub FrameCounter : Type 0
FrameCounter = ℕ

-- The eight bytes.
abbrev pub PodId : Type 0
PodId = List ℕ

-- `From<u32>`.
unfoldable pub pod_id_of_legacy : ℕ → PodId
pod_id_of_legacy v = replicate 4 0 ++ to_be_bytes 4 v

pub data SampleType : Type 0 where
  ambient_air_temperature ambient_relative_humidity interface_temperature coverage_capacitance
        bio_impedance_magnitude bio_impedance_activity supply_voltage battery_soc flood_contact
        link_quality water_level water_flow_rate water_volume water_pressure water_temperature
        water_electrical_conductivity water_ph water_dissolved_oxygen water_turbidity water_salinity
        water_total_dissolved_solids rainfall rain_intensity wind_speed wind_direction
        barometric_pressure solar_irradiance soil_moisture soil_temperature
        soil_electrical_conductivity vibration_rms vibration_peak shock_acceleration
        inclination_angle displacement strain crack_width acoustic_noise air_quality_pm25
        air_quality_pm10 carbon_dioxide volatile_organic_compounds battery_voltage battery_current
        battery_temperature solar_charge_current enclosure_humidity enclosure_temperature radio_rssi
        radio_snr custom_sample :
      SampleType

-- The tests of `f32` that the code makes.
pub record FloatTests (F : Type 0) : Type 0 where
  pub is_finite : F → Bool
  pub gt : F → F → Bool

pub record EnvFact (F : Type 0) : Type 0 where
  pub sample_type : SampleType
  pub phenomenon_time_start : ℤ
  pub phenomenon_time_end : ℤ
  pub value : Option F
  pub min : Option F
  pub max : Option F
  pub mean : Option F
  pub count : Option ℕ
  pub quality : Option F
  pub sensor_channel : Option ℕ

pub data FactKind : Type 0 where
  env_kind pipeline_kind health_kind custom_kind : FactKind

pub data FactPayload (F : Type 0) : Type 0 where
  env : EnvFact F → FactPayload F
  custom : List ℕ → FactPayload F

pub record Fact (F : Type 0) : Type 0 where
  pub pod_id : PodId
  pub fc : FrameCounter
  pub ingest_time : ℤ
  pub pod_time : Option ℤ
  pub kind : FactKind
  pub payload : FactPayload F

pub data FactValidationError : Type 0 where
  kind_payload_mismatch phenomenon_time_reversed instant_time_range non_finite_instant_value
        instant_has_aggregates instant_count incomplete_summary summary_count
        non_finite_summary_value summary_order non_finite_quality :
      FactValidationError

-- `Error`.
pub data CoreError : Type 0 where
  crypto_error serialize_buffer_too_small serialize_error deserialize_error
        core_ciphertext_too_large :
      CoreError
  core_invalid_fact : FactValidationError → CoreError

-- `Result<(), FactValidationError>`.
abbrev pub Validated : Type 0
Validated = Outcome FactValidationError (Unit {0})

abbrev pub is_some {ℓ} : {A : Type ℓ} → Option A → Bool
is_some none = false
is_some (some a) = true

-- `None | Some(1)`.
one_or_absent : Option ℕ → Bool
one_or_absent none = true
one_or_absent (some n) = n == 1

module _ {F : Type 0} (floats : FloatTests F) where
  -- `is_some_and(|quality| !quality.is_finite())`.
  quality_fails : Option F → Bool
  quality_fails none = false
  quality_fails (some q) = not (floats.is_finite q)

  -- The branch `Some(value)`.
  validate_instant : EnvFact F → F → Validated
  unfolding one_or_absent
  validate_instant e v =
      if not (==ℤ e.phenomenon_time_start e.phenomenon_time_end)
      then failed instant_time_range
      else if not (floats.is_finite v)
      then failed non_finite_instant_value
      else if is_some e.min || is_some e.max || is_some e.mean
      then failed instant_has_aggregates
      else if not (one_or_absent e.count)
      then failed instant_count
      else done tt

  -- The branch `None`, behind `let (Some(min), Some(max), Some(mean), Some(count))`.
  validate_complete : F → F → F → ℕ → Validated
  validate_complete low high middle n =
      if n == 0
      then failed summary_count
      else if not (floats.is_finite low)
          || not (floats.is_finite high)
          || not (floats.is_finite middle)
      then failed non_finite_summary_value
      else if floats.gt low middle || floats.gt middle high
      then failed summary_order
      else done tt

  validate_summary : Option F → Option F → Option F → Option ℕ → Validated
  unfolding validate_complete
  validate_summary (some low) (some high) (some middle) (some n) =
      validate_complete low high middle n
  validate_summary (some low) (some high) (some middle) none = failed incomplete_summary
  validate_summary (some low) (some high) none n = failed incomplete_summary
  validate_summary (some low) none middle n = failed incomplete_summary
  validate_summary none high middle n = failed incomplete_summary

  validate_result : EnvFact F → Option F → Validated
  unfolding validate_instant validate_summary
  validate_result e (some v) = validate_instant e v
  validate_result e none = validate_summary e.min e.max e.mean e.count

  -- `EnvFact::validate`.
  unfoldable pub validate_env : EnvFact F → Validated
  unfolding validate_result quality_fails
  validate_env e =
      if ltbℤ e.phenomenon_time_end e.phenomenon_time_start
      then failed phenomenon_time_reversed
      else if quality_fails e.quality
      then failed non_finite_quality
      else validate_result e e.value

  -- What `instant` and `summary` build before they validate it.
  abbrev pub instant_fact : SampleType → ℤ → F → EnvFact F
  instant_fact sample_type t v = record {
    sample_type = sample_type;
    phenomenon_time_start = t;
    phenomenon_time_end = t;
    value = some v;
    min = none;
    max = none;
    mean = none;
    count = some 1;
    quality = none;
    sensor_channel = none;
  }

  abbrev pub summary_fact : SampleType → ℤ → ℤ → F → F → F → ℕ → EnvFact F
  summary_fact sample_type t0 t1 low high middle n = record {
    sample_type = sample_type;
    phenomenon_time_start = t0;
    phenomenon_time_end = t1;
    value = none;
    min = some low;
    max = some high;
    mean = some middle;
    count = some n;
    quality = none;
    sensor_channel = none;
  }

  validated_as : Validated → EnvFact F → Outcome FactValidationError (EnvFact F)
  validated_as (done u) fact = done fact
  validated_as (failed e) fact = failed e

  -- `EnvFact::instant`.
  unfoldable pub instant : SampleType → ℤ → F → Outcome FactValidationError (EnvFact F)
  unfolding validated_as
  instant sample_type t v =
      validated_as (validate_env (instant_fact sample_type t v)) (instant_fact sample_type t v)

  -- `EnvFact::summary`.
  unfoldable pub summary :
      SampleType → ℤ → ℤ → F → F → F → ℕ → Outcome FactValidationError (EnvFact F)
  unfolding validated_as
  summary sample_type t0 t1 low high middle n =
      validated_as (validate_env (summary_fact sample_type t0 t1 low high middle n))
        (summary_fact sample_type t0 t1 low high middle n)

  validate_payload : FactKind → FactPayload F → Validated
  unfolding validate_env
  validate_payload env_kind (env e) = validate_env e
  validate_payload env_kind (custom bytes) = failed kind_payload_mismatch
  validate_payload pipeline_kind (env e) = failed kind_payload_mismatch
  validate_payload pipeline_kind (custom bytes) = done tt
  validate_payload health_kind (env e) = failed kind_payload_mismatch
  validate_payload health_kind (custom bytes) = done tt
  validate_payload custom_kind (env e) = failed kind_payload_mismatch
  validate_payload custom_kind (custom bytes) = done tt

  -- `Fact::validate`.
  unfoldable pub validate_fact : Fact F → Validated
  unfolding validate_payload
  validate_fact fact = validate_payload fact.kind fact.payload
